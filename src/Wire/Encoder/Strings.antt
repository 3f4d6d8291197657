-- ===== src/Wire/Encoder/Strings.antt =====
-- Lengths, byte strings and tags of packet_encoder.cpp.
pub mod Bytes
use coev.Base.{ℕ, suc, ◌+◌, ◌-◌, ◌%◌, ◌^◌, ltb, ◌==◌, if◌then◌else◌, List, [], ◌∷◌, Bool, length}
use coev.Base.Int.{ℤ, pos, negsuc, unsigned, signed, suc_ℤ, ltb_ℤ, int_of_size}
use coev.Wire.Outcome.{Outcome, pure, fail, ◌>>=◌, ◌>>◌, unknown}
use coev.Wire.Encoder.{Encoder, Put, by_kind, by_version, tally, emit, put_int16, put_int32}
use coev.Wire.Encoder.Varint.{put_uvarint, put_variant}

abbrev pub int16_max : ℕ
int16_max = 2 ^ 15 - 1

abbrev pub int32_max : ℕ
int32_max = 2 ^ 31 - 1

abbrev pub minus_one : ℤ
minus_one = negsuc 0

abbrev pub count_array_length : ℤ → Put
count_array_length n = if ltb_ℤ (pos int32_max) n then fail unknown else tally 4

unfoldable pub put_array_length : ℤ → Put
put_array_length n =
    by_kind (by_version (count_array_length n) (put_uvarint (unsigned 64 (suc_ℤ n))))
      (by_version (put_int32 n) (put_uvarint (unsigned 64 (suc_ℤ n))))

unfoldable pub put_raw_bytes : List ℕ → Put
put_raw_bytes s =
    by_kind (if ltb int32_max (length s) then fail unknown else tally (length s)) (emit s)

abbrev pub is_empty : List ℕ → Bool
is_empty s = length s == 0

abbrev pub count_bytes : List ℕ → Put
count_bytes s = do
  tally 4
  if is_empty s then pure tt else if ltb int32_max (length s) then fail unknown else put_raw_bytes s

abbrev pub store_bytes : List ℕ → Put
store_bytes s =
    if is_empty s
    then put_int32 minus_one
    else do put_int32 (int_of_size (length s)); put_raw_bytes s

abbrev pub put_sized : List ℕ → Put
put_sized s = do put_uvarint (length s + 1); put_raw_bytes s

unfoldable pub put_bytes : List ℕ → Put
put_bytes s =
    by_kind (by_version (count_bytes s) (put_sized s)) (by_version (store_bytes s) (put_sized s))

unfoldable pub put_variant_bytes : List ℕ → Put
put_variant_bytes s =
    if is_empty s then put_variant minus_one else do put_variant (pos (length s)); put_raw_bytes s

abbrev pub count_string : List ℕ → Put
count_string s = if ltb int16_max (length s) then fail unknown else do tally 2; tally (length s)

abbrev pub store_string : List ℕ → Put
store_string s = do put_int16 (signed 16 (length s % 2 ^ 16)); emit s

abbrev pub put_behind_length : List ℕ → Put
put_behind_length s = do put_array_length (int_of_size (length s)); put_raw_bytes s

unfoldable pub put_string : List ℕ → Put
put_string s =
    by_kind (by_version (count_string s) (put_behind_length s))
      (by_version (store_string s) (put_behind_length s))

unfoldable pub put_nullable_string : List ℕ → Put
put_nullable_string s =
    by_kind
      (by_version (if is_empty s then tally 2 else put_string s)
        (if is_empty s then put_uvarint 0 else put_string s))
      (by_version (if is_empty s then put_int16 minus_one else put_string s)
        (if is_empty s then put_uvarint 0 else put_string s))

unfoldable pub put_empty_tagged_field_array : Put
put_empty_tagged_field_array =
    by_kind (by_version (pure tt) (put_uvarint 0)) (by_version (pure tt) (put_uvarint 0))
