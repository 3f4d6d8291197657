-- ===== src/Wire/Separate/Prep.antt =====
-- prep_encoder.cpp of src/coev_kafka: the bytes that a packet takes are counted.
use coev.Base.{
  ℕ, zero, suc, ◌+◌, ◌*◌, ◌/◌, ◌^◌, ◌==◌, leb, ltb, ◌||◌, if◌then◌else◌, Bool, true, false,
}
use coev.Base.{List, [], ◌∷◌, Option, none, some, length}
use coev.Base.Int.{ℤ, pos, negsuc, unsigned, suc_ℤ, ltb_ℤ, shr_ℤ, int_of_size}
use coev.Wire.Outcome.{M, Outcome, ok, err, fault, stuck, pure, fail, ◌>>◌, unknown}
use coev.Wire.Field.{PushField, save_offset, reserve_length}
use coev.Wire.Encoder.{Encoder, prep}
use coev.Wire.Encoder.Fields.{adjust}
use coev.Wire.Encoder.Strings.{int16_max, int32_max, minus_one, is_empty}

-- m_flexible, m_length and m_stack. m_length is an int: it is the number here as long as that is below
-- 2 ^ 31 (IsCounted of Agree), while packet_encoder has a size_t.
pub record PrepEncoder : Type 0 where
  pub flexible : ℕ
  pub count : ℕ
  pub stack : List PushField

abbrev pub prep_encoder : PrepEncoder
prep_encoder = record { flexible = 0; count = 0; stack = [] }

abbrev pub PrepPut : Type 0
PrepPut = M PrepEncoder (Unit {0})

-- `if (__is_fixed()) … else if (__is_flexible()) …`
abbrev pub by_version : PrepPut → PrepPut → PrepPut
by_version fixed flexible p = if p.flexible == 0 then fixed p else flexible p

-- `m_length += n`
abbrev pub tally : ℕ → PrepPut
tally n p = ok tt (record p { count = p.count + n })

unfoldable pub varint_len_loop : ℕ → ℤ → ℕ → ℕ
varint_len_loop zero x s = s
varint_len_loop (suc left) x s = elim (ltb_ℤ (pos 0x7f) x || ltb_ℤ x (negsuc 0x3f)) [
  | true ↦ varint_len_loop left (shr_ℤ x 7) (s + 1)
  | false ↦ s + 1
]

-- Ten rounds are enough for 64 bits, here and in uvarint_len.
unfoldable pub varint_len : ℤ → ℕ
varint_len x = varint_len_loop 10 x 0

unfoldable pub uvarint_len_loop : ℕ → ℕ → ℕ → ℕ
uvarint_len_loop zero x s = s
uvarint_len_loop (suc left) x s = elim (leb 0x80 x) [
  | true ↦ uvarint_len_loop left (x / 2 ^ 7) (s + 1)
  | false ↦ s + 1
]

unfoldable pub uvarint_len : ℕ → ℕ
uvarint_len x = if x == 0 then 1 else uvarint_len_loop 10 x 0

abbrev pub put_int8 : ℤ → PrepPut
put_int8 z = tally 1

abbrev pub put_int16 : ℤ → PrepPut
put_int16 z = tally 2

abbrev pub put_int32 : ℤ → PrepPut
put_int32 z = tally 4

abbrev pub put_int64 : ℤ → PrepPut
put_int64 z = tally 8

unfoldable pub put_variant : ℤ → PrepPut
put_variant x = tally (varint_len x)

unfoldable pub put_uvarint : ℕ → PrepPut
put_uvarint x = tally (uvarint_len x)

abbrev pub put_float64 : ℕ → PrepPut
put_float64 bits = tally 8

abbrev pub put_bool : Bool → PrepPut
put_bool b = tally 1

abbrev pub put_kerror : ℤ → PrepPut
put_kerror code = tally 2

abbrev pub put_duration_ms : ℤ → PrepPut
put_duration_ms ms = tally 4

unfoldable pub put_array_length : ℤ → PrepPut
put_array_length n =
    by_version (if ltb_ℤ (pos int32_max) n then fail unknown else tally 4)
      (put_uvarint (unsigned 64 (suc_ℤ n)))

unfoldable pub put_raw_bytes : List ℕ → PrepPut
put_raw_bytes s = if ltb int32_max (length s) then fail unknown else tally (length s)

-- Behind the length of bytes in the fixed version.
abbrev pub count_bytes : List ℕ → PrepPut
count_bytes s =
    if is_empty s
    then pure tt
    else if ltb int32_max (length s)
    then fail unknown
    else put_raw_bytes s

unfoldable pub put_bytes : List ℕ → PrepPut
put_bytes s =
    by_version (do tally 4; count_bytes s) (do put_uvarint (length s + 1); put_raw_bytes s)

unfoldable pub put_variant_bytes : List ℕ → PrepPut
put_variant_bytes s =
    if is_empty s then put_variant minus_one else do put_variant (pos (length s)); put_raw_bytes s

unfoldable pub put_string : List ℕ → PrepPut
put_string s =
    by_version (if ltb int16_max (length s) then fail unknown else do tally 2; tally (length s))
      (do put_array_length (int_of_size (length s)); put_raw_bytes s)

unfoldable pub put_nullable_string : List ℕ → PrepPut
put_nullable_string s =
    by_version (if is_empty s then tally 2 else put_string s)
      (if is_empty s then put_uvarint 0 else put_string s)

abbrev pub put_strings : List (List ℕ) → PrepPut
put_strings [] = pure tt
put_strings (s ∷ xs) = do put_string s; put_strings xs

unfoldable pub put_string_array : List (List ℕ) → PrepPut
put_string_array xs =
    by_version (do put_array_length (int_of_size (length xs)); put_strings xs)
      (do put_array_length (int_of_size (length xs)); tally (4 * length xs))

-- The fixed version has an empty branch.
unfoldable pub put_int32_array : List ℤ → PrepPut
put_int32_array xs =
    by_version (pure tt) (
      if length xs == 0
      then fail unknown
      else do put_uvarint (length xs + 1); tally (4 * length xs))

unfoldable pub put_nullable_int32_array : List ℤ → PrepPut
put_nullable_int32_array xs =
    by_version
      (if length xs == 0
        then tally 4
        else do put_array_length (int_of_size (length xs)); tally (4 * length xs))
      (if length xs == 0
        then put_uvarint 0
        else do put_uvarint (length xs + 1); tally (4 * length xs))

unfoldable pub put_int64_array : List ℤ → PrepPut
put_int64_array xs = do put_array_length (int_of_size (length xs)); tally (8 * length xs)

unfoldable pub put_empty_tagged_field_array : PrepPut
put_empty_tagged_field_array = by_version (pure tt) (put_uvarint 0)

-- `m_length += in->reserve_length(); m_stack.push_back(in)`
unfoldable pub reserve : PushField → Option ℕ → PrepPut
reserve f none p = stuck
reserve f (some n) p = ok tt (record p { count = p.count + n; stack = f ∷ p.stack })

unfoldable pub push : PushField → PrepPut
push f p = reserve (save_offset p.count f) (reserve_length f) p

-- The same object as the encoder in PREP.
abbrev pub as_packet : PrepEncoder → Encoder
as_packet p = record {
  kind = prep;
  flexible = p.flexible;
  count = p.count;
  raw = [];
  stack = p.stack;
}

-- adjust_length sees m_length only.
abbrev pub counted :
    PrepEncoder → Outcome Encoder PushField → Outcome PrepEncoder (Option PushField)
counted p (ok f e) = ok (some f) (record p { count = e.count })
counted p (err c e) = err c p
counted p fault = fault
counted p stuck = stuck

unfoldable pub pop : M PrepEncoder (Option PushField)
pop p = elim p.stack [
  | [] ↦ err unknown p
  | top ∷ rest ↦ let q = record p { stack = rest } in counted q (adjust top (as_packet q))
]
