-- ===== src/Wire/Encoder/Strings/Bytes.antt =====
-- What the puts of byte strings add to a packet.
use coev.Base.{ℕ, zero, suc, ◌+◌, ◌-◌, ◌%◌, ◌^◌, ◌<◌, ◌≡◌, refl, ap, arith}
use coev.Base.{List, [], ◌∷◌, ◌++◌, length, le→ltb_false, false}
use coev.Base.Int.{pos, unsigned, signed, suc_ℤ, int_of_size}
use coev.Wire.Outcome.{pure}
use coev.Wire.Format.{FitsString, big_endian, uvarint, varint, length16, length32, null16, null32}
use coev.Wire.Format.{string_bytes, nullable_bytes, bytes_bytes, variant_bytes}
use coev.Wire.Encoder.{tally, emit, put_int16, put_int32}
use coev.Wire.Encoder.View.{
  Counts, Stores, Writes, Writes-of_eq, Writes-then, Stores-then, Counts-then, Writes-kinds,
}
use coev.Wire.Encoder.View.{
  Writes-nothing, Counts-fixed, Counts-flexible, Stores-fixed, Stores-flexible, Counts-tallies,
}
use coev.Wire.Encoder.Fixed.{Writes-by_kind, Writes-put_int16, Writes-put_int32}
use coev.Wire.Encoder.Varint.{put_uvarint, put_variant, varint_len}
use coev.Wire.Encoder.Varint.Counts.{Writes-put_uvarint, Writes-put_variant, varint_len_negative}
use coev.Wire.Encoder.Strings.{
  count_array_length, put_array_length, put_raw_bytes, count_bytes, store_bytes, put_sized,
  put_bytes,
}
use coev.Wire.Encoder.Strings.{
  put_variant_bytes, count_string, store_string, put_behind_length, put_string, put_nullable_string,
}
use coev.Wire.Encoder.Strings.{
  put_empty_tagged_field_array, int16_max, int32_max, minus_one, is_empty,
}

signed_size : (n : ℕ) → n < 2 ^ 31 → int_of_size n ≡ pos n
signed_size n h = ground arith

pub Writes-put_length :
    (version n : ℕ)
    → n < 2 ^ 31 - 1
    → Writes version (put_array_length (int_of_size n)) (length32 version n)
unfolding put_array_length
Writes-put_length zero n h = rw (signed_size n (omega arith)) (
    Writes-kinds 0 _ _ _
      (Counts-fixed (count_array_length (pos n)) (put_uvarint (unsigned 64 (suc_ℤ (pos n))))
        (length32 0 n) (λ e k f. ground arith))
      (Stores-fixed (put_int32 (pos n)) (put_uvarint (unsigned 64 (suc_ℤ (pos n)))) (length32 0 n)
        (Writes-of_eq 0 (put_int32 (pos n)) (ap (big_endian 4) size)
          (Writes-put_int32 0 (pos n))).stores))
  where
    size : unsigned 32 (pos n) ≡ n
    size = omega arith
Writes-put_length (suc w) n h = rw (signed_size n (omega arith)) (
    Writes-kinds (suc w) _ _ _
      (Counts-flexible w (count_array_length (pos n)) (put_uvarint (unsigned 64 (suc_ℤ (pos n)))) _
        sized.counts)
      (Stores-flexible w (put_int32 (pos n)) (put_uvarint (unsigned 64 (suc_ℤ (pos n)))) _
        sized.stores))
  where
    size : unsigned 64 (suc_ℤ (pos n)) ≡ n + 1
    size = omega arith

    sized : Writes (suc w) (put_uvarint (unsigned 64 (suc_ℤ (pos n)))) (uvarint (n + 1))
    sized = rw size (Writes-put_uvarint (suc w) (n + 1) (omega arith))

pub Writes-put_raw_bytes :
    (version : ℕ) (s : List ℕ) → length s < 2 ^ 31 → Writes version (put_raw_bytes s) s
unfolding put_raw_bytes
Writes-put_raw_bytes version s h =
    rw (le→ltb_false int32_max (length s) (omega arith)) (Writes-by_kind version (length s) s refl)

-- A length of the fixed versions in front of bytes.
pub Writes-put_behind_length :
    (version : ℕ) (s : List ℕ)
    → length s < 2 ^ 31 - 1
    → Writes version (put_behind_length s) (length32 version (length s) ++ s)
Writes-put_behind_length version s h =
    Writes-then version (put_array_length (int_of_size (length s))) (put_raw_bytes s) _ s
      (Writes-put_length version (length s) h) (Writes-put_raw_bytes version s (omega arith))

Counts-string : (s : List ℕ) → length s < 2 ^ 15 → Counts 0 (count_string s) (string_bytes 0 s)
Counts-string s h =
    rw (le→ltb_false int16_max (length s) (omega arith))
      (Counts-tallies 0 2 (length s) (string_bytes 0 s) (omega arith))

Stores-emit : (version : ℕ) (s : List ℕ) → Stores version (emit s) s
Stores-emit version s e k f h = refl

Stores-string : (s : List ℕ) → length s < 2 ^ 15 → Stores 0 (store_string s) (string_bytes 0 s)
Stores-string s h =
    Stores-then 0 (put_int16 (signed 16 (length s % 2 ^ 16))) (emit s) (length16 0 (length s)) s
      (Writes-of_eq 0 (put_int16 (signed 16 (length s % 2 ^ 16))) (ap (big_endian 2) size)
        (Writes-put_int16 0 (signed 16 (length s % 2 ^ 16)))).stores
      (Stores-emit 0 s)
  where
    size : unsigned 16 (signed 16 (length s % 2 ^ 16)) ≡ length s
    size = ground arith

pub Writes-put_string :
    (version : ℕ) (s : List ℕ)
    → FitsString version (length s)
    → Writes version (put_string s) (string_bytes version s)
unfolding put_string
Writes-put_string zero s h =
    Writes-kinds 0 _ _ _
      (Counts-fixed (count_string s) (put_behind_length s) (string_bytes 0 s) (Counts-string s h))
      (Stores-fixed (store_string s) (put_behind_length s) (string_bytes 0 s) (Stores-string s h))
Writes-put_string (suc w) s h =
    Writes-kinds (suc w) _ _ _
      (Counts-flexible w (count_string s) (put_behind_length s) (string_bytes (suc w) s)
        (Writes-put_behind_length (suc w) s h).counts)
      (Stores-flexible w (store_string s) (put_behind_length s) (string_bytes (suc w) s)
        (Writes-put_behind_length (suc w) s h).stores)

pub Writes-put_nullable_string :
    (version : ℕ) (s : List ℕ)
    → FitsString version (length s)
    → Writes version (put_nullable_string s) (nullable_bytes version s)
unfolding put_nullable_string
Writes-put_nullable_string zero [] h =
    Writes-kinds 0 _ _ _ (Counts-fixed (tally 2) (put_uvarint 0) (null16 0) (λ e k f. refl)) (
      Stores-fixed (put_int16 minus_one) (put_uvarint 0) (null16 0)
        (Writes-put_int16 0 minus_one).stores)
Writes-put_nullable_string (suc w) [] h =
    Writes-kinds (suc w) _ _ _ (Counts-flexible w (tally 2) (put_uvarint 0) (uvarint 0) null.counts)
      (Stores-flexible w (put_int16 minus_one) (put_uvarint 0) (uvarint 0) null.stores)
  where
    null : Writes (suc w) (put_uvarint 0) (uvarint 0)
    null = Writes-put_uvarint (suc w) 0 (omega arith)
Writes-put_nullable_string zero (b ∷ s) h =
    let w : Writes 0 (put_string (b ∷ s)) (string_bytes 0 (b ∷ s)) =
      Writes-put_string 0 (b ∷ s) h in
    let full : is_empty (b ∷ s) ≡ false = ground arith in
    rw full (
      Writes-kinds 0 _ _ _
        (Counts-fixed (put_string (b ∷ s)) (put_string (b ∷ s)) (string_bytes 0 (b ∷ s)) w.counts)
        (Stores-fixed (put_string (b ∷ s)) (put_string (b ∷ s)) (string_bytes 0 (b ∷ s)) w.stores))
Writes-put_nullable_string (suc v) (b ∷ s) h =
    let w : Writes (suc v) (put_string (b ∷ s)) (string_bytes (suc v) (b ∷ s)) =
      Writes-put_string (suc v) (b ∷ s) h in
    let full : is_empty (b ∷ s) ≡ false = ground arith in
    rw full (
      Writes-kinds (suc v) _ _ _
        (Counts-flexible v (put_string (b ∷ s)) (put_string (b ∷ s)) (string_bytes (suc v) (b ∷ s))
          w.counts)
        (Stores-flexible v (put_string (b ∷ s)) (put_string (b ∷ s)) (string_bytes (suc v) (b ∷ s))
          w.stores))

pub Writes-put_bytes :
    (version : ℕ) (s : List ℕ)
    → length s < 2 ^ 31 - 1
    → Writes version (put_bytes s) (bytes_bytes version s)
unfolding put_bytes
Writes-put_bytes zero [] h =
    Writes-kinds 0 _ _ _ (Counts-fixed (count_bytes []) (put_sized []) (null32 0) (λ e k f. refl)) (
      Stores-fixed (store_bytes []) (put_sized []) (null32 0) (Writes-put_int32 0 minus_one).stores)
Writes-put_bytes zero (b ∷ s) h =
    Writes-kinds 0 _ _ _
      (Counts-fixed (count_bytes (b ∷ s)) (put_sized (b ∷ s)) (bytes_bytes 0 (b ∷ s)) counted)
      (Stores-fixed (store_bytes (b ∷ s)) (put_sized (b ∷ s)) (bytes_bytes 0 (b ∷ s)) stored)
  where
    n : ℕ
    n = length (b ∷ s)

    full : is_empty (b ∷ s) ≡ false
    full = ground arith

    size : unsigned 32 (int_of_size n) ≡ n
    size = ground arith

    counted : Counts 0 (count_bytes (b ∷ s)) (bytes_bytes 0 (b ∷ s))
    counted =
        rw (full, le→ltb_false int32_max n (omega arith))
          (Counts-then 0 (tally 4) (put_raw_bytes (b ∷ s)) (length32 0 n) (b ∷ s) (λ e k f. refl)
            (Writes-put_raw_bytes 0 (b ∷ s) (omega arith)).counts)

    stored : Stores 0 (store_bytes (b ∷ s)) (bytes_bytes 0 (b ∷ s))
    stored = rw full (
        Stores-then 0 (put_int32 (int_of_size n)) (put_raw_bytes (b ∷ s)) (length32 0 n) (b ∷ s)
          (Writes-of_eq 0 (put_int32 (int_of_size n)) (ap (big_endian 4) size)
            (Writes-put_int32 0 (int_of_size n))).stores
          (Writes-put_raw_bytes 0 (b ∷ s) (omega arith)).stores)
Writes-put_bytes (suc w) s h =
    Writes-kinds (suc w) _ _ _
      (Counts-flexible w (count_bytes s) (put_sized s) (bytes_bytes (suc w) s) sized.counts)
      (Stores-flexible w (store_bytes s) (put_sized s) (bytes_bytes (suc w) s) sized.stores)
  where
    sized : Writes (suc w) (put_sized s) (uvarint (length s + 1) ++ s)
    sized =
        Writes-then (suc w) (put_uvarint (length s + 1)) (put_raw_bytes s) _ s
          (Writes-put_uvarint (suc w) (length s + 1) (omega arith))
          (Writes-put_raw_bytes (suc w) s (omega arith))

-- A record's bytes, where PREP counts the varint of their number as REAL writes it.
pub Writes-put_variant_bytes :
    (version : ℕ) (s : List ℕ)
    → length s < 2 ^ 31
    → varint_len (pos (length s)) ≡ length (varint (pos (length s)))
    → Writes version (put_variant_bytes s) (variant_bytes s)
unfolding put_variant_bytes
Writes-put_variant_bytes version [] h same =
    Writes-put_variant version minus_one (omega arith) (varint_len_negative 0 (omega arith))
Writes-put_variant_bytes version (b ∷ s) h same =
    let full : is_empty (b ∷ s) ≡ false = ground arith in
    rw full (
      Writes-then version (put_variant (pos (length (b ∷ s)))) (put_raw_bytes (b ∷ s))
        (varint (pos (length (b ∷ s)))) (b ∷ s)
        (Writes-put_variant version (pos (length (b ∷ s))) (omega arith) same)
        (Writes-put_raw_bytes version (b ∷ s) h))

-- No tags: nothing in a fixed version, and a count of 0 in a flexible one.
abbrev pub no_tags : ℕ → List ℕ
no_tags zero = []
no_tags (suc _) = uvarint 0

pub Writes-put_empty_tagged_field_array :
    (version : ℕ) → Writes version put_empty_tagged_field_array (no_tags version)
unfolding put_empty_tagged_field_array
Writes-put_empty_tagged_field_array zero =
    Writes-kinds 0 _ _ _ (Counts-fixed (pure tt) (put_uvarint 0) [] (Writes-nothing 0).counts)
      (Stores-fixed (pure tt) (put_uvarint 0) [] (Writes-nothing 0).stores)
Writes-put_empty_tagged_field_array (suc w) =
    let none : Writes (suc w) (put_uvarint 0) (uvarint 0) =
      Writes-put_uvarint (suc w) 0 (omega arith) in
    Writes-kinds (suc w) _ _ _ (Counts-flexible w (pure tt) (put_uvarint 0) (uvarint 0) none.counts)
      (Stores-flexible w (pure tt) (put_uvarint 0) (uvarint 0) none.stores)
