-- ===== src/Wire/Separate/Real.antt =====
-- real_encoder.cpp of src/coev_kafka: a packet is written to a buffer.
use coev.Base.{
  ℕ, zero, suc, ◌+◌, ◌-◌, ◌*◌, ◌/◌, ◌%◌, ◌^◌, ◌==◌, bit_or, bit_xor, leb, if◌then◌else◌, Bool, true,
  false,
}
use coev.Base.{List, [], ◌∷◌, Option, none, some, length}
use coev.Base.Int.{ℤ, pos, unsigned, signed, suc_ℤ, ltb_ℤ, int_of_size, int_of_long}
use coev.Wire.Outcome.{M, Outcome, ok, err, fault, stuck, pure, ◌>>◌}
use coev.Wire.Field.{PushField, save_offset, reserve_length}
use coev.Wire.Encoder.{Encoder, real, splice, byte_of}
use coev.Wire.Encoder.Fields.{run}
use coev.Wire.Encoder.Strings.{minus_one, is_empty}

-- m_flexible, m_offset, m_raw and m_stack.
pub record RealEncoder : Type 0 where
  pub flexible : ℕ
  pub position : ℕ
  pub raw : List ℕ
  pub stack : List PushField

-- `m_raw.resize(capacity)`
abbrev pub zeros : ℕ → List ℕ
zeros zero = []
zeros (suc n) = 0 ∷ zeros n

abbrev pub real_encoder : ℕ → RealEncoder
real_encoder capacity = record { flexible = 0; position = 0; raw = zeros capacity; stack = [] }

abbrev pub RealPut : Type 0
RealPut = M RealEncoder (Unit {0})

abbrev pub by_version : RealPut → RealPut → RealPut
by_version fixed flexible r = if r.flexible == 0 then fixed r else flexible r

-- The stores from m_offset on with the assertion that m_raw has them; a varint is stored first.
abbrev pub emit : List ℕ → RealPut
emit bs r =
    if leb (r.position + length bs) (length r.raw)
    then ok tt (record r { position = r.position + length bs; raw = splice r.position bs r.raw })
    else fault

unfoldable pub zigzag_encode : ℤ → ℕ
zigzag_encode x = bit_xor (unsigned 64 x * 2 % 2 ^ 64) (if ltb_ℤ x (pos 0) then 2 ^ 64 - 1 else 0)

unfoldable pub encode_uvariant_loop : ℕ → ℕ → List ℕ
encode_uvariant_loop zero x = []
encode_uvariant_loop (suc left) x = elim (leb 0x80 x) [
  | true ↦ bit_or (x % 2 ^ 8) 0x80 ∷ encode_uvariant_loop left (x / 2 ^ 7)
  | false ↦ x % 2 ^ 8 ∷ []
]

-- Ten rounds are enough for 64 bits.
unfoldable pub encode_uvariant : ℕ → List ℕ
encode_uvariant x = encode_uvariant_loop 10 x

unfoldable pub encode_variant : ℤ → List ℕ
encode_variant x = encode_uvariant (zigzag_encode x)

unfoldable pub put_int8 : ℤ → RealPut
put_int8 z = emit (unsigned 8 z ∷ [])

unfoldable pub put_int16 : ℤ → RealPut
put_int16 z = emit (byte_of 32 z 8 ∷ byte_of 32 z 0 ∷ [])

unfoldable pub put_int32 : ℤ → RealPut
put_int32 z = emit (byte_of 32 z 24 ∷ byte_of 32 z 16 ∷ byte_of 32 z 8 ∷ byte_of 32 z 0 ∷ [])

unfoldable pub put_int64 : ℤ → RealPut
put_int64 z = emit (
    byte_of 64 z 56
    ∷ byte_of 64 z 48
    ∷ byte_of 64 z 40
    ∷ byte_of 64 z 32
    ∷ byte_of 64 z 24
    ∷ byte_of 64 z 16
    ∷ byte_of 64 z 8
    ∷ byte_of 64 z 0
    ∷ [])

unfoldable pub put_variant : ℤ → RealPut
put_variant x = emit (encode_variant x)

unfoldable pub put_uvarint : ℕ → RealPut
put_uvarint x = emit (encode_uvariant x)

abbrev pub put_float64 : ℕ → RealPut
put_float64 bits = put_int64 (signed 64 bits)

abbrev pub put_bool : Bool → RealPut
put_bool b = put_int8 (if b then pos 1 else pos 0)

abbrev pub put_kerror : ℤ → RealPut
put_kerror code = put_int16 code

abbrev pub put_duration_ms : ℤ → RealPut
put_duration_ms ms = put_int32 (int_of_long ms)

unfoldable pub put_array_length : ℤ → RealPut
put_array_length n = by_version (put_int32 n) (put_uvarint (unsigned 64 (suc_ℤ n)))

abbrev pub put_raw_bytes : List ℕ → RealPut
put_raw_bytes s = emit s

unfoldable pub put_bytes : List ℕ → RealPut
put_bytes s =
    by_version
      (if is_empty s
        then put_int32 minus_one
        else do put_int32 (int_of_size (length s)); put_raw_bytes s)
      (do put_uvarint (length s + 1); put_raw_bytes s)

unfoldable pub put_variant_bytes : List ℕ → RealPut
put_variant_bytes s =
    if is_empty s then put_variant minus_one else do put_variant (pos (length s)); put_raw_bytes s

unfoldable pub put_string : List ℕ → RealPut
put_string s =
    by_version (do put_int16 (signed 16 (length s % 2 ^ 16)); emit s)
      (do put_array_length (int_of_size (length s)); put_raw_bytes s)

unfoldable pub put_nullable_string : List ℕ → RealPut
put_nullable_string s =
    by_version (if is_empty s then put_int16 minus_one else put_string s)
      (if is_empty s then put_uvarint 0 else put_string s)

-- `for (auto &x : in) put(x);`
abbrev pub put_each : {A : Type 0} → (A → RealPut) → List A → RealPut
put_each put [] = pure tt
put_each put (x ∷ xs) = do put x; put_each put xs

abbrev pub put_strings : List (List ℕ) → RealPut
put_strings xs = do put_array_length (int_of_size (length xs)); put_each put_string xs

unfoldable pub put_string_array : List (List ℕ) → RealPut
put_string_array xs = by_version (put_strings xs) (put_strings xs)

unfoldable pub put_int32_array : List ℤ → RealPut
put_int32_array xs =
    by_version (do put_array_length (int_of_size (length xs)); put_each put_int32 xs)
      (do put_uvarint (length xs + 1); put_each put_int32 xs)

unfoldable pub put_nullable_int32_array : List ℤ → RealPut
put_nullable_int32_array xs =
    by_version
      (if length xs == 0
        then put_int32 minus_one
        else do put_array_length (int_of_size (length xs)); put_each put_int32 xs)
      (if length xs == 0
        then put_uvarint 0
        else do put_uvarint (length xs + 1); put_each put_int32 xs)

unfoldable pub put_int64_array : List ℤ → RealPut
put_int64_array xs = do put_array_length (int_of_size (length xs)); put_each put_int64 xs

unfoldable pub put_empty_tagged_field_array : RealPut
put_empty_tagged_field_array = by_version (pure tt) (put_uvarint 0)

-- The reserved bytes have to fit the buffer.
unfoldable pub push : PushField → RealPut
push f r = elim (reserve_length f) [
  | none ↦ stuck
  | some n ↦
      if leb (r.position + n) (length r.raw)
      then ok tt
          (record r { position = r.position + n; stack = save_offset r.position f ∷ r.stack })
      else fault
]

-- The same object as the encoder in REAL.
abbrev pub as_packet : RealEncoder → Encoder
as_packet r = record {
  kind = real;
  flexible = r.flexible;
  count = r.position;
  raw = r.raw;
  stack = r.stack;
}

-- run of a field sees m_offset and m_raw, of which it changes the latter.
abbrev pub filled : RealEncoder → Outcome Encoder PushField → Outcome RealEncoder (Option PushField)
filled r (ok f e) = ok (some f) (record r { raw = e.raw })
filled r (err c e) = err c r
filled r fault = fault
filled r stuck = stuck

unfoldable pub pop : M RealEncoder (Option PushField)
pop r = elim r.stack [
  | [] ↦ ok none r
  | top ∷ rest ↦ let q = record r { stack = rest } in filled q (run top (as_packet q))
]
