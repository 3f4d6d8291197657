-- ===== src/Wire/Decoder.antt =====
-- packet_decoder.cpp and flexible_type.cpp of src/coev_kafka: the state of a packet decoder and the
-- reads of fixed size. A byte is a number below 256, a char of the buffer is signed.
pub mod View
pub mod Fixed
pub mod Varint
pub mod Strings
pub mod Arrays
pub mod Tagged
pub mod Fields
pub mod Safety
use coev.Base.{ℕ, zero, suc, ◌+◌, ◌-◌, ◌*◌, ◌%◌, ◌^◌, bit_or, ltb, ◌==◌, if◌then◌else◌}
use coev.Base.{List, [], ◌∷◌, Option, none, some, Bool, true, false, length, get_elem?, take, drop}
use coev.Base.Int.{ℤ, pos, negsuc, sub_ℕ, int_of_size, ltb_ℤ, eq_ℤ, signed}
use coev.Wire.Outcome.{M, ok, err, fault, pure, fail, crash, ◌>>=◌, ◌>>◌, and_then}
use coev.Wire.Outcome.{insufficient_data, invalid_bool}
use coev.Wire.Field.{PushField}

-- m_offset is an int: a number here, which it is in a buffer of fewer than 2 ^ 31 bytes.
pub record Decoder : Type 0 where
  pub flexible : ℕ
  pub offset : ℕ
  pub raw : List ℕ
  pub stack : List PushField

abbrev pub Get : Type 0 → Type 0
Get A = M Decoder A

abbrev pub decoder : List ℕ → Decoder
decoder buf = record { flexible = 0; offset = 0; raw = buf; stack = [] }

abbrev pub is_fixed : Decoder → Bool
is_fixed d = d.flexible == 0

-- m_flexible is an uint16_t.
unfoldable pub push_flexible : Decoder → Decoder
push_flexible d = record d { flexible = (d.flexible + 1) % 2 ^ 16 }

unfoldable pub pop_flexible : Get (Unit {0})
pop_flexible d = if d.flexible == 0 then fault else ok tt (record d { flexible = d.flexible - 1 })

-- `z - n` of ints, where it is one.
abbrev pub minus : ℤ → ℕ → ℤ
minus (pos m) n = sub_ℕ m n
minus (negsuc m) n = negsuc (m + n)

-- `static_cast<int>(m_raw.size()) - m_offset`
abbrev pub remaining : Decoder → ℤ
remaining d = minus (int_of_size (length d.raw)) d.offset

abbrev pub to_end : Decoder → Decoder
to_end d = record d { offset = length d.raw }

abbrev pub advance : ℕ → Decoder → Decoder
advance n d = record d { offset = d.offset + n }

abbrev pub skip : ℕ → Get (Unit {0})
skip n d = ok tt (advance n d)

-- `if (remaining() < n) { m_offset = m_raw.size(); return ErrInsufficientData; }`
abbrev pub need : {A : Type 0} → ℤ → Get A → Get A
need n k d = if ltb_ℤ (remaining d) n then err insufficient_data (to_end d) else k d

-- `m_raw[m_offset + i]`
abbrev pub byte_at : ℕ → Get ℕ
byte_at i d = elim (get_elem? d.raw (d.offset + i)) [ none ↦ fault | some b ↦ ok b d ]

-- The bytes at m_offset on, joined to a number by shifts and `|`.
unfoldable pub load16 : Get ℕ
load16 = do b0 ← byte_at 0; b1 ← byte_at 1; pure (bit_or (b0 * 2 ^ 8) b1)

unfoldable pub load32 : Get ℕ
load32 = do
  b0 ← byte_at 0
  b1 ← byte_at 1
  b2 ← byte_at 2
  b3 ← byte_at 3
  pure (bit_or (bit_or (bit_or (b0 * 2 ^ 24) (b1 * 2 ^ 16)) (b2 * 2 ^ 8)) b3)

unfoldable pub load64 : Get ℕ
load64 = do
  b0 ← byte_at 0
  b1 ← byte_at 1
  b2 ← byte_at 2
  b3 ← byte_at 3
  b4 ← byte_at 4
  b5 ← byte_at 5
  b6 ← byte_at 6
  b7 ← byte_at 7
  let high = bit_or (bit_or (bit_or (b0 * 2 ^ 56) (b1 * 2 ^ 48)) (b2 * 2 ^ 40)) (b3 * 2 ^ 32)
  pure (bit_or (bit_or (bit_or (bit_or high (b4 * 2 ^ 24)) (b5 * 2 ^ 16)) (b6 * 2 ^ 8)) b7)

unfoldable pub get_int8 : Get ℤ
get_int8 = need (pos 1) (do b ← byte_at 0; skip 1; pure (signed 8 b))

unfoldable pub get_int16 : Get ℤ
get_int16 = need (pos 2) (do v ← load16; skip 2; pure (signed 16 v))

unfoldable pub get_int32 : Get ℤ
get_int32 = need (pos 4) (do v ← load32; skip 4; pure (signed 32 v))

unfoldable pub get_int64 : Get ℤ
get_int64 = need (pos 8) (do v ← load64; skip 8; pure (signed 64 v))

-- A double is the pattern of its 64 bits.
unfoldable pub get_float64 : Get ℕ
get_float64 = need (pos 8) (do v ← load64; skip 8; pure v)

unfoldable pub get_bool : Get Bool
get_bool = do
  b ← get_int8
  if eq_ℤ b (pos 0) then pure false else if eq_ℤ b (pos 1) then pure true else fail invalid_bool

-- A KError is an int16_t, and a duration a number of milliseconds.
unfoldable pub get_kerror : Get ℤ
get_kerror = get_int16

unfoldable pub get_duration_ms : Get ℤ
get_duration_ms = get_int32
