-- ===== src/Wire/Encoder.antt =====
-- packet_encoder.cpp of src/coev_kafka: an encoder is either PREP, which counts the bytes that a
-- packet takes, or REAL, which writes them to a buffer of that size.
pub mod View
pub mod Fixed
pub mod Varint
pub mod Strings
pub mod Arrays
pub mod Fields
use coev.Base.{ℕ, zero, suc, ◌+◌, ◌-◌, ◌*◌, ◌/◌, ◌%◌, ◌^◌, bit_and, leb, ◌==◌, if◌then◌else◌}
use coev.Base.{List, [], ◌∷◌, Bool, true, false, length}
use coev.Base.Int.{ℤ, pos, negsuc, unsigned, signed, shr_ℤ, int_of_long, int_of_size}
use coev.Wire.Outcome.{M, ok, fault, pure, crash, ◌>>=◌, ◌>>◌}
use coev.Wire.Field.{PushField}

pub data Kind : Type 0 where
  neither prep real : Kind

-- m_offset and m_length are one member of a union: `count`. The size of a packet in memory is far
-- below 2 ^ 64, so that a size_t that counts its bytes does not wrap.
pub record Encoder : Type 0 where
  pub kind : Kind
  pub flexible : ℕ
  pub count : ℕ
  pub raw : List ℕ
  pub stack : List PushField

abbrev pub Put : Type 0
Put = M Encoder (Unit {0})

-- `if (m_type == PREP) … else if (m_type == REAL) … else assert(false);`
abbrev pub by_kind : {A : Type 0} → M Encoder A → M Encoder A → M Encoder A
by_kind in_prep in_real e = elim e.kind [ prep ↦ in_prep e | real ↦ in_real e | neither ↦ fault ]

-- `if (__is_fixed()) … else if (__is_flexible()) …`
abbrev pub by_version : {A : Type 0} → M Encoder A → M Encoder A → M Encoder A
by_version fixed flexible e = if e.flexible == 0 then fixed e else flexible e

-- `m_length += n`
abbrev pub tally : ℕ → Put
tally n e = ok tt (record e { count = e.count + n })

abbrev pub overlay : List ℕ → List ℕ → List ℕ
overlay old [] = old
overlay [] (b ∷ bs) = []
overlay (o ∷ old) (b ∷ bs) = b ∷ overlay old bs

-- The buffer with the bytes written over it from a position on.
abbrev pub splice : ℕ → List ℕ → List ℕ → List ℕ
splice zero bs old = overlay old bs
splice (suc i) bs [] = []
splice (suc i) bs (o ∷ old) = o ∷ splice i bs old

-- The stores at m_offset on, with `m_offset += n` and the assertion that they fit m_raw.
unfoldable pub emit : List ℕ → Put
emit bs e =
    if leb (e.count + length bs) (length e.raw)
    then ok tt (record e { count = e.count + length bs; raw = splice e.count bs e.raw })
    else fault

-- `static_cast<uint8_t>((in >> k) & 0xFF)` of an integer of w bits.
abbrev pub byte_of : ℕ → ℤ → ℕ → ℕ
byte_of w z k = bit_and (unsigned w (shr_ℤ z k)) 0xff

unfoldable pub put_int8 : ℤ → Put
put_int8 z = by_kind (tally 1) (emit (unsigned 8 z ∷ []))

unfoldable pub put_int16 : ℤ → Put
put_int16 z = by_kind (tally 2) (emit (byte_of 32 z 8 ∷ byte_of 32 z 0 ∷ []))

unfoldable pub put_int32 : ℤ → Put
put_int32 z =
    by_kind (tally 4)
      (emit (byte_of 32 z 24 ∷ byte_of 32 z 16 ∷ byte_of 32 z 8 ∷ byte_of 32 z 0 ∷ []))

abbrev pub int64_bytes : ℤ → List ℕ
int64_bytes z =
    byte_of 64 z 56
    ∷ byte_of 64 z 48
    ∷ byte_of 64 z 40
    ∷ byte_of 64 z 32
    ∷ byte_of 64 z 24
    ∷ byte_of 64 z 16
    ∷ byte_of 64 z 8
    ∷ byte_of 64 z 0
    ∷ []

unfoldable pub put_int64 : ℤ → Put
put_int64 z = by_kind (tally 8) (emit (int64_bytes z))

-- A double is the pattern of its 64 bits.
unfoldable pub put_float64 : ℕ → Put
put_float64 bits = by_kind (tally 8) (put_int64 (signed 64 bits))

unfoldable pub put_bool : Bool → Put
put_bool b = by_kind (tally 1) (put_int8 (if b then pos 1 else pos 0))

unfoldable pub put_kerror : ℤ → Put
put_kerror code = by_kind (tally 2) (put_int16 code)

-- A duration is a number of milliseconds, an int64_t.
unfoldable pub put_duration_ms : ℤ → Put
put_duration_ms ms = by_kind (tally 4) (put_int32 (int_of_long ms))

-- An int in both passes.
unfoldable pub offset : M Encoder ℤ
offset = by_kind (λ e. ok (int_of_size e.count) e) (λ e. ok (int_of_size e.count) e)
