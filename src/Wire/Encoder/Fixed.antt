-- ===== src/Wire/Encoder/Fixed.antt =====
-- The puts of fixed size write the big-endian bytes of their integer.
use coev.Base.{ℕ, ◌^◌, ◌<◌, ◌≡◌, refl, sym, ap, ◌∙◌, arith}
use coev.Base.{List, [], ◌∷◌, Bool, true, false, if◌then◌else◌, length}
use coev.Base.Int.{ℤ, pos, negsuc, unsigned, signed, IsInt, int_of_long}
use coev.Base.Bits.{low_byte}
use coev.Wire.Format.{big_endian}
use coev.Wire.Encoder.{Put, by_kind, tally, emit, byte_of, int64_bytes}
use coev.Wire.Encoder.{put_int8, put_int16, put_int32, put_int64, put_float64, put_bool}
use coev.Wire.Encoder.{put_kerror, put_duration_ms}
use coev.Wire.Encoder.View.{Writes, Writes-of_eq, by_kind_prep, by_kind_real}

-- A put that is a count in PREP and a store in REAL.
pub Writes-by_kind :
    (version n : ℕ) (bs : List ℕ) → length bs ≡ n → Writes version (by_kind (tally n) (emit bs)) bs
Writes-by_kind version n bs size = record {
  counts = λ e k f. by_kind_prep (tally n) (emit bs) e k ∙ ap (λ (m : ℕ). tally m e) (sym size);
  stores = λ e k f h. by_kind_real (tally n) (emit bs) e k;
}

-- The same where REAL calls another put.
pub Writes-by_kind_nested :
    (version n : ℕ) (q : Put) (bs : List ℕ)
    → length bs ≡ n
    → Writes version q bs
    → Writes version (by_kind (tally n) q) bs
Writes-by_kind_nested version n q bs size w = record {
  counts = λ e k f. by_kind_prep (tally n) q e k ∙ ap (λ (m : ℕ). tally m e) (sym size);
  stores = λ e k f h. by_kind_real (tally n) q e k ∙ w.stores e k f h;
}

bytes16 : (z : ℤ) → byte_of 32 z 8 ∷ byte_of 32 z 0 ∷ [] ≡ big_endian 2 (unsigned 16 z)
bytes16 (pos n) = simp low_byte (ground arith)
bytes16 (negsuc n) = simp low_byte (ground arith)

bytes32 :
    (z : ℤ)
    → byte_of 32 z 24 ∷ byte_of 32 z 16 ∷ byte_of 32 z 8 ∷ byte_of 32 z 0 ∷ []
      ≡ big_endian 4 (unsigned 32 z)
bytes32 (pos n) = simp low_byte (ground arith)
bytes32 (negsuc n) = simp low_byte (ground arith)

bytes64 : (z : ℤ) → int64_bytes z ≡ big_endian 8 (unsigned 64 z)
bytes64 (pos n) = simp low_byte (ground arith)
bytes64 (negsuc n) = simp low_byte (ground arith)

pub Writes-put_int8 : (version : ℕ) (z : ℤ) → Writes version (put_int8 z) (unsigned 8 z ∷ [])
unfolding put_int8
Writes-put_int8 version z = Writes-by_kind version 1 _ refl

pub Writes-put_int16 :
    (version : ℕ) (z : ℤ) → Writes version (put_int16 z) (big_endian 2 (unsigned 16 z))
unfolding put_int16
Writes-put_int16 version z = Writes-of_eq version _ (bytes16 z) (Writes-by_kind version 2 _ refl)

pub Writes-put_int32 :
    (version : ℕ) (z : ℤ) → Writes version (put_int32 z) (big_endian 4 (unsigned 32 z))
unfolding put_int32
Writes-put_int32 version z = Writes-of_eq version _ (bytes32 z) (Writes-by_kind version 4 _ refl)

pub Writes-put_int64 :
    (version : ℕ) (z : ℤ) → Writes version (put_int64 z) (big_endian 8 (unsigned 64 z))
unfolding put_int64
Writes-put_int64 version z = Writes-of_eq version _ (bytes64 z) (Writes-by_kind version 8 _ refl)

unsigned-signed64 : (n : ℕ) → n < 2 ^ 64 → unsigned 64 (signed 64 n) ≡ n
unsigned-signed64 n h = ground arith

pub Writes-put_float64 :
    (version bits : ℕ) → bits < 2 ^ 64 → Writes version (put_float64 bits) (big_endian 8 bits)
unfolding put_float64
Writes-put_float64 version bits h = Writes-by_kind_nested version 8 _ _ refl (
    Writes-of_eq version _ (ap (big_endian 8) (unsigned-signed64 bits h))
      (Writes-put_int64 version (signed 64 bits)))

pub Writes-put_bool :
    (version : ℕ) (b : Bool) → Writes version (put_bool b) ((if b then 1 else 0) ∷ [])
unfolding put_bool
Writes-put_bool version true =
    Writes-by_kind_nested version 1 _ _ refl (Writes-put_int8 version (pos 1))
Writes-put_bool version false =
    Writes-by_kind_nested version 1 _ _ refl (Writes-put_int8 version (pos 0))

pub Writes-put_kerror :
    (version : ℕ) (code : ℤ) → Writes version (put_kerror code) (big_endian 2 (unsigned 16 code))
unfolding put_kerror
Writes-put_kerror version code =
    Writes-by_kind_nested version 2 _ _ refl (Writes-put_int16 version code)

int_of_long_fits : (z : ℤ) → IsInt 32 z → int_of_long z ≡ z
int_of_long_fits (pos n) h = ground arith
int_of_long_fits (negsuc n) h = ground arith

-- A duration of more than 2 ^ 31 milliseconds does not fit its field.
pub Writes-put_duration_ms :
    (version : ℕ) (ms : ℤ)
    → IsInt 32 ms
    → Writes version (put_duration_ms ms) (big_endian 4 (unsigned 32 ms))
unfolding put_duration_ms
Writes-put_duration_ms version ms h =
    rw (int_of_long_fits ms h)
      (Writes-by_kind_nested version 4 _ _ refl (Writes-put_int32 version ms))
