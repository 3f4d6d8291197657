-- ===== src/Wire/Decoder/Fixed.antt =====
-- The reads of fixed size return the integer whose big-endian bytes come next.
use coev.Base.{ℕ, ◌+◌, ◌*◌, ◌/◌, ◌%◌, ◌^◌, ◌<◌, ◌≡◌, refl, ap, ◌∙◌, arith}
use coev.Base.{List, [], ◌∷◌, ◌++◌, bit_or, All, length, length-append}
use coev.Base.Int.{ℤ, pos, negsuc, signed, unsigned, IsInt}
use coev.Base.Bits.{bit_or_add}
use coev.Wire.Outcome.{ok, pure, and_then, ◌>>=◌, ◌>>◌}
use coev.Wire.Format.{IsByte, big_endian}
use coev.Wire.Decoder.{Decoder, Get, byte_at, load16, load32, load64, need, skip, advance}
use coev.Wire.Decoder.{get_int8, get_int16, get_int32, get_int64, get_float64}
use coev.Wire.Decoder.View.{Sees, Reads, byte_at-Sees, need-Sees}

joined16 : (b0 b1 : ℕ) → IsByte b0 → IsByte b1 → bit_or (b0 * 2 ^ 8) b1 ≡ b0 * 2 ^ 8 + b1
joined16 b0 b1 h0 h1 = bit_or_add 8 _ b0 b1 refl h1

pub joined32 :
    (b0 b1 b2 b3 : ℕ)
    → IsByte b0
    → IsByte b1
    → IsByte b2
    → IsByte b3
    → bit_or (bit_or (bit_or (b0 * 2 ^ 24) (b1 * 2 ^ 16)) (b2 * 2 ^ 8)) b3
      ≡ b0 * 2 ^ 24 + b1 * 2 ^ 16 + b2 * 2 ^ 8 + b3
joined32 b0 b1 b2 b3 h0 h1 h2 h3 =
    rw
      (
        bit_or_add 24 (b0 * 2 ^ 24) b0 (b1 * 2 ^ 16) refl (omega arith),
        bit_or_add 16 (b0 * 2 ^ 24 + b1 * 2 ^ 16) (b0 * 2 ^ 8 + b1) (b2 * 2 ^ 8) (omega arith)
            (omega arith),
        bit_or_add 8 (b0 * 2 ^ 24 + b1 * 2 ^ 16 + b2 * 2 ^ 8) (b0 * 2 ^ 16 + b1 * 2 ^ 8 + b2) b3
            (omega arith) h3,
      )
      refl

load16-Sees :
    (d : Decoder) (b0 b1 : ℕ) (rest : List ℕ)
    → Sees d (b0 ∷ b1 ∷ rest)
    → IsByte b0
    → IsByte b1
    → load16 d ≡ ok (b0 * 2 ^ 8 + b1) d
unfolding load16
load16-Sees d b0 b1 rest v h0 h1 =
    ground (arith, byte_at-Sees 0 b0 d _ v refl, byte_at-Sees 1 b1 d _ v refl, joined16 b0 b1 h0 h1)

load32-Sees :
    (d : Decoder) (b0 b1 b2 b3 : ℕ) (rest : List ℕ)
    → Sees d (b0 ∷ b1 ∷ b2 ∷ b3 ∷ rest)
    → IsByte b0
    → IsByte b1
    → IsByte b2
    → IsByte b3
    → load32 d ≡ ok (b0 * 2 ^ 24 + b1 * 2 ^ 16 + b2 * 2 ^ 8 + b3) d
unfolding load32
load32-Sees d b0 b1 b2 b3 rest v h0 h1 h2 h3 = ground (
  arith,
  byte_at-Sees 0 b0 d _ v refl,
  byte_at-Sees 1 b1 d _ v refl,
  byte_at-Sees 2 b2 d _ v refl,
  byte_at-Sees 3 b3 d _ v refl,
  joined32 b0 b1 b2 b3 h0 h1 h2 h3,
)

-- Four more bytes below a number of which the lowest 32 digits are 0.
joined_low :
    (q b4 b5 b6 b7 : ℕ)
    → IsByte b4
    → IsByte b5
    → IsByte b6
    → IsByte b7
    → bit_or (bit_or (bit_or (bit_or (q * 2 ^ 32) (b4 * 2 ^ 24)) (b5 * 2 ^ 16)) (b6 * 2 ^ 8)) b7
      ≡ q * 2 ^ 32 + b4 * 2 ^ 24 + b5 * 2 ^ 16 + b6 * 2 ^ 8 + b7
joined_low q b4 b5 b6 b7 h4 h5 h6 h7 =
    rw
      (
        bit_or_add 32 (q * 2 ^ 32) q (b4 * 2 ^ 24) refl (omega arith),
        bit_or_add 24 (q * 2 ^ 32 + b4 * 2 ^ 24) (q * 2 ^ 8 + b4) (b5 * 2 ^ 16) (omega arith)
            (omega arith),
        bit_or_add 16 (q * 2 ^ 32 + b4 * 2 ^ 24 + b5 * 2 ^ 16) (q * 2 ^ 16 + b4 * 2 ^ 8 + b5)
            (b6 * 2 ^ 8) (omega arith) (omega arith),
        bit_or_add 8 (q * 2 ^ 32 + b4 * 2 ^ 24 + b5 * 2 ^ 16 + b6 * 2 ^ 8)
            (q * 2 ^ 24 + b4 * 2 ^ 16 + b5 * 2 ^ 8 + b6) b7 (omega arith) h7,
      )
      refl

abbrev be32 : ℕ → ℕ → ℕ → ℕ → ℕ
be32 b0 b1 b2 b3 = b0 * 2 ^ 24 + b1 * 2 ^ 16 + b2 * 2 ^ 8 + b3

joined_high :
    (b0 b1 b2 b3 : ℕ)
    → IsByte b0
    → IsByte b1
    → IsByte b2
    → IsByte b3
    → bit_or (bit_or (bit_or (b0 * 2 ^ 56) (b1 * 2 ^ 48)) (b2 * 2 ^ 40)) (b3 * 2 ^ 32)
      ≡ be32 b0 b1 b2 b3 * 2 ^ 32
joined_high b0 b1 b2 b3 h0 h1 h2 h3 =
    rw
      (
        bit_or_add 56 (b0 * 2 ^ 56) b0 (b1 * 2 ^ 48) refl (omega arith),
        bit_or_add 48 (b0 * 2 ^ 56 + b1 * 2 ^ 48) (b0 * 2 ^ 8 + b1) (b2 * 2 ^ 40) (omega arith)
            (omega arith),
        bit_or_add 40 (b0 * 2 ^ 56 + b1 * 2 ^ 48 + b2 * 2 ^ 40) (b0 * 2 ^ 16 + b1 * 2 ^ 8 + b2)
            (b3 * 2 ^ 32) (omega arith) (omega arith),
      )
      (omega arith)

load64-Sees :
    (d : Decoder) (b0 b1 b2 b3 b4 b5 b6 b7 : ℕ) (rest : List ℕ)
    → Sees d (b0 ∷ b1 ∷ b2 ∷ b3 ∷ b4 ∷ b5 ∷ b6 ∷ b7 ∷ rest)
    → All IsByte (b0 ∷ b1 ∷ b2 ∷ b3 ∷ b4 ∷ b5 ∷ b6 ∷ b7 ∷ [])
    → load64 d ≡ ok (be32 b0 b1 b2 b3 * 2 ^ 32 + be32 b4 b5 b6 b7) d
unfolding load64
load64-Sees d b0 b1 b2 b3 b4 b5 b6 b7 rest v (h0, (h1, (h2, (h3, (h4, (h5, (h6, (h7, _)))))))) =
    simp
      (
        byte_at-Sees 0 b0 d _ v refl,
        byte_at-Sees 1 b1 d _ v refl,
        byte_at-Sees 2 b2 d _ v refl,
        byte_at-Sees 3 b3 d _ v refl,
        byte_at-Sees 4 b4 d _ v refl,
        byte_at-Sees 5 b5 d _ v refl,
        byte_at-Sees 6 b6 d _ v refl,
        byte_at-Sees 7 b7 d _ v refl,
        joined_high b0 b1 b2 b3 h0 h1 h2 h3,
        joined_low (be32 b0 b1 b2 b3) b4 b5 b6 b7 h4 h5 h6 h7,
      )
      (ap (λ (n : ℕ). ok n d) (omega arith))

pub signed-unsigned8 : (z : ℤ) → IsInt 8 z → signed 8 (unsigned 8 z) ≡ z
signed-unsigned8 (pos n) h = ground arith
signed-unsigned8 (negsuc n) h = ground arith

pub signed-unsigned16 : (z : ℤ) → IsInt 16 z → signed 16 (unsigned 16 z) ≡ z
signed-unsigned16 (pos n) h = ground arith
signed-unsigned16 (negsuc n) h = ground arith

pub signed-unsigned32 : (z : ℤ) → IsInt 32 z → signed 32 (unsigned 32 z) ≡ z
signed-unsigned32 (pos n) h = ground arith
signed-unsigned32 (negsuc n) h = ground arith

pub signed-unsigned64 : (z : ℤ) → IsInt 64 z → signed 64 (unsigned 64 z) ≡ z
signed-unsigned64 (pos n) h = ground arith
signed-unsigned64 (negsuc n) h = ground arith

pub unsigned16-lt : (z : ℤ) → unsigned 16 z < 2 ^ 16
unsigned16-lt (pos n) = omega arith
unsigned16-lt (negsuc n) = omega arith

pub unsigned32-lt : (z : ℤ) → unsigned 32 z < 2 ^ 32
unsigned32-lt (pos n) = omega arith
unsigned32-lt (negsuc n) = omega arith

pub unsigned64-lt : (z : ℤ) → unsigned 64 z < 2 ^ 64
unsigned64-lt (pos n) = omega arith
unsigned64-lt (negsuc n) = omega arith

whole16 : (n : ℕ) → n < 2 ^ 16 → n / 256 % 256 * 2 ^ 8 + n / 1 % 256 ≡ n
whole16 n h = omega arith

whole32 :
    (n : ℕ)
    → n < 2 ^ 32
    → be32 (n / 256 ^ 3 % 256) (n / 256 ^ 2 % 256) (n / 256 ^ 1 % 256) (n / 256 ^ 0 % 256) ≡ n
whole32 n h = omega arith

-- The two halves of a number of 64 bits.
whole64 :
    (n : ℕ)
    → n < 2 ^ 64
    → be32 (n / 256 ^ 7 % 256) (n / 256 ^ 6 % 256) (n / 256 ^ 5 % 256) (n / 256 ^ 4 % 256) * 2 ^ 32
        + be32 (n / 256 ^ 3 % 256) (n / 256 ^ 2 % 256) (n / 256 ^ 1 % 256) (n / 256 ^ 0 % 256)
      ≡ n
whole64 n h = omega arith

pub Reads-load32 :
    {A : Type 0} (version n : ℕ) (g : ℕ → A)
    → n < 2 ^ 32
    → Reads version (do v ← load32; skip 4; pure (g v)) (big_endian 4 n) (g n)
Reads-load32 {A} version n g h d rest f v =
    ap (λ r. and_then r next)
      (load32-Sees d _ _ _ _ rest v (omega arith) (omega arith) (omega arith) (omega arith))
    ∙ ap (λ (k : ℕ). ok (g k) (advance 4 d)) (whole32 n h)
  where
    next : ℕ → Get A
    next k = λ e. ok (g k) (advance 4 e)

pub Reads-load64 :
    {A : Type 0} (version n : ℕ) (g : ℕ → A)
    → n < 2 ^ 64
    → Reads version (do v ← load64; skip 8; pure (g v)) (big_endian 8 n) (g n)
Reads-load64 {A} version n g h d rest f v =
    ap (λ r. and_then r next) (load64-Sees d _ _ _ _ _ _ _ _ rest v (omega arith))
    ∙ ap (λ (k : ℕ). ok (g k) (advance 8 d)) (whole64 n h)
  where
    next : ℕ → Get A
    next k = λ e. ok (g k) (advance 8 e)

pub Reads-load16 :
    {A : Type 0} (version n : ℕ) (g : ℕ → A)
    → n < 2 ^ 16
    → Reads version (do v ← load16; skip 2; pure (g v)) (big_endian 2 n) (g n)
Reads-load16 {A} version n g h d rest f v =
    ap (λ r. and_then r next) (load16-Sees d _ _ rest v (omega arith) (omega arith))
    ∙ ap (λ (k : ℕ). ok (g k) (advance 2 d)) (omega arith)
  where
    next : ℕ → Get A
    next k = λ e. ok (g k) (advance 2 e)

-- The guard of a read of fixed size passes where its bytes are there.
pub guarded :
    {A : Type 0} (version n : ℕ) (get : Get A) (bs : List ℕ) (a : A)
    → length bs ≡ n
    → Reads version get bs a
    → Reads version (need (pos n) get) bs a
guarded version n get bs a e r d rest f v =
    need-Sees n get d (bs ++ rest) v (omega (arith, length-append bs rest)) ∙ r d rest f v

pub Reads-get_int16 :
    (version : ℕ) (z : ℤ) → IsInt 16 z → Reads version get_int16 (big_endian 2 (unsigned 16 z)) z
unfolding get_int16
Reads-get_int16 version z h d rest f v =
    guarded version 2 _ (big_endian 2 (unsigned 16 z)) _ refl
      (Reads-load16 version (unsigned 16 z) (signed 16) (unsigned16-lt z)) d rest f v
    ∙ ap (λ k. ok k (advance 2 d)) (signed-unsigned16 z h)

pub Reads-get_int32 :
    (version : ℕ) (z : ℤ) → IsInt 32 z → Reads version get_int32 (big_endian 4 (unsigned 32 z)) z
unfolding get_int32
Reads-get_int32 version z h d rest f v =
    guarded version 4 _ (big_endian 4 (unsigned 32 z)) _ refl
      (Reads-load32 version (unsigned 32 z) (signed 32) (unsigned32-lt z)) d rest f v
    ∙ ap (λ k. ok k (advance 4 d)) (signed-unsigned32 z h)

pub Reads-get_int64 :
    (version : ℕ) (z : ℤ) → IsInt 64 z → Reads version get_int64 (big_endian 8 (unsigned 64 z)) z
unfolding get_int64
Reads-get_int64 version z h d rest f v =
    guarded version 8 _ (big_endian 8 (unsigned 64 z)) _ refl
      (Reads-load64 version (unsigned 64 z) (signed 64) (unsigned64-lt z)) d rest f v
    ∙ ap (λ k. ok k (advance 8 d)) (signed-unsigned64 z h)

pub Reads-get_float64 :
    (version bits : ℕ) → bits < 2 ^ 64 → Reads version get_float64 (big_endian 8 bits) bits
unfolding get_float64
Reads-get_float64 version bits h =
    guarded version 8 _ (big_endian 8 bits) _ refl (Reads-load64 version bits (λ n. n) h)

pub Reads-get_int8 :
    (version : ℕ) (z : ℤ) → IsInt 8 z → Reads version get_int8 (unsigned 8 z ∷ []) z
unfolding get_int8
Reads-get_int8 version z h = guarded version 1 _ (unsigned 8 z ∷ []) _ refl one
  where
    one : Reads version (do b ← byte_at 0; skip 1; pure (signed 8 b)) (unsigned 8 z ∷ []) z
    one d rest f v =
        ap (λ r. and_then r (λ (b : ℕ) (e : Decoder). ok (signed 8 b) (advance 1 e)))
          (byte_at-Sees 0 (unsigned 8 z) d _ v refl)
        ∙ ap (λ k. ok k (advance 1 d)) (signed-unsigned8 z h)
