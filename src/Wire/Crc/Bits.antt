-- ===== src/Wire/Crc/Bits.antt =====
-- Each step of the checksum keeps 32 bits, and takes different numbers to different ones.
use coev.Base.{
  ℕ, zero, suc, ◌+◌, ◌-◌, ◌*◌, ◌/◌, ◌%◌, ◌^◌, ◌==◌, ◌≤◌, ◌<◌, if◌then◌else◌, ◌≡◌, refl, sym, ap,
  ◌∙◌, arith,
}
use coev.Base.{List, [], ◌∷◌, ◌++◌, bit_xor, All, inl, inr, ◌⊎◌}
use coev.Base.Xor.{bit_xor_comm, bit_xor_assoc, bit_xor_add, bit_xor-lt, bit_xor_cancel}
use coev.Wire.Crc.{CrcPolynomial, ieee, castagnoli, shift_bit, shift_bits}
use coev.Wire.Crc.Table.{shift_bit-parity, by_bits, reversed, checksum}

-- The two cases of one bit.
shift_bit-even : (p c : ℕ) → c % 2 ≡ 0 → shift_bit p c ≡ c / 2
shift_bit-even p c h =
    shift_bit-parity p c ∙ ap (λ (l : ℕ). if l == 0 then c / 2 else bit_xor (c / 2) p) h

shift_bit-odd : (p c : ℕ) → c % 2 ≡ 1 → shift_bit p c ≡ bit_xor (c / 2) p
shift_bit-odd p c h =
    shift_bit-parity p c ∙ ap (λ (l : ℕ). if l == 0 then c / 2 else bit_xor (c / 2) p) h

digit : (l : ℕ) → l < 2 → (l ≡ 0) ⊎ (l ≡ 1)
digit zero h = inl refl
digit (suc zero) h = inr refl
digit (suc (suc l)) h = absurd (omega arith)

parity : (c : ℕ) → (c % 2 ≡ 0) ⊎ (c % 2 ≡ 1)
parity c = digit (c % 2) (omega arith)

shift_bit-lt : (p c : ℕ) → p < 2 ^ 32 → c < 2 ^ 32 → shift_bit p c < 2 ^ 32
shift_bit-lt p c hp hc = elim (parity c) [
  | inl e ↦ omega (arith, shift_bit-even p c e)
  | inr o ↦ omega (arith, shift_bit-odd p c o, bit_xor-lt 32 (c / 2) p (omega arith) hp)
]

-- An odd number keeps the highest digit of the polynomial.
high : (p c : ℕ) → 2 ^ 31 ≤ p → p < 2 ^ 32 → c < 2 ^ 31 → 2 ^ 31 ≤ bit_xor c p
high p c hp hq hc = omega (arith, whole)
  where
    r : ℕ
    r = p - 2 ^ 31

    whole : bit_xor c p ≡ 1 * 2 ^ 31 + bit_xor c r
    whole =
        let e : p ≡ 1 * 2 ^ 31 + r = omega arith in
        ap (bit_xor c) (e ∙ sym (bit_xor_add 31 1 r (omega arith)))
        ∙ sym (bit_xor_assoc c (1 * 2 ^ 31) r)
        ∙ ap (λ n. bit_xor n r) (bit_xor_comm c (1 * 2 ^ 31))
        ∙ bit_xor_assoc (1 * 2 ^ 31) c r
        ∙ bit_xor_add 31 1 (bit_xor c r) (bit_xor-lt 31 c r hc (omega arith))

shift_bit_injective :
    (p a b : ℕ)
    → 2 ^ 31 ≤ p
    → p < 2 ^ 32
    → a < 2 ^ 32
    → b < 2 ^ 32
    → shift_bit p a ≡ shift_bit p b
    → a ≡ b
shift_bit_injective p a b hp hq ha hb e = elim (parity a) [
  | inl x ↦ elim (parity b) [
    | inl y ↦ omega (arith, shift_bit-even p a x, shift_bit-even p b y)
    | inr y ↦ absurd (
        omega
          (arith, shift_bit-even p a x, shift_bit-odd p b y, high p (b / 2) hp hq (omega arith)))
  ]
  | inr x ↦ elim (parity b) [
    | inl y ↦ absurd (
        omega
          (arith, shift_bit-odd p a x, shift_bit-even p b y, high p (a / 2) hp hq (omega arith)))
    | inr y ↦ omega (
      arith,
      bit_xor_cancel (a / 2) (b / 2) p (sym (shift_bit-odd p a x) ∙ e ∙ shift_bit-odd p b y),
    )
  ]
]

pub shift_bits-lt : (p k c : ℕ) → p < 2 ^ 32 → c < 2 ^ 32 → shift_bits p k c < 2 ^ 32
shift_bits-lt p zero c hp hc = hc
shift_bits-lt p (suc k) c hp hc = shift_bits-lt p k (shift_bit p c) hp (shift_bit-lt p c hp hc)

shift_bits_injective :
    (p k a b : ℕ)
    → 2 ^ 31 ≤ p
    → p < 2 ^ 32
    → a < 2 ^ 32
    → b < 2 ^ 32
    → shift_bits p k a ≡ shift_bits p k b
    → a ≡ b
shift_bits_injective p zero a b hp hq ha hb e = e
shift_bits_injective p (suc k) a b hp hq ha hb e = shift_bit_injective p a b hp hq ha hb (
    shift_bits_injective p k (shift_bit p a) (shift_bit p b) hp hq (shift_bit-lt p a hq ha)
      (shift_bit-lt p b hq hb) e)

-- A byte on top of 32 bits.
with_byte-lt : (c x : ℕ) → c < 2 ^ 32 → x < 256 → bit_xor c x < 2 ^ 32
with_byte-lt c x hc hx = bit_xor-lt 32 c x hc (omega arith)

by_bits-lt :
    (p c : ℕ) (bs : List ℕ)
    → p < 2 ^ 32
    → c < 2 ^ 32
    → All (λ b. b < 256) bs
    → by_bits p c bs < 2 ^ 32
by_bits-lt p c [] hp hc h = hc
by_bits-lt p c (b ∷ bs) hp hc (hb, h) =
    by_bits-lt p (shift_bits p 8 (bit_xor c b)) bs hp
      (shift_bits-lt p 8 (bit_xor c b) hp (with_byte-lt c b hc hb)) h

by_bits_injective :
    (p a b : ℕ) (bs : List ℕ)
    → 2 ^ 31 ≤ p
    → p < 2 ^ 32
    → a < 2 ^ 32
    → b < 2 ^ 32
    → All (λ b. b < 256) bs
    → by_bits p a bs ≡ by_bits p b bs
    → a ≡ b
by_bits_injective p a b [] hp hq ha hb h e = e
by_bits_injective p a b (x ∷ bs) hp hq ha hb (hx, h) e = bit_xor_cancel a b x (
    shift_bits_injective p 8 (bit_xor a x) (bit_xor b x) hp hq la lb (
      by_bits_injective p (shift_bits p 8 (bit_xor a x)) (shift_bits p 8 (bit_xor b x)) bs hp hq
        (shift_bits-lt p 8 (bit_xor a x) hq la) (shift_bits-lt p 8 (bit_xor b x) hq lb) h e))
  where
    la : bit_xor a x < 2 ^ 32
    la = with_byte-lt a x ha hx

    lb : bit_xor b x < 2 ^ 32
    lb = with_byte-lt b x hb hx

-- The first different byte is seen at the end.
by_bits-byte :
    (p c : ℕ) (xs : List ℕ) (x y : ℕ) (ys : List ℕ)
    → 2 ^ 31 ≤ p
    → p < 2 ^ 32
    → c < 2 ^ 32
    → All (λ b. b < 256) xs
    → x < 256
    → y < 256
    → All (λ b. b < 256) ys
    → by_bits p c (xs ++ (x ∷ ys)) ≡ by_bits p c (xs ++ (y ∷ ys))
    → x ≡ y
by_bits-byte p c [] x y ys hp hq hc hxs hx hy hys e = bit_xor_cancel x y c (
    bit_xor_comm x c
    ∙ shift_bits_injective p 8 (bit_xor c x) (bit_xor c y) hp hq lx ly (
        by_bits_injective p (shift_bits p 8 (bit_xor c x)) (shift_bits p 8 (bit_xor c y)) ys hp hq
          (shift_bits-lt p 8 (bit_xor c x) hq lx) (shift_bits-lt p 8 (bit_xor c y) hq ly) hys e)
    ∙ bit_xor_comm c y)
  where
    lx : bit_xor c x < 2 ^ 32
    lx = with_byte-lt c x hc hx

    ly : bit_xor c y < 2 ^ 32
    ly = with_byte-lt c y hc hy
by_bits-byte p c (z ∷ xs) x y ys hp hq hc (hz, hxs) hx hy hys e =
    by_bits-byte p (shift_bits p 8 (bit_xor c z)) xs x y ys hp hq
      (shift_bits-lt p 8 (bit_xor c z) hq (with_byte-lt c z hc hz)) hxs hx hy hys e

reversed-lt : (poly : CrcPolynomial) → reversed poly < 2 ^ 32
reversed-lt ieee = omega arith
reversed-lt castagnoli = omega arith

reversed_high : (poly : CrcPolynomial) → 2 ^ 31 ≤ reversed poly
reversed_high ieee = omega arith
reversed_high castagnoli = omega arith

pub checksum-lt :
    (poly : CrcPolynomial) (bs : List ℕ) → All (λ b. b < 256) bs → checksum poly bs < 2 ^ 32
checksum-lt poly bs h =
    bit_xor-lt 32 (by_bits (reversed poly) 0xffffffff bs) 0xffffffff
      (by_bits-lt (reversed poly) 0xffffffff bs (reversed-lt poly) (omega arith) h) (omega arith)

pub checksum-byte :
    (poly : CrcPolynomial) (xs : List ℕ) (x y : ℕ) (ys : List ℕ)
    → All (λ b. b < 256) xs
    → x < 256
    → y < 256
    → All (λ b. b < 256) ys
    → checksum poly (xs ++ (x ∷ ys)) ≡ checksum poly (xs ++ (y ∷ ys))
    → x ≡ y
checksum-byte poly xs x y ys hxs hx hy hys e =
    by_bits-byte (reversed poly) 0xffffffff xs x y ys (reversed_high poly) (reversed-lt poly)
      (omega arith) hxs hx hy hys
      (bit_xor_cancel (by_bits (reversed poly) 0xffffffff (xs ++ (x ∷ ys)))
        (by_bits (reversed poly) 0xffffffff (xs ++ (y ∷ ys))) 0xffffffff e)
