-- ===== src/Wire/Encoder/Varint/Counts.antt =====
-- What PREP counts for a base-128 number: right for unsigned numbers and for negative ones, and a
-- byte short for the positive numbers that fill their last group.
use coev.Base.{ℕ, zero, suc, ◌+◌, ◌*◌, ◌/◌, ◌^◌, ◌≤◌, ◌<◌, ◌≡◌, refl, sym, ap, ◌∙◌, arith}
use coev.Base.{length}
use coev.Base.Int.{ℤ, pos, negsuc, IsInt}
use native.Mathlib.Nat.{pow-suc, one-le-pow}
use coev.Wire.Format.{groups, uvarint, varint}
use coev.Wire.Encoder.View.{Writes, Writes-of_eq}
use coev.Wire.Encoder.Fixed.{Writes-by_kind}
use coev.Wire.Encoder.Varint.{uvarint_len_loop, uvarint_len, varint_len_loop, varint_len}
use coev.Wire.Encoder.Varint.{put_uvarint, put_variant, encode_uvariant, encode_variant}
use coev.Wire.Encoder.Varint.Bytes.{encode_uvariant-groups, encode_variant-groups}

len_loop-groups :
    (k x s : ℕ) → x < 128 ^ suc k → uvarint_len_loop (suc k) x s ≡ s + length (groups k x)
unfolding uvarint_len_loop groups
len_loop-groups zero x s h = ground arith
len_loop-groups (suc k) x s h = ground (arith, len_loop-groups k (x / 2 ^ 7) (s + 1))

pub uvarint_len-length : (x : ℕ) → x < 2 ^ 64 → uvarint_len x ≡ length (uvarint x)
unfolding uvarint_len
uvarint_len-length x h = ground (arith, len_loop-groups 9 x 0, zero_length)
  where
    zero_length : length (uvarint 0) ≡ 1
    zero_length = unfold groups in refl

pub Writes-put_uvarint : (version x : ℕ) → x < 2 ^ 64 → Writes version (put_uvarint x) (uvarint x)
unfolding put_uvarint
Writes-put_uvarint version x h = Writes-of_eq version _ (encode_uvariant-groups x h) (
    Writes-by_kind version (uvarint_len x) (encode_uvariant x)
      (ap length (encode_uvariant-groups x h) ∙ sym (uvarint_len-length x h)))

-- The number of groups does not depend on the lowest digit.
length-groups_odd : (k x : ℕ) → length (groups k x) ≡ length (groups k (x / 2 * 2 + 1))
unfolding groups
length-groups_odd zero x = refl
length-groups_odd (suc k) x =
    let e : x / 128 ≡ (x / 2 * 2 + 1) / 128 = omega arith in
    ground (arith, e, ap (λ (t : ℕ). length (groups k t)) e)

positive_loop :
    (k n s : ℕ) → n < 128 ^ suc k → varint_len_loop (suc k) (pos n) s ≡ s + length (groups k n)
unfolding varint_len_loop groups
positive_loop zero n s h = ground arith
positive_loop (suc k) n s h = ground (arith, positive_loop k (n / 2 ^ 7) (s + 1))

-- A shift by seven of a negative number and of its zigzag number.
shifted :
    (k n : ℕ) → length (groups k ((2 * n + 1) / 128)) ≡ length (groups k (2 * (n / 2 ^ 7) + 1))
shifted k n =
    let e : (2 * n + 1) / 128 / 2 * 2 + 1 ≡ 2 * (n / 2 ^ 7) + 1 = omega arith in
    length-groups_odd k ((2 * n + 1) / 128) ∙ ap (λ (t : ℕ). length (groups k t)) e

negative_loop :
    (k n s : ℕ)
    → 2 * n + 1 < 128 ^ suc k
    → varint_len_loop (suc k) (negsuc n) s ≡ s + length (groups k (2 * n + 1))
unfolding varint_len_loop groups
negative_loop zero n s h = ground arith
negative_loop (suc k) n s h = ground (arith, shifted k n, negative_loop k (n / 2 ^ 7) (s + 1))

-- A number of j + 1 groups.
pub length-groups :
    (j k x : ℕ) → 128 ^ j ≤ x → x < 128 ^ suc j → j ≤ k → length (groups k x) ≡ suc j
unfolding groups
length-groups zero zero x lo hi h = refl
length-groups zero (suc k) x lo hi h = ground arith
length-groups (suc j) zero x lo hi h = absurd (omega arith)
length-groups (suc j) (suc k) x lo hi h = ground (
  arith,
  pow-suc 128 j,
  pow-suc 128 (suc j),
  one-le-pow j 128,
  length-groups j k (x / 128) (omega (arith, pow-suc 128 j)) (omega (arith, pow-suc 128 (suc j)))
      (omega arith),
)

pub varint_len_negative : (n : ℕ) → n < 2 ^ 63 → varint_len (negsuc n) ≡ length (varint (negsuc n))
unfolding varint_len
varint_len_negative n h = negative_loop 9 n 0 (omega arith) ∙ omega arith

pub varint_len_positive : (n : ℕ) → n < 2 ^ 63 → varint_len (pos n) ≡ length (uvarint n)
unfolding varint_len
varint_len_positive n h = positive_loop 9 n 0 (omega arith) ∙ omega arith

pub Writes-put_variant :
    (version : ℕ) (z : ℤ)
    → IsInt 64 z
    → varint_len z ≡ length (varint z)
    → Writes version (put_variant z) (varint z)
unfolding put_variant
Writes-put_variant version z h same = Writes-of_eq version _ (encode_variant-groups z h) (
    Writes-by_kind version (varint_len z) (encode_variant z)
      (ap length (encode_variant-groups z h) ∙ sym same))
