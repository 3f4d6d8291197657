-- ===== src/Base/Xor.antt =====
-- Laws of exclusive or, by its digits.
use Prim.Native.Nat.{
  ℕ, zero, suc, ◌+◌, ◌*◌, ◌/◌, ◌%◌, ◌^◌, ◌≤◌, ◌<◌, bit_xor, differ, bit_xor-bitwise,
}
use mathlib.Core.Path.{◌≡◌, refl, sym, ap, ◌∙◌}
use native.Mathlib.Nat.{pow-suc, mul-one}
use native.Mathlib.Omega.{arith}
use coev.Base.Bits.{bit_xor_digit, bit_xor-zero, half, even, mul-pow-suc}

differ-digit : (a b : ℕ) → differ (a % 2) (b % 2) < 2
differ-digit a b = go (a % 2) (b % 2) (omega arith) (omega arith)
  where
    go : (x y : ℕ) → x < 2 → y < 2 → differ x y < 2
    go zero y h k = k
    go (suc zero) zero h k = omega arith
    go (suc zero) (suc zero) h k = omega arith
    go (suc zero) (suc (suc y)) h k = absurd (omega arith)
    go (suc (suc x)) y h k = absurd (omega arith)

pub bit_xor_half : (a b : ℕ) → bit_xor a b / 2 ≡ bit_xor (a / 2) (b / 2)
bit_xor_half a b = omega (arith, bit_xor_digit a b, differ-digit a b)

pub bit_xor_low : (a b : ℕ) → bit_xor a b % 2 ≡ differ (a % 2) (b % 2)
bit_xor_low a b = omega (arith, bit_xor_digit a b, differ-digit a b)

differ_comm : (x y : ℕ) → differ x y ≡ differ y x
differ_comm zero zero = refl
differ_comm zero (suc y) = refl
differ_comm (suc x) zero = refl
differ_comm (suc x) (suc y) = differ_comm x y

differ_self : (x : ℕ) → differ x x ≡ 0
differ_self zero = refl
differ_self (suc x) = differ_self x

differ_assoc : (x y z : ℕ) → x < 2 → y < 2 → z < 2 → differ (differ x y) z ≡ differ x (differ y z)
differ_assoc zero y z hx hy hz = refl
differ_assoc (suc zero) zero z hx hy hz = refl
differ_assoc (suc zero) (suc zero) zero hx hy hz = refl
differ_assoc (suc zero) (suc zero) (suc zero) hx hy hz = refl
differ_assoc (suc zero) (suc zero) (suc (suc z)) hx hy hz = absurd (omega arith)
differ_assoc (suc zero) (suc (suc y)) z hx hy hz = absurd (omega arith)
differ_assoc (suc (suc x)) y z hx hy hz = absurd (omega arith)

pub zero-bit_xor : (b : ℕ) → bit_xor 0 b ≡ b
zero-bit_xor b = bit_xor-bitwise 0 b

comm_to : (k a b : ℕ) → a ≤ k → b ≤ k → bit_xor a b ≡ bit_xor b a
comm_to zero zero zero p q = refl
comm_to zero (suc a) b p q = absurd (omega arith)
comm_to zero zero (suc b) p q = absurd (omega arith)
comm_to (suc k) a b p q = omega (
  arith,
  bit_xor_digit a b,
  bit_xor_digit b a,
  differ_comm (a % 2) (b % 2),
  comm_to k (a / 2) (b / 2) (omega arith) (omega arith),
)

pub bit_xor_comm : (a b : ℕ) → bit_xor a b ≡ bit_xor b a
bit_xor_comm a b = comm_to (a + b) a b (omega arith) (omega arith)

self_to : (k a : ℕ) → a ≤ k → bit_xor a a ≡ 0
self_to zero zero p = zero-bit_xor 0
self_to zero (suc a) p = absurd (omega arith)
self_to (suc k) a p =
    omega (arith, bit_xor_digit a a, differ_self (a % 2), self_to k (a / 2) (omega arith))

pub bit_xor_self : (a : ℕ) → bit_xor a a ≡ 0
bit_xor_self a = self_to a a (omega arith)

-- The digits of a nested one, on either side.
left_digit :
    (a b c : ℕ)
    → bit_xor (bit_xor a b) c
      ≡ bit_xor (bit_xor (a / 2) (b / 2)) (c / 2) * 2 + differ (differ (a % 2) (b % 2)) (c % 2)
left_digit a b c =
    bit_xor_digit (bit_xor a b) c
    ∙ ap (λ h. bit_xor h (c / 2) * 2 + differ (bit_xor a b % 2) (c % 2)) (bit_xor_half a b)
    ∙ ap (λ l. bit_xor (bit_xor (a / 2) (b / 2)) (c / 2) * 2 + differ l (c % 2)) (bit_xor_low a b)

right_digit :
    (a b c : ℕ)
    → bit_xor a (bit_xor b c)
      ≡ bit_xor (a / 2) (bit_xor (b / 2) (c / 2)) * 2 + differ (a % 2) (differ (b % 2) (c % 2))
right_digit a b c =
    bit_xor_digit a (bit_xor b c)
    ∙ ap (λ h. bit_xor (a / 2) h * 2 + differ (a % 2) (bit_xor b c % 2)) (bit_xor_half b c)
    ∙ ap (λ l. bit_xor (a / 2) (bit_xor (b / 2) (c / 2)) * 2 + differ (a % 2) l) (bit_xor_low b c)

assoc_to : (k a b c : ℕ) → a ≤ k → b ≤ k → c ≤ k → bit_xor (bit_xor a b) c ≡ bit_xor a (bit_xor b c)
assoc_to zero zero b c p q r =
    ap (λ x. bit_xor x c) (zero-bit_xor b) ∙ sym (zero-bit_xor (bit_xor b c))
assoc_to zero (suc a) b c p q r = absurd (omega arith)
assoc_to (suc k) a b c p q r = omega (
  arith,
  left_digit a b c,
  right_digit a b c,
  differ_assoc (a % 2) (b % 2) (c % 2) (omega arith) (omega arith) (omega arith),
  assoc_to k (a / 2) (b / 2) (c / 2) (omega arith) (omega arith) (omega arith),
)

pub bit_xor_assoc : (a b c : ℕ) → bit_xor (bit_xor a b) c ≡ bit_xor a (bit_xor b c)
bit_xor_assoc a b c = assoc_to (a + b + c) a b c (omega arith) (omega arith) (omega arith)

pub bit_xor_cancel : (a b c : ℕ) → bit_xor a c ≡ bit_xor b c → a ≡ b
bit_xor_cancel a b c e = sym (twice a) ∙ ap (λ x. bit_xor x c) e ∙ twice b
  where
    twice : (x : ℕ) → bit_xor (bit_xor x c) c ≡ x
    twice x = bit_xor_assoc x c c ∙ ap (bit_xor x) (bit_xor_self c) ∙ bit_xor-zero x

pub bit_xor-lt : (k a b : ℕ) → a < 2 ^ k → b < 2 ^ k → bit_xor a b < 2 ^ k
bit_xor-lt zero a b ha hb = ground (arith, bit_xor-zero 0)
bit_xor-lt (suc k) a b ha hb = omega (
  arith,
  bit_xor_digit a b,
  differ-digit a b,
  pow-suc 2 k,
  bit_xor-lt k (a / 2) (b / 2) (omega (arith, pow-suc 2 k)) (omega (arith, pow-suc 2 k)),
)

-- Above the lowest k digits it adds.
pub bit_xor_add : (k h s : ℕ) → s < 2 ^ k → bit_xor (h * 2 ^ k) s ≡ h * 2 ^ k + s
bit_xor_add zero h s p = ground (arith, bit_xor-zero h, mul-one h)
bit_xor_add (suc k) h s p = ground (
  arith,
  bit_xor_digit (h * 2 ^ suc k) s,
  half k h 0,
  even k h 0,
  mul-pow-suc h k,
  zero-bit_xor (s % 2),
  bit_xor_add k h (s / 2) (omega (arith, pow-suc 2 k)),
)
