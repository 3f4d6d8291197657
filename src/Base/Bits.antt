-- ===== src/Base/Bits.antt =====
-- Laws of the bit operations: `|` of disjoint fields is `+`, a mask is a remainder, and `^` with
-- all ones is the complement. The library's operations mean `digits`, a recursion with fuel.
use Prim.Native.Nat.{ℕ, zero, suc, ◌+◌, ◌-◌, ◌*◌, ◌/◌, ◌%◌, ◌^◌, ◌≤◌, ◌<◌, min, max}
use Prim.Native.Nat.{bit_and, bit_or, bit_xor, digits, differ}
use Prim.Native.Nat.{bit_and-bitwise, bit_or-bitwise, bit_xor-bitwise}
use mathlib.Core.Path.{◌≡◌, refl, ap}
use native.Mathlib.Nat.{pow-suc, one-le-pow, add-zero, mul-one, div-add-mod, div-div-eq-div-mul}
use native.Mathlib.Omega.{arith}

-- Enough fuel is enough: the recursion on digits does not depend on it.
fuel_free :
    (z : ℕ → ℕ) (f : ℕ → ℕ → ℕ) (k l a b : ℕ) → a ≤ k → a ≤ l → digits z f k a b ≡ digits z f l a b
fuel_free z f zero zero a b p q = refl
fuel_free z f zero (suc l) zero b p q = refl
fuel_free z f zero (suc l) (suc a) b p q = absurd (omega arith)
fuel_free z f (suc k) zero zero b p q = refl
fuel_free z f (suc k) zero (suc a) b p q = absurd (omega arith)
fuel_free z f (suc k) (suc l) zero b p q = refl
fuel_free z f (suc k) (suc l) (suc a) b p q =
    omega (arith, fuel_free z f k l (suc a / 2) (b / 2) (omega arith) (omega arith))

-- The lowest digit of each operation, and what is left of it.
bit_or_digit : (a b : ℕ) → bit_or a b ≡ bit_or (a / 2) (b / 2) * 2 + max (a % 2) (b % 2)
bit_or_digit zero b = omega (arith, bit_or-bitwise 0 b, bit_or-bitwise 0 (b / 2))
bit_or_digit (suc a) b = omega (
  arith,
  bit_or-bitwise (suc a) b,
  bit_or-bitwise (suc a / 2) (b / 2),
  fuel_free (λ c. c) max a (suc a / 2) (suc a / 2) (b / 2) (omega arith) (omega arith),
)

bit_and_digit : (a b : ℕ) → bit_and a b ≡ bit_and (a / 2) (b / 2) * 2 + min (a % 2) (b % 2)
bit_and_digit zero b = omega (arith, bit_and-bitwise 0 b, bit_and-bitwise 0 (b / 2))
bit_and_digit (suc a) b = omega (
  arith,
  bit_and-bitwise (suc a) b,
  bit_and-bitwise (suc a / 2) (b / 2),
  fuel_free (λ c. 0) min a (suc a / 2) (suc a / 2) (b / 2) (omega arith) (omega arith),
)

pub bit_xor_digit : (a b : ℕ) → bit_xor a b ≡ bit_xor (a / 2) (b / 2) * 2 + differ (a % 2) (b % 2)
bit_xor_digit zero b = omega (arith, bit_xor-bitwise 0 b, bit_xor-bitwise 0 (b / 2), low (b % 2))
  where
    low : (c : ℕ) → differ 0 c ≡ c
    low c = refl
bit_xor_digit (suc a) b = omega (
  arith,
  bit_xor-bitwise (suc a) b,
  bit_xor-bitwise (suc a / 2) (b / 2),
  fuel_free (λ c. c) differ a (suc a / 2) (suc a / 2) (b / 2) (omega arith) (omega arith),
)

pub mul-pow-suc : (q k : ℕ) → q * 2 ^ suc k ≡ 2 * (q * 2 ^ k)
mul-pow-suc q k = omega (arith, ap (λ (t : ℕ). q * t) (pow-suc 2 k))

pub half : (k a b : ℕ) → (a * 2 ^ suc k + b) / 2 ≡ a * 2 ^ k + b / 2
half k a b = omega (arith, mul-pow-suc a k)

pub even : (k a b : ℕ) → (a * 2 ^ suc k + b) % 2 ≡ b % 2
even k a b = omega (arith, mul-pow-suc a k)

zero-bit_or : (b : ℕ) → bit_or 0 b ≡ b
zero-bit_or b = bit_or-bitwise 0 b

zero-bit_and : (b : ℕ) → bit_and 0 b ≡ 0
zero-bit_and b = bit_and-bitwise 0 b

-- `|` works on the low k digits and on the rest apart.
pub bit_or_split :
    (k q p s r : ℕ)
    → s < 2 ^ k
    → r < 2 ^ k
    → bit_or (q * 2 ^ k + s) (p * 2 ^ k + r) ≡ bit_or q p * 2 ^ k + bit_or s r
bit_or_split zero q p zero zero hs hr = simp (zero-bit_or, add-zero, mul-one)
bit_or_split zero q p _ _ hs hr = absurd (omega arith)
bit_or_split (suc k) q p s r hs hr = ground (
  arith,
  bit_or_digit (q * 2 ^ suc k + s) (p * 2 ^ suc k + r),
  bit_or_digit s r,
  half k q s,
  half k p r,
  even k q s,
  even k p r,
  mul-pow-suc (bit_or q p) k,
  bit_or_split k q p (s / 2) (r / 2) (omega (arith, pow-suc 2 k)) (omega (arith, pow-suc 2 k)),
)

half_ones : (k : ℕ) → ((2 ^ suc k - 1) / 2 ≡ 2 ^ k - 1) × ((2 ^ suc k - 1) % 2 ≡ 1)
half_ones k = omega (arith, pow-suc 2 k, one-le-pow k 2)

differ_zero : (c : ℕ) → differ c 0 ≡ c
differ_zero zero = refl
differ_zero (suc c) = refl

differ_one : (c : ℕ) → c < 2 → differ c 1 ≡ 1 - c
differ_one zero h = refl
differ_one (suc zero) h = refl
differ_one (suc (suc c)) h = absurd (omega arith)

and_nothing : (k a : ℕ) → a ≤ k → bit_and a 0 ≡ a % 1
and_nothing k zero h = omega (arith, zero-bit_and 0)
and_nothing zero (suc a) h = absurd (omega arith)
and_nothing (suc k) (suc a) h =
    omega (arith, bit_and_digit (suc a) 0, and_nothing k (suc a / 2) (omega arith))

-- The remainder by 2 ^ (k + 1), by its lowest digit.
mod_double : (m a : ℕ) → a % (2 * m) ≡ a / 2 % m * 2 + a % 2
mod_double m a = omega (
  arith,
  div-add-mod a (2 * m),
  div-add-mod (a / 2) m,
  ap (λ (t : ℕ). m * t) (div-div-eq-div-mul a 2 m),
)

mod_digit : (k a : ℕ) → a % 2 ^ suc k ≡ a / 2 % 2 ^ k * 2 + a % 2
mod_digit k a =
    let e : 2 ^ suc k ≡ 2 * 2 ^ k = omega (arith, pow-suc 2 k) in rw e (mod_double (2 ^ k) a)

or_nothing : (k a : ℕ) → a ≤ k → bit_or a 0 ≡ a
or_nothing k zero h = zero-bit_or 0
or_nothing zero (suc a) h = absurd (omega arith)
or_nothing (suc k) (suc a) h =
    omega (arith, bit_or_digit (suc a) 0, or_nothing k (suc a / 2) (omega arith))

pub bit_or-zero : (a : ℕ) → bit_or a 0 ≡ a
bit_or-zero a = or_nothing a a (omega arith)

-- `|` with a field below the lowest set digit of the other side adds.
pub bit_or_add : (k a q r : ℕ) → a ≡ q * 2 ^ k → r < 2 ^ k → bit_or a r ≡ a + r
bit_or_add k a q r h fits = ground (
  arith,
  one-le-pow k 2,
  bit_or_split k q 0 0 r (omega (arith, one-le-pow k 2)) fits,
  bit_or-zero q,
  zero-bit_or r,
)

-- A mask of k ones is the remainder by 2 ^ k.
pub bit_and_mask : (k a : ℕ) → bit_and a (2 ^ k - 1) ≡ a % 2 ^ k
bit_and_mask zero a = and_nothing a a (omega arith)
bit_and_mask (suc k) a = ground (
  arith,
  bit_and_digit a (2 ^ suc k - 1),
  pow-suc 2 k,
  one-le-pow k 2,
  half_ones k,
  bit_and_mask k (a / 2),
  mod_digit k a,
)

-- Exclusive or with nothing, and with k ones.
xor_nothing : (k a : ℕ) → a ≤ k → bit_xor a 0 ≡ a
xor_nothing k zero h = bit_xor-bitwise 0 0
xor_nothing zero (suc a) h = absurd (omega arith)
xor_nothing (suc k) (suc a) h = omega (
  arith,
  bit_xor_digit (suc a) 0,
  xor_nothing k (suc a / 2) (omega arith),
  differ_zero (suc a % 2),
)

pub bit_xor-zero : (a : ℕ) → bit_xor a 0 ≡ a
bit_xor-zero a = xor_nothing a a (omega arith)

pub bit_xor_ones : (k a : ℕ) → a < 2 ^ k → bit_xor a (2 ^ k - 1) ≡ 2 ^ k - 1 - a
bit_xor_ones zero a h = ground (arith, bit_xor-zero 0)
bit_xor_ones (suc k) a h = ground (
  arith,
  bit_xor_digit a (2 ^ suc k - 1),
  pow-suc 2 k,
  one-le-pow k 2,
  half_ones k,
  differ_one (a % 2) (omega arith),
  bit_xor_ones k (a / 2) (omega (arith, pow-suc 2 k)),
)

pub bit_or_add_high : (k r q : ℕ) → r < 2 ^ k → bit_or r (q * 2 ^ k) ≡ r + q * 2 ^ k
bit_or_add_high k r q fits = ground (
  arith,
  bit_or_split k 0 q r 0 fits (omega (arith, one-le-pow k 2)),
  zero-bit_or q,
  bit_or-zero r,
)

-- A mask whose ones lie above the lowest k digits.
pub bit_and_field :
    (k q p s : ℕ) → s < 2 ^ k → bit_and (q * 2 ^ k + s) (p * 2 ^ k) ≡ bit_and q p * 2 ^ k
bit_and_field zero q p zero fits = simp (add-zero, mul-one)
bit_and_field zero q p (suc s) fits = absurd (omega arith)
bit_and_field (suc k) q p s fits = ground (
  arith,
  bit_and_digit (q * 2 ^ suc k + s) (p * 2 ^ suc k),
  half k q s,
  half k p 0,
  even k q s,
  even k p 0,
  mul-pow-suc (bit_and q p) k,
  bit_and_field k q p (s / 2) (omega (arith, pow-suc 2 k)),
)

-- The tests on a byte.
pub low_group : (b : ℕ) → bit_and b 0x7f ≡ b % 128
low_group b = bit_and_mask 7 b

pub low_byte : (b : ℕ) → bit_and b 0xff ≡ b % 256
low_byte b = bit_and_mask 8 b

pub top_bit : (b : ℕ) → bit_and b 0x80 ≡ b / 128 % 2 * 128
top_bit b =
    ground (arith, bit_and_field 7 (b / 128) 1 (b % 128) (omega arith), bit_and_mask 1 (b / 128))

pub bit_or_ones : (k a : ℕ) → a < 2 ^ k → bit_or a (2 ^ k - 1) ≡ 2 ^ k - 1
bit_or_ones zero a h = ground (arith, bit_or-zero 0)
bit_or_ones (suc k) a h = ground (
  arith,
  bit_or_digit a (2 ^ suc k - 1),
  pow-suc 2 k,
  one-le-pow k 2,
  half_ones k,
  max_one (a % 2) (omega arith),
  bit_or_ones k (a / 2) (omega (arith, pow-suc 2 k)),
)
  where
    max_one : (c : ℕ) → c < 2 → max c 1 ≡ 1
    max_one c p = omega arith

pub bit_or-lt : (k a b : ℕ) → a < 2 ^ k → b < 2 ^ k → bit_or a b < 2 ^ k
bit_or-lt zero a b ha hb = ground (arith, bit_or-zero 0)
bit_or-lt (suc k) a b ha hb = omega (
  arith,
  bit_or_digit a b,
  pow-suc 2 k,
  bit_or-lt k (a / 2) (b / 2) (omega (arith, pow-suc 2 k)) (omega (arith, pow-suc 2 k)),
)

-- Two numbers whose lowest k digits are 0.
pub bit_or_high : (k q p : ℕ) → bit_or (q * 2 ^ k) (p * 2 ^ k) ≡ bit_or q p * 2 ^ k
bit_or_high k q p = ground (
  arith,
  bit_or_split k q p 0 0 (omega (arith, one-le-pow k 2)) (omega (arith, one-le-pow k 2)),
  bit_or-zero 0,
)
