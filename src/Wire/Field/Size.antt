-- ===== src/Wire/Field/Size.antt =====
-- variantSize of variant_length_field.cpp: what it returns, and where it does not.
use coev.Base.{ℕ, zero, suc, ◌+◌, ◌/◌, ◌^◌, ◌<◌, ◌≡◌, refl, ap, ◌∙◌, arith}
use coev.Base.{length, none, some, false}
use coev.Base.Int.{pos, negsuc, eq_ℤ}
use coev.Wire.Format.{groups, uvarint}
use coev.Wire.Field.{variant_size_loop, variant_size}

-- The loop of variantSize never ends on a negative number: it is a fixed point of the shift, or
-- comes to one, and none of them is 0. No fuel is enough.
variant_size_endless : (fuel n size : ℕ) → variant_size_loop fuel (negsuc n) size ≡ none
unfolding variant_size_loop
variant_size_endless zero n size = refl
variant_size_endless (suc fuel) n size =
    let some : eq_ℤ (negsuc (n / 2 ^ 7)) (pos 0) ≡ false = ground arith in
    rw (some, variant_size_loop) (variant_size_endless fuel (n / 2 ^ 7) (size + 1))

loop-groups :
    (k n size : ℕ)
    → n < 128 ^ suc k
    → variant_size_loop (suc k) (pos n) size ≡ some (size + length (groups k n))
unfolding variant_size_loop groups
loop-groups zero n size h = ground arith
loop-groups (suc k) n size h = ground (arith, loop-groups k (n / 128) (size + 1) (omega arith))

-- On a number of 64 bits that is not negative, variantSize ends, and returns the number of groups of
-- the number itself, not of its zigzag form.
variant_size-length : (n : ℕ) → n < 2 ^ 64 → variant_size (pos n) ≡ some (length (uvarint n))
unfolding variant_size
variant_size-length n h = loop-groups 9 n 0 (omega arith) ∙ ap some (omega arith)

-- On a number of 64 bits that is not negative, variantSize ends, and returns the number of groups of
-- the number itself, not of its zigzag form. On a negative number its loop never ends: it is a fixed
-- point of the shift, or comes to one, so that no fuel is enough.
pub variant_size_ends :
    (n : ℕ) (fuel k size : ℕ)
    → n < 2 ^ 64
    → (variant_size (pos n) ≡ some (length (uvarint n)))
      × (variant_size_loop fuel (negsuc k) size ≡ none)
variant_size_ends n fuel k size h = (variant_size-length n h, variant_size_endless fuel k size)
