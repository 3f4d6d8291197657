-- ===== src/Wire/Format/Groups.antt =====
-- How many groups of seven bits a number takes.
use coev.Base.{ℕ, zero, suc, ◌/◌, ◌^◌, ◌≤◌, ◌<◌, ◌≡◌, refl, arith}
use coev.Wire.Format.{groups}

-- Room for more groups than a number needs changes nothing.
pub groups_enough : (k l v : ℕ) → v < 128 ^ suc k → k ≤ l → groups l v ≡ groups k v
unfolding groups
groups_enough zero zero v h le = refl
groups_enough zero (suc l) v h le = ground arith
groups_enough (suc k) zero v h le = absurd (omega arith)
groups_enough (suc k) (suc l) v h le =
    ground (arith, groups_enough k l (v / 128) (omega arith) (omega arith))
