-- ===== src/Kafka/Range/Unique.antt =====
-- The members that are left by sort and unique are distinct.
use coev.Base.{ℕ, suc, ◌==◌, ◌≤◌, ◌<◌, ltb, leb, ◌≡◌, arith}
use coev.Base.{List, [], ◌∷◌, length, Bool-cases, inl, inr, false}
use coev.Core.Queue.Chain.{IsFresh, IsDistinct}
use coev.Kafka.Range.{insert, sort, skip, unique, uniq}

-- No item is below x, and each is followed by none below it.
abbrev IsSorted : ℕ → List ℕ → Type 0
IsSorted x [] = Unit {0}
IsSorted x (y ∷ l) = (x ≤ y) × IsSorted y l

IsSorted-weaken : (x y : ℕ) (l : List ℕ) → x ≤ y → IsSorted y l → IsSorted x l
IsSorted-weaken x y [] h s = tt
IsSorted-weaken x y (z ∷ l) h (k, s) = (omega arith, s)

insert-IsSorted : (b x : ℕ) (l : List ℕ) → b ≤ x → IsSorted b l → IsSorted b (insert x l)
insert-IsSorted b x [] h s = (h, tt)
insert-IsSorted b x (y ∷ l) h (k, s) = elim (Bool-cases (leb x y)) [
  | inl e ↦ rw e (h, (ground arith, s))
  | inr e ↦ rw e (k, insert-IsSorted y x l (ground arith) s)
]

sort-IsSorted : (l : List ℕ) → IsSorted 0 (sort l)
sort-IsSorted [] = tt
sort-IsSorted (x ∷ l) = insert-IsSorted 0 x (sort l) (omega arith) (sort-IsSorted l)

IsFresh-below : (x y : ℕ) (l : List ℕ) → x < y → IsSorted y l → IsFresh x l
IsFresh-below x y [] h s = tt
IsFresh-below x y (z ∷ l) h (k, s) = (omega arith, IsFresh-below x z l (omega arith) s)

skip-IsSorted : (x : ℕ) (l : List ℕ) → IsSorted x l → IsSorted (suc x) (skip x l)
skip-IsSorted x [] s = tt
skip-IsSorted x (y ∷ l) (h, s) = elim (Bool-cases (x == y)) [
  | inl e ↦ rw e (skip-IsSorted x l (IsSorted-weaken x y l h s))
  | inr e ↦
      rw e (ground arith, IsSorted-weaken y (suc y) (skip y l) (omega arith) (skip-IsSorted y l s))
]

skip-IsDistinct : (x : ℕ) (l : List ℕ) → IsSorted x l → IsDistinct (skip x l)
skip-IsDistinct x [] s = tt
skip-IsDistinct x (y ∷ l) (h, s) = elim (Bool-cases (x == y)) [
  | inl e ↦ rw e (skip-IsDistinct x l (IsSorted-weaken x y l h s))
  | inr e ↦ rw e (
    IsFresh-below y (suc y) (skip y l) (omega arith) (skip-IsSorted y l s),
    skip-IsDistinct y l s,
  )
]

unique-IsDistinct : (l : List ℕ) → IsSorted 0 l → IsDistinct (unique l)
unique-IsDistinct [] s = tt
unique-IsDistinct (x ∷ l) (h, s) =
    (IsFresh-below x (suc x) (skip x l) (omega arith) (skip-IsSorted x l s), skip-IsDistinct x l s)

pub uniq-IsDistinct : (l : List ℕ) → IsDistinct (uniq l)
unfolding uniq
uniq-IsDistinct [] = tt
uniq-IsDistinct (x ∷ []) = (tt, tt)
uniq-IsDistinct (x ∷ (y ∷ l)) =
    let many : ltb (length (x ∷ (y ∷ l))) 2 ≡ false = ground arith in
    rw many (unique-IsDistinct (sort (x ∷ (y ∷ l))) (sort-IsSorted (x ∷ (y ∷ l))))
