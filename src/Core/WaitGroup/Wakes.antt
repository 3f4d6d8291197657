-- ===== src/Core/WaitGroup/Wakes.antt =====
-- A task that waits is woken: by a count that is still to come down, or by a loop that runs.
use mathlib.Core.Path.{subst}
use coev.Base.{ℕ, suc, ◌<◌, ◌≡◌, refl, sym, arith}
use coev.Base.{List, [], ◌∷◌, true, false, none, some, ◌⊎◌, inl, inr, Bool-cases}
use coev.Base.Int.{ℤ, pos, ltb_ℤ, int_of_long}
use coev.Core.WaitGroup.{Group, plus, count_pred, add, count_down, test, enter, deliver}
use coev.Core.WaitGroup.{Step, adds, counts, tests, enters, delivers, Reach, start, later}

-- No task waits or is about to, or the count is above 0, or a loop wakes tasks.
abbrev pub Inv : Group → Type 0
Inv g = ((g.waiters ≡ []) × (g.entering ≡ none)) ⊎ ((ltb_ℤ (pos 0) g.count ≡ true) ⊎ (0 < g.waking))

add-Inv :
    (n : ℤ) (g : Group)
    → (ltb_ℤ (pos 0) g.count ≡ true → ltb_ℤ (pos 0) (int_of_long (plus g.count n)) ≡ true)
    → Inv g
    → Inv (add n g)
unfolding add
add-Inv n g k (inl h) = inl h
add-Inv n g k (inr (inl h)) = inr (inl (k h))
add-Inv n g k (inr (inr h)) = inr (inr h)

count_down-Inv : (g : Group) → Inv g → Inv (count_down g)
unfolding count_down
count_down-Inv g i = elim (Bool-cases (ltb_ℤ (pos 0) (int_of_long (count_pred g.count)))) [
  | inl e ↦ rw e (inr (inl e))
  | inr e ↦ rw e (inr (inr (omega arith)))
]

test-Inv : (task : ℕ) (g : Group) → Inv g → Inv (test task g)
unfolding test
test-Inv task g i = elim (Bool-cases (ltb_ℤ (pos 0) g.count)) [
  | inl e ↦ rw e (inr (inl e))
  | inr e ↦ rw e i
]

enter-Inv : (task : ℕ) (g : Group) → g.entering ≡ some task → Inv g → Inv (enter task g)
unfolding enter
enter-Inv task g e (inl (h, k)) = ground arith
enter-Inv task g e (inr h) = inr h

deliver-Inv :
    (others : ℕ) (g : Group) (ws : List ℕ)
    → g.waiters ≡ ws
    → g.waking ≡ suc others
    → g.entering ≡ none
    → Inv
        (elim ws [ [] ↦ record g { waking = others } | task ∷ rest ↦ record g { waiters = rest } ])
deliver-Inv others g [] w k e = inl (w, e)
deliver-Inv others g (task ∷ rest) w k e = inr (inr (omega arith))

Step-Inv : {g h : Group} → Step g h → Inv g → Inv h
unfolding deliver
Step-Inv {g} {h} (adds n k q) i = subst Inv (sym q) (add-Inv n g k i)
Step-Inv {g} {h} (counts q) i = subst Inv (sym q) (count_down-Inv g i)
Step-Inv {g} {h} (tests task e q) i = subst Inv (sym q) (test-Inv task g i)
Step-Inv {g} {h} (enters task e q) i = subst Inv (sym q) (enter-Inv task g e i)
Step-Inv {g} {h} (delivers others k e q) i =
    subst Inv (sym q) (deliver-Inv others g g.waiters refl k e)

Reach-Inv : {g : Group} → Reach g → Inv g
Reach-Inv start = inl (refl, refl)
Reach-Inv (later r st) = Step-Inv st (Reach-Inv r)

all_woken :
    (g : Group)
    → Inv g
    → ltb_ℤ (pos 0) g.count ≡ false
    → g.waking ≡ 0
    → (g.waiters ≡ []) × (g.entering ≡ none)
all_woken g (inl h) c w = h
all_woken g (inr (inl h)) c w = ground arith
all_woken g (inr (inr h)) c w = absurd (omega arith)

-- In any interleaving of the accesses of add, done and wait on any threads, where no add, of a number of
-- either sign, takes a count above 0 to 0 or below: once the count is not above 0 and no done() is in its loop, no task waits, and
-- none is about to.
pub no_lost_waiter :
    (g : Group)
    → Reach g
    → ltb_ℤ (pos 0) g.count ≡ false
    → g.waking ≡ 0
    → (g.waiters ≡ []) × (g.entering ≡ none)
no_lost_waiter g r c w = all_woken g (Reach-Inv r) c w
