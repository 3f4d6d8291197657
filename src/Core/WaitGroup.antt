-- ===== src/Core/WaitGroup.antt =====
-- co_waitgroup.cpp of src/coev: tasks that count down and tasks that wait for the count, on any
-- threads. The count is atomic, and not under the lock of the waiters.
pub mod Wakes
use coev.Base.{ℕ, zero, suc, ◌+◌, ◌^◌, ◌==◌, if◌then◌else◌, List, [], ◌∷◌, ◌++◌, Bool, true, false}
use coev.Base.{Option, none, some, ◌≡◌}
use coev.Base.Int.{ℤ, pos, negsuc, ltb_ℤ, sub_ℕ, int_of_long}

abbrev pub count_pred : ℤ → ℤ
count_pred (pos zero) = negsuc 0
count_pred (pos (suc n)) = pos n
count_pred (negsuc n) = negsuc (suc n)

-- m_count, the tasks in m_waiter, the task that holds its lock between the test of the count and
-- its place in the queue, and the number of tasks in the loop of done().
pub record Group : Type 0 where
  pub count : ℤ
  pub waiters : List ℕ
  pub entering : Option ℕ
  pub waking : ℕ

abbrev pub group : Group
group = record { count = pos 0; waiters = []; entering = none; waking = 0 }

-- `m_count > 0`
abbrev pub must_wait : Group → Bool
must_wait g = ltb_ℤ (pos 0) g.count

abbrev pub plus : ℤ → ℤ → ℤ
plus (pos m) (pos n) = pos (m + n)
plus (pos m) (negsuc n) = sub_ℕ m (n + 1)
plus (negsuc m) (pos n) = sub_ℕ n (m + 1)
plus (negsuc m) (negsuc n) = negsuc (m + n + 1)

-- add(n) of any int, and add() of 1: an atomic_int wraps around.
unfoldable pub add : ℤ → Group → Group
add n g = record g { count = int_of_long (plus g.count n) }

-- `if (--m_count > 0) return;`
unfoldable pub count_down : Group → Group
count_down g =
    let count = int_of_long (count_pred g.count) in
    if ltb_ℤ (pos 0) count
    then record g { count = count }
    else record g { count = count; waking = suc g.waking }

-- The test of wait(), under the lock.
unfoldable pub test : ℕ → Group → Group
test task g = if must_wait g then record g { entering = some task } else g

-- The place in the queue, and the end of the lock.
unfoldable pub enter : ℕ → Group → Group
enter task g = record g { waiters = g.waiters ++ (task ∷ []); entering = none }

-- `while (m_waiter.deliver(0))`: one call, under the lock, that wakes a task or ends the loop.
unfoldable pub deliver : ℕ → Group → Group
deliver others g = elim g.waiters [
  | [] ↦ record g { waking = others }
  | task ∷ rest ↦ record g { waiters = rest }
]

-- An access by any thread; those under the lock need it free, or to hold it. No add takes a
-- count above 0 to 0 or below, by a negative number or by wrapping around: it would wake no one.
pub data Step (g : Group) (h : Group) : Type 0 where
  adds :
      (n : ℤ)
      → (ltb_ℤ (pos 0) g.count ≡ true → ltb_ℤ (pos 0) (int_of_long (plus g.count n)) ≡ true)
      → h ≡ add n g
      → Step g h
  counts : h ≡ count_down g → Step g h
  tests : (task : ℕ) → g.entering ≡ none → h ≡ test task g → Step g h
  enters : (task : ℕ) → g.entering ≡ some task → h ≡ enter task g → Step g h
  delivers :
      (others : ℕ) → g.waking ≡ suc others → g.entering ≡ none → h ≡ deliver others g → Step g h

pub data Reach : Group → Type 0 where
  start : Reach group
  later : {g h : Group} → Reach g → Step g h → Reach h
