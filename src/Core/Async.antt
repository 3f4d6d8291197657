-- ===== src/Core/Async.antt =====
-- guard::co_async of co_async.cpp, src/coev: an object behind a lock, and the tasks that wait for
-- it. The waiters are the nodes of the queue that co_async is, from front to back; each has the
-- getter that is called for it. What runs between lock and unlock is one function of the state.
use coev.Base.{ℕ, List, [], ◌∷◌, ◌++◌, Bool, true, false, Option, none, some, if◌then◌else◌}

-- Undefined behaviour of a getter is `none`.
pub record Async (S : Type 0) : Type 0 where
  pub object : S
  pub waiters : List (ℕ × (S → Option S))

module _ {S : Type 0} where
  -- The task goes on (`true`) or waits.
  abbrev pub went_on : Async S → Option S → Option (Bool × Async S)
  went_on a none = none
  went_on a (some s) = some (true, record a { object = s })

  unfoldable pub suspend : (S → Bool) → (S → Option S) → ℕ → Async S → Option (Bool × Async S)
  suspend must_wait getter task a =
      if must_wait a.object
      then some (false, record a { waiters = a.waiters ++ ((task, getter) ∷ []) })
      else went_on a (getter a.object)

  abbrev pub called : ℕ → List (ℕ × (S → Option S)) → Option S → Option (Option ℕ × Async S)
  called task rest none = none
  called task rest (some s) = some (some task, record { object = s; waiters = rest })

  abbrev pub popped : S → List (ℕ × (S → Option S)) → Option (Option ℕ × Async S)
  popped s [] = some (none, record { object = s; waiters = [] })
  popped s ((task, getter) ∷ rest) = called task rest (getter s)

  -- __ev: the task whose wait is over, if one waits. deliver and resume then resume it.
  unfoldable pub event : (S → S) → Async S → Option (Option ℕ × Async S)
  event set a = popped (set a.object) a.waiters
