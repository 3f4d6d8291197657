-- ===== src/Core/Channel.antt =====
-- guard::co_channel of co_channel.h, src/coev.
pub mod Order
pub mod Local
use coev.Base.{ℕ, List, [], ◌∷◌, ◌++◌, Bool, true, false, Option, none, some}
use coev.Core.Async.{Async, suspend, event}

-- m_data, and the values that the tasks got so far, the first one first.
pub record Box (A : Type 0) : Type 0 where
  pub values : List A
  pub got : List (ℕ × A)

module _ {A : Type 0} where
  abbrev pub nothing : List A → Bool
  nothing [] = true
  nothing (x ∷ l) = false

  -- `d = __pop_front()` for a task: the front of an empty std::queue is undefined.
  abbrev pub pop_front : ℕ → Box A → Option (Box A)
  pop_front task b = elim b.values [
    | [] ↦ none
    | x ∷ l ↦ some (record { values = l; got = b.got ++ ((task, x) ∷ []) })
  ]

  unfoldable pub get : ℕ → Async (Box A) → Option (Bool × Async (Box A))
  get task = suspend (λ b. nothing b.values) (pop_front task) task

  abbrev pub push : A → Box A → Box A
  push x b = record b { values = b.values ++ (x ∷ []) }

  unfoldable pub set : A → Async (Box A) → Option (Option ℕ × Async (Box A))
  set x = event (push x)

  abbrev pub tried : Async (Box A) → Option (Box A) → Option (Bool × Async (Box A))
  tried a none = none
  tried a (some b) = some (true, record a { object = b })

  unfoldable pub try_get : ℕ → Async (Box A) → Option (Bool × Async (Box A))
  try_get task a = elim (nothing a.object.values) [
    | true ↦ some (false, a)
    | false ↦ tried a (pop_front task a.object)
  ]

-- The calls of any tasks, in the order of their turns at the lock.
pub data Use (A : Type 0) : Type 0 where
  gets : ℕ → Use A
  sets : A → Use A
  tries : ℕ → Use A

module _ {A : Type 0} where
  -- The channel, with the tasks whose call of get, or successful call of try_get, has had its turn.
  abbrev pub use_one : Use A → Async (Box A) → Option (List ℕ × Async (Box A))
  use_one (gets task) a = elim (get task a) [ none ↦ none | some (b, a') ↦ some (task ∷ [], a') ]
  use_one (sets x) a = elim (set x a) [ none ↦ none | some (w, a') ↦ some ([], a') ]
  use_one (tries task) a = elim (try_get task a) [
    | none ↦ none
    | some (true, a') ↦ some (task ∷ [], a')
    | some (false, a') ↦ some ([], a')
  ]

  abbrev pub use_all : List (Use A) → List ℕ → Async (Box A) → Option (List ℕ × Async (Box A))
  use_all [] asked a = some (asked, a)
  use_all (u ∷ us) asked a = elim (use_one u a) [
    | none ↦ none
    | some (more, a') ↦ use_all us (asked ++ more) a'
  ]

  abbrev pub sent : List (Use A) → List A
  sent [] = []
  sent (gets task ∷ us) = sent us
  sent (sets x ∷ us) = x ∷ sent us
  sent (tries task ∷ us) = sent us

  abbrev pub channel : Async (Box A)
  channel = record { object = record { values = []; got = [] }; waiters = [] }
