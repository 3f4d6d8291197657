-- ===== src/Core/Channel/Local.antt =====
-- co_channel of co_channel.h, src/coev, without a lock: the tasks of one thread, each of which runs
-- until it waits. A waiter that set() picks goes to the events of the next loop (local_async), and
-- pops when local_resume comes to it.
use coev.Base.{ℕ, ◌≡◌, refl, arith, List, [], ◌∷◌, ◌++◌, length}
use coev.Base.{Option, none, some}

-- m_data, the events in m_waiter, those in local_async, and the values that the tasks got so far.
pub record Local (A : Type 0) : Type 0 where
  pub values : List A
  pub waiters : List ℕ
  pub scheduled : List ℕ
  pub got : List (ℕ × A)

module _ {A : Type 0} where
  -- `d = __pop_front()`: the front of an empty std::queue is undefined.
  abbrev pub take_front : ℕ → Local A → Option (Local A)
  take_front task c = elim c.values [
    | [] ↦ none
    | x ∷ l ↦ some (record c { values = l; got = c.got ++ ((task, x) ∷ []) })
  ]

  unfoldable pub get_local : ℕ → Local A → Option (Local A)
  get_local task c = elim c.values [
    | [] ↦ some (record c { waiters = c.waiters ++ (task ∷ []) })
    | x ∷ l ↦ take_front task c
  ]

  abbrev pub pick : Local A → Local A
  pick c = elim c.waiters [
    | [] ↦ c
    | task ∷ rest ↦ record c { waiters = rest; scheduled = c.scheduled ++ (task ∷ []) }
  ]

  unfoldable pub set_local : A → Local A → Option (Local A)
  set_local x c = some (pick (record c { values = c.values ++ (x ∷ []) }))

  -- One event of local_resume: the task goes on behind its co_await.
  unfoldable pub resume_local : Local A → Option (Local A)
  resume_local c = elim c.scheduled [
    | [] ↦ some c
    | task ∷ rest ↦ take_front task (record c { scheduled = rest })
  ]

pub data Move (A : Type 0) : Type 0 where
  gets_local : ℕ → Move A
  sets_local : A → Move A
  resumes : Move A

module _ {A : Type 0} where
  abbrev pub move_one : Move A → Local A → Option (Local A)
  move_one (gets_local task) = get_local task
  move_one (sets_local x) = set_local x
  move_one resumes = resume_local

  abbrev pub move_all : List (Move A) → Local A → Option (Local A)
  move_all [] c = some c
  move_all (m ∷ ms) c = elim (move_one m c) [ none ↦ none | some c' ↦ move_all ms c' ]

  -- Gets by other tasks, and then the loop.
  abbrev pub steals : List ℕ → List (Move A)
  steals [] = resumes ∷ []
  steals (t ∷ ts) = gets_local t ∷ steals ts

  stolen :
      (ts : List ℕ) (vs : List A) (ws : List ℕ) (task : ℕ) (rest : List ℕ) (g : List (ℕ × A))
      → length ts ≡ length vs
      → move_all
          (steals ts)
          (record { values = vs; waiters = ws; scheduled = task ∷ rest; got = g })
        ≡ none
  unfolding get_local resume_local
  stolen [] [] ws task rest g h = refl
  stolen [] (x ∷ vs) ws task rest g h = absurd (omega arith)
  stolen (t ∷ ts) [] ws task rest g h = absurd (omega arith)
  stolen (t ∷ ts) (x ∷ vs) ws task rest g h =
      stolen ts vs ws task rest (g ++ ((t, x) ∷ [])) (omega arith)

  -- Where a task waits on an empty channel, no task is scheduled for the next loop, a value is set, and
  -- another task gets it before the loop comes to the first one, then the first one pops an empty
  -- queue, whatever the value, the tasks, the tasks that wait behind and what was got before.
  pub waiter_pops_empty :
      (x : A) (first other : ℕ) (ws : List ℕ) (g : List (ℕ × A))
      → move_all
          (sets_local x ∷ steals (other ∷ []))
          (record { values = []; waiters = first ∷ ws; scheduled = []; got = g })
        ≡ none
  unfolding set_local
  waiter_pops_empty x first other ws g = stolen (other ∷ []) (x ∷ []) ws first [] g refl
