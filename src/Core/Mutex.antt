-- ===== src/Core/Mutex.antt =====
-- guard::co_mutex of co_mutex.cpp, src/coev.
pub mod Exclusion
use coev.Base.{ℕ, ◌==◌, if◌then◌else◌, List, [], ◌∷◌, Bool, true, false, Option, none, some, ◌≡◌}
use coev.Core.Async.{Async, suspend, event}

abbrev pub on : ℕ
on = 1

abbrev pub off : ℕ
off = 0

abbrev pub mutex : Async ℕ
mutex = record { object = off; waiters = [] }

unfoldable pub lock : ℕ → Async ℕ → Option (Bool × Async ℕ)
lock = suspend (λ flag. flag == on) (λ flag. some on)

unfoldable pub unlock : Async ℕ → Option (Option ℕ × Async ℕ)
unlock = event (λ flag. off)

unfoldable pub try_lock : Async ℕ → Bool × Async ℕ
try_lock a = if a.object == on then (false, a) else (true, record a { object = on })

-- The mutex, and the tasks that own it: whose lock() has got its flag, and who have not unlocked.
pub record Shared : Type 0 where
  pub inner : Async ℕ
  pub owners : List ℕ

-- Any task locks, or tries to, at any time; only an owner unlocks.
pub data Step (s : Shared) (t : Shared) : Type 0 where
  locks :
      (task : ℕ) (a : Async ℕ)
      → lock task s.inner ≡ some (true, a)
      → t ≡ record { inner = a; owners = task ∷ s.owners }
      → Step s t
  waits :
      (task : ℕ) (a : Async ℕ)
      → lock task s.inner ≡ some (false, a)
      → t ≡ record s { inner = a }
      → Step s t
  tries :
      (task : ℕ) (a : Async ℕ)
      → try_lock s.inner ≡ (true, a)
      → t ≡ record { inner = a; owners = task ∷ s.owners }
      → Step s t
  fails :
      (task : ℕ) (a : Async ℕ)
      → try_lock s.inner ≡ (false, a)
      → t ≡ record s { inner = a }
      → Step s t
  frees :
      (task : ℕ) (rest : List ℕ) (a : Async ℕ)
      → s.owners ≡ task ∷ rest
      → unlock s.inner ≡ some (none, a)
      → t ≡ record { inner = a; owners = rest }
      → Step s t
  hands :
      (task next : ℕ) (rest : List ℕ) (a : Async ℕ)
      → s.owners ≡ task ∷ rest
      → unlock s.inner ≡ some (some next, a)
      → t ≡ record { inner = a; owners = next ∷ rest }
      → Step s t

abbrev pub fresh : Shared
fresh = record { inner = mutex; owners = [] }

pub data Reach : Shared → Type 0 where
  start : Reach fresh
  later : {s t : Shared} → Reach s → Step s t → Reach t
