-- ===== src/Core/Event/Race.antt =====
-- Every schedule of an await and a resume lets the coroutine go on once.
use coev.Base.{ℕ, ◌+◌, ◌-◌, ◌≤◌, ◌≡◌, refl, arith}
use coev.Base.{List, [], ◌∷◌, true, false, Option, none, some}
use coev.Base.Int.{ℤ, pos}
use coev.Core.Event.{coro_init, coro_suspend, coro_resumed, coro_finished}
use coev.Core.Event.{Awaiter, ready, caller, first_cas, second_cas, waking, parked, gone}
use coev.Core.Event.{Resumer, outer_set, inner_set, first_try, second_try, resuming, finished}
use coev.Core.Event.{System, start, await_step, resume_step}
use coev.Core.Event.{Thread, coroutine, waker, step, run}

-- The exchange of the coroutine still to come, or won by it.
abbrev Before : Awaiter → System → Type 0
Before ready s = (s.status ≡ coro_init) × (s.has_caller ≡ false)
Before caller s = (s.status ≡ coro_init) × (s.has_caller ≡ false)
Before first_cas s = (s.status ≡ coro_init) × (s.has_caller ≡ true)
Before parked s = (s.status ≡ coro_suspend) × (s.has_caller ≡ true)
Before _ s = ⊥

-- Once the first exchange of the resumer has succeeded, or it has resumed the coroutine itself.
abbrev After : ℤ → Awaiter → System → Type 0
After x ready s = (s.status ≡ coro_resumed) × (s.has_caller ≡ false) × (s.runs ≡ 0)
After x caller s = (s.status ≡ coro_resumed) × (s.has_caller ≡ false) × (s.runs ≡ 0)
After x first_cas s = (s.status ≡ coro_resumed) × (s.has_caller ≡ true) × (s.runs ≡ 0)
After x second_cas s = (s.status ≡ coro_resumed) × (s.has_caller ≡ true) × (s.runs ≡ 0)
After x waking s = (s.status ≡ coro_finished) × (s.has_caller ≡ true) × (s.runs ≡ 0)
After x parked s = (s.runs ≡ 1) × (s.seen ≡ some x)
After x gone s = (s.runs ≡ 1) × (s.seen ≡ some x)

abbrev Facts : ℤ → Awaiter → Resumer → System → Type 0
Facts x a (outer_set v) s = Before a s × (s.runs ≡ 0) × (x ≡ pos 0)
Facts x a (inner_set y) s = Before a s × (s.runs ≡ 0) × (x ≡ y)
Facts x a first_try s = Before a s × (s.runs ≡ 0) × (s.reserved ≡ some x)
Facts x parked second_try s =
    (s.status ≡ coro_suspend) × (s.has_caller ≡ true) × (s.runs ≡ 0) × (s.reserved ≡ some x)
Facts x parked resuming s =
    (s.status ≡ coro_finished) × (s.has_caller ≡ true) × (s.runs ≡ 0) × (s.reserved ≡ some x)
Facts x a finished s = After x a s × (s.reserved ≡ some x)
Facts x a r s = ⊥

-- What holds between any two accesses; x is the value that the coroutine will see.
abbrev pub Inv : ℤ → System → Type 0
Inv x s = Facts x s.awaiter s.resumer s

abbrev Holds : ℤ → Option System → Type 0
Holds x none = ⊥
Holds x (some s) = Inv x s

await_step-Inv :
    (x : ℤ) (a : Awaiter) (r : Resumer) (s : System)
    → s.awaiter ≡ a
    → s.resumer ≡ r
    → Facts x a r s
    → Holds x (await_step a s)
unfolding await_step
await_step-Inv x a r s ea er f = ground arith

resume_step-Inv :
    (x : ℤ) (a : Awaiter) (r : Resumer) (s : System)
    → s.awaiter ≡ a
    → s.resumer ≡ r
    → Facts x a r s
    → Holds x (resume_step r s)
unfolding resume_step
resume_step-Inv x a r s ea er f = ground arith

step-Inv : (t : Thread) (x : ℤ) (s : System) → Inv x s → Holds x (step t s)
step-Inv coroutine x s f = await_step-Inv x s.awaiter s.resumer s refl refl f
step-Inv waker x s f = resume_step-Inv x s.awaiter s.resumer s refl refl f

-- How many accesses each thread has before it at most.
abbrev await_left : Awaiter → ℕ
await_left ready = 5
await_left caller = 4
await_left first_cas = 3
await_left second_cas = 2
await_left waking = 1
await_left parked = 0
await_left gone = 0

abbrev resume_left : Resumer → ℕ
resume_left (outer_set v) = 5
resume_left (inner_set x) = 4
resume_left first_try = 3
resume_left second_try = 2
resume_left resuming = 1
resume_left finished = 0

-- How often the schedule names each thread.
abbrev pub turns : Thread → List Thread → ℕ
turns t [] = 0
turns coroutine (coroutine ∷ ts) = turns coroutine ts + 1
turns coroutine (waker ∷ ts) = turns coroutine ts
turns waker (coroutine ∷ ts) = turns waker ts
turns waker (waker ∷ ts) = turns waker ts + 1

abbrev Advances : ℕ → ℕ → Option System → Type 0
Advances m n none = Unit {0}
Advances m n (some s) = (await_left s.awaiter ≤ m) × (resume_left s.resumer ≤ n)

await_step-Advances :
    (a : Awaiter) (s : System)
    → s.awaiter ≡ a
    → Advances (await_left a - 1) (resume_left s.resumer) (await_step a s)
unfolding await_step
await_step-Advances a s e = ground arith

resume_step-Advances :
    (r : Resumer) (s : System)
    → s.resumer ≡ r
    → Advances (await_left s.awaiter) (resume_left r - 1) (resume_step r s)
unfolding resume_step
resume_step-Advances r s e = ground arith

Advances-weaken :
    (m n m' n' : ℕ) (o : Option System) → m ≤ m' → n ≤ n' → Advances m n o → Advances m' n' o
Advances-weaken m n m' n' none h h' a = tt
Advances-weaken m n m' n' (some s) h h' (a, b) = (omega arith, omega arith)

step-Advances :
    (t : Thread) (ts : List Thread) (s : System)
    → await_left s.awaiter ≤ turns coroutine (t ∷ ts)
    → resume_left s.resumer ≤ turns waker (t ∷ ts)
    → Advances (turns coroutine ts) (turns waker ts) (step t s)
step-Advances coroutine ts s ha hr =
    Advances-weaken (await_left s.awaiter - 1) (resume_left s.resumer) (turns coroutine ts)
      (turns waker ts) (await_step s.awaiter s) (omega arith) (omega arith)
      (await_step-Advances s.awaiter s refl)
step-Advances waker ts s ha hr =
    Advances-weaken (await_left s.awaiter) (resume_left s.resumer - 1) (turns coroutine ts)
      (turns waker ts) (resume_step s.resumer s) (omega arith) (omega arith)
      (resume_step-Advances s.resumer s refl)

-- The schedule ran to its end, the coroutine has gone on once and has seen x.
abbrev pub GoneOn : ℤ → Option System → Type 0
GoneOn x none = ⊥
GoneOn x (some s) =
    (s.runs ≡ 1) × (s.seen ≡ some x) × (await_left s.awaiter ≡ 0) × (resume_left s.resumer ≡ 0)

at_end :
    (x : ℤ) (a : Awaiter) (r : Resumer) (s : System)
    → Facts x a r s
    → await_left a ≤ 0
    → resume_left r ≤ 0
    → (s.runs ≡ 1) × (s.seen ≡ some x) × (await_left a ≡ 0) × (resume_left r ≡ 0)
at_end x a r s f ha hr = ground arith

then_run :
    (x : ℤ) (ts : List Thread) (o : Option System)
    → Holds x o
    → Advances (turns coroutine ts) (turns waker ts) o
    → ((s : System)
        → Inv x s
        → await_left s.awaiter ≤ turns coroutine ts
        → resume_left s.resumer ≤ turns waker ts
        → GoneOn x (run ts s))
    → GoneOn x (elim o [ none ↦ none | some s ↦ run ts s ])
then_run x ts none h a k = h
then_run x ts (some s) h (ha, hr) k = k s h ha hr

finishes :
    (x : ℤ) (ts : List Thread) (s : System)
    → Inv x s
    → await_left s.awaiter ≤ turns coroutine ts
    → resume_left s.resumer ≤ turns waker ts
    → GoneOn x (run ts s)
finishes x [] s f ha hr = at_end x s.awaiter s.resumer s f ha hr
finishes x (t ∷ ts) s f ha hr =
    then_run x ts (step t s) (step-Inv t x s f) (step-Advances t ts s ha hr)
      (λ s' f' ha' hr'. finishes x ts s' f' ha' hr')

-- Where the accesses of the two threads come one after the other, each seeing all that came before it:
-- in every schedule that gives each thread five turns, in whatever order, no assertion fails, no
-- access comes after the coroutine has gone on, and it goes on exactly once, with the value x of
-- co_event::resume, an int64_t of any sign.
pub resumed_once :
    (x : ℤ) (ts : List Thread)
    → 5 ≤ turns coroutine ts
    → 5 ≤ turns waker ts
    → GoneOn x (run ts (start (inner_set x)))
resumed_once x ts ha hr =
    finishes x ts (start (inner_set x)) ((refl, refl), refl, refl) ha (omega arith)
