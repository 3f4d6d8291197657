-- ===== src/Core/Event.antt =====
-- co_event.cpp of src/coev: one coroutine that awaits an event and one thread that resumes it, in
-- any order of their accesses to the event. co_async::resume of co_async.cpp is a resumer that
-- stores a value first. The exchanges of the source have memory_order_acquire: that one thread sees
-- what the other stored before its exchange is taken for granted here, the accesses of both being in one
-- order (sequential consistency).
pub mod Race
use coev.Base.{ℕ, zero, suc, ◌+◌, ◌==◌, if◌then◌else◌, Bool, true, false, Option, none, some}
use coev.Base.{List, [], ◌∷◌}
use coev.Base.Int.{ℤ, pos}

-- The states of promise.h that an event takes.
pub data Status : Type 0 where
  coro_init coro_suspend coro_resumed coro_finished : Status

abbrev pub eq_status : Status → Status → Bool
eq_status coro_init coro_init = true
eq_status coro_suspend coro_suspend = true
eq_status coro_resumed coro_resumed = true
eq_status coro_finished coro_finished = true
eq_status _ _ = false

-- The next access of the coroutine: await_ready, the store of m_caller, the two exchanges of
-- await_suspend, __resume; parked once await_suspend has returned, gone on once it runs again.
pub data Awaiter : Type 0 where
  ready caller first_cas second_cas waking parked gone : Awaiter

-- The next access of the resumer: the store of co_async::resume, that of co_event::resume, the two
-- exchanges, __resume.
pub data Resumer : Type 0 where
  outer_set inner_set : ℤ → Resumer
  first_try second_try resuming finished : Resumer

-- m_status, whether m_caller is set, m_reserved (`none` before a first store), how often the
-- coroutine has gone on, and the value that await_resume gave it.
pub record System : Type 0 where
  pub awaiter : Awaiter
  pub resumer : Resumer
  pub status : Status
  pub has_caller : Bool
  pub reserved : Option ℤ
  pub runs : ℕ
  pub seen : Option ℤ

abbrev pub start : Resumer → System
start r = record {
  awaiter = ready;
  resumer = r;
  status = coro_init;
  has_caller = false;
  reserved = none;
  runs = 0;
  seen = none;
}

-- The coroutine goes on, and with it ends the event.
abbrev pub go_on : System → System
go_on s = record s { runs = s.runs + 1; seen = s.reserved }

-- An access to an event that has ended, or a failed assertion, is `none`.
abbrev pub access : System → Option System → Option System
access s next = if s.runs == 0 then next else none

-- __resume: the handle is exchanged for null, and resumed.
abbrev pub resume_caller : System → Option System
resume_caller s = if s.has_caller then some (go_on (record s { has_caller = false })) else none

-- compare_exchange_strong, with what follows where it succeeds and where it fails.
abbrev pub exchange :
    Status → Status → (System → Option System) → (System → Option System) → System → Option System
exchange old new yes_then no_then s =
    if eq_status s.status old then yes_then (record s { status = new }) else no_then s

unfoldable pub await_step : Awaiter → System → Option System
await_step ready s = access s (
    if eq_status s.status coro_init
    then some (record s { awaiter = caller })
    else some (go_on (record s { awaiter = gone })))
await_step caller s = access s (some (record s { has_caller = true; awaiter = first_cas }))
await_step first_cas s = access s (
    exchange coro_init coro_suspend (λ s. some (record s { awaiter = parked }))
      (λ s. some (record s { awaiter = second_cas })) s)
await_step second_cas s =
    access s (
      exchange coro_resumed coro_finished (λ s. some (record s { awaiter = waking })) (λ s. none) s)
await_step waking s = access s (resume_caller (record s { awaiter = gone }))
await_step parked s = some s
await_step gone s = some s

unfoldable pub resume_step : Resumer → System → Option System
resume_step (outer_set v) s =
    access s (some (record s { reserved = some v; resumer = inner_set (pos 0) }))
resume_step (inner_set x) s = access s (some (record s { reserved = some x; resumer = first_try }))
resume_step first_try s = access s (
    exchange coro_init coro_resumed (λ s. some (record s { resumer = finished }))
      (λ s. some (record s { resumer = second_try })) s)
resume_step second_try s = access s (
    exchange coro_suspend coro_finished (λ s. some (record s { resumer = resuming })) (λ s. none) s)
resume_step resuming s = access s (resume_caller (record s { resumer = finished }))
resume_step finished s = some s

pub data Thread : Type 0 where
  coroutine waker : Thread

abbrev pub step : Thread → System → Option System
step coroutine s = await_step s.awaiter s
step waker s = resume_step s.resumer s

-- A schedule names the thread that makes each access.
abbrev pub run : List Thread → System → Option System
run [] s = some s
run (t ∷ ts) s = elim (step t s) [ none ↦ none | some s' ↦ run ts s' ]
