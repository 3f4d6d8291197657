-- ===== src/Core/Tests.antt =====
-- Runs of the coroutine core.
use coev.Base.{ℕ, ◌≤◌, ◌≡◌, ◌≢◌, refl, arith, List, [], ◌∷◌, length, none, some, true}
use coev.Base.{◌↔◌, ◌==◌, if◌then◌else◌}
use coev.Base.Int.{pos, negsuc}
use coev.Core.Queue.{Memory, move_to}
use coev.Core.Queue.Ring.{IsQueue, move_to-IsQueue}
use coev.Core.Queue.Refine.{Call, front, back, take_front, take_back, cut, run, run_refines}
use coev.Core.Event.{Thread, coroutine, waker, inner_set}
use coev.Core.Event.Race.{GoneOn, resumed_once}
use coev.Core.Mutex.{on, lock, unlock, Shared, Reach, locks, waits, hands}
use coev.Core.Async.{suspend, event}
use coev.Core.Mutex.Exclusion.{mutual_exclusion}
use coev.Core.Channel.{Use, gets, sets, tries, use_all, channel}
use coev.Core.Channel.Order.{Ordered, delivered_in_order}
use coev.Core.Channel.Local.{move_all, sets_local, gets_local, resumes, waiter_pops_empty}
use coev.Core.WaitGroup.{Group, group, add, count_down, test, enter, deliver}
use coev.Core.WaitGroup.{adds, counts, tests, enters, delivers}
use coev.Core.WaitGroup.Wakes.{no_lost_waiter}

-- Every object in a ring of its own.
abbrev idle : Memory
idle = record { next = λ x. x; prev = λ x. x }

idle-IsQueue : (q : ℕ) → IsQueue idle q []
idle-IsQueue q = record { forward = refl; backward = refl; distinct = (tt, tt) }

abbrev some_calls : List Call
some_calls = back 1 ∷ front 2 ∷ take_back ∷ cut 2 ∷ []

run_refines_example :
    (m : Memory) × (coev.Core.Queue.Refine.run 10 some_calls idle
      ≡ some (none ∷ none ∷ some 1 ∷ some 2 ∷ [], m))
    × IsQueue m 10 []
run_refines_example =
    run_refines 10 some_calls [] idle (idle-IsQueue 10)
      ((omega arith, tt), ((omega arith, (omega arith, tt)), (tt, ((λ h. h.0 refl), tt))))

-- 1 in the queue 10.
abbrev of_one : Memory
of_one = record {
  next = λ x. if x == 10 then 1 else if x == 1 then 10 else x;
  prev = λ x. if x == 10 then 1 else if x == 1 then 10 else x;
}

of_one-IsQueue : IsQueue of_one 10 (1 ∷ [])
of_one-IsQueue = record {
  forward = (refl, refl);
  backward = (refl, refl);
  distinct = ((omega arith, tt), (tt, tt));
}

of_one-idle : IsQueue of_one 20 []
of_one-idle = record { forward = refl; backward = refl; distinct = (tt, tt) }

move_to-IsQueue_example :
    (m : Memory) × (move_to 10 20 of_one ≡ some (true, m)) × IsQueue m 20 (1 ∷ []) × IsQueue m 10 []
move_to-IsQueue_example =
    move_to-IsQueue of_one 10 20 1 [] of_one-IsQueue of_one-idle (omega arith) (omega arith, tt)

abbrev turns_in_turn : List Thread
turns_in_turn =
    waker ∷ coroutine ∷ coroutine ∷ waker ∷ coroutine ∷ waker ∷ waker ∷ coroutine ∷ coroutine
    ∷ waker ∷ []

resumed_once_example :
    GoneOn
      (negsuc 0)
      (coev.Core.Event.run turns_in_turn (coev.Core.Event.start (inner_set (negsuc 0))))
resumed_once_example = resumed_once (negsuc 0) turns_in_turn (omega arith) (omega arith)

-- Task 7 has locked, task 8 waits.
abbrev waited : Shared
waited = record {
  inner = record { object = on; waiters = (8, λ flag. some on) ∷ [] };
  owners = 7 ∷ [];
}

-- Task 7 has unlocked.
abbrev held : Shared
held = record { inner = record { object = on; waiters = [] }; owners = 8 ∷ [] }

held-Reach : Reach held
unfolding lock unlock suspend event
held-Reach =
    coev.Core.Mutex.later
      (coev.Core.Mutex.later
        (coev.Core.Mutex.later coev.Core.Mutex.start
          (locks 7 (record { object = on; waiters = [] }) refl refl))
        (waits 8 waited.inner refl refl))
      (hands 7 8 [] held.inner refl refl refl)

mutual_exclusion_example :
    (length held.owners ≤ 1)
    × ((held.inner.object ≡ on) ↔ (length held.owners ≡ 1))
    × ((held.inner.object ≢ on) → held.inner.waiters ≡ [])
mutual_exclusion_example = mutual_exclusion held held-Reach

abbrev some_uses : List (Use ℕ)
some_uses = tries 4 ∷ gets 1 ∷ sets 50 ∷ sets 60 ∷ gets 2 ∷ gets 3 ∷ []

delivered_in_order_example : Ordered (50 ∷ 60 ∷ []) (use_all some_uses [] channel)
delivered_in_order_example = delivered_in_order some_uses

-- One task is to be done, task 5 waits, the count comes down, and the loop wakes task 5.
group-Reach : coev.Core.WaitGroup.Reach group
unfolding add count_down test enter deliver
group-Reach = by (delivers 0 refl refl refl) (
    by (delivers 0 refl refl refl) (
      by (counts refl) (
        by (enters 5 refl refl)
          (by (tests 5 refl refl) (by (adds (pos 1) (λ h. refl) refl) coev.Core.WaitGroup.start)))))
  where
    by :
        {g h : Group}
        → coev.Core.WaitGroup.Step g h
        → coev.Core.WaitGroup.Reach g
        → coev.Core.WaitGroup.Reach h
    by s r = coev.Core.WaitGroup.later r s

no_lost_waiter_example : (group.waiters ≡ []) × (group.entering ≡ none)
no_lost_waiter_example = no_lost_waiter group group-Reach refl refl

waiter_pops_empty_example :
    move_all {A = ℕ}
      (sets_local 50 ∷ gets_local 2 ∷ resumes ∷ [])
      (record { values = []; waiters = 1 ∷ []; scheduled = []; got = [] })
    ≡ none
waiter_pops_empty_example = waiter_pops_empty 50 1 2 [] []
