-- ===== src/Kafka/Tests.antt =====
-- Runs of the transaction manager, of the range strategy and of a partitioner.
use coev.Base.{
  some, none, Option, ◌==◌, if◌then◌else◌, ℕ, zero, suc, ◌≤◌, ◌<◌, ◌≡◌, refl, arith, List, [], ◌∷◌,
  true, false,
}
use coev.Base.Int.{ℤ, pos, negsuc}
use coev.Kafka.Transaction.{manager, transition_to, abortable_error_if_possible}
use coev.Kafka.Transaction.{maybe_add_partition, is_transition_valid}
use coev.Kafka.Transaction.Status.{to_ready, to_transaction, to_abort}
use coev.Kafka.Transaction.Status.{Call, transition, abortable, complete, add_partition, calls}
use coev.Kafka.Transaction.Status.{Noted, manager-Noted}
use coev.Kafka.Transaction.Fatal.{fatal, fatal_stays}
use coev.Kafka.Partitioner.{Message, hash, partition}
use coev.Kafka.Partitioner.Bounds.{IsPartition, partition-IsPartition}
use coev.Kafka.Range.{Plan, plan, core, add_to_plan, uniq}
use coev.Kafka.Range.Subscribers.{asked_by, Fulfilled, plan-Fulfilled}
use coev.Kafka.Transaction.Retry.{Attempt, retry_request, retry_returns, retry_forgets}

-- A transaction that cannot be bumped, and fails.
abbrev failing : List Call
failing =
    transition to_ready (pos 0)
    ∷ transition to_transaction (pos 0)
    ∷ add_partition 3
    ∷ abortable (pos 47)
    ∷ []

manager-Noted_example : Noted (calls failing (manager false))
manager-Noted_example = manager-Noted false failing

failed : (calls failing (manager false)).status ≡ fatal
unfolding transition_to abortable_error_if_possible maybe_add_partition is_transition_valid
failed = refl

abbrev further : List Call
further = transition to_abort (pos 0) ∷ complete ∷ transition to_ready (pos 0) ∷ []

fatal_stays_example : (calls further (calls failing (manager false))).status ≡ fatal
fatal_stays_example = fatal_stays further (calls failing (manager false)) failed

-- A request that is to be sent again twice, for error 14.
abbrev busy : ℕ → Attempt
busy zero = record { retry = true; error = pos 14 }
busy (suc zero) = record { retry = true; error = pos 14 }
busy (suc (suc n)) = record { retry = false; error = pos 47 }

retry_returns_example : retry_request (pos 5) busy ≡ pos 47
retry_returns_example = retry_returns 5 2 busy (omega arith) asks refl
  where
    asks : (j : ℕ) → j < 2 → (busy j).retry ≡ true
    asks zero h = refl
    asks (suc zero) h = refl
    asks (suc (suc j)) h = absurd (omega arith)

retry_forgets_example : retry_request (pos 1) busy ≡ pos 0
retry_forgets_example = retry_forgets 1 busy asks
  where
    asks : (j : ℕ) → j ≤ 1 → (busy j).retry ≡ true
    asks zero h = refl
    asks (suc zero) h = refl
    asks (suc (suc j)) h = absurd (omega arith)

-- Member 9 asks for topic 1, and member 4 for topics 1 and 2.
abbrev group : List (ℕ × List ℕ)
group = (9, 1 ∷ []) ∷ (4, 1 ∷ 2 ∷ []) ∷ []

-- There is topic 1, with five partitions.
abbrev topics : ℕ → Option (List ℕ)
topics t = if t == 1 then some (0 ∷ 1 ∷ 2 ∷ 3 ∷ 4 ∷ []) else none

plan-Fulfilled_example :
    (p : Plan) × (plan group topics ≡ some p)
    × ((t : ℕ) → Fulfilled p t (asked_by t group) (topics t))
plan-Fulfilled_example = plan-Fulfilled group topics

-- Member 4 gets three partitions, and member 9 two.
shared : (p : Plan) × (plan group topics ≡ some p) × (p 4 1 ≡ 0 ∷ 1 ∷ 2 ∷ []) × (p 9 1 ≡ 3 ∷ 4 ∷ [])
unfolding plan core add_to_plan uniq
shared = (_, refl, refl, refl)

-- A key of two bytes.
abbrev keyed : Message
keyed = record { partition = negsuc 0; key_empty = false; encoded = some (107 ∷ 1 ∷ []) }

-- The hash is negative as an int32_t.
partition-IsPartition_example :
    (z : ℤ) × ((partition (λ n. 0) (λ bytes. 4294967291) (hash false false) keyed 3).0 ≡ some z)
    × IsPartition 3 z
partition-IsPartition_example =
    partition-IsPartition (λ n. 0) (λ bytes. 4294967291) (hash false false) keyed 3 (omega arith)
      (omega arith) (omega arith) (107 ∷ 1 ∷ [], refl)
