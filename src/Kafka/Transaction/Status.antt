-- ===== src/Kafka/Transaction/Status.antt =====
-- The statuses that a manager takes, and what holds in each.
use coev.Base.{ℕ, ◌≡◌, refl, sym, ◌∙◌, arith, if◌then◌else◌, Bool, true, false, not, bit_or}
use coev.Base.{List, [], ◌∷◌, ◌↔◌, Bool-cases, inl, inr}
use coev.Base.Int.{ℤ, pos, eq_ℤ}
use coev.Kafka.Transaction.{has, is_transition_valid, Manager, manager, Result, not_allowed, code}
use coev.Kafka.Transaction.{
  transition_to, to_error, abortable_error_if_possible, complete_transaction,
}
use coev.Kafka.Transaction.{initializing, ready, uninitialized}
use coev.Kafka.Transaction.{cleared, maybe_add_partition, in_error, member}

-- The targets that the client calls transition_to with.
pub data Target : Type 0 where
  to_initializing to_ready to_transaction to_commit to_abort to_abortable to_fatal : Target

abbrev pub mask : Target → ℕ
mask to_initializing = 2
mask to_ready = 4
mask to_transaction = 8
mask to_commit = bit_or 16 64
mask to_abort = bit_or 16 128
mask to_abortable = bit_or 32 256
mask to_fatal = bit_or 32 512

pub data Call : Type 0 where
  transition : Target → ℤ → Call
  abortable : ℤ → Call
  complete : Call
  add_partition : ℕ → Call

abbrev pub call : Call → Manager → Manager
call (transition t err) m = (transition_to (mask t) err m).1
call (abortable err) m = (abortable_error_if_possible err m).1
call complete m = (complete_transaction m).1
call (add_partition tp) m = maybe_add_partition tp m

abbrev pub calls : List Call → Manager → Manager
calls [] m = m
calls (c ∷ cs) m = calls cs (call c m)

-- What holds of both branches.
pub either :
    (P : Manager → Type 0) (b : Bool) (p q : Result × Manager)
    → P p.1
    → P q.1
    → P ((if b then p else q).1)
either P true p q h k = h
either P false p q h k = k

-- An error is noted exactly in a status of error.
abbrev pub Noted : Manager → Type 0
Noted m = (has m.status in_error ≡ true) ↔ (eq_ℤ m.last_error (pos 0) ≡ false)

absent-Noted :
    (status : ℕ) → has status in_error ≡ false → (has status in_error ≡ true) ↔ (true ≡ false)
absent-Noted status e = ((λ p. sym p ∙ e), (λ p. ground arith))

to_error-Noted :
    (target : ℕ) (err : ℤ) (m : Manager)
    → has target in_error ≡ true
    → Noted m
    → Noted ((to_error target err m).1)
to_error-Noted target err m e h = elim (Bool-cases (eq_ℤ err (pos 0))) [
  | inl z ↦ rw z h
  | inr z ↦ rw z ((λ _. z), (λ _. e))
]

transition-Noted :
    (target : ℕ) (err : ℤ) (m : Manager) → Noted m → Noted ((transition_to target err m).1)
unfolding transition_to
transition-Noted target err m h = elim (Bool-cases (has target in_error)) [
  | inl e ↦ rw e (
      either Noted (not (is_transition_valid m.status target)) (not_allowed, m)
        (to_error target err m) h (to_error-Noted target err m e h))
  | inr e ↦ rw e (
      either Noted (not (is_transition_valid m.status target)) (not_allowed, m)
        (code err, record m { last_error = pos 0; status = target }) h (absent-Noted target e))
]

abortable-Noted : (err : ℤ) (m : Manager) → Noted m → Noted ((abortable_error_if_possible err m).1)
unfolding abortable_error_if_possible
abortable-Noted err m h =
    either Noted m.supports_bump (transition_to 288 err (record m { bump_required = true }))
      (transition_to 544 err m) (transition-Noted 288 err (record m { bump_required = true }) h)
      (transition-Noted 544 err m h)

-- Where the target has no error.
cleared-Noted :
    (target : ℕ) (m : Manager)
    → has target in_error ≡ false
    → Noted m
    → Noted ((cleared (transition_to target (pos 0) m)).1)
unfolding transition_to
cleared-Noted target m e h = elim (Bool-cases (is_transition_valid m.status target)) [
  | inr v ↦ rw v h
  | inl v ↦ rw (v, e) (absent-Noted target e)
]

complete-Noted : (m : Manager) → Noted m → Noted ((complete_transaction m).1)
unfolding complete_transaction
complete-Noted m h = by_bump m.bump_required
  where
    by_bump :
        (b : Bool)
        → Noted ((cleared (transition_to (if b then initializing else ready) (pos 0) m)).1)
    by_bump true = cleared-Noted initializing m refl h
    by_bump false = cleared-Noted ready m refl h

-- The fields that the call leaves.
pub maybe_add_partition-same :
    (tp : ℕ) (m : Manager)
    → (P : Manager → Type 0) → P m
    → ((l : List ℕ) → P (record m { pending = l }))
    → P (maybe_add_partition tp m)
unfolding maybe_add_partition
maybe_add_partition-same tp m P h k = by_tests (has m.status in_error) (member tp m.partitions)
  where
    by_tests :
        (a b : Bool)
        → P (
            if a
            then m
            else if b
            then m
            else record m { pending = if member tp m.pending then m.pending else tp ∷ m.pending })
    by_tests true b = h
    by_tests false true = h
    by_tests false false = k (if member tp m.pending then m.pending else tp ∷ m.pending)

call-Noted : (c : Call) (m : Manager) → Noted m → Noted (call c m)
call-Noted (transition t err) m h = transition-Noted (mask t) err m h
call-Noted (abortable err) m h = abortable-Noted err m h
call-Noted complete m h = complete-Noted m h
call-Noted (add_partition tp) m h = maybe_add_partition-same tp m Noted h (λ l. h)

calls-Noted : (cs : List Call) (m : Manager) → Noted m → Noted (calls cs m)
calls-Noted [] m h = h
calls-Noted (c ∷ cs) m h = calls-Noted cs (call c m) (call-Noted c m h)

-- After any calls of transition_to with the client's targets and any errors, of
-- abortable_error_if_possible, of complete_transaction and of maybe_add_partition_to_current_txn,
-- on a new manager, its last error is not 0 exactly where its status has the flag of an error.
pub manager-Noted : (supports : Bool) (cs : List Call) → Noted (calls cs (manager supports))
manager-Noted supports cs = calls-Noted cs (manager supports) (absent-Noted uninitialized refl)
