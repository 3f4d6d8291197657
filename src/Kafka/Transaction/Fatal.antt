-- ===== src/Kafka/Transaction/Fatal.antt =====
-- A fatal error is the last status of a transaction manager.
use coev.Base.{ℕ, ◌≡◌, refl, ap, ◌∙◌, if◌then◌else◌, Bool, true, false, not}
use coev.Base.{List, [], ◌∷◌}
use coev.Base.Int.{ℤ, pos, eq_ℤ}
use coev.Kafka.Transaction.{has, is_transition_valid, Manager, not_allowed, nil_error, code}
use coev.Kafka.Transaction.{
  transition_to, to_error, abortable_error_if_possible, complete_transaction,
}
use coev.Kafka.Transaction.{cleared, initializing, ready, in_error}
use coev.Kafka.Transaction.Status.{
  Target, mask, to_initializing, to_ready, to_transaction, to_commit, to_abort, to_abortable,
  to_fatal,
}
use coev.Kafka.Transaction.Status.{
  Call, transition, abortable, complete, add_partition, call, calls,
}
use coev.Kafka.Transaction.Status.{either, maybe_add_partition-same}

-- The flag of an error with that of a fatal one.
abbrev pub fatal : ℕ
fatal = 544

abbrev pub IsFatal : Manager → Type 0
IsFatal m = m.status ≡ fatal

refused :
    (target : ℕ) (err : ℤ) (m : Manager)
    → is_transition_valid fatal target ≡ false
    → IsFatal m
    → transition_to target err m ≡ (not_allowed, m)
unfolding transition_to
refused target err m v h =
    ap
      (λ b.
        if not b
        then (not_allowed, m)
        else if has target in_error
        then to_error target err m
        else (code err, record m { last_error = pos 0; status = target }))
      (ap (λ s. is_transition_valid s target) h ∙ v)

stays :
    (target : ℕ) (err : ℤ) (m : Manager)
    → is_transition_valid fatal target ≡ false
    → IsFatal m
    → IsFatal ((transition_to target err m).1)
stays target err m v h = ap (λ p. p.1.status) (refused target err m v h) ∙ h

again : (err : ℤ) (m : Manager) → IsFatal m → IsFatal ((transition_to fatal err m).1)
unfolding transition_to
again err m h =
    either IsFatal (not (is_transition_valid m.status fatal)) (not_allowed, m)
      (to_error fatal err m) h
      (either IsFatal (eq_ℤ err (pos 0)) (nil_error, m)
        (code err, record m { last_error = err; status = fatal }) h refl)

transition-IsFatal :
    (t : Target) (err : ℤ) (m : Manager) → IsFatal m → IsFatal ((transition_to (mask t) err m).1)
unfolding is_transition_valid
transition-IsFatal to_initializing err m h = stays 2 err m refl h
transition-IsFatal to_ready err m h = stays 4 err m refl h
transition-IsFatal to_transaction err m h = stays 8 err m refl h
transition-IsFatal to_commit err m h = stays (mask to_commit) err m refl h
transition-IsFatal to_abort err m h = stays (mask to_abort) err m refl h
transition-IsFatal to_abortable err m h = stays (mask to_abortable) err m refl h
transition-IsFatal to_fatal err m h = again err m h

abortable-IsFatal :
    (err : ℤ) (m : Manager) → IsFatal m → IsFatal ((abortable_error_if_possible err m).1)
unfolding abortable_error_if_possible
abortable-IsFatal err m h =
    either IsFatal m.supports_bump (transition_to 288 err (record m { bump_required = true }))
      (transition_to fatal err m)
      (transition-IsFatal to_abortable err (record m { bump_required = true }) h) (again err m h)

complete-IsFatal : (m : Manager) → IsFatal m → IsFatal ((complete_transaction m).1)
unfolding complete_transaction is_transition_valid
complete-IsFatal m h = by_bump m.bump_required
  where
    by_bump :
        (b : Bool)
        → IsFatal ((cleared (transition_to (if b then initializing else ready) (pos 0) m)).1)
    by_bump true = ap (λ p. (cleared p).1.status) (refused initializing (pos 0) m refl h) ∙ h
    by_bump false = ap (λ p. (cleared p).1.status) (refused ready (pos 0) m refl h) ∙ h

call-IsFatal : (c : Call) (m : Manager) → IsFatal m → IsFatal (call c m)
call-IsFatal (transition t err) m h = transition-IsFatal t err m h
call-IsFatal (abortable err) m h = abortable-IsFatal err m h
call-IsFatal complete m h = complete-IsFatal m h
call-IsFatal (add_partition tp) m h = maybe_add_partition-same tp m IsFatal h (λ l. h)

-- Once the status is that of a fatal error, no calls of transition_to with the client's targets and
-- any errors, of abortable_error_if_possible, of complete_transaction and of
-- maybe_add_partition_to_current_txn change it.
pub fatal_stays : (cs : List Call) (m : Manager) → m.status ≡ fatal → (calls cs m).status ≡ fatal
fatal_stays [] m h = h
fatal_stays (c ∷ cs) m h = fatal_stays cs (call c m) (call-IsFatal c m h)
