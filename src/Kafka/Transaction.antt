-- ===== src/Kafka/Transaction.antt =====
-- The status of a transaction, and the retries of its requests: transaction_manager.h and
-- transaction_manager.cpp of src/coev_kafka. A topic partition is a number.
pub mod Status
pub mod Fatal
pub mod Retry
use coev.Base.{
  ℕ, zero, suc, ◌+◌, ◌*◌, ◌==◌, if◌then◌else◌, Bool, true, false, not, ◌||◌, ◌&&◌, bit_and, bit_or,
}
use coev.Base.{List, [], ◌∷◌}
use coev.Base.Int.{ℤ, pos, eq_ℤ}

abbrev pub uninitialized : ℕ
uninitialized = 1

abbrev pub initializing : ℕ
initializing = 2

abbrev pub ready : ℕ
ready = 4

abbrev pub in_transaction : ℕ
in_transaction = 8

abbrev pub end_transaction : ℕ
end_transaction = 16

abbrev pub in_error : ℕ
in_error = 32

abbrev pub committing_transaction : ℕ
committing_transaction = 64

abbrev pub aborting_transaction : ℕ
aborting_transaction = 128

abbrev pub abortable_error : ℕ
abortable_error = 256

abbrev pub fatal_error : ℕ
fatal_error = 512

-- producerTxnTransitions, which is searched whole, in any order.
abbrev pub transitions : List (ℕ × List ℕ)
transitions =
    (uninitialized, ready ∷ in_error ∷ [])
    ∷ (initializing, initializing ∷ ready ∷ in_error ∷ [])
    ∷ (ready, in_transaction ∷ [])
    ∷ (in_transaction, end_transaction ∷ in_error ∷ [])
    ∷ (end_transaction, initializing ∷ ready ∷ in_error ∷ [])
    ∷ (abortable_error, aborting_transaction ∷ in_error ∷ [])
    ∷ (fatal_error, fatal_error ∷ [])
    ∷ []

-- `(status & flag) != 0`
abbrev pub has : ℕ → ℕ → Bool
has status flag = not (bit_and status flag == 0)

abbrev pub has_any : ℕ → List ℕ → Bool
has_any target [] = false
has_any target (allowed ∷ rest) = has target allowed || has_any target rest

abbrev pub is_allowed : ℕ → ℕ → List (ℕ × List ℕ) → Bool
is_allowed status target [] = false
is_allowed status target ((flag, allowed) ∷ rest) =
    (has status flag && has_any target allowed) || is_allowed status target rest

unfoldable pub is_transition_valid : ℕ → ℕ → Bool
is_transition_valid status target = is_allowed status target transitions

pub record Manager : Type 0 where
  pub status : ℕ
  pub last_error : ℤ
  pub supports_bump : Bool
  pub bump_required : Bool
  pub pending : List ℕ
  pub partitions : List ℕ
  pub offsets : List ℕ

-- A manager as it is made, with what the coordinator supports.
abbrev pub manager : Bool → Manager
manager supports = record {
  status = uninitialized;
  last_error = pos 0;
  supports_bump = supports;
  bump_required = false;
  pending = [];
  partitions = [];
  offsets = [];
}

-- The code that a call returns; 0 is success.
pub data Result : Type 0 where
  not_allowed nil_error : Result
  code : ℤ → Result

-- The target has the flag of an error.
abbrev pub to_error : ℕ → ℤ → Manager → Result × Manager
to_error target err m =
    if eq_ℤ err (pos 0)
    then (nil_error, m)
    else (code err, record m { last_error = err; status = target })

unfoldable pub transition_to : ℕ → ℤ → Manager → Result × Manager
transition_to target err m =
    if not (is_transition_valid m.status target)
    then (not_allowed, m)
    else if has target in_error
    then to_error target err m
    else (code err, record m { last_error = pos 0; status = target })

unfoldable pub abortable_error_if_possible : ℤ → Manager → Result × Manager
abortable_error_if_possible err m =
    if m.supports_bump
    then transition_to (bit_or in_error abortable_error) err (record m { bump_required = true })
    else transition_to (bit_or in_error fatal_error) err m

abbrev pub cleared : Result × Manager → Result × Manager
cleared (code err, m) =
    if eq_ℤ err (pos 0)
    then (
      code (pos 0),
      record m {
        last_error = pos 0;
        bump_required = false;
        partitions = [];
        pending = [];
        offsets = [];
      },
    )
    else (code err, m)
cleared (not_allowed, m) = (not_allowed, m)
cleared (nil_error, m) = (nil_error, m)

unfoldable pub complete_transaction : Manager → Result × Manager
complete_transaction m =
    cleared (transition_to (if m.bump_required then initializing else ready) (pos 0) m)

-- maybe_add_partition_to_current_txn, with what it does to the set of pending partitions.
abbrev pub member : ℕ → List ℕ → Bool
member x [] = false
member x (y ∷ l) = (x == y) || member x l

unfoldable pub maybe_add_partition : ℕ → Manager → Manager
maybe_add_partition tp m =
    if has m.status in_error
    then m
    else if member tp m.partitions
    then m
    else record m { pending = if member tp m.pending then m.pending else tp ∷ m.pending }
