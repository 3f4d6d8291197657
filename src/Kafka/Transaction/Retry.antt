-- ===== src/Kafka/Transaction/Retry.antt =====
-- Retry of transaction_manager.h, src/coev_kafka: a request is sent again while it asks for it.
use coev.Base.{ℕ, zero, suc, ◌≤◌, ◌<◌, ◌≡◌, refl, arith, Bool, true, false, if◌then◌else◌}
use coev.Base.Int.{ℤ, pos, negsuc}

-- What a request comes to: whether it is to be sent again, and its error.
pub record Attempt : Type 0 where
  pub retry : Bool
  pub error : ℤ

-- The loop with a number of attempts that remain, where func i is what the i-th request from now
-- comes to.
abbrev pub attempts : ℕ → (ℕ → Attempt) → ℤ
attempts zero func = if (func 0).retry then pos 0 else (func 0).error
attempts (suc n) func =
    let rest = attempts n (λ i. func (suc i)) in if (func 0).retry then rest else (func 0).error

-- A number that is negative sends no request.
unfoldable pub retry_request : ℤ → (ℕ → Attempt) → ℤ
retry_request (pos n) func = attempts n func
retry_request (negsuc n) func = pos 0

attempts-forget :
    (n : ℕ) (func : ℕ → Attempt)
    → ((j : ℕ) → j ≤ n → (func j).retry ≡ true)
    → attempts n func ≡ pos 0
attempts-forget zero func h = rw (h 0 (omega arith)) refl
attempts-forget (suc n) func h =
    rw (h 0 (omega arith)) (attempts-forget n (λ i. func (suc i)) (λ j k. h (suc j) (omega arith)))

attempts-first :
    (n k : ℕ) (func : ℕ → Attempt)
    → k ≤ n
    → ((j : ℕ) → j < k → (func j).retry ≡ true)
    → (func k).retry ≡ false
    → attempts n func ≡ (func k).error
attempts-first zero zero func h t e = rw e refl
attempts-first zero (suc k) func h t e = absurd (omega arith)
attempts-first (suc n) zero func h t e = rw e refl
attempts-first (suc n) (suc k) func h t e =
    rw (t 0 (omega arith))
      (attempts-first n k (λ i. func (suc i)) (omega arith) (λ j l. t (suc j) (omega arith)) e)

-- Where the first request that does not ask to be sent again is one of the n + 1 that are sent,
-- Retry returns the error of that request.
pub retry_returns :
    (n k : ℕ) (func : ℕ → Attempt)
    → k ≤ n
    → ((j : ℕ) → j < k → (func j).retry ≡ true)
    → (func k).retry ≡ false
    → retry_request (pos n) func ≡ (func k).error
unfolding retry_request
retry_returns n k func h t e = attempts-first n k func h t e

-- Where all n + 1 requests that Retry sends ask to be sent again, it returns 0, which is success,
-- whatever their errors.
pub retry_forgets :
    (n : ℕ) (func : ℕ → Attempt)
    → ((j : ℕ) → j ≤ n → (func j).retry ≡ true)
    → retry_request (pos n) func ≡ pos 0
unfolding retry_request
retry_forgets n func h = attempts-forget n func h
