-- ===== src/Trading/Executor/Retry.antt =====
-- The reading of the account with retries (`_get_account_with_retry` of
-- src/services/order_executor.py).
use auto_trading.Prelude.{ℕ, zero, suc, ◌+◌, ◌<◌, ◌≡◌, ◌≢◌, ◌⊎◌, inl, inr, refl, arith}
use Prim.Native.Nat.{◌^◌}
use native.Mathlib.Nat.{pow-suc, add-zero}
use auto_trading.Trading.Models.{Account}
use auto_trading.Trading.AccountService.{Reply, reply, rate_limit_exceeded, other_error}

-- The answer, and the seconds slept; `attempt` is the number of attempts made, `left` those left.
-- Only a RateLimitExceededError is waited out.
unfoldable pub account_from : (left attempt : ℕ) → (ℕ → Reply Account) → Reply Account × ℕ
account_from zero attempt client = (rate_limit_exceeded, 0)
account_from (suc left) attempt client =
    let (answer, slept) = account_from left (suc attempt) client in
    elim (client attempt) [
      | reply a ↦ (reply a, 0)
      | rate_limit_exceeded ↦ (answer, 2 ^ attempt + slept)
      | other_error ↦ (other_error, 0)
    ]

unfoldable pub account_with_retry : (max_retries : ℕ) → (ℕ → Reply Account) → Reply Account × ℕ
unfolding account_from
account_with_retry max_retries client = account_from max_retries 0 client

shift : (a k : ℕ) → suc a + k ≡ a + suc k
shift a k = omega arith

-- All of `n` attempts from that one on are held back by the rate limit.
abbrev pub Limited : (attempt n : ℕ) → (ℕ → Reply Account) → Type 0
Limited attempt n client = (k : ℕ) → k < n → client (attempt + k) ≡ rate_limit_exceeded

Limited-suc :
    (attempt n : ℕ) (client : ℕ → Reply Account)
    → client attempt ≡ rate_limit_exceeded
    → Limited (suc attempt) n client
    → Limited attempt (suc n) client
Limited-suc attempt n client e h zero p = rw add-zero e
Limited-suc attempt n client e h (suc k) p = rw (← shift attempt k) (h k (omega arith))

-- How the attempts from that one on end: with the answer of attempt `n`, or used up.
abbrev pub Ends : (left attempt : ℕ) → (ℕ → Reply Account) → Reply Account × ℕ → Type 0
Ends left attempt client (answer, slept) =
    ((n : ℕ) × (n < left)
      × Limited attempt n client
      × (client (attempt + n) ≢ rate_limit_exceeded)
      × (answer ≡ client (attempt + n))
      × (slept + 2 ^ attempt ≡ 2 ^ (attempt + n)))
    ⊎ (Limited attempt left client
        × (answer ≡ rate_limit_exceeded)
        × (slept + 2 ^ attempt ≡ 2 ^ (attempt + left)))

Ends-suc :
    (left attempt : ℕ) (client : ℕ → Reply Account) (answer : Reply Account) (slept : ℕ)
    → client attempt ≡ rate_limit_exceeded
    → Ends left (suc attempt) client (answer, slept)
    → Ends (suc left) attempt client (answer, 2 ^ attempt + slept)
Ends-suc left attempt client answer slept e (inl (n, h, l, free, same, time)) = inl (
  suc n,
  omega arith,
  Limited-suc attempt n client e l,
  rw (← shift attempt n) free,
  rw (← shift attempt n) same,
  rw (← shift attempt n) (omega (arith, time, pow-suc 2 attempt)),
)
Ends-suc left attempt client answer slept e (inr (l, same, time)) = inr (
  Limited-suc attempt left client e l,
  same,
  rw (← shift attempt left) (omega (arith, time, pow-suc 2 attempt)),
)

Ends-now :
    (left attempt : ℕ) (client : ℕ → Reply Account) (answer : Reply Account)
    → client attempt ≡ answer
    → answer ≢ rate_limit_exceeded
    → Ends (suc left) attempt client (answer, 0)
Ends-now left attempt client answer e free = inl (
  0,
  omega arith,
  λ k h. absurd (omega arith),
  rw (add-zero, e) free,
  rw (add-zero, e),
  rw add-zero (omega arith),
)

account_from-Ends :
    (left attempt : ℕ) (client : ℕ → Reply Account)
    → Ends left attempt client (account_from left attempt client)
unfolding account_from
account_from-Ends zero attempt client = inr (λ k h. elim h [ ], refl, rw add-zero (omega arith))
account_from-Ends (suc left) attempt client =
    go (client attempt) refl (account_from-Ends left (suc attempt) client)
  where
    go :
        (r : Reply Account)
        → client attempt ≡ r
        → Ends left (suc attempt) client (account_from left (suc attempt) client)
        → Ends (suc left) attempt client (account_from (suc left) attempt client)
    go (reply a) e h = rw (e, account_from) (Ends-now left attempt client (reply a) e (λ x. cc))
    go rate_limit_exceeded e h =
        rw (e, account_from)
          (Ends-suc left attempt client (account_from left (suc attempt) client).0
            (account_from left (suc attempt) client).1 e h)
    go other_error e h = rw (e, account_from) (Ends-now left attempt client other_error e (λ x. cc))

-- With `max_retries` attempts, the first that the rate limit does not hold back decides, and the
-- time slept until then is one second less than two to the number of attempts before it; where all
-- are held back, RateLimitExceededError is raised after two to their number, less one, seconds.
pub account_with_retry-Ends :
    (max_retries : ℕ) (client : ℕ → Reply Account)
    → Ends max_retries 0 client (account_with_retry max_retries client)
unfolding account_with_retry
account_with_retry-Ends max_retries client = account_from-Ends max_retries 0 client
