-- ===== src/TokenBucket.antt =====
-- The token bucket of src/websocket_proxy/rate_limiter.py. Its floats are exact fractions here:
-- time counts microseconds, and an amount of tokens counts 1/3,600,000,000 of a token, so that
-- r requests a second, a minute or an hour are a rate of 3600 * r, 60 * r or r per microsecond.
pub mod Budget
pub mod Waiting
pub mod Limiter
use auto_trading.Prelude.{
  ℕ, ◌+◌, ◌-◌, ◌*◌, min, Bool, true, false, List, [], ◌∷◌, leb, if◌then◌else◌,
}

-- One token.
abbrev pub token : ℕ
token = 3_600_000_000

pub record TokenBucket : Type 0 where
  pub rate : ℕ
  pub capacity : ℕ
  pub tokens : ℕ
  pub last_update : ℕ

-- `TokenBucket(rate, capacity)`, with the capacity in tokens, at a reading of the monotonic clock.
abbrev pub make : ℕ → ℕ → ℕ → TokenBucket
make rate capacity now = record {
  rate = rate;
  capacity = capacity * token;
  tokens = capacity * token;
  last_update = now;
}

-- The refill at the head of `acquire`.
unfoldable pub refill : ℕ → TokenBucket → TokenBucket
refill now b = record b {
  tokens = min b.capacity (b.tokens + (now - b.last_update) * b.rate);
  last_update = now;
}

unfoldable pub acquire : (now tokens : ℕ) → TokenBucket → Bool × TokenBucket
unfolding refill
acquire now tokens b =
    let b' = refill now b in
    if leb (tokens * token) b'.tokens
    then (true, record b' { tokens = b'.tokens - tokens * token })
    else (false, b')

-- `wait_for_token`: one attempt at each reading of the clock; the result is false where the
-- readings end while it still waits.
pub wait_for_token : (readings : List ℕ) (tokens : ℕ) → TokenBucket → Bool × TokenBucket
unfolding acquire
wait_for_token [] tokens b = (false, b)
wait_for_token (now ∷ readings) tokens b =
    let (granted, b') = acquire now tokens b in
    let rest = wait_for_token readings tokens b' in if granted then (true, b') else rest
