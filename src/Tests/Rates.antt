-- ===== src/Tests/Rates.antt =====
-- The limiters on short runs.
use auto_trading.Prelude.{ℕ, ◌+◌, ◌-◌, ◌*◌, ◌≤◌, ◌≡◌, ◌↔◌, refl, true, List, [], ◌∷◌, length, arith}
use auto_trading.ApiLimiter.{
  start, prune, due, wait_until, wait_for_slot, append_bounded, count_sleep, count_wait, high, low,
  cancelled, waiting,
}
use auto_trading.ApiLimiter.Window.{Paced, Waits, run, run-Paced}
use auto_trading.ApiLimiter.Counts.{Round}
use auto_trading.TokenBucket.{TokenBucket, token, make, refill, acquire, wait_for_token}
use auto_trading.TokenBucket.Budget.{Pays, Calls, run-Pays}
use auto_trading.TokenBucket.Waiting.{Suffices, wait_for_token_iff}
use auto_trading.TokenBucket.Limiter.{RateLimitConfig, RateLimiter, Readings, acquire_key}
use auto_trading.TokenBucket.Limiter.Quota.{Covers, Requests, run_requests, run_requests-Covers}
use auto_trading.TokenBucket.Limiter.Fresh.{end_of, run_requests-quota}

-- Two requests in a window of ten: the third sleeps until the first is ten old.
abbrev three_waits : Waits
three_waits = (1, 1) ∷ (2, 2) ∷ (3, 11) ∷ []

run-Paced_example :
    Paced 2 10 (run three_waits [] (start 2 10)).0
    × (length (run three_waits [] (start 2 10)).0 ≡ 3)
unfolding prune due wait_until wait_for_slot append_bounded count_sleep count_wait
run-Paced_example = run-Paced 2 10 0 three_waits (omega arith) (
  omega arith,
  omega arith,
  tt,
  (omega arith, omega arith, tt, (omega arith, omega arith, omega arith, tt)),
)

abbrev two_rounds : List Round
two_rounds =
    record {
      taken = 1;
      now = 1;
      wake = 1;
      request = record { priority = high; created_at = 0; future = waiting };
    }
    ∷ record {
      taken = 2;
      now = 2;
      wake = 2;
      request = record { priority = low; created_at = 0; future = cancelled };
    }
    ∷ []

-- Two tokens a second, of which one is there.
abbrev half_full : TokenBucket
half_full = record { rate = 7200; capacity = 2 * token; tokens = token; last_update = 0 }

abbrev two_calls : Calls
two_calls = (0, 1) ∷ (500_000, 1) ∷ []

run-Pays_example :
    Pays half_full
      (auto_trading.TokenBucket.Budget.run two_calls half_full).1
      (auto_trading.TokenBucket.Budget.run two_calls half_full).0
run-Pays_example = run-Pays two_calls half_full (omega arith) (omega arith, (omega arith, tt))

abbrev readings : List ℕ
readings = 250_000 ∷ 500_000 ∷ []

wait_for_token_iff_example :
    ((wait_for_token readings 2 half_full).0 ≡ true) ↔ Suffices readings 2 half_full
wait_for_token_iff_example =
    wait_for_token_iff readings 2 half_full (omega arith, (omega arith, tt)) (omega arith)

abbrev at : ℕ → Readings
at time = record { first = time; second = time; third = time; today = 0 }

abbrev a_limiter : (by_minute : ℕ) → RateLimiter
a_limiter by_minute = record {
  second_bucket = make 7200 4 0;
  minute_bucket = record { rate = 60; capacity = token; tokens = by_minute; last_update = 0 };
  hour_bucket = make 10 10 0;
  api_limits = (7, half_full) ∷ [];
  stats = [];
}

abbrev two_requests : Requests
two_requests = (at 1, 3) ∷ (at 2, 4) ∷ []

run_requests-Covers_example :
    Covers
      (a_limiter token)
      (run_requests two_requests (a_limiter token)).1
      (run_requests two_requests (a_limiter token)).0
run_requests-Covers_example =
    run_requests-Covers two_requests 0 (a_limiter token) (omega arith) (omega arith)
      (refl, omega arith, (refl, omega arith, tt))

abbrev config : RateLimitConfig
config = record {
  requests_per_second = 2;
  requests_per_minute = 60;
  requests_per_hour = 1000;
  burst_size = 5;
}

run_requests-quota_example :
    let granted = (run_requests two_requests (auto_trading.TokenBucket.Limiter.start config 0)).0 in
    let elapsed = end_of 0 two_requests - 0 in
    (granted * token
      ≤ config.requests_per_second * 2 * token + config.requests_per_second * 3600 * elapsed)
    × (granted * token
        ≤ config.requests_per_minute * token + config.requests_per_minute * 60 * elapsed)
    × (granted * token ≤ config.requests_per_hour * token + config.requests_per_hour * elapsed)
unfolding auto_trading.TokenBucket.Limiter.start
run_requests-quota_example =
    run_requests-quota config 0 two_requests (refl, omega arith, (refl, omega arith, tt))
