-- ===== src/TokenBucket/Limiter/Fresh.antt =====
-- The quota of a limiter from its start, in requests (src/websocket_proxy/rate_limiter.py).
use auto_trading.Prelude.{ℕ, ◌+◌, ◌-◌, ◌*◌, ◌≤◌, ◌≡◌, refl, ap, [], ◌∷◌, arith}
use auto_trading.TokenBucket.{TokenBucket, token}
use auto_trading.TokenBucket.Budget.{Pays}
use auto_trading.TokenBucket.Limiter.{RateLimitConfig, RateLimiter, start, acquire_key}
use auto_trading.TokenBucket.Limiter.Quota.{
  NotAfter, Requests, Shared, Shared-limits, run_requests, run_requests-Covers,
  acquire_key-NotAfter, acquire_key-keeps_limits,
}

-- The last reading of the clock in the calls.
abbrev pub end_of : ℕ → Requests → ℕ
end_of from [] = from
end_of from ((r, _) ∷ calls) = end_of r.third calls

run_requests-NotAfter :
    (calls : Requests) (from : ℕ) (l : RateLimiter)
    → NotAfter from l
    → Shared from calls l
    → NotAfter (end_of from calls) (run_requests calls l).1
unfolding run_requests
run_requests-NotAfter [] from l past h = past
run_requests-NotAfter ((r, key) ∷ calls) from l past (shared, o, h) =
    let l' = (acquire_key r key l).1 in
    run_requests-NotAfter calls r.third l' (acquire_key-NotAfter from r key l shared past o)
      (Shared-limits calls r.third l l' (acquire_key-keeps_limits r key l shared) h)

-- What a bucket that was full at `from` has paid for until `till`.
paid_until :
    (from till n granted : ℕ) (b b' : TokenBucket)
    → b.last_update ≡ from
    → b.tokens ≡ b.capacity
    → b'.last_update ≤ till
    → granted ≤ n
    → Pays b b' n
    → granted * token ≤ b.capacity + b.rate * (till - from)
paid_until from till n granted b b' e full late h p =
    let d : till - from + from ≡ till = omega (arith, p.later) in
    let grows : b.rate * b'.last_update ≤ b.rate * till = grind arith in
    omega (arith, p, grows, ap (λ (t : ℕ). b.rate * t) d, ap (λ (t : ℕ). b.rate * t) e)

-- From its start, and over any calls for keys without a bucket of their own with a monotonic
-- clock, the limiter grants no more requests than twice the second's limit and that limit for the
-- seconds since, than the minute's limit and that limit for the minutes since, and than the hour's
-- limit and that limit for the hours since (all three times the fractions that make a token).
pub run_requests-quota :
    (config : RateLimitConfig) (from : ℕ) (calls : Requests)
    → Shared from calls (start config from)
    → let granted = (run_requests calls (start config from)).0 in
      let elapsed = end_of from calls - from in
      (granted * token
        ≤ config.requests_per_second * 2 * token + config.requests_per_second * 3600 * elapsed)
      × (granted * token
          ≤ config.requests_per_minute * token + config.requests_per_minute * 60 * elapsed)
      × (granted * token ≤ config.requests_per_hour * token + config.requests_per_hour * elapsed)
unfolding start
run_requests-quota config from calls h =
    let l = start config from in
    let past : NotAfter from l = omega arith in
    let c = run_requests-Covers calls from l (omega arith) past h in
    let late = run_requests-NotAfter calls from l past h in
    let (m, hm, by_second) = c.by_second in
    let (n, hn, by_minute) = c.by_minute in
    let (k, hk, by_hour) = c.by_hour in
    let till = end_of from calls in
    (
      paid_until from till m _ _ _ refl refl late.second_past hm by_second,
      paid_until from till n _ _ _ refl refl late.minute_past hn by_minute,
      paid_until from till k _ _ _ refl refl late.hour_past hk by_hour,
    )
