-- ===== src/TokenBucket/Limiter/Single.antt =====
-- One request at the limiter of src/websocket_proxy/rate_limiter.py.
use auto_trading.Prelude.{ℕ, ◌≡◌, some, get, get-put_self, arith}
use auto_trading.TokenBucket.{TokenBucket, acquire}
use auto_trading.TokenBucket.Limiter.{
  RateLimiter, Readings, acquire_own, acquire_key, count_blocked, count_granted,
}

-- A request for a registered API is decided by that API's bucket alone: its token is spent there
-- if it is granted, and the global buckets stay as they were.
acquire_key-own :
    (r : Readings) (key : ℕ) (l : RateLimiter) (b : TokenBucket)
    → get key l.api_limits ≡ some b
    → let (granted, l') = acquire_key r key l in
      (granted ≡ (acquire r.first 1 b).0)
      × (get key l'.api_limits ≡ some (acquire r.first 1 b).1)
      × (l'.second_bucket ≡ l.second_bucket)
      × (l'.minute_bucket ≡ l.minute_bucket)
      × (l'.hour_bucket ≡ l.hour_bucket)
unfolding acquire_key acquire_own count_granted count_blocked
acquire_key-own r key l b own =
    ground (arith, get-put_self key (acquire r.first 1 b).1 l.api_limits)
