-- ===== src/TokenBucket/Limiter.antt =====
-- The class `RateLimiter` of src/websocket_proxy/rate_limiter.py: a bucket for each of second,
-- minute and hour, and buckets of their own for registered APIs. Request rates are whole numbers.
-- The stored average of the waiting times is a float that no decision reads, and is left out.
pub mod Quota
pub mod Fresh
pub mod Single
use auto_trading.Prelude.{
  ℕ, ◌+◌, ◌*◌, Bool, true, false, Option, none, some, List, map, [], ◌==◌, if◌then◌else◌, Dict, get,
  has, put,
}
use auto_trading.TokenBucket.{TokenBucket, make, acquire}

pub record RateLimitConfig : Type 0 where
  pub requests_per_second : ℕ
  pub requests_per_minute : ℕ
  pub requests_per_hour : ℕ
  pub burst_size : ℕ

pub record Stats : Type 0 where
  pub total_requests : ℕ
  pub blocked_requests : ℕ
  pub last_request : Option ℕ

pub record RateLimiter : Type 0 where
  pub second_bucket : TokenBucket
  pub minute_bucket : TokenBucket
  pub hour_bucket : TokenBucket
  pub api_limits : Dict TokenBucket
  pub stats : Dict Stats

-- The readings of the clocks during one call: of the monotonic one by each bucket in turn, and
-- `datetime.now()` for the statistics.
pub record Readings : Type 0 where
  pub first : ℕ
  pub second : ℕ
  pub third : ℕ
  pub today : ℕ

-- `RateLimiter(config)`
unfoldable pub start : RateLimitConfig → ℕ → RateLimiter
start config now = record {
  second_bucket = make (config.requests_per_second * 3600) (config.requests_per_second * 2) now;
  minute_bucket = make (config.requests_per_minute * 60) config.requests_per_minute now;
  hour_bucket = make config.requests_per_hour config.requests_per_hour now;
  api_limits = [];
  stats = [];
}

-- An entry of the `defaultdict`.
abbrev stats_of : ℕ → Dict Stats → Stats
stats_of key stats = elim (get key stats) [
  | none ↦ record { total_requests = 0; blocked_requests = 0; last_request = none }
  | some s ↦ s
]

pub count_blocked : ℕ → RateLimiter → RateLimiter
count_blocked key l =
    let s = stats_of key l.stats in
    record l { stats = put key (record s { blocked_requests = s.blocked_requests + 1 }) l.stats }

pub count_granted : ℕ → ℕ → RateLimiter → RateLimiter
count_granted today key l =
    let s = stats_of key l.stats in
    record l {
      stats =
          put key (record s { total_requests = s.total_requests + 1; last_request = some today })
            l.stats;
    }

-- The three global buckets, joined by `and`: a bucket is asked only if those before it granted.
pub acquire_global : Readings → RateLimiter → Bool × RateLimiter
acquire_global r l =
    let (by_second, second) = acquire r.first 1 l.second_bucket in
    let (by_minute, minute) = acquire r.second 1 l.minute_bucket in
    let (by_hour, hour) = acquire r.third 1 l.hour_bucket in
    if by_second
    then (if by_minute
        then (
          by_hour,
          record l { second_bucket = second; minute_bucket = minute; hour_bucket = hour },
        )
        else (false, record l { second_bucket = second; minute_bucket = minute }))
    else (false, record l { second_bucket = second })

pub acquire_own : Readings → ℕ → TokenBucket → RateLimiter → Bool × RateLimiter
acquire_own r key b l =
    let (granted, b') = acquire r.first 1 b in
    (granted, record l { api_limits = put key b' l.api_limits })

-- `RateLimiter.acquire`; its argument `priority` is not read.
pub acquire_key : Readings → ℕ → RateLimiter → Bool × RateLimiter
unfolding acquire_global acquire_own count_blocked count_granted
acquire_key r key l =
    let asked : Bool × RateLimiter = elim (get key l.api_limits) [
      | none ↦ acquire_global r l
      | some b ↦ acquire_own r key b l
    ] in
    let (granted, l') = asked in
    if granted then (true, count_granted r.today key l') else (false, count_blocked key l')

pub register_api : (now key requests_per_second : ℕ) → Option ℕ → RateLimiter → RateLimiter
register_api now key requests_per_second burst_size l =
    let default = requests_per_second * 2 in
    -- `burst_size or int(requests_per_second * 2)`
    let burst : ℕ = elim burst_size [ none ↦ default | some n ↦ (if n == 0 then default else n) ] in
    record l { api_limits = put key (make (requests_per_second * 3600) burst now) l.api_limits }

pub refresh : ℕ → TokenBucket → TokenBucket
refresh now b = record b { tokens = b.capacity; last_update = now }

pub reset_all : ℕ → RateLimiter → RateLimiter
unfolding refresh
reset_all now l = record l {
  second_bucket = refresh now l.second_bucket;
  minute_bucket = refresh now l.minute_bucket;
  hour_bucket = refresh now l.hour_bucket;
  api_limits = map (λ e. (e.0, refresh now e.1)) l.api_limits;
}

-- `reset_limits(api_key)`: a key that is not registered resets everything, as no key does.
pub reset_limits : ℕ → Option ℕ → RateLimiter → RateLimiter
unfolding reset_all
reset_limits now none l = reset_all now l
reset_limits now (some key) l = elim (get key l.api_limits) [
  | none ↦ reset_all now l
  | some b ↦ record l { api_limits = put key (refresh now b) l.api_limits }
]
