-- ===== src/TokenBucket/Limiter/Quota.antt =====
-- How many requests the limiter of src/websocket_proxy/rate_limiter.py lets through.
use auto_trading.Prelude.{
  ℕ, ◌+◌, ◌≤◌, ◌≡◌, inl, inr, refl, Bool, true, false, none, List, [], ◌∷◌, Bool-cases, get, arith,
}
use auto_trading.TokenBucket.{TokenBucket, acquire}
use auto_trading.TokenBucket.Budget.{Pays, Pays-trans, acquire-Pays, last_update-acquire, spent}
use auto_trading.TokenBucket.Limiter.{
  RateLimiter, Readings, acquire_global, acquire_key, count_blocked, count_granted,
}

-- The monotonic clock within a call that begins no earlier than `from`.
pub record Follows (from : ℕ) (r : Readings) : Type 0 where
  pub first_later : from ≤ r.first
  pub second_later : r.first ≤ r.second
  pub third_later : r.second ≤ r.third

-- No global bucket was updated after that time.
pub record NotAfter (time : ℕ) (l : RateLimiter) : Type 0 where
  pub second_past : l.second_bucket.last_update ≤ time
  pub minute_past : l.minute_bucket.last_update ≤ time
  pub hour_past : l.hour_bucket.last_update ≤ time

pub record IsBounded (l : RateLimiter) : Type 0 where
  pub second_within : l.second_bucket.tokens ≤ l.second_bucket.capacity
  pub minute_within : l.minute_bucket.tokens ≤ l.minute_bucket.capacity
  pub hour_within : l.hour_bucket.tokens ≤ l.hour_bucket.capacity

-- Each bucket has paid for at least `granted` requests.
pub record Covers (l l' : RateLimiter) (granted : ℕ) : Type 0 where
  pub by_second : (n : ℕ) × (granted ≤ n) × Pays l.second_bucket l'.second_bucket n
  pub by_minute : (n : ℕ) × (granted ≤ n) × Pays l.minute_bucket l'.minute_bucket n
  pub by_hour : (n : ℕ) × (granted ≤ n) × Pays l.hour_bucket l'.hour_bucket n

Pays-refl : (b : TokenBucket) → b.tokens ≤ b.capacity → Pays b b 0
Pays-refl b h = record {
  same_rate = refl;
  same_capacity = refl;
  later = omega arith;
  within = h;
  paid = omega arith;
}

spent-le : (b : Bool) → spent 1 b ≤ 1
spent-le true = omega arith
spent-le false = omega arith

acquire_global-Covers :
    (from : ℕ) (r : Readings) (l : RateLimiter)
    → NotAfter from l
    → Follows from r
    → IsBounded l
    → Covers l (acquire_global r l).1 (spent 1 (acquire_global r l).0)
unfolding acquire_global
acquire_global-Covers from r l past o b =
    let p = acquire-Pays r.first 1 l.second_bucket (omega arith) in
    let q = acquire-Pays r.second 1 l.minute_bucket (omega arith) in
    let s = acquire-Pays r.third 1 l.hour_bucket (omega arith) in
    let by_hour = (acquire r.third 1 l.hour_bucket).0 in
    let minute_kept = Pays-refl l.minute_bucket b.minute_within in
    let hour_kept = Pays-refl l.hour_bucket b.hour_within in
    elim (Bool-cases (acquire r.first 1 l.second_bucket).0) [
      | inl e ↦ elim (Bool-cases (acquire r.second 1 l.minute_bucket).0) [
        | inl f ↦
            rw (e, f)
              (record {
                by_second = (1, spent-le by_hour, rw e at p);
                by_minute = (1, spent-le by_hour, rw f at q);
                by_hour = (spent 1 by_hour, omega arith, s);
              })
        | inr f ↦
            rw (e, f)
              (record {
                by_second = (1, omega arith, rw e at p);
                by_minute = (0, omega arith, rw f at q);
                by_hour = (0, omega arith, hour_kept);
              })
      ]
      | inr e ↦ rw e (record {
        by_second = (0, omega arith, rw e at p);
        by_minute = (0, omega arith, minute_kept);
        by_hour = (0, omega arith, hour_kept);
      })
    ]

-- A request for a key with no bucket of its own.
acquire_key-Covers :
    (from : ℕ) (r : Readings) (key : ℕ) (l : RateLimiter)
    → get key l.api_limits ≡ none
    → NotAfter from l
    → Follows from r
    → IsBounded l
    → Covers l (acquire_key r key l).1 (spent 1 (acquire_key r key l).0)
unfolding acquire_key count_granted count_blocked
acquire_key-Covers from r key l shared past o b =
    let c = acquire_global-Covers from r l past o b in
    elim (Bool-cases (acquire_global r l).0) [
      | inl e ↦
          rw (shared, e)
            (record {
              by_second = rw e at c.by_second;
              by_minute = rw e at c.by_minute;
              by_hour = rw e at c.by_hour;
            })
      | inr e ↦
          rw (shared, e)
            (record {
              by_second = rw e at c.by_second;
              by_minute = rw e at c.by_minute;
              by_hour = rw e at c.by_hour;
            })
    ]

pub acquire_key-NotAfter :
    (from : ℕ) (r : Readings) (key : ℕ) (l : RateLimiter)
    → get key l.api_limits ≡ none
    → NotAfter from l
    → Follows from r
    → NotAfter r.third (acquire_key r key l).1
unfolding acquire_key acquire_global count_granted count_blocked
acquire_key-NotAfter from r key l shared past o =
    let p = last_update-acquire r.first 1 l.second_bucket in
    let q = last_update-acquire r.second 1 l.minute_bucket in
    let s = last_update-acquire r.third 1 l.hour_bucket in
    record {
      second_past = ground (arith, p, q, s);
      minute_past = ground (arith, p, q, s);
      hour_past = ground (arith, p, q, s);
    }

pub acquire_key-keeps_limits :
    (r : Readings) (key : ℕ) (l : RateLimiter)
    → get key l.api_limits ≡ none
    → (acquire_key r key l).1.api_limits ≡ l.api_limits
unfolding acquire_key acquire_global count_granted count_blocked
acquire_key-keeps_limits r key l shared = ground arith

-- Calls of `acquire` in order, each with its readings and its key.
abbrev pub Requests : Type 0
Requests = List (Readings × ℕ)

-- The monotonic clock over all the calls, none of which is for a registered API.
abbrev pub Shared : ℕ → Requests → RateLimiter → Type 0
Shared from [] l = Unit
Shared from ((r, key) ∷ calls) l =
    (get key l.api_limits ≡ none) × Follows from r × Shared r.third calls l

-- How many of the calls were granted, and the limiter after them.
unfoldable pub run_requests : Requests → RateLimiter → ℕ × RateLimiter
run_requests [] l = (0, l)
run_requests ((r, key) ∷ calls) l =
    let (granted, l') = acquire_key r key l in
    let (total, l'') = run_requests calls l' in (spent 1 granted + total, l'')

Covers-trans : {l k j : RateLimiter} {m n : ℕ} → Covers l k m → Covers k j n → Covers l j (m + n)
Covers-trans a b = record {
  by_second = joined a.by_second b.by_second;
  by_minute = joined a.by_minute b.by_minute;
  by_hour = joined a.by_hour b.by_hour;
}
  where
    joined :
        {b c d : TokenBucket} {m n : ℕ}
        → (x : ℕ) × (m ≤ x) × Pays b c x
        → (x : ℕ) × (n ≤ x) × Pays c d x
        → (x : ℕ) × (m + n ≤ x) × Pays b d x
    joined (x, h, p) (y, k, q) = (x + y, omega arith, Pays-trans p q)

Covers-IsBounded : {l k : RateLimiter} {n : ℕ} → Covers l k n → IsBounded k
Covers-IsBounded c = record {
  second_within = c.by_second.2.within;
  minute_within = c.by_minute.2.within;
  hour_within = c.by_hour.2.within;
}

pub Shared-limits :
    (calls : Requests) (from : ℕ) (l k : RateLimiter)
    → k.api_limits ≡ l.api_limits
    → Shared from calls l
    → Shared from calls k
Shared-limits [] from l k e h = tt
Shared-limits ((r, key) ∷ calls) from l k e h =
    (rw e h.0, h.1, Shared-limits calls r.third l k e h.2)

-- From buckets within their capacities, over any calls that are all for keys without a bucket of
-- their own, with a monotonic clock, each of the three global buckets has paid at least one token for
-- every request that was granted, so that the number of granted requests is bounded by the tokens and
-- the rate of the second, of the minute and of the hour alike.
pub run_requests-Covers :
    (calls : Requests) (from : ℕ) (l : RateLimiter)
    → IsBounded l
    → NotAfter from l
    → Shared from calls l
    → Covers l (run_requests calls l).1 (run_requests calls l).0
unfolding run_requests
run_requests-Covers [] from l b past h = record {
  by_second = (0, omega arith, Pays-refl l.second_bucket b.second_within);
  by_minute = (0, omega arith, Pays-refl l.minute_bucket b.minute_within);
  by_hour = (0, omega arith, Pays-refl l.hour_bucket b.hour_within);
}
run_requests-Covers ((r, key) ∷ calls) from l b past (shared, o, h) =
    let l' = (acquire_key r key l).1 in
    let c = acquire_key-Covers from r key l shared past o b in
    let past' = acquire_key-NotAfter from r key l shared past o in
    let h' = Shared-limits calls r.third l l' (acquire_key-keeps_limits r key l shared) h in
    Covers-trans c (run_requests-Covers calls r.third l' (Covers-IsBounded c) past' h')
