-- ===== src/TokenBucket/Budget.antt =====
-- What a token bucket grants over time (src/websocket_proxy/rate_limiter.py).
use auto_trading.Prelude.{
  ℕ, ◌+◌, ◌-◌, ◌*◌, ◌≤◌, ◌≡◌, refl, sym, ap, ◌∙◌, subst, Bool, List, [], ◌∷◌, if◌then◌else◌, arith,
}
use auto_trading.TokenBucket.{TokenBucket, token, refill, acquire}

-- A call between `b` and `b'` that granted `spent`: what was granted and what is left is paid for
-- by what was there and what the rate yields in the meantime.
pub record Pays (b b' : TokenBucket) (spent : ℕ) : Type 0 where
  pub same_rate : b'.rate ≡ b.rate
  pub same_capacity : b'.capacity ≡ b.capacity
  pub later : b.last_update ≤ b'.last_update
  pub within : b'.tokens ≤ b'.capacity
  pub paid : spent * token + b'.tokens + b.rate * b.last_update ≤ b.tokens + b.rate * b'.last_update

refill-Pays : (now : ℕ) (b : TokenBucket) → b.last_update ≤ now → Pays b (refill now b) 0
unfolding refill
refill-Pays now b h =
    let e : now - b.last_update + b.last_update ≡ now = omega arith in
    record {
      same_rate = refl;
      same_capacity = refl;
      later = h;
      within = omega arith;
      paid = omega (arith, ap (λ (t : ℕ). t * b.rate) e);
    }

-- What a call of `acquire` for that many tokens spends.
abbrev pub spent : ℕ → Bool → ℕ
spent tokens granted = if granted then tokens else 0

-- A call of `acquire` keeps the bucket within its capacity, and spends its tokens if it grants.
pub acquire-Pays :
    (now tokens : ℕ) (b : TokenBucket)
    → b.last_update ≤ now
    → Pays b (acquire now tokens b).1 (spent tokens (acquire now tokens b).0)
unfolding acquire
acquire-Pays now tokens b h =
    let p = refill-Pays now b h in
    record {
      same_rate = ground (arith, p);
      same_capacity = ground (arith, p);
      later = ground (arith, p);
      within = ground (arith, p);
      paid = ground (arith, p);
    }

pub last_update-acquire :
    (now tokens : ℕ) (b : TokenBucket) → (acquire now tokens b).1.last_update ≡ now
unfolding acquire
last_update-acquire now tokens b = ground arith

-- Calls in order: the tokens asked for, and the readings of the clock.
abbrev pub Calls : Type 0
Calls = List (ℕ × ℕ)

-- The clock is monotonic.
abbrev pub IsMonotonic : ℕ → Calls → Type 0
IsMonotonic from [] = Unit
IsMonotonic from ((now, _) ∷ calls) = (from ≤ now) × IsMonotonic now calls

-- The bucket after the calls, and the tokens that they were granted.
pub run : Calls → TokenBucket → ℕ × TokenBucket
run [] b = (0, b)
run ((now, tokens) ∷ calls) b =
    let (granted, b') = acquire now tokens b in
    let (total, b'') = run calls b' in (spent tokens granted + total, b'')

pub Pays-trans : {b c d : TokenBucket} {m n : ℕ} → Pays b c m → Pays c d n → Pays b d (m + n)
Pays-trans {b} {c} {d} p q = record {
  same_rate = q.same_rate ∙ p.same_rate;
  same_capacity = q.same_capacity ∙ p.same_capacity;
  later = omega arith;
  within = q.within;
  paid = omega (
    arith,
    ap (λ (t : ℕ). t * c.last_update) p.same_rate,
    ap (λ (t : ℕ). t * d.last_update) p.same_rate,
  );
}

-- The token bucket's guarantee: from a bucket within its capacity, and over any sequence of calls
-- with a monotonic clock, whatever each asks for, the tokens
-- granted are at most those in the bucket at the start and what the rate yields until the last
-- call, and no more than the capacity is left at the end.
pub run-Pays :
    (calls : Calls) (b : TokenBucket)
    → b.tokens ≤ b.capacity
    → IsMonotonic b.last_update calls
    → Pays b (run calls b).1 (run calls b).0
unfolding run
run-Pays [] b h m = record {
  same_rate = refl;
  same_capacity = refl;
  later = omega arith;
  within = h;
  paid = omega arith;
}
run-Pays ((now, tokens) ∷ calls) b h m =
    let p = acquire-Pays now tokens b m.0 in
    let b' = (acquire now tokens b).1 in
    Pays-trans p (
      run-Pays calls b' p.within
        (subst (λ t. IsMonotonic t calls) (sym (last_update-acquire now tokens b)) m.1))
