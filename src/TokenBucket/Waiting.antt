-- ===== src/TokenBucket/Waiting.antt =====
-- When `wait_for_token` of src/websocket_proxy/rate_limiter.py stops waiting.
use auto_trading.Prelude.{
  ℕ, ◌+◌, ◌-◌, ◌*◌, ◌≤◌, ◌<◌, ◌≡◌, ◌↔◌, ◌⊎◌, inl, inr, ap, true, false, refl, sym, subst, List, [],
  ◌∷◌, Bool-cases, arith,
}
use auto_trading.TokenBucket.{TokenBucket, token, refill, acquire, wait_for_token}
use auto_trading.TokenBucket.Budget.{last_update-acquire}

-- At some reading, the tokens at hand and those that the rate has yielded since are enough.
abbrev pub Suffices : List ℕ → ℕ → TokenBucket → Type 0
Suffices [] tokens b = ⊥
Suffices (now ∷ readings) tokens b =
    (tokens * token ≤ b.tokens + (now - b.last_update) * b.rate) ⊎ Suffices readings tokens b

abbrev pub IsMonotonic : ℕ → List ℕ → Type 0
IsMonotonic from [] = Unit
IsMonotonic from (now ∷ readings) = (from ≤ now) × IsMonotonic now readings

-- The bucket after attempts that granted nothing and clipped nothing of the refill.
record Accrues (b b' : TokenBucket) : Type 0 where
  same_rate : b'.rate ≡ b.rate
  same_capacity : b'.capacity ≡ b.capacity
  later : b.last_update ≤ b'.last_update
  total : b'.tokens + b.rate * b.last_update ≡ b.tokens + b.rate * b'.last_update

-- What is at hand at a later reading is then the same, counted from either bucket.
at_hand-Accrues :
    (now : ℕ) {b b' : TokenBucket}
    → Accrues b b'
    → b'.last_update ≤ now
    → b'.tokens + (now - b'.last_update) * b'.rate ≡ b.tokens + (now - b.last_update) * b.rate
at_hand-Accrues now {b} {b'} a h =
    let e : now - b.last_update + b.last_update ≡ now = omega arith in
    let e' : now - b'.last_update + b'.last_update ≡ now = omega arith in
    omega (
      arith,
      ap (λ (t : ℕ). t * b.rate) e,
      ap (λ (t : ℕ). t * b.rate) e',
      ap (λ (t : ℕ). (now - b'.last_update) * t) a.same_rate,
    )

Suffices-Accrues :
    (readings : List ℕ) (tokens from : ℕ) {b b' : TokenBucket}
    → Accrues b b'
    → b'.last_update ≤ from
    → IsMonotonic from readings
    → Suffices readings tokens b' ↔ Suffices readings tokens b
Suffices-Accrues [] tokens from a h m = (λ p. p, λ p. p)
Suffices-Accrues (now ∷ readings) tokens from {b} {b'} a h m =
    let ih = Suffices-Accrues readings tokens now a (omega arith) m.1 in
    let e = at_hand-Accrues now a (omega arith) in
    (
      elim [ inl p ↦ inl (rw (← e) p) | inr p ↦ inr (ih.0 p) ],
      elim [ inl p ↦ inl (rw e p) | inr p ↦ inr (ih.1 p) ],
    )

acquire_refused :
    (now tokens : ℕ) (b : TokenBucket)
    → (acquire now tokens b).0 ≡ false
    → ((acquire now tokens b).1 ≡ refill now b) × ((refill now b).tokens < tokens * token)
unfolding acquire
acquire_refused now tokens b e = ground arith

refill-Accrues :
    (now : ℕ) (b : TokenBucket)
    → b.last_update ≤ now
    → (refill now b).tokens < b.capacity
    → Accrues b (refill now b)
unfolding refill
refill-Accrues now b h short =
    let d : now - b.last_update + b.last_update ≡ now = omega arith in
    record {
      same_rate = refl;
      same_capacity = refl;
      later = h;
      total = omega (arith, ap (λ (t : ℕ). t * b.rate) d);
    }

-- A refused attempt for tokens that the bucket can hold clips nothing of the refill.
acquire-Accrues :
    (now tokens : ℕ) (b : TokenBucket)
    → b.last_update ≤ now
    → tokens * token ≤ b.capacity
    → (acquire now tokens b).0 ≡ false
    → Accrues b (acquire now tokens b).1
acquire-Accrues now tokens b h fits e =
    let (same, short) = acquire_refused now tokens b e in
    rw same (refill-Accrues now b h (omega arith))

acquire-true_iff :
    (now tokens : ℕ) (b : TokenBucket)
    → tokens * token ≤ b.capacity
    → ((acquire now tokens b).0 ≡ true)
      ↔ (tokens * token ≤ b.tokens + (now - b.last_update) * b.rate)
unfolding acquire
acquire-true_iff now tokens b fits = ground arith

-- With readings of a monotonic clock, and for tokens that fit into the bucket, `wait_for_token`
-- gets them exactly if at some reading the tokens at the start and what the rate has yielded since
-- then suffice: the attempts that fail on the way cost nothing.
pub wait_for_token_iff :
    (readings : List ℕ) (tokens : ℕ) (b : TokenBucket)
    → IsMonotonic b.last_update readings
    → tokens * token ≤ b.capacity
    → ((wait_for_token readings tokens b).0 ≡ true) ↔ Suffices readings tokens b
unfolding wait_for_token
wait_for_token_iff [] tokens b m fits = (λ e. cc, λ h. absurd h)
wait_for_token_iff (now ∷ readings) tokens b m fits =
    let b' = (acquire now tokens b).1 in
    let m' = subst (λ t. IsMonotonic t readings) (sym (last_update-acquire now tokens b)) m.1 in
    let at_once = acquire-true_iff now tokens b fits in
    elim (Bool-cases (acquire now tokens b).0) [
      | inl granted ↦ rw granted (λ _. inl (at_once.0 granted), λ _. refl)
      | inr refused ↦
          let a = acquire-Accrues now tokens b m.0 fits refused in
          let ih = wait_for_token_iff readings tokens b' m' (rw a.same_capacity fits) in
          let s =
            Suffices-Accrues readings tokens now a (omega (arith, last_update-acquire now tokens b))
              m.1 in
          rw refused (
            λ e. inr (s.0 (ih.0 e)),
            elim [ inl p ↦ absurd (cc (at_once.1 p)) | inr p ↦ ih.1 (s.1 p) ],
          )
    ]
