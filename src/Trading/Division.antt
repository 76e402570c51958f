-- ===== src/Trading/Division.antt =====
-- The arithmetic of Python's Decimal. Prices and amounts are whole multiples of one small decimal
-- unit. A quotient, and where a rounded quotient takes part also a sum or a product, is rounded to
-- the precision of the context, which the arithmetic itself fixes and this record only describes.
use auto_trading.Prelude.{ℕ, ap, ◌∙◌, ◌*◌, ◌/◌, ◌≤◌, ◌<◌, ◌≡◌, Bool, true, arith}
use native.Mathlib.Nat.{
  le_trans, mul-le-mul_right, le_of_mul-le-mul_right, div-mul-le_self, le-div_iff_mul-le,
  mul-div_cancel,
}

pub record Division : Type 0 where
  pub quotient : ℕ → ℕ → ℕ
  -- The values that the precision of the context represents.
  pub fits : ℕ → Bool
  -- Correct rounding keeps the order of the exact quotients.
  pub monotone : (a b c d : ℕ) → 0 < b → 0 < d → a * d ≤ c * b → quotient a b ≤ quotient c d
  -- A quotient that can be represented is exact.
  pub exact : (p d : ℕ) → fits p ≡ true → 0 < d → quotient (p * d) d ≡ p

module _ (v : Division) where
  -- A quotient lies between any two representable bounds of the exact quotient.
  pub quotient_bounds :
      (a d lo hi : ℕ)
      → 0 < d
      → v.fits lo ≡ true
      → v.fits hi ≡ true
      → lo * d ≤ a
      → a ≤ hi * d
      → (lo ≤ v.quotient a d) × (v.quotient a d ≤ hi)
  quotient_bounds a d lo hi pos flo fhi below above = (
    rw (v.exact lo d flo pos) at (v.monotone (lo * d) d a d pos pos (mul-le-mul_right d below)),
    rw (v.exact hi d fhi pos) at (v.monotone a d (hi * d) d pos pos (mul-le-mul_right d above)),
  )

  -- What the context keeps of an exact value.
  abbrev pub rounded : ℕ → ℕ
  rounded x = v.quotient x 1

  -- The result of a sum or a product lies between any two representable bounds of the exact one.
  pub rounded_bounds :
      (a lo hi : ℕ)
      → v.fits lo ≡ true
      → v.fits hi ≡ true
      → lo ≤ a
      → a ≤ hi
      → (lo ≤ rounded a) × (rounded a ≤ hi)
  rounded_bounds a lo hi flo fhi below above =
      quotient_bounds a 1 lo hi (omega arith) flo fhi (omega (arith, below)) (omega (arith, above))

  -- The multiples of a value up to that count are all representable.
  abbrev pub FitsUpTo : (count x : ℕ) → Type 0
  FitsUpTo count x = (k : ℕ) → k ≤ count → v.fits (x * k) ≡ true

  pub FitsUpTo-self : (x count : ℕ) → 0 < count → FitsUpTo count x → v.fits x ≡ true
  FitsUpTo-self x count positive h =
      let same : x ≡ x * 1 = omega arith in ap (λ y. v.fits y) same ∙ h 1 (omega (arith, positive))

pub floor_monotone : (a b c d : ℕ) → 0 < b → 0 < d → a * d ≤ c * b → a / b ≤ c / d
floor_monotone a b c d pb pd h =
    let q = a / b in
    let below : q * b * d ≤ c * b = le_trans (mul-le-mul_right d (div-mul-le_self a b)) h in
    (le-div_iff_mul-le pd).1 (le_of_mul-le-mul_right {k = b} (omega (arith, below)) pb)

pub floor_exact : (p d : ℕ) → 0 < d → p * d / d ≡ p
floor_exact p d pos = mul-div_cancel p pos

-- Rounding down to the unit, with every value representable.
abbrev pub floor : Division
floor = record {
  quotient = λ a b. a / b;
  fits = λ _. true;
  monotone = floor_monotone;
  exact = λ p d _ pos. floor_exact p d pos;
}
