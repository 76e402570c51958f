-- ===== src/Strategies/Rsi/Bounds.antt =====
-- Bounds of the indicators, and the history that they need (src/strategies/rsi_divergence.py,
-- src/strategies/golden_cross.py).
use auto_trading.Prelude.{
  ℕ, zero, suc, ◌+◌, ◌-◌, ◌*◌, ◌≤◌, ◌<◌, ◌≡◌, refl, Bool, true, false, none, some, List, [], ◌∷◌,
  length, sum_of, All, ◌==◌, ltb, Bool-cases, inl, inr, arith, ◌∙◌,
}
use auto_trading.Prelude.Int.{ℤ, pos}
use auto_trading.Trading.Division.{Division, quotient_bounds}
use native.Mathlib.Nat.{mul-le-mul_right}
use auto_trading.Strategies.{unit}
use auto_trading.Strategies.Charts.{drop, take, last_of, all_but}
use auto_trading.Strategies.GoldenCross.{calculate_sma}
use auto_trading.Strategies.Rsi.{
  RsiDivergence, hundred, rsi_of, calculate_rsi, lookback, rsi_signal,
}

length-take : {A : Type 0} (n : ℕ) (xs : List A) → n ≤ length xs → length (take n xs) ≡ n
length-take zero [] h = refl
length-take (suc n) [] h = absurd (omega (arith, h))
length-take zero (x ∷ xs) h = refl
length-take (suc n) (x ∷ xs) h = omega (arith, length-take n xs (omega (arith, h)))

length-drop :
    {A : Type 0} (n : ℕ) (xs : List A) → n ≤ length xs → length (drop n xs) ≡ length xs - n
length-drop zero [] h = refl
length-drop (suc n) [] h = absurd (omega (arith, h))
length-drop zero (x ∷ xs) h = omega arith
length-drop (suc n) (x ∷ xs) h = omega (arith, length-drop n xs (omega (arith, h)))

-- A sum of prices between two bounds.
sum_of-bounds :
    (lo hi : ℕ) (prices : List ℕ)
    → All (λ p. (lo ≤ p) × (p ≤ hi)) prices
    → (lo * length prices ≤ sum_of (λ p. p) prices) × (sum_of (λ p. p) prices ≤ hi * length prices)
sum_of-bounds lo hi [] h = (omega arith, omega arith)
sum_of-bounds lo hi (p ∷ prices) h =
    let (below, above) = sum_of-bounds lo hi prices h.1 in
    (grind (arith, below, h), grind (arith, above, h))

module _ (v : Division) where
  -- The average of the last prices is there from as many prices on as its period, and lies between
  -- any two bounds of those prices that the context represents.
  calculate_sma-bounds :
      (prices : List ℕ) (period lo hi : ℕ)
      → 0 < period
      → period ≤ length prices
      → v.fits lo ≡ true
      → v.fits hi ≡ true
      → All (λ p. (lo ≤ p) × (p ≤ hi)) (last_of period prices)
      → (sma : ℕ) × (calculate_sma v prices period ≡ some sma) × (lo ≤ sma) × (sma ≤ hi)
  unfolding calculate_sma
  calculate_sma-bounds prices period lo hi positive enough fits_lo fits_hi between =
      let recent = last_of period prices in
      let enough' : ltb (length prices) period ≡ false = ground (arith, enough) in
      let size : length recent ≡ period =
        length-drop (length prices - period) prices (omega arith) ∙ omega (arith, enough) in
      let (below, above) = sum_of-bounds lo hi recent between in
      let bounds =
        quotient_bounds v (sum_of (λ p. p) recent) period lo hi positive fits_lo fits_hi
          (rw size at below) (rw size at above) in
      (
        v.quotient (sum_of (λ p. p) recent) period,
        rw (enough', calculate_sma) refl,
        bounds.0,
        bounds.1,
      )

  -- The RSI lies between 0 and 100, where the context represents 100.
  rsi_of-bounds :
      (avg_gain avg_loss : ℕ)
      → v.fits hundred ≡ true
      → (rsi : ℕ) × (rsi_of v avg_gain avg_loss ≡ pos rsi) × (rsi ≤ hundred)
  unfolding rsi_of
  rsi_of-bounds avg_gain avg_loss fits =
      let d = unit + v.quotient (avg_gain * unit) avg_loss in
      let part : v.quotient (hundred * unit) d ≤ hundred =
        rw (v.exact hundred d fits (omega arith)) at (
          v.monotone (hundred * unit) d (hundred * d) d (omega arith) (omega arith)
            (mul-le-mul_right d (omega arith))) in
      elim (Bool-cases (avg_loss == 0)) [
        | inl none_lost ↦ (hundred, rw (none_lost, rsi_of) refl, omega arith)
        | inr lost ↦ (
          hundred - v.quotient (hundred * unit) d,
          rw (lost, rsi_of) (ground (arith, part)),
          omega arith,
        )
      ]

  -- A history that is just as long as the strategy asks for, and a lookback above 0: there is no
  -- signal, whatever the prices are, since the first RSI of the lookback lacks a price.
  rsi_signal-just_enough :
      (test : ℤ → Bool) (detect : List ℕ → List ℤ → Bool) (s : RsiDivergence) (prices : List ℕ)
      → 0 < s.lookback_periods
      → length prices ≡ s.rsi_period + s.lookback_periods
      → rsi_signal v test detect s prices ≡ false
  unfolding rsi_signal
  rsi_signal-just_enough test detect s prices positive exact =
      rw (no_lookback s.lookback_periods positive exact, rsi_signal) (ground arith)
    where
      no_lookback :
          (left : ℕ)
          → 0 < left
          → length prices ≡ s.rsi_period + left
          → lookback v s.rsi_period left prices ≡ none
      no_lookback zero h e = absurd (omega (arith, h))
      no_lookback (suc left) h e =
          let short : length (all_but (suc left) prices) ≡ s.rsi_period =
            length-take (length prices - suc left) prices (omega arith) ∙ omega (arith, e) in
          let one_short : ltb (length (all_but (suc left) prices)) (s.rsi_period + 1) ≡ true =
            ground (arith, short) in
          rw (one_short, lookback, calculate_rsi) refl
