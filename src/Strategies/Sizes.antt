-- ===== src/Strategies/Sizes.antt =====
-- What the sizes of the strategies cost (`calculate_position_size` of src/strategies).
use auto_trading.Prelude.{ℕ, suc, ◌*◌, ◌/◌, ◌≤◌, ◌<◌, ◌≡◌, ◌⊎◌, inl, inr, true, arith}
use auto_trading.Prelude.Int.{pos}
use native.Mathlib.Nat.{mul-le-mul_right}
use auto_trading.Trading.Division.{Division}
use auto_trading.Strategies.{unit, shares}

le_or_lt : (a b : ℕ) → (a ≤ b) ⊎ (b < a)
le_or_lt a b = omega arith

module _ (v : Division) where
  -- A capital, not negative, over a price above zero. All shares but the last cost less than the
  -- capital, at that price, where the context represents their number; the last may go beyond it by the
  -- rounding of the quotient.
  shares-cost :
      (capital scale price n : ℕ)
      → 0 < price * scale
      → v.fits (n * unit) ≡ true
      → shares v (pos capital) scale price ≡ pos (suc n)
      → n * (price * scale) < capital
  unfolding shares
  shares-cost capital scale price n positive fits is =
      let d = price * scale in
      let q = v.quotient (capital * unit) d in
      let enough : suc n ≤ q / unit = ground (arith, is) in
      elim (le_or_lt capital (n * d)) [
        | inr costs_less ↦ costs_less
        | inl covers ↦
            let moved : n * d * unit ≡ n * unit * d = grind arith in
            let most : q ≤ n * unit = rw (v.exact (n * unit) d fits positive) at (
              v.monotone (capital * unit) d (n * unit * d) d positive positive
                (mul-le-mul_right d (omega (arith, covers, moved)))) in
            absurd (omega (arith, enough, most))
      ]
