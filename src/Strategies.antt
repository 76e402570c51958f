-- ===== src/Strategies.antt =====
-- The trading strategies (src/strategies), with the order books and charts that they read
-- (src/models/order_book.py, src/models/chart.py). A ratio is a number of 10^-28, the precision
-- of the Decimal context.
pub mod Charts
pub mod ChartFields
pub mod Imbalance
pub mod GoldenCross
pub mod Rsi
pub mod Vwap
pub mod Sizes
use auto_trading.Prelude.{
  ℕ, ◌+◌, ◌-◌, ◌*◌, ◌/◌, Bool, not, ◌||◌, Option, none, some, List, [], ◌∷◌, ◌==◌, leb,
  if◌then◌else◌,
}
use auto_trading.Prelude.Int.{ℤ, pos, negsuc, neg_part, sub_ℕ, ltb_ℤ, pos_part}
use auto_trading.Trading.Division.{Division}
use auto_trading.Trading.Models.{Position}
use auto_trading.Trading.Risk.{one}

abbrev pub unit : ℕ
unit = 10_000_000_000_000_000_000_000_000_000

abbrev pub leb_ℤ : ℤ → ℤ → Bool
leb_ℤ a b = not (ltb_ℤ b a)

abbrev pub neg : ℕ → ℤ
neg n = sub_ℕ 0 n

module _ (v : Division) where
  -- `(a - b) / d`, which rounds both signs alike.
  unfoldable pub signed_ratio : (a b d : ℕ) → ℤ
  signed_ratio a b d =
      if leb b a then pos (v.quotient ((a - b) * unit) d) else neg (v.quotient ((b - a) * unit) d)

  -- `Position.return_rate`
  unfoldable pub return_rate : Position → ℤ
  unfolding signed_ratio
  return_rate p = signed_ratio p.current_price p.average_buy_price p.average_buy_price

  -- The strategies' own stop-loss and target, on which a position is sold.
  abbrev pub exits : (stop_loss_pct target_pct : ℕ) → Position → Bool
  exits stop_loss_pct target_pct p =
      leb_ℤ (return_rate p) (neg stop_loss_pct) || leb_ℤ (pos target_pct) (return_rate p)

  -- `int(capital / price)`, for a capital in millionths of the price unit over `scale`.
  unfoldable pub shares : (capital : ℤ) (scale price : ℕ) → ℤ
  shares capital scale price =
      let n = v.quotient (pos_part capital * unit) (price * scale) / unit in
      let k = v.quotient (neg_part capital * unit) (price * scale) / unit in sub_ℕ n k

-- `quantity if quantity > 0 else None`
abbrev pub or_none : ℤ → Option ℤ
or_none (pos n) = if n == 0 then none else some (pos n)
or_none (negsuc n) = none
