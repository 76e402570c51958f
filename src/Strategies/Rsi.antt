-- ===== src/Strategies/Rsi.antt =====
-- The strategy on divergences of the RSI (src/strategies/rsi_divergence.py), with periods above
-- zero.
pub mod Bounds
use auto_trading.Prelude.{
  ℕ, zero, suc, ◌+◌, ◌-◌, ◌*◌, ◌≤◌, ◌<◌, ◌≡◌, refl, sym, ap, ◌∙◌, subst, Bool, true, false, ◌||◌,
  ◌&&◌, Option, none, some, List, [], ◌∷◌, map, length, sum_of, ◌==◌, ltb, leb, if◌then◌else◌, Dict,
  Bool-cases, inl, inr, arith,
}
use auto_trading.Prelude.Int.{ℤ, pos, negsuc, sub_ℕ, ltb_ℤ}
use auto_trading.Trading.Division.{Division, quotient_bounds}
use auto_trading.Trading.Models.{Position}
use auto_trading.Trading.Risk.{one, scale}
use auto_trading.Engine.{Stock, BaseStrategy}
use auto_trading.Strategies.{unit, leb_ℤ, exits, shares, or_none}
use auto_trading.Strategies.Charts.{ChartData, chart_of, last_of, all_but}
use auto_trading.Strategies.GoldenCross.{get_close_prices}

pub record RsiDivergence : Type 0 where
  pub rsi_period : ℕ
  pub oversold_threshold : ℤ
  pub overbought_threshold : ℤ
  pub lookback_periods : ℕ
  pub target_profit_pct : ℕ
  pub stop_loss_pct : ℕ
  pub position_size_pct : ℕ
  pub chart_data_cache : Dict (List ChartData)

-- `max(change, 0)` and `max(-change, 0)` of each price and the next.
abbrev pub gains : List ℕ → List ℕ
gains [] = []
gains (p ∷ []) = []
gains (p ∷ q ∷ prices) = (q - p) ∷ gains (q ∷ prices)

abbrev pub losses : List ℕ → List ℕ
losses [] = []
losses (p ∷ []) = []
losses (p ∷ q ∷ prices) = (p - q) ∷ losses (q ∷ prices)

abbrev pub hundred : ℕ
hundred = 100 * unit

-- `prices[0]` and `prices[-1]`.
abbrev pub first : {A : Type 0} → A → List A → A
first d [] = d
first d (x ∷ xs) = x

abbrev pub final : {A : Type 0} → A → List A → A
final d [] = d
final d (x ∷ xs) = final x xs

abbrev pub two_each : List ℕ → List ℤ → Bool
two_each prices rsi_values = leb 2 (length prices) && leb 2 (length rsi_values)

abbrev pub detect_bullish_divergence : List ℕ → List ℤ → Bool
detect_bullish_divergence prices rsi_values =
    two_each prices rsi_values
    && ltb (final 0 prices) (first 0 prices)
    && ltb_ℤ (first (pos 0) rsi_values) (final (pos 0) rsi_values)

abbrev pub detect_bearish_divergence : List ℕ → List ℤ → Bool
detect_bearish_divergence prices rsi_values =
    two_each prices rsi_values
    && ltb (first 0 prices) (final 0 prices)
    && ltb_ℤ (final (pos 0) rsi_values) (first (pos 0) rsi_values)

module _ (v : Division) where
  -- `100 - 100 / (1 + avg_gain / avg_loss)`
  unfoldable pub rsi_of : (avg_gain avg_loss : ℕ) → ℤ
  rsi_of avg_gain avg_loss =
      let rs = v.quotient (avg_gain * unit) avg_loss in
      if avg_loss == 0 then pos hundred else sub_ℕ hundred (v.quotient (hundred * unit) (unit + rs))

  unfoldable pub calculate_rsi : (rsi_period : ℕ) → List ℕ → Option ℤ
  unfolding rsi_of
  calculate_rsi rsi_period prices =
      if ltb (length prices) (rsi_period + 1)
      then none
      else some (
          rsi_of (v.quotient (sum_of (λ x. x) (last_of rsi_period (gains prices))) rsi_period)
            (v.quotient (sum_of (λ x. x) (last_of rsi_period (losses prices))) rsi_period))

  -- The RSI before the last `left` prices, the last `left - 1` of them, and so on.
  unfoldable pub lookback : (rsi_period left : ℕ) → List ℕ → Option (List ℤ)
  unfolding calculate_rsi
  lookback rsi_period zero prices = some []
  lookback rsi_period (suc left) prices =
      elim (calculate_rsi rsi_period (all_but (suc left) prices)) [
        | none ↦ none
        | some rsi ↦ elim (lookback rsi_period left prices) [
          | none ↦ none
          | some rest ↦ some (rsi ∷ rest)
        ]
      ]

  abbrev pub diverges : (List ℕ → List ℤ → Bool) → List ℕ → Option (List ℤ) → Bool
  diverges detect prices none = false
  diverges detect prices (some rsi_values) = detect prices rsi_values

  abbrev pub beyond : (ℤ → Bool) → Option ℤ → Bool
  beyond test none = false
  beyond test (some rsi) = test rsi

  -- What the two signals share.
  unfoldable pub rsi_signal : (ℤ → Bool) → (List ℕ → List ℤ → Bool) → RsiDivergence → List ℕ → Bool
  unfolding calculate_rsi lookback
  rsi_signal test detect s prices =
      if ltb (length prices) (s.rsi_period + s.lookback_periods)
      then false
      else beyond test (calculate_rsi s.rsi_period prices)
        && diverges detect (last_of s.lookback_periods prices)
            (lookback s.rsi_period s.lookback_periods prices)

  unfoldable pub rsi_buy : RsiDivergence → Stock → Bool
  unfolding rsi_signal
  rsi_buy s stock =
      rsi_signal (λ rsi. ltb_ℤ rsi s.oversold_threshold) detect_bullish_divergence s
        (get_close_prices stock.stock_code s.chart_data_cache)

  unfoldable pub rsi_sell : RsiDivergence → Position → Stock → Bool
  unfolding rsi_signal
  rsi_sell s p stock =
      exits v s.stop_loss_pct s.target_profit_pct p
      || rsi_signal (λ rsi. ltb_ℤ s.overbought_threshold rsi) detect_bearish_divergence s
          (get_close_prices stock.stock_code s.chart_data_cache)

  unfoldable pub rsi_size : RsiDivergence → Stock → (available : ℤ) → Option ℤ
  unfolding shares
  rsi_size s stock available =
      if stock.current_price == 0
      then none
      else or_none (shares v (scale available s.position_size_pct) (one * one) stock.current_price)

  -- What the engine calls.
  abbrev pub rsi_divergence : BaseStrategy RsiDivergence
  rsi_divergence = record {
    evaluate_buy_signal = λ s stock. some (rsi_buy s stock);
    evaluate_sell_signal = λ s p stock. some (rsi_sell s p stock);
    calculate_position_size = λ s stock available. some (rsi_size s stock available);
  }
