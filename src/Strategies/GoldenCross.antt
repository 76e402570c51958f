-- ===== src/Strategies/GoldenCross.antt =====
-- The strategy on crossing averages (src/strategies/golden_cross.py), with periods above zero.
use auto_trading.Prelude.{
  ℕ, Bool, false, ◌||◌, ◌&&◌, Option, none, some, List, map, length, sum_of, ◌==◌, ltb, leb,
  if◌then◌else◌, Dict,
}
use auto_trading.Prelude.Int.{ℤ, pos, negsuc}
use auto_trading.Trading.Division.{Division}
use auto_trading.Trading.Models.{Position}
use auto_trading.Trading.Risk.{one}
use auto_trading.Engine.{Stock, BaseStrategy}
use auto_trading.Strategies.{exits, shares}
use auto_trading.Strategies.Charts.{ChartData, chart_of, last_of, all_but}

pub record GoldenCross : Type 0 where
  pub short_period : ℕ
  pub long_period : ℕ
  pub min_volume : ℕ
  pub stop_loss_pct : ℕ
  pub take_profit_pct : ℕ
  pub chart_data_cache : Dict (List ChartData)

abbrev pub get_close_prices : (code : ℕ) → Dict (List ChartData) → List ℕ
get_close_prices code cache = map (λ x. x.close_price) (chart_of code cache)

-- Of the short and the long average, now and before the last price.
pub record Averages : Type 0 where
  pub short_now : ℕ
  pub long_now : ℕ
  pub short_before : ℕ
  pub long_before : ℕ

abbrev pub averages_of : Option ℕ → Option ℕ → Option ℕ → Option ℕ → Option Averages
averages_of (some a) (some b) (some c) (some d) =
    some (record { short_now = a; long_now = b; short_before = c; long_before = d })
averages_of _ _ _ _ = none

module _ (v : Division) where
  unfoldable pub calculate_sma : List ℕ → (period : ℕ) → Option ℕ
  calculate_sma prices period =
      if ltb (length prices) period
      then none
      else some (v.quotient (sum_of (λ p. p) (last_of period prices)) period)

  unfoldable pub averages : GoldenCross → List ℕ → Option Averages
  unfolding calculate_sma
  averages s prices =
      let before = all_but 1 prices in
      if ltb (length prices) s.long_period || ltb (length before) s.long_period
      then none
      else averages_of (calculate_sma prices s.short_period) (calculate_sma prices s.long_period)
          (calculate_sma before s.short_period) (calculate_sma before s.long_period)

  abbrev pub rises : Option Averages → Bool
  rises none = false
  rises (some a) = leb a.short_before a.long_before && ltb a.long_now a.short_now

  abbrev pub falls : Option Averages → Bool
  falls none = false
  falls (some a) = leb a.long_before a.short_before && ltb a.short_now a.long_now

  unfoldable pub golden_buy : GoldenCross → Stock → Bool
  unfolding averages
  golden_buy s stock =
      if ltb stock.volume s.min_volume
      then false
      else rises (averages s (get_close_prices stock.stock_code s.chart_data_cache))

  unfoldable pub golden_sell : GoldenCross → Position → Stock → Bool
  unfolding averages
  golden_sell s p stock =
      exits v s.stop_loss_pct s.take_profit_pct p
      || falls (averages s (get_close_prices stock.stock_code s.chart_data_cache))

  abbrev pub at_least_none : ℤ → ℤ
  at_least_none (pos n) = pos n
  at_least_none (negsuc n) = pos 0

  unfoldable pub golden_size : GoldenCross → Stock → (available : ℤ) → ℤ
  unfolding shares
  golden_size s stock available =
      if stock.current_price == 0
      then pos 0
      else at_least_none (shares v available one stock.current_price)

  -- What the engine calls.
  abbrev pub golden_cross : BaseStrategy GoldenCross
  golden_cross = record {
    evaluate_buy_signal = λ s stock. some (golden_buy s stock);
    evaluate_sell_signal = λ s p stock. some (golden_sell s p stock);
    calculate_position_size = λ s stock available. some (some (golden_size s stock available));
  }
