-- ===== src/Tests/BarMaking.antt =====
-- The minute bars on samples.
use auto_trading.Prelude.{ℕ, ◌≡◌, refl, none, List, [], ◌∷◌, arith}
use auto_trading.Bars.{TickData}
use auto_trading.Bars.Collector.{start, complete_all_bars}
use auto_trading.Bars.Series.{Cut}
use auto_trading.Bars.Refinement.{view}
use auto_trading.Bars.Runs.{process_ticks, ticks_of}
use auto_trading.Bars.Closing.{complete_all_bars-Cut}

abbrev a_tick : (stock_code timestamp price volume : ℕ) → TickData
a_tick stock_code timestamp price volume = record {
  stock_code = stock_code;
  timestamp = timestamp;
  price = price;
  volume = volume;
}

-- From 10:00:10 to 10:01:00, of two stocks.
abbrev some_ticks : List TickData
some_ticks =
    a_tick 5 36_010_000_000 100 3
    ∷ a_tick 5 36_020_000_000 120 2
    ∷ a_tick 6 36_030_000_000 50 1
    ∷ a_tick 5 36_060_000_000 90 4
    ∷ []

complete_all_bars-Cut_example :
    let s' = complete_all_bars (process_ticks some_ticks (start none)) in
    ((view 5 1 s').current ≡ none) × Cut 1 (ticks_of 5 some_ticks) (view 5 1 s').done
complete_all_bars-Cut_example =
    complete_all_bars-Cut none some_ticks 5 1
      (omega arith, (omega arith, (omega arith, (omega arith, (omega arith, tt))))) refl
      (omega arith, (omega arith, (omega arith, (omega arith, tt))))
