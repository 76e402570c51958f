-- ===== src/Tests/Charting.antt =====
-- The strategies on samples.
use auto_trading.Prelude.{
  ℕ, ◌≡◌, ◌<◌, ◌≤◌, ◌↔◌, ◌&&◌, refl, Bool, true, some, List, [], ◌∷◌, All, Values, length, leb,
  arith,
}
use auto_trading.Trading.Division.{floor}
use auto_trading.Strategies.Charts.{
  ChartData, Update, set_chart, add_chart, updates, IsChart, updates-IsChart,
}
use auto_trading.Strategies.ChartFields.{
  is_accepted, is_accepted_iff, validate_fields, validate, validate_high_price, validate_low_price,
}
use auto_trading.Strategies.Vwap.{calculate_vwap, calculate_vwap-bounds}

abbrev some_chart : (timestamp price volume : ℕ) → ChartData
some_chart timestamp price volume = record {
  stock_code = 5;
  interval = 1;
  timestamp = timestamp;
  open_price = price;
  high_price = price;
  low_price = price;
  close_price = price;
  volume = volume;
}

abbrev some_updates : List Update
some_updates =
    set_chart 5 (some_chart 9 100 1 ∷ some_chart 7 110 2 ∷ [])
    ∷ add_chart 5 (some_chart 8 90 1)
    ∷ add_chart 5 (some_chart 9 95 1)
    ∷ []

updates-IsChart_example : Values IsChart (updates some_updates [])
updates-IsChart_example = updates-IsChart some_updates [] (((ground arith, tt), (tt, tt)), tt) tt

-- The character codes of the digits of ASCII.
abbrev ascii_digit : ℕ → Bool
ascii_digit c = leb 48 c && leb c 57

-- A close price above the high price.
abbrev too_high : ChartData
too_high = record (some_chart 9 100 1) { close_price = 130 }

-- 005930
abbrev some_code : List ℕ
some_code = 48 ∷ 48 ∷ 53 ∷ 57 ∷ 51 ∷ 48 ∷ []

is_accepted_iff_example : (is_accepted ascii_digit some_code too_high ≡ true) ↔ (
    (length some_code ≡ 6)
    × All (λ c. ascii_digit c ≡ true) some_code
    × (0 < too_high.low_price)
    × (too_high.low_price ≤ too_high.open_price)
    × (too_high.open_price ≤ too_high.high_price)
    × (0 < too_high.close_price))
is_accepted_iff_example = is_accepted_iff ascii_digit some_code too_high

too_high_accepted : is_accepted ascii_digit some_code too_high ≡ true
unfolding is_accepted validate_fields validate validate_high_price validate_low_price
too_high_accepted = refl

abbrev two_data : List ChartData
two_data = some_chart 7 110 2 ∷ some_chart 9 100 1 ∷ []

calculate_vwap-bounds_example :
    (vwap : ℕ) × (calculate_vwap floor 2 two_data ≡ some vwap) × (100 ≤ vwap) × (vwap ≤ 110)
calculate_vwap-bounds_example =
    calculate_vwap-bounds floor 2 100 110 two_data (omega arith) (omega arith) (λ k h. refl)
      (λ k h. refl)
      (
        (omega arith, omega arith, omega arith, omega arith, omega arith, omega arith),
        ((omega arith, omega arith, omega arith, omega arith, omega arith, omega arith), tt),
      )
