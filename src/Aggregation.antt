-- ===== src/Aggregation.antt =====
-- Minute bars put together to longer ones (`aggregate_bars` of src/services/data_aggregator.py). A
-- day is counted from midnight.
pub mod Conservation
use auto_trading.Prelude.{
  ℕ, ◌+◌, ◌*◌, ◌/◌, max, min, Bool, true, false, Option, none, some, List, [], ◌∷◌, ◌++◌, length,
  sum_of, leb, ◌==◌, if◌then◌else◌,
}
use auto_trading.Trading.Division.{Division}
use auto_trading.Bars.{MinuteBar, hour, window_start}

pub data ChartInterval : Type 0 where
  tick minute_1 minute_5 minute_10 minute_30 minute_60 hour_1 day week month : ChartInterval

pub record AggregatedData : Type 0 where
  pub stock_code : ℕ
  pub interval : ChartInterval
  pub start_time : ℕ
  pub end_time : ℕ
  pub open_price : ℕ
  pub high_price : ℕ
  pub low_price : ℕ
  pub close_price : ℕ
  pub volume : ℕ
  pub vwap : Option ℕ
  pub typical_price : ℕ
  pub bar_count : ℕ

abbrev pub get_interval_minutes : ChartInterval → ℕ
get_interval_minutes minute_1 = 1
get_interval_minutes minute_5 = 5
get_interval_minutes minute_10 = 10
get_interval_minutes minute_30 = 30
get_interval_minutes minute_60 = 60
get_interval_minutes day = 1440
get_interval_minutes _ = 0

unfoldable pub get_window_start : (timestamp interval_minutes : ℕ) → ℕ
unfolding window_start
get_window_start timestamp interval_minutes =
    if leb 1440 interval_minutes
    then timestamp / (24 * hour) * (24 * hour)
    else window_start timestamp interval_minutes

-- `sorted(bars, key=lambda x: x.start_time)`, which is stable.
abbrev pub insert_bar : MinuteBar → List MinuteBar → List MinuteBar
insert_bar b [] = b ∷ []
insert_bar b (x ∷ bars) =
    if leb b.start_time x.start_time then b ∷ x ∷ bars else x ∷ insert_bar b bars

unfoldable pub sort_bars : List MinuteBar → List MinuteBar
sort_bars [] = []
sort_bars (b ∷ bars) = insert_bar b (sort_bars bars)

abbrev pub last_bar : MinuteBar → List MinuteBar → MinuteBar
last_bar b [] = b
last_bar b (x ∷ bars) = last_bar x bars

abbrev pub highest : MinuteBar → List MinuteBar → ℕ
highest b [] = b.high_price
highest b (x ∷ bars) = max b.high_price (highest x bars)

abbrev pub lowest : MinuteBar → List MinuteBar → ℕ
lowest b [] = b.low_price
lowest b (x ∷ bars) = min b.low_price (lowest x bars)

abbrev pub traded : List MinuteBar → ℕ
traded bars = sum_of (λ b. b.volume) bars

module _ (v : Division) (target : ChartInterval) where
  -- The group once it is sorted; an empty one raises ValueError.
  unfoldable pub aggregate_sorted : List MinuteBar → Option AggregatedData
  aggregate_sorted [] = none
  aggregate_sorted (b ∷ bars) = some (record {
    stock_code = b.stock_code;
    interval = target;
    start_time = b.start_time;
    end_time = (last_bar b bars).end_time;
    open_price = b.open_price;
    high_price = highest b bars;
    low_price = lowest b bars;
    close_price = (last_bar b bars).close_price;
    volume = traded (b ∷ bars);
    vwap =
        if traded (b ∷ bars) == 0
        then none
        else some
            (v.quotient (sum_of (λ x. x.close_price * x.volume) (b ∷ bars)) (traded (b ∷ bars)));
    typical_price = v.quotient (highest b bars + lowest b bars + (last_bar b bars).close_price) 3;
    bar_count = length (b ∷ bars);
  })

  unfoldable pub aggregate_group : List MinuteBar → Option AggregatedData
  unfolding aggregate_sorted sort_bars
  aggregate_group bars = aggregate_sorted (sort_bars bars)

  abbrev pub also :
      Option AggregatedData → Option (List AggregatedData) → Option (List AggregatedData)
  also none rest = none
  also (some x) none = none
  also (some x) (some rest) = some (x ∷ rest)

  -- The loop over the sorted bars, with the window and the group that it is at.
  unfoldable pub group_from :
      (window : ℕ) (group bars : List MinuteBar) → Option (List AggregatedData)
  unfolding aggregate_group get_window_start
  group_from window group [] = also (aggregate_group group) (some [])
  group_from window group (b ∷ bars) =
      let start = get_window_start b.start_time (get_interval_minutes target) in
      let here = group_from window (group ++ b ∷ []) bars in
      let next = also (aggregate_group group) (group_from start (b ∷ []) bars) in
      if start == window then here else next

  unfoldable pub group_all : List MinuteBar → Option (List AggregatedData)
  unfolding group_from get_window_start
  group_all [] = some []
  group_all (b ∷ bars) =
      group_from (get_window_start b.start_time (get_interval_minutes target)) (b ∷ []) bars

  unfoldable pub aggregate_bars : List MinuteBar → Option (List AggregatedData)
  unfolding group_all sort_bars
  aggregate_bars bars =
      if get_interval_minutes target == 0 then some [] else group_all (sort_bars bars)
