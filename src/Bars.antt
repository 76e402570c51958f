-- ===== src/Bars.antt =====
-- Ticks and the minute bars that are made of them (src/services/minute_bar_collector.py). A time in
-- KST is a number of microseconds since some midnight, and an interval a number of minutes.
pub mod Collector
pub mod Series
pub mod Refinement
pub mod Runs
pub mod Closing
use auto_trading.Prelude.{
  ℕ, ◌+◌, ◌-◌, ◌*◌, ◌/◌, ◌%◌, min, max, Bool, true, false, Option, none, some, List, [], ◌∷◌,
}

pub record TickData : Type 0 where
  pub stock_code : ℕ
  pub timestamp : ℕ
  pub price : ℕ
  pub volume : ℕ

pub record MinuteBar : Type 0 where
  pub stock_code : ℕ
  pub interval_minutes : ℕ
  pub start_time : ℕ
  pub end_time : ℕ
  pub open_price : ℕ
  pub high_price : ℕ
  pub low_price : ℕ
  pub close_price : ℕ
  pub volume : ℕ
  pub tick_count : ℕ

abbrev pub minute : ℕ
minute = 60_000_000

abbrev pub hour : ℕ
hour = 3_600_000_000

-- `timestamp.replace(minute=aligned_minute, second=0, microsecond=0)`
unfoldable pub window_start : (timestamp interval : ℕ) → ℕ
window_start timestamp interval =
    timestamp / hour * hour + timestamp % hour / minute / interval * interval * minute

-- `_get_bar_window`, for an interval above zero.
abbrev pub window_end : (timestamp interval : ℕ) → ℕ
window_end timestamp interval = window_start timestamp interval + interval * minute

-- `MinuteBar.update`
unfoldable pub update : TickData → MinuteBar → MinuteBar
update tick b = record b {
  high_price = max b.high_price tick.price;
  low_price = min b.low_price tick.price;
  close_price = tick.price;
  volume = b.volume + tick.volume;
  tick_count = b.tick_count + 1;
}

-- The bar that a tick opens.
unfoldable pub open_bar : (interval : ℕ) → TickData → MinuteBar
open_bar interval tick = record {
  stock_code = tick.stock_code;
  interval_minutes = interval;
  start_time = window_start tick.timestamp interval;
  end_time = window_end tick.timestamp interval;
  open_price = tick.price;
  high_price = tick.price;
  low_price = tick.price;
  close_price = tick.price;
  volume = tick.volume;
  tick_count = 1;
}
