-- ===== src/Market.antt =====
-- The trading hours of the Korean exchange (src/utils/time_utils.py). A datetime in KST, a zone
-- with no daylight saving, is a day number and the microseconds since midnight. The default
-- argument `None` of each function is the clock's reading, which the caller passes here.
pub mod Phases
pub mod Countdown
use auto_trading.Prelude.{
  ℕ, suc, ◌+◌, ◌-◌, ◌*◌, ◌/◌, ◌%◌, Bool, true, false, ◌&&◌, Option, none, some, ltb, leb,
  if◌then◌else◌,
}

pub record DateTime : Type 0 where
  pub date : ℕ
  pub micros : ℕ

abbrev pub second : ℕ
second = 1_000_000

abbrev pub day : ℕ
day = 86_400_000_000

-- `time(hour, minute)`
abbrev pub time : ℕ → ℕ → ℕ
time hour minute = (hour * 60 + minute) * 60 * second

abbrev between : ℕ → ℕ → DateTime → Bool
between start end t = leb start t.micros && ltb t.micros end

unfoldable pub is_market_open : DateTime → Bool
is_market_open = between (time 9 0) (time 15 30)

pub is_in_regular_trading_hours : DateTime → Bool
is_in_regular_trading_hours = between (time 9 5) (time 15 20)

pub is_market_opening : DateTime → Bool
is_market_opening = between (time 9 0) (time 9 5)

pub is_market_closing_soon : DateTime → Bool
is_market_closing_soon = between (time 15 20) (time 15 30)

pub data Refusal : Type 0 where
  market_is_closed blocked_before_close : Refusal

pub can_place_buy_order : DateTime → Bool × Option Refusal
unfolding is_market_open is_market_closing_soon
can_place_buy_order t =
    if is_market_open t
    then (if is_market_closing_soon t then (false, some blocked_before_close) else (true, none))
    else (false, some market_is_closed)

pub can_place_sell_order : DateTime → Bool × Option Refusal
unfolding is_market_open
can_place_sell_order t = if is_market_open t then (true, none) else (false, some market_is_closed)

pub data MarketPhase : Type 0 where
  pre_market opening regular closing_soon closed : MarketPhase

pub get_market_phase : DateTime → MarketPhase
get_market_phase t =
    if ltb t.micros (time 9 0)
    then pre_market
    else if between (time 9 0) (time 9 5) t
    then opening
    else if between (time 9 5) (time 15 20) t
    then regular
    else if between (time 15 20) (time 15 30) t
    then closing_soon
    else closed

-- `int(delta.total_seconds())` of a delta that is not negative.
abbrev whole_seconds : ℕ → ℕ
whole_seconds micros = micros / second

unfoldable pub seconds_until_market_open : DateTime → Option ℕ
unfolding is_market_open
seconds_until_market_open t =
    if is_market_open t
    then none
    else if ltb t.micros (time 9 0)
    then some (whole_seconds (time 9 0 - t.micros))
    else some (whole_seconds (day + time 9 0 - t.micros))

unfoldable pub seconds_until_market_close : DateTime → Option ℕ
unfolding is_market_open
seconds_until_market_close t =
    if is_market_open t then some (whole_seconds (time 15 30 - t.micros)) else none
