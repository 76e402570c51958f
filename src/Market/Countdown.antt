-- ===== src/Market/Countdown.antt =====
-- The two countdowns of src/utils/time_utils.py, against the clock that they count down.
use auto_trading.Prelude.{
  ℕ, suc, ◌+◌, ◌-◌, ◌*◌, ◌/◌, ◌%◌, ◌≤◌, ◌<◌, ◌≡◌, true, false, some, arith, ltb, if◌then◌else◌,
}
use auto_trading.Market.{
  DateTime, day, second, time, is_market_open, seconds_until_market_open,
  seconds_until_market_close,
}

-- The datetime that many microseconds later.
pub advance : ℕ → DateTime → DateTime
advance k t = record { date = t.date + (t.micros + k) / day; micros = (t.micros + k) % day }

-- The microseconds until the clock next shows 09:00.
until_open : DateTime → ℕ
until_open t = if ltb t.micros (time 9 0) then time 9 0 - t.micros else day + time 9 0 - t.micros

-- When a countdown to the opening is returned, the market is closed for all of its seconds, and it
-- opens within the second that follows them.
pub seconds_until_market_open_lem :
    (t : DateTime) {s : ℕ}
    → t.micros < day
    → seconds_until_market_open t ≡ some s
    → ((k : ℕ) → k < s * second → is_market_open (advance k t) ≡ false)
      × ((k : ℕ) × (s * second ≤ k) × (k < suc s * second) × (is_market_open (advance k t) ≡ true))
unfolding seconds_until_market_open is_market_open advance until_open
seconds_until_market_open_lem t h e =
    (λ k p. ground arith, (until_open t, ground arith, ground arith, ground arith))

-- When a countdown to the close is returned, the market is open for all of its seconds, and it
-- closes within the second that follows them.
seconds_until_market_close_lem :
    (t : DateTime) {s : ℕ}
    → t.micros < day
    → seconds_until_market_close t ≡ some s
    → ((k : ℕ) → k < s * second → is_market_open (advance k t) ≡ true)
      × ((k : ℕ) × (s * second ≤ k) × (k < suc s * second) × (is_market_open (advance k t) ≡ false))
unfolding seconds_until_market_close is_market_open advance
seconds_until_market_close_lem t h e =
    (λ k p. ground arith, (time 15 30 - t.micros, ground arith, ground arith, ground arith))
