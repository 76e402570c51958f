-- ===== src/Tests/Hours.antt =====
-- The market hours at concrete times of day.
use auto_trading.Prelude.{◌+◌, ◌*◌, ◌≤◌, ◌<◌, ◌≡◌, ◌⊎◌, refl, true, false, none, some}
use auto_trading.Market.{
  DateTime, second, time, is_market_open, seconds_until_market_open, seconds_until_market_close,
  get_market_phase, opening, regular, closing_soon, pre_market, closed, can_place_buy_order,
  can_place_sell_order, market_is_closed, blocked_before_close,
}
use auto_trading.Market.Phases.{can_place_order_cases}

-- 15:25 on some day.
abbrev late : DateTime
late = record { date = 1; micros = time 15 25 }

-- Half a second before 08:59:30.
abbrev early : DateTime
early = record { date = 1; micros = time 8 59 + 29 * second + 500_000 }

abbrev almost : DateTime
almost = record { date = 1; micros = time 15 29 + 29 * second + 500_000 }

can_place_order_cases_example :
    ((time 9 0 ≤ late.micros)
      × (late.micros < time 15 20)
      × (can_place_buy_order late ≡ (true, none))
      × (can_place_sell_order late ≡ (true, none))
      × (((late.micros < time 9 5) × (get_market_phase late ≡ opening))
          ⊎ ((time 9 5 ≤ late.micros) × (get_market_phase late ≡ regular))))
    ⊎ ((time 15 20 ≤ late.micros)
        × (late.micros < time 15 30)
        × (can_place_buy_order late ≡ (false, some blocked_before_close))
        × (can_place_sell_order late ≡ (true, none))
        × (get_market_phase late ≡ closing_soon))
    ⊎ ((can_place_buy_order late ≡ (false, some market_is_closed))
        × (can_place_sell_order late ≡ (false, some market_is_closed))
        × (((late.micros < time 9 0) × (get_market_phase late ≡ pre_market))
            ⊎ ((time 15 30 ≤ late.micros) × (get_market_phase late ≡ closed))))
can_place_order_cases_example = can_place_order_cases late

early_countdown : seconds_until_market_open early ≡ some 30
unfolding seconds_until_market_open is_market_open
early_countdown = refl

almost_countdown : seconds_until_market_close almost ≡ some 30
unfolding seconds_until_market_close is_market_open
almost_countdown = refl
