-- ===== src/Market/Phases.antt =====
-- How the phases, the trading windows and the order guards of src/utils/time_utils.py agree.
use auto_trading.Prelude.{◌≤◌, ◌<◌, ◌≡◌, ◌↔◌, ◌⊎◌, true, false, none, some, arith}
use auto_trading.Market.{
  DateTime, time, is_market_open, is_in_regular_trading_hours, is_market_opening,
  is_market_closing_soon, blocked_before_close, market_is_closed, can_place_buy_order,
  can_place_sell_order, opening, regular, closing_soon, pre_market, closed, get_market_phase,
}

-- At every time of day, the phase is OPENING, REGULAR or CLOSING_SOON exactly when the test of
-- that name holds, and the market is open exactly in one of these three phases.
get_market_phase_iff :
    (t : DateTime)
    → ((get_market_phase t ≡ opening) ↔ (is_market_opening t ≡ true))
      × ((get_market_phase t ≡ regular) ↔ (is_in_regular_trading_hours t ≡ true))
      × ((get_market_phase t ≡ closing_soon) ↔ (is_market_closing_soon t ≡ true))
      × ((is_market_open t ≡ true)
          ↔ (get_market_phase t ≡ opening)
            ⊎ (get_market_phase t ≡ regular)
            ⊎ (get_market_phase t ≡ closing_soon))
unfolding get_market_phase is_market_open is_in_regular_trading_hours is_market_opening
    is_market_closing_soon
get_market_phase_iff t = ground arith

-- From 9:00 until before 15:20 buys and sells pass, and the phase is OPENING until before 9:05 and
-- REGULAR from then on; from 15:20 until before 15:30, in CLOSING_SOON, buys alone are blocked; and
-- before 9:00, in PRE_MARKET, and from 15:30 on, in CLOSED, both are refused because the market is
-- closed.
pub can_place_order_cases :
    (t : DateTime)
    → ((time 9 0 ≤ t.micros)
        × (t.micros < time 15 20)
        × (can_place_buy_order t ≡ (true, none))
        × (can_place_sell_order t ≡ (true, none))
        × (((t.micros < time 9 5) × (get_market_phase t ≡ opening))
            ⊎ ((time 9 5 ≤ t.micros) × (get_market_phase t ≡ regular))))
      ⊎ ((time 15 20 ≤ t.micros)
          × (t.micros < time 15 30)
          × (can_place_buy_order t ≡ (false, some blocked_before_close))
          × (can_place_sell_order t ≡ (true, none))
          × (get_market_phase t ≡ closing_soon))
      ⊎ ((can_place_buy_order t ≡ (false, some market_is_closed))
          × (can_place_sell_order t ≡ (false, some market_is_closed))
          × (((t.micros < time 9 0) × (get_market_phase t ≡ pre_market))
              ⊎ ((time 15 30 ≤ t.micros) × (get_market_phase t ≡ closed))))
unfolding can_place_buy_order can_place_sell_order get_market_phase is_market_open
    is_market_closing_soon
can_place_order_cases t = ground arith
