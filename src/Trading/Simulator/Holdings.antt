-- ===== src/Trading/Simulator/Holdings.antt =====
-- Consequences of the fills for the cash of the simulated account (src/simulator).
use auto_trading.Prelude.{ℕ, ◌*◌, ◌≡◌, refl, none, some, get, arith}
use auto_trading.Prelude.Int.{pos, negsuc, ◌+ℤ◌, ◌-ℤ◌, ◌≤ℤ◌, int_laws}
use auto_trading.Trading.Division.{Division}
use auto_trading.Trading.Models.{Order, buy, filled, market, submitted}
use auto_trading.Trading.Simulator.Exchange.{ok, get_price, fill, execute_order, execute_by}
use auto_trading.Trading.Simulator.{
  KiwoomSimulator, submit_order, submit_at, place, place_buy, execute_buy, book_buy, settle_buy,
  archive,
}

module _ (v : Division) (now : ℕ) (o : Order) (s : KiwoomSimulator) (price ask : ℕ)
    (clean : s.injected_error ≡ none) (is_buy : o.order_type ≡ buy)
    (at_market : o.price_type ≡ market) (known : get_price o.stock_code s.exchange ≡ some price)
    (quoted : get o.stock_code s.exchange.ask_prices ≡ some ask)
    (covered : pos (price * o.quantity) ≤ℤ s.account.cash_balance) where
  abbrev pub bought : Order
  bought = fill ask now (record o { status = submitted; submitted_at = some now })

  abbrev paid : KiwoomSimulator
  paid = settle_buy v now bought ask price s

  market_buy-settles : submit_order v now o s ≡ archive bought paid
  unfolding submit_order submit_at place place_buy execute_buy book_buy execute_order execute_by
      fill
  market_buy-settles = ground arith

  -- Where no error is injected, a market buy is checked against the current price and paid at the ask: one whose cash covers
  -- the first is accepted and filled, and where it does not cover the second the balance of the
  -- account is negative afterwards.
  pub market_buy_overdraws :
      s.account.cash_balance +ℤ pos 1 ≤ℤ pos (ask * o.quantity)
      → ((submit_order v now o s).0 ≡ ok bought)
        × (bought.status ≡ filled)
        × ((submit_order v now o s).1.account.cash_balance
            ≡ s.account.cash_balance -ℤ pos (ask * o.quantity))
        × ((submit_order v now o s).1.account.cash_balance ≤ℤ negsuc 0)
  unfolding fill settle_buy archive
  market_buy_overdraws short = rw market_buy-settles (refl, refl, refl, omega int_laws)
