-- ===== src/Tests/Trades.antt =====
-- Orders at the simulated broker, on samples.
use auto_trading.Prelude.{ℕ, ◌*◌, ◌≡◌, refl, none, some, [], ◌∷◌, arith}
use auto_trading.Prelude.Int.{pos, negsuc, ◌+ℤ◌, ◌-ℤ◌, ◌≤ℤ◌}
use auto_trading.Trading.Division.{floor}
use auto_trading.Trading.Models.{Order, buy, sell, submitted, filled}
use auto_trading.Trading.Simulator.Exchange.{
  FakeExchange, ok, fill, execute_order, execute_by, execute_market_order, empty_exchange,
}
use auto_trading.Trading.Simulator.{KiwoomSimulator, submit_order}
use auto_trading.Trading.Simulator.Fills.{IsQuoted}
use auto_trading.Trading.Simulator.Accounting.{Effect, submit_order-Effect}
use auto_trading.Trading.Simulator.Holdings.{market_buy_overdraws}
use auto_trading.Tests.Samples.{an_order, a_position, an_account}

-- Stock 5 at 110,000, quoted 109,890 and 110,110.
abbrev an_exchange : FakeExchange
an_exchange = record {
  prices = (5, 110_000) ∷ [];
  bid_prices = (5, 109_890) ∷ [];
  ask_prices = (5, 110_110) ∷ [];
}

abbrev a_broker : (cash : ℕ) → KiwoomSimulator
a_broker cash = record {
  account = an_account cash;
  positions = (5, a_position) ∷ [];
  order_history = [];
  exchange = an_exchange;
  injected_error = none;
}

submit_order-Effect_example :
    Effect (an_order 1 sell) (a_broker 0) (submit_order floor 9 (an_order 1 sell) (a_broker 0))
submit_order-Effect_example = submit_order-Effect floor 9 (an_order 1 sell) (a_broker 0) refl

abbrev sold : Order
sold = fill 109_890 9 (an_order 1 sell)

sells : execute_order 9 (an_order 1 sell) an_exchange ≡ ok sold
unfolding execute_order execute_by execute_market_order
sells = refl

empty-IsQuoted : IsQuoted empty_exchange
empty-IsQuoted code price e = cc

-- The cash covers ten shares at 110,000, and not at 110,110.
abbrev overdrawn : KiwoomSimulator
overdrawn = (submit_order floor 9 (an_order 1 buy) (a_broker 1_100_000)).1

market_buy_overdraws_example :
    let o : Order =
      fill 110_110 9 (record (an_order 1 buy) { status = submitted; submitted_at = some 9 }) in
    ((submit_order floor 9 (an_order 1 buy) (a_broker 1_100_000)).0 ≡ ok o)
    × (o.status ≡ filled)
    × (overdrawn.account.cash_balance ≡ pos 1_100_000 -ℤ pos (110_110 * 10))
    × (overdrawn.account.cash_balance ≤ℤ negsuc 0)
unfolding ◌+ℤ◌
market_buy_overdraws_example =
    market_buy_overdraws floor 9 (an_order 1 buy) (a_broker 1_100_000) 110_000 110_110 refl refl
      refl refl refl (omega arith) (omega arith)
