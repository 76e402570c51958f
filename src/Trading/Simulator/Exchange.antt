-- ===== src/Trading/Simulator/Exchange.antt =====
-- The exchange (src/simulator/fake_exchange.py).
use auto_trading.Prelude.{
  ℕ, ◌+◌, ◌-◌, ◌/◌, Bool, Option, none, some, [], ◌∷◌, leb, if◌then◌else◌, Dict, get, put,
}
use auto_trading.Trading.Models.{
  Order, OrderType, buy, sell, OrderStatus, pending, submitted, filled, PriceType, market, limit,
  Message, invalid_stock_code, limit_price_required,
}

pub record FakeExchange : Type 0 where
  pub prices : Dict ℕ
  pub bid_prices : Dict ℕ
  pub ask_prices : Dict ℕ

abbrev pub empty_exchange : FakeExchange
empty_exchange = record { prices = []; bid_prices = []; ask_prices = [] }

-- `price * Decimal("0.001")`
abbrev pub spread : ℕ → ℕ
spread price = price / 1000

unfoldable pub quote : (stock_code price : ℕ) → FakeExchange → FakeExchange
quote stock_code price x = record x {
  bid_prices = put stock_code (price - spread price) x.bid_prices;
  ask_prices = put stock_code (price + spread price) x.ask_prices;
}

unfoldable pub set_price : (stock_code price : ℕ) → FakeExchange → FakeExchange
unfolding quote
set_price stock_code price x =
    let x' = quote stock_code price x in record x' { prices = put stock_code price x.prices }

abbrev pub get_price : ℕ → FakeExchange → Option ℕ
get_price stock_code x = get stock_code x.prices

-- `tick`: the quotes of all prices anew.
unfoldable pub tick_from : Dict ℕ → FakeExchange → FakeExchange
unfolding quote
tick_from [] x = x
tick_from ((stock_code, price) ∷ prices) x = tick_from prices (quote stock_code price x)

unfoldable pub tick : FakeExchange → FakeExchange
unfolding tick_from
tick x = tick_from x.prices x

-- What an operation that may raise has done; a raise says why.
pub data Outcome (A : Type 0) : Type 0 where
  ok : A → Outcome A
  fail : Message → Outcome A

abbrev or_default : Option ℕ → ℕ → ℕ
or_default none price = price
or_default (some quoted) price = quoted

-- The price of a market order: the ask for a buy, the bid for a sell.
abbrev pub market_price : OrderType → (stock_code current : ℕ) → FakeExchange → ℕ
market_price buy stock_code current x = or_default (get stock_code x.ask_prices) current
market_price sell stock_code current x = or_default (get stock_code x.bid_prices) current

unfoldable pub fill : (price now : ℕ) → Order → Order
fill price now o = record o {
  status = filled;
  filled_quantity = o.quantity;
  filled_price = some price;
  filled_at = some now;
}

unfoldable pub execute_market_order : (now : ℕ) → Order → FakeExchange → Outcome Order
unfolding fill
execute_market_order now o x = elim (get_price o.stock_code x) [
  | none ↦ fail invalid_stock_code
  | some current ↦ ok (fill (market_price o.order_type o.stock_code current x) now o)
]

-- Whether the current price meets the limit.
abbrev pub meets : OrderType → (current limit_price : ℕ) → Bool
meets buy current limit_price = leb current limit_price
meets sell current limit_price = leb limit_price current

-- A limit order that is not met is submitted, if it was pending.
unfoldable pub rest_order : (now : ℕ) → OrderStatus → Order → Order
rest_order now pending o = record o { status = submitted; submitted_at = some now }
rest_order now _ o = o

unfoldable pub execute_limit_order : (now : ℕ) → Order → FakeExchange → Outcome Order
unfolding fill rest_order
execute_limit_order now o x = elim (get_price o.stock_code x) [
  | none ↦ fail invalid_stock_code
  | some current ↦ elim o.limit_price [
    | none ↦ fail limit_price_required
    | some bound ↦
        ok (
          if meets o.order_type current bound
          then fill current now o
          else rest_order now o.status o)
  ]
]

unfoldable pub execute_by : PriceType → (now : ℕ) → Order → FakeExchange → Outcome Order
unfolding execute_market_order execute_limit_order
execute_by market now o x = execute_market_order now o x
execute_by limit now o x = execute_limit_order now o x

unfoldable pub execute_order : (now : ℕ) → Order → FakeExchange → Outcome Order
unfolding execute_by
execute_order now o x = execute_by o.price_type now o x
