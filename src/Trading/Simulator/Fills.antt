-- ===== src/Trading/Simulator/Fills.antt =====
-- At which price the simulated exchange fills an order (src/simulator/fake_exchange.py).
use auto_trading.Prelude.{
  ℕ, ◌+◌, ◌-◌, ◌≤◌, ◌≡◌, ◌≢◌, ◌⊎◌, inl, inr, refl, true, Option, none, some, get, get-put,
  Bool-cases, if◌then◌else◌, arith,
}
use auto_trading.Trading.Models.{
  Order, OrderType, buy, sell, OrderStatus, pending, filled, PriceType, market, limit,
}
use auto_trading.Trading.Simulator.Exchange.{
  FakeExchange, spread, set_price, get_price, market_price, execute_market_order,
  execute_limit_order, fill, rest_order, execute_by, execute_order, meets, ok,
}

-- No worse than the limit that the order sets.
abbrev pub NoWorse : OrderType → (price bound : ℕ) → Type 0
NoWorse buy price bound = price ≤ bound
NoWorse sell price bound = bound ≤ price

meets→NoWorse :
    (t : OrderType) (price bound : ℕ) → meets t price bound ≡ true → NoWorse t price bound
meets→NoWorse buy price bound h = ground arith
meets→NoWorse sell price bound h = ground arith

pub record SameOrder (o o' : Order) : Type 0 where
  pub same_id : o'.order_id ≡ o.order_id
  pub same_stock : o'.stock_code ≡ o.stock_code
  pub same_type : o'.order_type ≡ o.order_type
  pub same_quantity : o'.quantity ≡ o.quantity

-- What fixed the price: the quote of a market order, or the current price within a limit.
abbrev pub PriceOf : (x : FakeExchange) (o : Order) (price : ℕ) → PriceType → Type 0
PriceOf x o price market =
    (current : ℕ) × (get_price o.stock_code x ≡ some current)
    × (price ≡ market_price o.order_type o.stock_code current x)
PriceOf x o price limit =
    (bound : ℕ) × (o.limit_price ≡ some bound)
    × (get_price o.stock_code x ≡ some price)
    × NoWorse o.order_type price bound

-- Filled in full.
pub record IsFill (x : FakeExchange) (o o' : Order) : Type 0 where
  pub price : ℕ
  pub full : o'.filled_quantity ≡ o.quantity
  pub is_filled : o'.status ≡ filled
  pub at_price : o'.filled_price ≡ some price
  pub justified : PriceOf x o price o.price_type

-- Left open, as a limit order whose limit is not met.
pub record IsOpen (o o' : Order) : Type 0 where
  pub not_filled : o'.status ≢ filled
  pub same_price : o'.filled_price ≡ o.filled_price
  pub same_filled : o'.filled_quantity ≡ o.filled_quantity

market-inversion :
    (now : ℕ) (o o' : Order) (x : FakeExchange)
    → execute_market_order now o x ≡ ok o'
    → (current : ℕ) × (get_price o.stock_code x ≡ some current)
      × (o' ≡ fill (market_price o.order_type o.stock_code current x) now o)
unfolding execute_market_order
market-inversion now o o' x e = go (get_price o.stock_code x) refl
  where
    go :
        (p : Option ℕ)
        → get_price o.stock_code x ≡ p
        → (current : ℕ) × (get_price o.stock_code x ≡ some current)
          × (o' ≡ fill (market_price o.order_type o.stock_code current x) now o)
    go none known = absurd (ground arith)
    go (some current) known = (current, known, ground arith)

limit-inversion :
    (now : ℕ) (o o' : Order) (x : FakeExchange)
    → execute_limit_order now o x ≡ ok o'
    → (current bound : ℕ) × (get_price o.stock_code x ≡ some current)
      × (o.limit_price ≡ some bound)
      × (o' ≡ (
          if meets o.order_type current bound
          then fill current now o
          else rest_order now o.status o))
unfolding execute_limit_order
limit-inversion now o o' x e = go (get_price o.stock_code x) o.limit_price refl refl
  where
    go :
        (p b : Option ℕ)
        → get_price o.stock_code x ≡ p
        → o.limit_price ≡ b
        → (current bound : ℕ) × (get_price o.stock_code x ≡ some current)
          × (o.limit_price ≡ some bound)
          × (o' ≡ (
              if meets o.order_type current bound
              then fill current now o
              else rest_order now o.status o))
    go none b known asked = absurd (ground arith)
    go (some current) none known asked = absurd (ground arith)
    go (some current) (some bound) known asked = (current, bound, known, asked, ground arith)

fill-SameOrder : (price now : ℕ) (o : Order) → SameOrder o (fill price now o)
unfolding fill
fill-SameOrder price now o = record {
  same_id = refl;
  same_stock = refl;
  same_type = refl;
  same_quantity = refl;
}

fill-IsFill :
    (x : FakeExchange) (price now : ℕ) (o : Order)
    → PriceOf x o price o.price_type
    → IsFill x o (fill price now o)
unfolding fill
fill-IsFill x price now o why = record {
  price = price;
  full = refl;
  is_filled = refl;
  at_price = refl;
  justified = why;
}

rest_order-IsOpen :
    (now : ℕ) (o : Order)
    → o.status ≢ filled
    → SameOrder o (rest_order now o.status o) × IsOpen o (rest_order now o.status o)
unfolding rest_order
rest_order-IsOpen now o h = go o.status refl
  where
    go :
        (st : OrderStatus)
        → o.status ≡ st
        → SameOrder o (rest_order now st o) × IsOpen o (rest_order now st o)
    go pending e = (
      record { same_id = refl; same_stock = refl; same_type = refl; same_quantity = refl },
      record { not_filled = λ e. cc; same_price = refl; same_filled = refl },
    )
    go _ e = (
      record { same_id = refl; same_stock = refl; same_type = refl; same_quantity = refl },
      record { not_filled = h; same_price = refl; same_filled = refl },
    )

-- An order that was not filled before comes back from the exchange as the same order for the same
-- stock and side, and either filled in full, a market order at its quote and a limit order at the
-- current price within its limit, or still open with nothing filled anew.
pub execute_order-fills :
    (now : ℕ) (o o' : Order) (x : FakeExchange)
    → o.status ≢ filled
    → execute_order now o x ≡ ok o'
    → SameOrder o o' × (IsFill x o o' ⊎ IsOpen o o')
unfolding execute_order
execute_order-fills now o o' x open_order e = by_type o.price_type refl e
  where
    by_type :
        (t : PriceType)
        → o.price_type ≡ t
        → execute_by t now o x ≡ ok o'
        → SameOrder o o' × (IsFill x o o' ⊎ IsOpen o o')
    by_type market t e =
        let (current, known, f) = market-inversion now o o' x e in
        let price = market_price o.order_type o.stock_code current x in
        rw f (
          fill-SameOrder price now o,
          inl (fill-IsFill x price now o (rw t (current, known, refl))),
        )
    by_type limit t e =
        let (current, bound, known, asked, f) = limit-inversion now o o' x e in
        rw f (elim (Bool-cases (meets o.order_type current bound)) [
          | inl met ↦ rw met (
            fill-SameOrder current now o,
            inl (
                fill-IsFill x current now o
                  (rw t (bound, asked, known, meets→NoWorse o.order_type current bound met))),
          )
          | inr unmet ↦
              let (same, still) = rest_order-IsOpen now o open_order in rw unmet (same, inr still)
        ])

-- Every price has its quotes, the spread below it and above it.
abbrev pub IsQuoted : FakeExchange → Type 0
IsQuoted x =
    (code price : ℕ)
    → get_price code x ≡ some price
    → (get code x.bid_prices ≡ some (price - spread price))
      × (get code x.ask_prices ≡ some (price + spread price))

-- After any setting of prices from an exchange whose prices are quoted, the prices are quoted.
set_price-IsQuoted :
    (code price : ℕ) (x : FakeExchange) → IsQuoted x → IsQuoted (set_price code price x)
unfolding set_price
set_price-IsQuoted code price x h other p e = ground (
  arith,
  h other p,
  get-put other code price x.prices,
  get-put other code (price - spread price) x.bid_prices,
  get-put other code (price + spread price) x.ask_prices,
)
