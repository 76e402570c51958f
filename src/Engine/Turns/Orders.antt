-- ===== src/Engine/Turns/Orders.antt =====
-- The orders that a strategy's turn makes (`_execute_buy_order` and `_execute_sell_order` of
-- src/services/strategy_engine.py).
use auto_trading.Prelude.{ℕ, ◌≡◌, ◌<◌, ◌⊎◌, inl, inr, refl, ◌∙◌, none, some, arith}
use auto_trading.Trading.Models.{Order, OrderType, pending, PriceType, market, limit}
use auto_trading.Engine.{Stock, StrategyConfig, limit_at, new_order}

-- A new order of this side, size and account: it is for the stock, under the strategy's name, with
-- no fill, at the market or with the stock's current price as its limit, as the configuration says.
pub record IsFresh (side : OrderType) (config : StrategyConfig)
    (name order_id account_number quantity : ℕ) (stock : Stock) (o : Order) : Type 0 where
  pub its_side : o.order_type ≡ side
  pub its_stock : o.stock_code ≡ stock.stock_code
  pub its_quantity : o.quantity ≡ quantity
  pub some_quantity : 0 < quantity
  pub its_price_type : o.price_type ≡ config.price_type
  pub its_price :
      ((config.price_type ≡ market) × (o.limit_price ≡ none))
      ⊎ ((config.price_type ≡ limit) × (o.limit_price ≡ some stock.current_price))
  pub its_account : o.account_number ≡ account_number
  pub its_strategy : o.strategy_name ≡ some name
  pub its_id : o.order_id ≡ order_id
  pub its_status : o.status ≡ pending
  pub none_filled : o.filled_quantity ≡ 0
  pub no_fill_price : o.filled_price ≡ none

limit_at-cases :
    (t : PriceType) (price : ℕ)
    → ((t ≡ market) × (limit_at t price ≡ none)) ⊎ ((t ≡ limit) × (limit_at t price ≡ some price))
limit_at-cases market price = inl (refl, refl)
limit_at-cases limit price = inr (refl, refl)

pub new_order-IsFresh :
    (side : OrderType) (config : StrategyConfig) (name order_id account_number quantity now : ℕ)
    (stock : Stock) (o : Order)
    → new_order side config name order_id account_number quantity now stock ≡ some o
    → IsFresh side config name order_id account_number quantity stock o
new_order-IsFresh side config name order_id account_number quantity now stock o e =
    let at : o.limit_price ≡ limit_at config.price_type stock.current_price = ground (arith, e) in
    record {
      its_side = ground (arith, e);
      its_stock = ground (arith, e);
      its_quantity = ground (arith, e);
      some_quantity = ground (arith, e);
      its_price_type = ground (arith, e);
      its_price = elim (limit_at-cases config.price_type stock.current_price) [
        | inl (is, price) ↦ inl (is, at ∙ price)
        | inr (is, price) ↦ inr (is, at ∙ price)
      ];
      its_account = ground (arith, e);
      its_strategy = ground (arith, e);
      its_id = ground (arith, e);
      its_status = ground (arith, e);
      none_filled = ground (arith, e);
      no_fill_price = ground (arith, e);
    }
