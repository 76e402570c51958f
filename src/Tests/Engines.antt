-- ===== src/Tests/Engines.antt =====
-- The strategy engine on samples.
use auto_trading.Prelude.{
  ℕ, ◌≡◌, ◌==◌, if◌then◌else◌, refl, Bool, true, false, ltb, Option, none, some, List, [], ◌∷◌, get,
  All, arith,
}
use auto_trading.Prelude.Int.{pos}
use auto_trading.Trading.Division.{floor}
use auto_trading.Trading.Models.{buy, market}
use auto_trading.Trading.Executor.Positions.{OrderExecutor}
use auto_trading.Engine.{Stock, BaseStrategy, StrategyConfig, StrategyEngine, start, held}
use auto_trading.Engine.Turns.{Turn, fetched, buy_part, sell_part}
use auto_trading.Engine.Turns.Requests.{Asked, IsBuy, IsSell, buy_part-requests, sell_part-requests}
use auto_trading.Engine.Turns.Unheld.{evaluations, start-never_sells}
use auto_trading.Engine.Registry.{
  strategy_not_found, reload_strategies, enable_strategy, disable_strategy, get_strategy,
}
use auto_trading.Engine.Registry.Active.{
  load, reload, enable, disable, IsBacked, run_operations, run_operations-IsBacked,
}
use auto_trading.Engine.Registry.Switching.{
  enable_strategy-disable_strategy, enable_strategy-LeftOut,
}
use auto_trading.Engine.Books.{OrderBookData, received, distribute_order_book}
use auto_trading.Engine.Books.Delivery.{Delivered, distribute_order_book-Delivered}
use auto_trading.Strategies.Imbalance.{OrderBook}
use auto_trading.Tests.Samples.{an_account, a_manager}
use auto_trading.Tests.Orders.{a_client, an_executor}

-- A strategy that is a last price: it buys below and sells above it, three shares each time.
abbrev a_face : BaseStrategy ℕ
a_face = record {
  evaluate_buy_signal = λ s stock. some (ltb stock.current_price s);
  evaluate_sell_signal = λ s p stock. some (ltb s stock.current_price);
  calculate_position_size = λ s stock capital. some (some (pos 3));
}

abbrev a_config : (enabled : Bool) → StrategyConfig
a_config enabled = record {
  strategy_name = 1;
  enabled = enabled;
  class_path = 7;
  symbols = 5 ∷ [];
  price_type = market;
  position_size_pct = 500_000;
  stop_loss_pct = some 20_000;
  take_profit_pct = none;
}

abbrev a_turn : Turn
a_turn = record {
  buy_client = a_client;
  sell_client = a_client;
  account = fetched (an_account 3_000_000);
  buy_id = 11;
  sell_id = 12;
  now = 9;
}

abbrev a_stock : (price : ℕ) → Stock
a_stock price = record { stock_code = 5; current_price = price; volume = 100 }

abbrev an_engine : StrategyEngine ℕ
an_engine = record (start a_manager none (some (an_executor []))) {
  strategies = (1, 100_000) ∷ [];
  strategy_configs = (1, a_config true) ∷ [];
}

buy_part-requests_example :
    Asked
      (IsBuy a_face floor a_manager 1 100_000 a_turn (a_stock 90_000) an_engine)
      an_engine
      (buy_part a_face floor a_manager 1 100_000 a_turn (a_stock 90_000) an_engine).1
buy_part-requests_example =
    buy_part-requests a_face floor a_manager 1 100_000 a_turn (a_stock 90_000) an_engine

sell_part-requests_example :
    Asked
      (IsSell a_face floor a_manager 1 100_000 a_turn (a_stock 120_000) an_engine)
      an_engine
      (sell_part a_face floor a_manager 1 100_000 a_turn (a_stock 120_000) an_engine)
sell_part-requests_example =
    sell_part-requests a_face floor a_manager 1 100_000 a_turn (a_stock 120_000) an_engine

-- An executor that holds nothing yet.
abbrev an_empty_executor : OrderExecutor
an_empty_executor = record (an_executor []) { positions = [] }

abbrev a_new_engine : StrategyEngine ℕ
a_new_engine = record (start a_manager none (some an_empty_executor)) {
  strategies = (1, 100_000) ∷ [];
  strategy_configs = (1, a_config true) ∷ [];
}

abbrev some_prices : List ((ℕ → Turn) × ℕ × Stock)
some_prices = ((λ _. a_turn), 9, a_stock 90_000) ∷ ((λ _. a_turn), 10, a_stock 120_000) ∷ []

start-never_sells_example :
    (held (evaluations a_face floor a_manager some_prices a_new_engine) ≡ [])
    × All
        (λ o. o.order_type ≡ buy)
        (evaluations a_face floor a_manager some_prices a_new_engine).requests
start-never_sells_example =
    start-never_sells a_face floor a_manager a_manager none (some an_empty_executor)
      ((1, 100_000) ∷ []) ((1, a_config true) ∷ []) some_prices refl

abbrev create : StrategyConfig → Option ℕ
create c = some 50

run_operations-IsBacked_example : IsBacked (
    run_operations create
      (reload (some (a_config true ∷ [])) ∷ disable 1 ∷ enable 1 ∷ load none ∷ [])
      an_engine)
run_operations-IsBacked_example =
    run_operations-IsBacked create
      (reload (some (a_config true ∷ [])) ∷ disable 1 ∷ enable 1 ∷ load none ∷ []) an_engine
      (λ k s at. (a_config true, ground arith, refl))

enable_strategy-disable_strategy_example :
    let (failed, off) = disable_strategy 1 an_engine in
    let (failed', on) = enable_strategy create 1 off in
    (failed ≡ none)
    × (failed' ≡ none)
    × (get_strategy 1 off ≡ none)
    × ((k : ℕ) → get k on.strategy_configs ≡ get k an_engine.strategy_configs)
    × ((k : ℕ) → get_strategy k on ≡ (if 1 == k then some 50 else get_strategy k an_engine))
enable_strategy-disable_strategy_example =
    enable_strategy-disable_strategy create 1 (a_config true) 50 an_engine refl refl refl

enable_strategy-LeftOut_example :
    let (_, loaded) = reload_strategies create (some (a_config false ∷ [])) an_engine in
    (enable_strategy create 1 loaded ≡ (some strategy_not_found, loaded))
    × (disable_strategy 1 loaded ≡ (some strategy_not_found, loaded))
enable_strategy-LeftOut_example =
    enable_strategy-LeftOut create 1 (a_config false ∷ []) an_engine
      ((λ e _. absurd (ground (arith, e))), tt)

abbrev some_data : OrderBookData
some_data = record {
  stock_code = 5;
  ask_prices = 101 ∷ 102 ∷ [];
  ask_quantities = 7 ∷ 8 ∷ [];
  bid_prices = 100 ∷ 99 ∷ [];
  bid_quantities = 5 ∷ 6 ∷ [];
  total_ask_quantity = 15;
  total_bid_quantity = 11;
  timestamp = 9;
}

abbrev keeps_total : ℕ → Option (ℕ → OrderBook → ℕ)
keeps_total s = some (λ code b. b.total_ask_quantity)

distribute_order_book-Delivered_example :
    Delivered keeps_total
      (received some_data)
      (get 1 an_engine.strategy_configs)
      (get 1 an_engine.strategies)
      (get 1 (distribute_order_book keeps_total (received some_data) an_engine).strategies)
distribute_order_book-Delivered_example =
    distribute_order_book-Delivered keeps_total (received some_data) an_engine 1
