-- ===== src/Tests/Samples.antt =====
-- Sample records, for the runs.
use auto_trading.Prelude.{ℕ, none, some}
use auto_trading.Prelude.Int.{pos}
use auto_trading.Trading.Models.{Order, OrderType, pending, market, Position, Account}
use auto_trading.Trading.Risk.{RiskManager}

-- Ten shares of stock 5.
abbrev pub an_order : (order_id : ℕ) → OrderType → Order
an_order order_id side = record {
  order_id = order_id;
  account_number = 12345678;
  stock_code = 5;
  order_type = side;
  price_type = market;
  quantity = 10;
  limit_price = none;
  status = pending;
  filled_quantity = 0;
  filled_price = none;
  strategy_name = some 1;
  created_at = 0;
  submitted_at = none;
  filled_at = none;
  error_message = none;
}

-- Twenty shares of stock 5, bought at 100,000 and now at 110,000.
abbrev pub a_position : Position
a_position = record {
  account_number = 12345678;
  stock_code = 5;
  quantity = 20;
  average_buy_price = 100_000;
  current_price = 110_000;
  strategy_name = some 1;
  opened_at = 0;
  updated_at = 0;
  stop_loss_price = none;
  take_profit_price = none;
}

abbrev pub an_account : (cash : ℕ) → Account
an_account cash = record {
  account_number = 12345678;
  cash_balance = pos cash;
  total_asset_value = pos 10_000_000;
  total_pnl = pos 0;
  daily_pnl = pos 0;
  daily_loss_limit = 500_000;
  updated_at = 0;
}

-- A loss of 5%, a share of 30%, and a warning from 80% on.
abbrev pub a_manager : RiskManager
a_manager = record {
  daily_loss_limit_pct = 50_000;
  max_position_concentration = 300_000;
  warning_threshold = 800_000;
}
