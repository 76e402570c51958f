-- ===== src/Trading/Monitor.antt =====
-- The risk monitor (src/services/risk_monitor.py): each round takes over the prices, asks the risk
-- manager which positions have reached a limit, and sells those through the order executor, which
-- holds the same dict of positions. What the broker answers to the sales of a round, and the
-- identifiers of their orders, are given by their places in the round.
pub mod Sales
pub mod Repeats
use auto_trading.Prelude.{
  ℕ, zero, suc, Bool, true, false, ◌&&◌, Option, none, some, List, [], ◌∷◌, ◌==◌, ltb,
  if◌then◌else◌, Dict, values,
}
use auto_trading.Trading.Division.{Division}
use auto_trading.Trading.Models.{
  Order, sell, PriceType, market, limit, pending, Position, update_price,
}
use auto_trading.Trading.Risk.{RiskManager, TriggerAction, monitor_all_positions}
use auto_trading.Trading.AccountService.{Reply, reply, rate_limit_exceeded, other_error}
use auto_trading.Trading.Executor.Positions.{OrderExecutor, Client}
use auto_trading.Trading.Executor.Submission.{Report, execute_order}

unfoldable pub updated : Reply ℕ → (now : ℕ) → Position → Position
updated (reply price) now p = update_price price now p
updated rate_limit_exceeded now p = p
updated other_error now p = p

-- `_update_all_positions_price`; a price that cannot be read leaves its position as it was.
unfoldable pub update_all_positions_price :
    (prices : ℕ → Reply ℕ) → (now : ℕ) → Dict Position → Dict Position
unfolding updated
update_all_positions_price prices now [] = []
update_all_positions_price prices now ((code, p) ∷ positions) =
    (code, updated (prices code) now p) ∷ update_all_positions_price prices now positions

abbrev pub limit_of : PriceType → Position → Option ℕ
limit_of market p = none
limit_of limit p = some p.current_price

-- The order that sells a whole position.
abbrev pub sell_order : PriceType → (order_id now : ℕ) → Position → Order
sell_order price_type order_id now p = record {
  order_id = order_id;
  account_number = p.account_number;
  stock_code = p.stock_code;
  order_type = sell;
  price_type = price_type;
  quantity = p.quantity;
  limit_price = limit_of price_type p;
  status = pending;
  filled_quantity = 0;
  filled_price = none;
  strategy_name = p.strategy_name;
  created_at = now;
  submitted_at = none;
  filled_at = none;
  error_message = none;
}

-- The validation of a new order: its quantity, and a limit price, are above zero.
abbrev pub can_order : PriceType → Position → Bool
can_order market p = ltb 0 p.quantity
can_order limit p = ltb 0 p.quantity && ltb 0 p.current_price

module _ (v : Division) (m : RiskManager) (price_type : PriceType) where
  -- `_execute_sell_order`; there is no report where no order can be made.
  unfoldable pub execute_sell_order :
      Client → (order_id : ℕ) → Position → OrderExecutor → Option Report × OrderExecutor
  execute_sell_order c order_id p s =
      let (r, s') = execute_order v m c (sell_order price_type order_id c.now p) s in
      if can_order price_type p then (some r, s') else (none, s)

  -- The reports of the orders that could be made, and the executor afterwards.
  unfoldable pub sell_all :
      (ℕ → Client)
      → (ids : ℕ → ℕ) → (place : ℕ) → List (Position × TriggerAction)
      → OrderExecutor
      → List (Option Report) × OrderExecutor
  unfolding execute_sell_order
  sell_all clients ids place [] s = ([], s)
  sell_all clients ids place ((p, _) ∷ triggered) s =
      let (r, s') = execute_sell_order (clients place) (ids place) p s in
      let (reports, s'') = sell_all clients ids (suc place) triggered s' in (r ∷ reports, s'')

  -- One round of `_monitor_loop`.
  unfoldable pub monitor_round :
      (prices : ℕ → Reply ℕ)
      → (now : ℕ) → (ℕ → Client)
      → (ids : ℕ → ℕ) → OrderExecutor
      → List (Option Report) × OrderExecutor
  unfolding update_all_positions_price sell_all
  monitor_round prices now clients ids s =
      let s' = record s { positions = update_all_positions_price prices now s.positions } in
      sell_all clients ids 0 (monitor_all_positions (values s'.positions)) s'
