-- ===== src/Trading/Monitor/Sales.antt =====
-- The sales of the risk monitor (src/services/risk_monitor.py).
use auto_trading.Prelude.{
  ℕ, suc, ◌≡◌, refl, ap, ◌∙◌, sym, subst, inl, inr, Bool-cases, false, Option, none, some, List, [],
  ◌∷◌, All, get, values,
}
use auto_trading.Trading.Division.{Division}
use auto_trading.Trading.Models.{Order, sell, Position, PriceType, is_terminal}
use auto_trading.Trading.Risk.{RiskManager, TriggerAction, monitor_all_positions}
use auto_trading.Trading.AccountService.{Reply}
use auto_trading.Trading.Executor.Positions.{OrderExecutor, Client}
use auto_trading.Trading.Executor.Submission.{Report}
use auto_trading.Trading.Executor.Sole.{execute_order-refuses_rival}
use auto_trading.Trading.Monitor.{
  can_order, sell_order, execute_sell_order, sell_all, monitor_round, update_all_positions_price,
}

-- A sale of the position's stock is pending and has not ended.
pub record IsSelling (s : OrderExecutor) (p : Position) : Type 0 where
  pub order_id : ℕ
  pub order : Order
  pub found : get order_id s.pending_orders ≡ some order
  pub its_stock : order.stock_code ≡ p.stock_code
  pub its_side : order.order_type ≡ sell
  pub going : is_terminal order.status ≡ false

-- No order could be made, or it was refused and not sent.
abbrev pub IsUnsent : Option Report → Type 0
IsUnsent none = Unit
IsUnsent (some r) = (r.sent ≡ false) × (r.success ≡ false)

module _ (v : Division) (m : RiskManager) (price_type : PriceType) where
  execute_sell_order-waits :
      (c : Client) (order_id : ℕ) (p : Position) (s : OrderExecutor)
      → IsSelling s p
      → let (r, s') = execute_sell_order v m price_type c order_id p s in IsUnsent r × (s' ≡ s)
  unfolding execute_sell_order
  execute_sell_order-waits c order_id p s w =
      let (refused, unsent, _, same) =
        execute_order-refuses_rival v m c (sell_order price_type order_id c.now p) w.order
          w.order_id s w.found w.its_stock w.its_side w.going in
      elim (Bool-cases (can_order price_type p)) [
        | inl can ↦ rw (can, execute_sell_order) ((unsent, refused), same)
        | inr cannot ↦ rw (cannot, execute_sell_order) (tt, refl)
      ]

  pub sell_all-waits :
      (clients : ℕ → Client) (ids : ℕ → ℕ) (place : ℕ) (triggered : List (Position × TriggerAction))
      (s : OrderExecutor)
      → All (λ e. IsSelling s e.0) triggered
      → let (reports, s') = sell_all v m price_type clients ids place triggered s in
        All IsUnsent reports × (s' ≡ s)
  unfolding sell_all
  sell_all-waits clients ids place [] s h = (tt, refl)
  sell_all-waits clients ids place ((p, a) ∷ triggered) s h =
      let (unsent, same) = execute_sell_order-waits (clients place) (ids place) p s h.0 in
      let (rest, kept) = sell_all-waits clients ids (suc place) triggered s h.1 in
      let next =
        λ (x : OrderExecutor). sell_all v m price_type clients ids (suc place) triggered x in
      (
        (unsent, subst (λ x. All IsUnsent (next x).0) (sym same) rest),
        ap (λ x. (next x).1) same ∙ kept,
      )

-- While a sale is pending for every position that has reached a limit, a round of the monitor sends
-- no order, every one that it makes being refused, and changes nothing but the prices, whatever the
-- client would answer.
pub monitor_round-waits :
    (v : Division) (m : RiskManager) (price_type : PriceType) (prices : ℕ → Reply ℕ) (now : ℕ)
    (clients : ℕ → Client) (ids : ℕ → ℕ) (s : OrderExecutor)
    → let s' = record s { positions = update_all_positions_price prices now s.positions } in
      All (λ e. IsSelling s' e.0) (monitor_all_positions (values s'.positions))
      → let (reports, s'') = monitor_round v m price_type prices now clients ids s in
        All IsUnsent reports × (s'' ≡ s')
unfolding monitor_round
monitor_round-waits v m price_type prices now clients ids s h =
    let s' = record s { positions = update_all_positions_price prices now s.positions } in
    sell_all-waits v m price_type clients ids 0 (monitor_all_positions (values s'.positions)) s' h
