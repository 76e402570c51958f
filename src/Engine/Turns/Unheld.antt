-- ===== src/Engine/Turns/Unheld.antt =====
-- An engine that is given an empty dict of positions (src/services/strategy_engine.py, and its
-- construction in src/cli/main.py).
use auto_trading.Prelude.{
  ℕ, ◌≡◌, refl, sym, ap, ◌∙◌, subst, Bool, true, false, Option, none, some, List, [], ◌∷◌, get, All,
  All-append, Option-cases, Dict, inl, inr, arith,
}
use auto_trading.Prelude.Int.{ℤ}
use auto_trading.Trading.Division.{Division}
use auto_trading.Trading.Models.{Order, buy, Account, update_price}
use auto_trading.Trading.Risk.{RiskManager, scale}
use auto_trading.Trading.Executor.Positions.{OrderExecutor}
use auto_trading.Engine.{
  Stock, BaseStrategy, StrategyConfig, StrategyEngine, own, executor_positions, positions_or,
  held_by, start, held, put_held, set_stop_loss_take_profit, new_order,
}
use auto_trading.Engine.Turns.{
  Fetch, fetched, missing, failing, Turn, Flow, next_strategy, sell_check, positive_size, request,
  after_buy, buy_order, buy_sized, buy_configured, buy_fetched, buy_with, buy_signalled, buy_part,
  sell_held, sell_part, go_on, turn, turns_of, follow_price, evaluate_strategies,
}
use auto_trading.Engine.Turns.Requests.{Asked, no_order, one_order, IsBuy, buy_part-requests}

-- The engine holds nothing, in a dict of its own, and asked for buys only.
pub record BuysOnly {S : Type 0} (e : StrategyEngine S) : Type 0 where
  pub holds_nothing : e.positions ≡ own []
  pub buys : All (λ o. o.order_type ≡ buy) e.requests

module _ {S : Type 0} (face : BaseStrategy S) (v : Division) (m : RiskManager) where
  after_buy-positions :
      (success : Bool) (f : Option Order) (t : Turn) (config : StrategyConfig)
      (e : StrategyEngine S)
      → e.positions ≡ own []
      → after_buy face v m success f t config e ≡ e
  unfolding after_buy set_stop_loss_take_profit
  after_buy-positions false f t config e h = refl
  after_buy-positions true none t config e h = refl
  after_buy-positions true (some f) t config e h =
      let nothing : get f.stock_code (held e) ≡ none =
        ap (λ p. get f.stock_code (held_by p e.order_executor)) h in
      let kept : set_stop_loss_take_profit v f config t.now e ≡ e =
        rw (nothing, set_stop_loss_take_profit) refl in
      ground (arith, kept)

  buy_order-positions :
      (o : Option Order) (x : OrderExecutor) (t : Turn) (config : StrategyConfig)
      (e : StrategyEngine S)
      → e.positions ≡ own []
      → (buy_order face v m o x t config e).1.positions ≡ own []
  unfolding buy_order request
  buy_order-positions none x t config e h = h
  buy_order-positions (some o) x t config e h =
      let (r, e') = request face v m t.buy_client o x e in
      ap (λ y. y.positions) (after_buy-positions r.success r.returned t config e' h) ∙ h

  buy_sized-positions :
      (size : Option (Option ℤ)) (name : ℕ) (x : OrderExecutor) (t : Turn) (config : StrategyConfig)
      (a : Account) (stock : Stock) (e : StrategyEngine S)
      → e.positions ≡ own []
      → (buy_sized face v m size name x t config a stock e).1.positions ≡ own []
  unfolding buy_sized
  buy_sized-positions none name x t config a stock e h = h
  buy_sized-positions (some size) name x t config a stock e h =
      elim (Option-cases (positive_size size)) [
        | inl refused ↦ rw (refused, buy_sized) h
        | inr (quantity, sized) ↦
            rw (sized, buy_sized)
              (buy_order-positions
                (new_order buy config name t.buy_id a.account_number quantity t.now stock) x t
                config e h)
      ]

  buy_fetched-positions :
      (f : Fetch) (name : ℕ) (s : S) (x : OrderExecutor) (t : Turn) (stock : Stock)
      (e : StrategyEngine S)
      → e.positions ≡ own []
      → (buy_fetched face v m f name s x t stock e).1.positions ≡ own []
  unfolding buy_fetched buy_configured
  buy_fetched-positions missing name s x t stock e h = h
  buy_fetched-positions failing name s x t stock e h = h
  buy_fetched-positions (fetched a) name s x t stock e h = configured (get name e.strategy_configs)
    where
      configured :
          (found : Option StrategyConfig)
          → (buy_configured face v m found name s x t a stock e).1.positions ≡ own []
      configured none = h
      configured (some config) =
          buy_sized-positions
            (face.calculate_position_size s stock (scale a.cash_balance config.position_size_pct))
            name x t config a stock e h

  buy_with-positions :
      (found : Option OrderExecutor) (name : ℕ) (s : S) (t : Turn) (stock : Stock)
      (e : StrategyEngine S)
      → e.positions ≡ own []
      → (buy_with face v m found name s t stock e).1.positions ≡ own []
  unfolding buy_with
  buy_with-positions none name s t stock e h = h
  buy_with-positions (some x) name s t stock e h =
      ground (arith, buy_fetched-positions t.account name s x t stock e h)

  buy_part-positions :
      (name : ℕ) (s : S) (t : Turn) (stock : Stock) (e : StrategyEngine S)
      → e.positions ≡ own []
      → (buy_part face v m name s t stock e).1.positions ≡ own []
  unfolding buy_part buy_signalled
  buy_part-positions name s t stock e h = signalled (face.evaluate_buy_signal s stock)
    where
      signalled :
          (signal : Option Bool)
          → (buy_signalled face v m signal name s t stock e).1.positions ≡ own []
      signalled none = h
      signalled (some false) = h
      signalled (some true) = buy_with-positions e.order_executor name s t stock e h

  -- Nothing is held, so that nothing is sold.
  go_on-unheld :
      (flow : Flow) (name : ℕ) (s : S) (t : Turn) (stock : Stock) (e : StrategyEngine S)
      → e.positions ≡ own []
      → go_on face v m flow name s t stock e ≡ e
  unfolding go_on sell_part sell_held
  go_on-unheld next_strategy name s t stock e h = refl
  go_on-unheld sell_check name s t stock e h =
      ap
        (λ p.
          sell_held face v m (get stock.stock_code (held_by p e.order_executor)) name s t stock e)
        h

  Asked-buys :
      (name : ℕ) (s : S) (t : Turn) (stock : Stock) (e e' : StrategyEngine S)
      → Asked (IsBuy face v m name s t stock e) e e'
      → All (λ o. o.order_type ≡ buy) e.requests
      → All (λ o. o.order_type ≡ buy) e'.requests
  Asked-buys name s t stock e e' (no_order same) h =
      subst (λ l. All (λ o. o.order_type ≡ buy) l) (sym same) h
  Asked-buys name s t stock e e' (one_order o is more) h =
      subst (λ l. All (λ o. o.order_type ≡ buy) l) (sym more)
        (All-append (λ o. o.order_type ≡ buy) e.requests (o ∷ []) h
          (is.sizing.its_order.its_side, tt))

  turn-BuysOnly :
      (name : ℕ) (s : S) (t : Turn) (stock : Stock) (e : StrategyEngine S)
      → BuysOnly e
      → BuysOnly (turn face v m name s t stock e)
  unfolding turn
  turn-BuysOnly name s t stock e h =
      let (flow, e') = buy_part face v m name s t stock e in
      let kept = buy_part-positions name s t stock e h.holds_nothing in
      subst (λ x. BuysOnly x) (sym (go_on-unheld flow name s t stock e' kept))
        (record {
          holds_nothing = kept;
          buys =
              Asked-buys name s t stock e e' (buy_part-requests face v m name s t stock e) h.buys;
        })

  turns_of-BuysOnly :
      (strategies : Dict S) (t : ℕ → Turn) (stock : Stock) (e : StrategyEngine S)
      → BuysOnly e
      → BuysOnly (turns_of face v m strategies t stock e)
  unfolding turns_of
  turns_of-BuysOnly [] t stock e h = h
  turns_of-BuysOnly ((name, s) ∷ strategies) t stock e h =
      turns_of-BuysOnly strategies t stock (turn face v m name s (t name) stock e)
        (turn-BuysOnly name s (t name) stock e h)

  evaluate_strategies-BuysOnly :
      (t : ℕ → Turn) (now : ℕ) (stock : Stock) (e : StrategyEngine S)
      → BuysOnly e
      → BuysOnly (evaluate_strategies face v m t now stock e)
  unfolding evaluate_strategies follow_price
  evaluate_strategies-BuysOnly t now stock e h =
      let e' = follow_price face v m stock now e in
      let same : e' ≡ e =
        ap
          (λ p. elim (get stock.stock_code (held_by p e.order_executor)) [
            | none ↦ e
            | some q ↦ put_held stock.stock_code (update_price stock.current_price now q) e
          ])
          h.holds_nothing in
      let h' : BuysOnly e' = subst (λ x. BuysOnly x) (sym same) h in
      ground (arith, h', turns_of-BuysOnly e'.strategies t stock e' h')

  -- The evaluations of a list of prices, in order.
  unfoldable pub evaluations : List ((ℕ → Turn) × ℕ × Stock) → StrategyEngine S → StrategyEngine S
  evaluations [] e = e
  evaluations ((t, now, stock) ∷ stocks) e =
      evaluations stocks (evaluate_strategies face v m t now stock e)

  evaluations-BuysOnly :
      (stocks : List ((ℕ → Turn) × ℕ × Stock)) (e : StrategyEngine S)
      → BuysOnly e
      → BuysOnly (evaluations stocks e)
  unfolding evaluations
  evaluations-BuysOnly [] e h = h
  evaluations-BuysOnly ((t, now, stock) ∷ stocks) e h =
      evaluations-BuysOnly stocks (evaluate_strategies face v m t now stock e)
        (evaluate_strategies-BuysOnly t now stock e h)

  -- An engine that is made while the executor's dict of positions is empty, as the program makes
  -- it, never sees a position: whatever is loaded into it and however many prices it evaluates,
  -- every order that it asks for is a buy.
  pub start-never_sells :
      (risk : RiskManager) (a : Option Account) (x : Option OrderExecutor) (strategies : Dict S)
      (configs : Dict StrategyConfig) (stocks : List ((ℕ → Turn) × ℕ × Stock))
      → executor_positions x ≡ []
      → let e = record (start risk a x) { strategies = strategies; strategy_configs = configs } in
        (held (evaluations stocks e) ≡ [])
        × All (λ o. o.order_type ≡ buy) (evaluations stocks e).requests
  start-never_sells risk a x strategies configs stocks empty =
      let e : StrategyEngine S = record (start risk a x) {
        strategies = strategies;
        strategy_configs = configs;
      } in
      let h =
        evaluations-BuysOnly stocks e
          (record { holds_nothing = ap positions_or empty; buys = tt }) in
      (ap (λ p. held_by p (evaluations stocks e).order_executor) h.holds_nothing, h.buys)
