-- ===== src/Engine/Turns/Requests.antt =====
-- What a strategy's turn asks of the order executor (src/services/strategy_engine.py).
use auto_trading.Prelude.{
  ℕ, ◌<◌, ◌≡◌, inl, inr, refl, ap, Bool, true, false, ◌||◌, Option, none, some, [], ◌∷◌, ◌++◌, get,
  values, Bool-cases, Option-cases, arith,
}
use auto_trading.Prelude.Int.{ℤ, pos, negsuc}
use auto_trading.Trading.Division.{Division}
use auto_trading.Trading.Models.{
  Order, buy, sell, Position, Account, check_stop_loss_triggered, check_take_profit_triggered,
}
use auto_trading.Trading.Risk.{RiskManager, scale}
use auto_trading.Trading.Executor.Positions.{OrderExecutor}
use auto_trading.Engine.{
  Stock, BaseStrategy, StrategyConfig, StrategyEngine, held, put_held, set_stop_loss_take_profit,
  levels_set, new_order,
}
use auto_trading.Engine.Turns.Orders.{IsFresh, new_order-IsFresh}
use auto_trading.Engine.Turns.{
  Fetch, fetched, missing, failing, Turn, get_pending_orders_by_stock, any_buy, positive_size,
  request, after_buy, buy_order, buy_sized, buy_configured, buy_fetched, buy_with, buy_signalled,
  buy_part, sell_order, sell_with, sell_signalled, sell_held, sell_part,
}

-- Either nothing was asked of the executor, or one order of this kind.
pub data Asked {S : Type 0} (P : Order → Type 0) (before after : StrategyEngine S) : Type 0 where
  no_order : after.requests ≡ before.requests → Asked P before after
  one_order : (o : Order) → P o → after.requests ≡ before.requests ++ o ∷ [] → Asked P before after

module _ {S : Type 0} (face : BaseStrategy S) (v : Division) (m : RiskManager) where
  -- The size and the terms of a buy.
  pub record Sizing (name : ℕ) (s : S) (a : Account) (t : Turn) (stock : Stock)
      (e : StrategyEngine S) (o : Order) : Type 0 where
    pub config : StrategyConfig
    pub it_rules : get name e.strategy_configs ≡ some config
    pub quantity : ℕ
    pub some_quantity : 0 < quantity
    pub its_size :
        face.calculate_position_size s stock (scale a.cash_balance config.position_size_pct)
        ≡ some (some (pos quantity))
    pub its_order : IsFresh buy config name t.buy_id a.account_number quantity stock o

  -- The buy that a strategy's turn may ask for.
  pub record IsBuy (name : ℕ) (s : S) (t : Turn) (stock : Stock) (e : StrategyEngine S) (o : Order)
      : Type 0 where
    pub signal : face.evaluate_buy_signal s stock ≡ some true
    pub executor : OrderExecutor
    pub it_executes : e.order_executor ≡ some executor
    pub no_buy_waits :
        any_buy (get_pending_orders_by_stock stock.stock_code (values executor.pending_orders))
        ≡ false
    pub account : Account
    pub it_pays : t.account ≡ fetched account
    pub sizing : Sizing name s account t stock e o

  -- The sell that a strategy's turn may ask for: all of the position.
  pub record IsSell (name : ℕ) (s : S) (t : Turn) (stock : Stock) (e : StrategyEngine S) (o : Order)
      : Type 0 where
    pub position : Position
    pub it_is_held : get stock.stock_code (held e) ≡ some position
    pub signal : Bool
    pub its_signal : face.evaluate_sell_signal s position stock ≡ some signal
    pub some_reason :
        (signal || check_stop_loss_triggered position || check_take_profit_triggered position)
        ≡ true
    pub config : StrategyConfig
    pub it_rules : get name e.strategy_configs ≡ some config
    pub its_order :
        IsFresh sell config name t.sell_id position.account_number position.quantity stock o

  put_held-requests :
      (code : ℕ) (p : Position) (e : StrategyEngine S) → (put_held code p e).requests ≡ e.requests
  unfolding put_held
  put_held-requests code p e = ground arith

  levels-requests :
      (o : Order) (config : StrategyConfig) (now : ℕ) (e : StrategyEngine S)
      → (set_stop_loss_take_profit v o config now e).requests ≡ e.requests
  unfolding set_stop_loss_take_profit
  levels-requests o config now e = elim (Option-cases (get o.stock_code (held e))) [
    | inl nothing ↦ rw (nothing, set_stop_loss_take_profit) refl
    | inr (p, found) ↦
        rw (found, set_stop_loss_take_profit)
          (put_held-requests o.stock_code
            (levels_set v config.stop_loss_pct config.take_profit_pct now p) e)
  ]

  after_buy-requests :
      (success : Bool) (f : Option Order) (t : Turn) (config : StrategyConfig)
      (e : StrategyEngine S)
      → (after_buy face v m success f t config e).requests ≡ e.requests
  unfolding after_buy
  after_buy-requests false f t config e = refl
  after_buy-requests true none t config e = refl
  after_buy-requests true (some f) t config e = ground (arith, levels-requests f config t.now e)

  Asked-map :
      (P Q : Order → Type 0) (e e' : StrategyEngine S)
      → ((o : Order) → P o → Q o)
      → Asked P e e'
      → Asked Q e e'
  Asked-map P Q e e' f (no_order same) = no_order same
  Asked-map P Q e e' f (one_order o p q) = one_order o (f o p) q

  buy_order-Asked :
      (o : Option Order) (x : OrderExecutor) (t : Turn) (config : StrategyConfig)
      (e : StrategyEngine S)
      → Asked (λ p. o ≡ some p) e (buy_order face v m o x t config e).1
  unfolding buy_order request
  buy_order-Asked none x t config e = no_order refl
  buy_order-Asked (some o) x t config e =
      let (r, e') = request face v m t.buy_client o x e in
      one_order o refl (after_buy-requests r.success r.returned t config e')

  positive_size-pos :
      (size : Option ℤ) (n : ℕ) → positive_size size ≡ some n → (size ≡ some (pos n)) × (0 < n)
  positive_size-pos none n e = ground arith
  positive_size-pos (some (pos k)) n e = ground arith
  positive_size-pos (some (negsuc k)) n e = ground arith

  buy_sized-Asked :
      (size : Option (Option ℤ)) (name : ℕ) (x : OrderExecutor) (t : Turn) (config : StrategyConfig)
      (a : Account) (stock : Stock) (e : StrategyEngine S)
      → Asked
          (λ o.
            (quantity : ℕ) × (0 < quantity)
            × (size ≡ some (some (pos quantity)))
            × (new_order buy config name t.buy_id a.account_number quantity t.now stock ≡ some o))
          e
          (buy_sized face v m size name x t config a stock e).1
  unfolding buy_sized
  buy_sized-Asked none name x t config a stock e = no_order refl
  buy_sized-Asked (some size) name x t config a stock e = elim (Option-cases (positive_size size)) [
    | inl refused ↦ rw (refused, buy_sized) (no_order refl)
    | inr (quantity, sized) ↦
        let (its, positive) = positive_size-pos size quantity sized in
        let made = new_order buy config name t.buy_id a.account_number quantity t.now stock in
        rw (sized, buy_sized)
          (Asked-map (λ o. made ≡ some o) _ e _ (λ o q. (quantity, positive, ap some its, q))
            (buy_order-Asked made x t config e))
  ]

  buy_configured-Asked :
      (found : Option StrategyConfig) (name : ℕ) (s : S) (x : OrderExecutor) (t : Turn)
      (a : Account) (stock : Stock) (e : StrategyEngine S)
      → get name e.strategy_configs ≡ found
      → Asked (Sizing name s a t stock e) e (buy_configured face v m found name s x t a stock e).1
  unfolding buy_configured
  buy_configured-Asked none name s x t a stock e is = no_order refl
  buy_configured-Asked (some config) name s x t a stock e is =
      Asked-map _ (Sizing name s a t stock e) e _
        (λ o (quantity, positive, sized, made). record {
          config = config;
          it_rules = is;
          quantity = quantity;
          some_quantity = positive;
          its_size = sized;
          its_order =
              new_order-IsFresh buy config name t.buy_id a.account_number quantity t.now stock o
                made;
        })
        (buy_sized-Asked
          (face.calculate_position_size s stock (scale a.cash_balance config.position_size_pct))
          name x t config a stock e)

  buy_with-Asked :
      (found : Option OrderExecutor) (name : ℕ) (s : S) (t : Turn) (stock : Stock)
      (e : StrategyEngine S)
      → e.order_executor ≡ found
      → face.evaluate_buy_signal s stock ≡ some true
      → Asked (IsBuy name s t stock e) e (buy_with face v m found name s t stock e).1
  unfolding buy_with buy_fetched
  buy_with-Asked none name s t stock e is signal = no_order refl
  buy_with-Asked (some x) name s t stock e is signal =
      elim (Bool-cases
        (any_buy (get_pending_orders_by_stock stock.stock_code (values x.pending_orders)))) [
          | inl waits ↦ rw (waits, buy_with) (no_order refl)
          | inr free ↦ rw (free, buy_with) (by_account t.account refl free)
        ]
    where
      by_account :
          (f : Fetch)
          → t.account ≡ f
          → any_buy (get_pending_orders_by_stock stock.stock_code (values x.pending_orders)) ≡ false
          → Asked (IsBuy name s t stock e) e (buy_fetched face v m f name s x t stock e).1
      by_account missing account free = no_order refl
      by_account failing account free = no_order refl
      by_account (fetched a) account free =
          Asked-map (Sizing name s a t stock e) _ e _
            (λ o sizing. record {
              signal = signal;
              executor = x;
              it_executes = is;
              no_buy_waits = free;
              account = a;
              it_pays = account;
              sizing = sizing;
            })
            (buy_configured-Asked (get name e.strategy_configs) name s x t a stock e refl)

  buy_signalled-Asked :
      (signal : Option Bool) (name : ℕ) (s : S) (t : Turn) (stock : Stock) (e : StrategyEngine S)
      → face.evaluate_buy_signal s stock ≡ signal
      → Asked (IsBuy name s t stock e) e (buy_signalled face v m signal name s t stock e).1
  unfolding buy_signalled
  buy_signalled-Asked none name s t stock e is = no_order refl
  buy_signalled-Asked (some false) name s t stock e is = no_order refl
  buy_signalled-Asked (some true) name s t stock e is =
      buy_with-Asked e.order_executor name s t stock e refl is

  -- A strategy's buy signal leads to at most one order, under all these conditions: the signal was
  -- given, an executor is there and no buy of the stock waits at it, the account could be had, the
  -- strategy is configured, and the strategy's own size for its share of the cash is above zero.
  -- The order is a new and unfilled buy of the stock in exactly that size, for the account and under
  -- the strategy's name, at the market or with the stock's current price as its limit, whichever the
  -- configuration says.
  pub buy_part-requests :
      (name : ℕ) (s : S) (t : Turn) (stock : Stock) (e : StrategyEngine S)
      → Asked (IsBuy name s t stock e) e (buy_part face v m name s t stock e).1
  unfolding buy_part
  buy_part-requests name s t stock e =
      buy_signalled-Asked (face.evaluate_buy_signal s stock) name s t stock e refl

  sell_order-Asked :
      (o : Option Order) (x : OrderExecutor) (t : Turn) (e : StrategyEngine S)
      → Asked (λ p. o ≡ some p) e (sell_order face v m o x t e)
  unfolding sell_order request
  sell_order-Asked none x t e = no_order refl
  sell_order-Asked (some o) x t e = one_order o refl refl

  sell_with-Asked :
      (x : Option OrderExecutor) (found : Option StrategyConfig) (name : ℕ) (p : Position)
      (t : Turn) (stock : Stock) (e : StrategyEngine S)
      → Asked
          (λ o.
            (config : StrategyConfig) × (found ≡ some config)
            × (new_order sell config name t.sell_id p.account_number p.quantity t.now stock
                ≡ some o))
          e
          (sell_with face v m x found name p t stock e)
  unfolding sell_with
  sell_with-Asked none found name p t stock e = no_order refl
  sell_with-Asked (some x) none name p t stock e = no_order refl
  sell_with-Asked (some x) (some config) name p t stock e =
      let made = new_order sell config name t.sell_id p.account_number p.quantity t.now stock in
      Asked-map (λ o. made ≡ some o) _ e _ (λ o q. (config, refl, q)) (sell_order-Asked made x t e)

  sell_signalled-Asked :
      (signal : Option Bool) (name : ℕ) (s : S) (p : Position) (t : Turn) (stock : Stock)
      (e : StrategyEngine S)
      → face.evaluate_sell_signal s p stock ≡ signal
      → get stock.stock_code (held e) ≡ some p
      → Asked (IsSell name s t stock e) e (sell_signalled face v m signal name p t stock e)
  unfolding sell_signalled
  sell_signalled-Asked none name s p t stock e is at = no_order refl
  sell_signalled-Asked (some signal) name s p t stock e is at =
      elim (Bool-cases (signal || check_stop_loss_triggered p || check_take_profit_triggered p)) [
        | inr idle ↦ rw (idle, sell_signalled) (no_order refl)
        | inl reason ↦
            rw (reason, sell_signalled)
              (Asked-map _ (IsSell name s t stock e) e _
                (λ o (config, ruled, made). record {
                  position = p;
                  it_is_held = at;
                  signal = signal;
                  its_signal = is;
                  some_reason = reason;
                  config = config;
                  it_rules = ruled;
                  its_order =
                      new_order-IsFresh sell config name t.sell_id p.account_number p.quantity t.now
                        stock o made;
                })
                (sell_with-Asked e.order_executor (get name e.strategy_configs) name p t stock e))
      ]

  -- The other half of a strategy's turn leads to at most one order, under these conditions: the
  -- engine holds a position in the stock, the strategy's sell signal did not raise, it or the
  -- position's stop-loss or take-profit says to sell, and the strategy is configured. The order is
  -- a new and unfilled sell of exactly the position's quantity, which is above zero, for the
  -- position's account and under the strategy's name, at the market or with the stock's current price
  -- as its limit, whichever the configuration says.
  pub sell_part-requests :
      (name : ℕ) (s : S) (t : Turn) (stock : Stock) (e : StrategyEngine S)
      → Asked (IsSell name s t stock e) e (sell_part face v m name s t stock e)
  unfolding sell_part sell_held
  sell_part-requests name s t stock e = elim (Option-cases (get stock.stock_code (held e))) [
    | inl nothing ↦ rw (nothing, sell_part) (no_order refl)
    | inr (p, at) ↦
        rw (at, sell_part)
          (sell_signalled-Asked (face.evaluate_sell_signal s p stock) name s p t stock e refl at)
  ]
