-- ===== src/Trading/Executor/Races.antt =====
-- Two calls of `execute_order` that overlap (src/services/order_executor.py). Each checks for
-- duplicates, then waits for the account and the price, and only then makes its order pending, so
-- that another call may run at the wait.
use auto_trading.Prelude.{◌≡◌, ◌≢◌, ◌∙◌, refl, none, some, get, get-put, get-put_self, arith}
use auto_trading.Trading.Division.{Division}
use auto_trading.Trading.Models.{Order}
use auto_trading.Trading.Risk.{RiskManager}
use auto_trading.Trading.Executor.Positions.{OrderExecutor, Client}
use auto_trading.Trading.Executor.Submission.{
  passed, refused_at_once, screen, screen_account, screen_risk, screen_price, screen_type,
  mark_submitted, submit,
}
use auto_trading.Trading.Executor.Sole.{IsSole}

-- How far a call has come.
pub data Stage : Type 0 where
  begun cleared sent : Stage

pub record Calls : Type 0 where
  pub first : Stage
  pub second : Stage
  pub executor : OrderExecutor

module _ (v : Division) (m : RiskManager) (c d : Client) (o p : Order) where
  -- The steps of the two calls between their waits: the checks that need no answer, and, once the
  -- answers are there, the checks that need them together with the entry into the pending orders.
  pub data Step : Calls → Calls → Type 0 where
    check_first :
        (b : Stage) (s : OrderExecutor)
        → refused_at_once o s ≡ none
        → Step
            (record { first = begun; second = b; executor = s })
            (record { first = cleared; second = b; executor = s })
    check_second :
        (a : Stage) (s : OrderExecutor)
        → refused_at_once p s ≡ none
        → Step
            (record { first = a; second = begun; executor = s })
            (record { first = a; second = cleared; executor = s })
    submit_first :
        (b : Stage) (s : OrderExecutor)
        → screen v m c o s ≡ passed
        → Step
            (record { first = cleared; second = b; executor = s })
            (record { first = sent; second = b; executor = submit v m c o s })
    submit_second :
        (a : Stage) (s : OrderExecutor)
        → screen v m d p s ≡ passed
        → Step
            (record { first = a; second = cleared; executor = s })
            (record { first = a; second = sent; executor = submit v m d p s })

  pub data Steps : Calls → Calls → Type 0 where
    here : (x : Calls) → Steps x x
    then : (x y z : Calls) → Step x y → Steps y z → Steps x z

  -- What the client must answer does not depend on the pending orders.
  screen-submit : (s : OrderExecutor) → screen v m d p (submit v m c o s) ≡ screen v m d p s
  unfolding screen screen_account screen_risk screen_price screen_type submit
  screen-submit s = ground arith

  abbrev pub both_sent : OrderExecutor → Calls
  both_sent s = record { first = sent; second = sent; executor = submit v m d p (submit v m c o s) }

  overlap :
      (s : OrderExecutor)
      → refused_at_once o s ≡ none
      → refused_at_once p s ≡ none
      → screen v m c o s ≡ passed
      → screen v m d p s ≡ passed
      → Steps (record { first = begun; second = begun; executor = s }) (both_sent s)
  overlap s e f g h = then _ _ _ (check_first begun s e) (
      then _ _ _ (check_second cleared s f) (
        then _ _ _ (submit_first cleared s g)
          (then _ _ _ (submit_second sent _ (screen-submit s ∙ h)) (here _))))

  both_pending :
      (s : OrderExecutor)
      → o.order_id ≢ p.order_id
      → let orders = (both_sent s).executor.pending_orders in
        (get o.order_id orders ≡ some (mark_submitted v m c o))
        × (get p.order_id orders ≡ some (mark_submitted v m d p))
  unfolding submit
  both_pending s differ = (
    ground (
      arith,
      get-put o.order_id p.order_id (mark_submitted v m d p) (submit v m c o s).pending_orders,
      get-put_self o.order_id (mark_submitted v m c o) s.pending_orders,
    ),
    get-put_self p.order_id _ _,
  )

-- Two calls for the same stock and side, under two identifiers, that are each free to go reach a state in which both have
-- sent their orders, and more than one order for that stock and side is pending: the protection
-- against duplicates does not hold across the waits.
pub overlap_breaks_IsSole :
    (v : Division) (m : RiskManager) (c d : Client) (o p : Order) (s : OrderExecutor)
    → refused_at_once o s ≡ none
    → refused_at_once p s ≡ none
    → screen v m c o s ≡ passed
    → screen v m d p s ≡ passed
    → o.order_id ≢ p.order_id
    → o.stock_code ≡ p.stock_code
    → o.order_type ≡ p.order_type
    → (x : Calls) × Steps v m c d o p (record { first = begun; second = begun; executor = s }) x
      × (x.first ≡ sent)
      × (x.second ≡ sent)
      × (¬ (IsSole x.executor.pending_orders))
overlap_breaks_IsSole v m c d o p s e f g h differ stock side =
    let (one, two) = both_pending v m c d o p s differ in
    (
      both_sent v m c d o p s,
      overlap v m c d o p s e f g h,
      refl,
      refl,
      λ sole. differ (sole o.order_id p.order_id _ _ one two stock side),
    )
