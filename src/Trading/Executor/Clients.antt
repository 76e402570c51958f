-- ===== src/Trading/Executor/Clients.antt =====
-- How the clients that the program runs with treat an order that they are given
-- (`KiwoomClient.submit_order` of src/api/kiwoom_client.py, and `KiwoomSimulator.submit_order` of
-- src/simulator/kiwoom_simulator.py): what the theorems on the executor's pending orders ask of a
-- client.
use auto_trading.Prelude.{ℕ, ◌≡◌, ◌≢◌, ◌⊎◌, [], ◌∷◌, Dict, put, pop, Values, Values-pop, arith}
use auto_trading.Trading.Models.{Order, cancelled, pending}
use auto_trading.Trading.AccountService.{Reply, reply}
use auto_trading.Trading.Executor.Positions.{Client}

-- The client keeps the order's identifier and does not cancel it, as the simulator does, or it
-- answers that the order is pending, maybe under another identifier, as the Kiwoom client does.
abbrev pub KeptOrPending : Reply Order → (key : ℕ) → Order → Type 0
KeptOrPending r key o =
    ((o.order_id ≡ key) × (o.status ≢ cancelled)) ⊎ ((r ≡ reply o) × (o.status ≡ pending))

-- The client answers with the object that it was given, for the stock and the side that it had.
pub record IsInPlace (c : Client) : Type 0 where
  pub same_stock : (o : Order) → (c.submit_order o).order_left.stock_code ≡ o.stock_code
  pub same_type : (o : Order) → (c.submit_order o).order_left.order_type ≡ o.order_type
  pub same_object :
      (o f : Order) → (c.submit_order o).answer ≡ reply f → f ≡ (c.submit_order o).order_left
  pub kept_or_pending :
      (o : Order) → KeptOrPending (c.submit_order o).answer o.order_id (c.submit_order o).order_left

pub put-put : (k : ℕ) (o p : Order) (d : Dict Order) → put k p (put k o d) ≡ put k p d
put-put k o p [] = ground arith
put-put k o p (e ∷ d) = ground (arith, put-put k o p d)

pub Values-pop-put :
    (P : Order → Type 0) (k : ℕ) (o : Order) (d : Dict Order)
    → Values P d
    → Values P (pop k (put k o d))
Values-pop-put P k o [] h = ground arith
Values-pop-put P k o (e ∷ d) h = ground (arith, Values-pop-put P k o d h.1, Values-pop P k d h.1)
