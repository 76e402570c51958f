-- ===== src/Trading/Simulator/Accounting.antt =====
-- What an order does to the cash and the shares of the simulated account
-- (src/simulator/kiwoom_simulator.py).
use auto_trading.Prelude.{
  ℕ, ◌*◌, ◌≤◌, ◌≡◌, ◌≢◌, ◌⊎◌, inl, inr, refl, sym, subst, Option, none, some, ltb, get, Bool-cases,
  arith,
}
use mathlib.Core.Path.{subst₂}
use auto_trading.Prelude.Int.{pos, ltb_ℤ}
use auto_trading.Trading.Division.{Division}
use auto_trading.Trading.Models.{
  Order, OrderType, buy, sell, OrderStatus, submitted, filled, Position, Message,
}
use auto_trading.Trading.Simulator.Exchange.{
  FakeExchange, get_price, Outcome, ok, fail, execute_order,
}
use auto_trading.Trading.Simulator.Fills.{SameOrder, IsFill, IsOpen, execute_order-fills}
use auto_trading.Trading.Simulator.{
  KiwoomSimulator, Result, settle_buy, settle_sell, archive, finish_sell, reject, book_buy,
  execute_buy, place_buy, book_sell, execute_sell, place_sell, place, submit_at, submit_checked,
  submit_after, check_injected_error, submit_order,
}
use auto_trading.Trading.Simulator.Settlement.{Traded, settle_buy-Traded, settle_sell-Traded}

full_of :
    {x : FakeExchange} {o o' : Order}
    → IsFill x o o' ⊎ IsOpen o o'
    → o'.status ≡ filled
    → o'.filled_quantity ≡ o.quantity
full_of (inl f) e = f.full
full_of (inr f) e = absurd (f.not_filled e)

Traded-as :
    (t : OrderType) (price : ℕ) (s s' : KiwoomSimulator) {code code' n n' : ℕ}
    → code' ≡ code
    → n' ≡ n
    → Traded t code' n' (price * n') s s'
    → Traded t code n (price * n) s s'
Traded-as t price s s' ec en h = subst₂ (λ c k. Traded t c k (price * k) s s') ec en h

-- Neither the account nor a position is touched.
pub record Unchanged (s s' : KiwoomSimulator) : Type 0 where
  pub same_account : s'.account ≡ s.account
  pub same_positions : s'.positions ≡ s.positions

-- What a submission of that order has done, by how it ended.
abbrev pub Effect : Order → KiwoomSimulator → Result Order → Type 0
Effect o s (fail _, s') = Unchanged s s'
Effect o s (ok o', s') =
    SameOrder o o'
    × (((price : ℕ) × (o'.status ≡ filled)
          × (o'.filled_price ≡ some price)
          × Traded o.order_type o.stock_code o.quantity (price * o.quantity) s s')
        ⊎ ((o'.status ≢ filled) × Unchanged s s'))

unchanged : (s : KiwoomSimulator) → Unchanged s s
unchanged s = record { same_account = refl; same_positions = refl }

reject-Effect : (m : Message) (o o' : Order) (s : KiwoomSimulator) → Effect o s (reject m o' s)
unfolding reject
reject-Effect m o o' s = record { same_account = refl; same_positions = refl }

module _ (v : Division) (now : ℕ) where
  book_buy-Effect :
      (st : OrderStatus) (fp : Option ℕ) (o o' : Order) (current : ℕ) (s : KiwoomSimulator)
      → o.order_type ≡ buy
      → o'.status ≡ st
      → o'.filled_price ≡ fp
      → SameOrder o o'
      → (st ≡ filled → o'.filled_quantity ≡ o.quantity)
      → Effect o s (book_buy v now st fp o' current s)
  unfolding book_buy archive
  book_buy-Effect filled (some price) o o' current s side es ep same full =
      let paid = settle_buy-Traded v now o' price current s in
      let paid' =
        Traded-as buy price s (settle_buy v now o' price current s) same.same_stock (full refl)
          paid in
      (same, inl (price, es, ep, rw side paid'))
  book_buy-Effect filled none o o' current s side es ep same full = unchanged s
  book_buy-Effect _ fp o o' current s side es ep same full =
      (same, inr (λ f. cc, record { same_account = refl; same_positions = refl }))

  execute_buy-Effect :
      (r : Outcome Order) (o : Order) (current : ℕ) (s : KiwoomSimulator)
      → o.order_type ≡ buy
      → o.status ≢ filled
      → execute_order now o s.exchange ≡ r
      → Effect o s (execute_buy v now r current s)
  unfolding execute_buy
  execute_buy-Effect (fail e) o current s side new h = unchanged s
  execute_buy-Effect (ok o') o current s side new h =
      let (same, how) = execute_order-fills now o o' s.exchange new h in
      book_buy-Effect o'.status o'.filled_price o o' current s side refl refl same (full_of how)

  place_buy-Effect :
      (o : Order) (current : ℕ) (s : KiwoomSimulator)
      → o.order_type ≡ buy
      → o.status ≢ filled
      → Effect o s (place_buy v now o current s)
  unfolding place_buy
  place_buy-Effect o current s side new =
      elim (Bool-cases (ltb_ℤ s.account.cash_balance (pos (current * o.quantity)))) [
        | inl short ↦ rw (short, place_buy) (reject-Effect _ o o s)
        | inr enough ↦ rw (enough, place_buy) (execute_buy-Effect _ o current s side new refl)
      ]

  book_sell-Effect :
      (st : OrderStatus) (fp : Option ℕ) (o o' : Order) (held : Position) (s : KiwoomSimulator)
      → o.order_type ≡ sell
      → get o.stock_code s.positions ≡ some held
      → o.quantity ≤ held.quantity
      → o'.status ≡ st
      → o'.filled_price ≡ fp
      → SameOrder o o'
      → (st ≡ filled → o'.filled_quantity ≡ o.quantity)
      → Effect o s (book_sell v now st fp o' held s)
  unfolding book_sell finish_sell archive
  book_sell-Effect filled (some price) o o' held s side e enough es ep same full =
      let (done_all, sold) =
        settle_sell-Traded v now o' price held s
          (subst (λ c. get c s.positions ≡ some held) (sym same.same_stock) e)
          (subst (λ n. n ≤ held.quantity) (sym (full refl)) enough) in
      let sold' =
        Traded-as sell price s (settle_sell v now o' price held s).1 same.same_stock (full refl)
          sold in
      rw (done_all, finish_sell) (same, inl (price, es, ep, rw side sold'))
  book_sell-Effect filled none o o' held s side e enough es ep same full = unchanged s
  book_sell-Effect _ fp o o' held s side e enough es ep same full =
      (same, inr (λ f. cc, record { same_account = refl; same_positions = refl }))

  execute_sell-Effect :
      (r : Outcome Order) (o : Order) (held : Position) (s : KiwoomSimulator)
      → o.order_type ≡ sell
      → o.status ≢ filled
      → get o.stock_code s.positions ≡ some held
      → o.quantity ≤ held.quantity
      → execute_order now o s.exchange ≡ r
      → Effect o s (execute_sell v now r held s)
  unfolding execute_sell
  execute_sell-Effect (fail x) o held s side new e enough h = unchanged s
  execute_sell-Effect (ok o') o held s side new e enough h =
      let (same, how) = execute_order-fills now o o' s.exchange new h in
      book_sell-Effect o'.status o'.filled_price o o' held s side e enough refl refl same
        (full_of how)

  place_sell-Effect :
      (p : Option Position) (o : Order) (s : KiwoomSimulator)
      → o.order_type ≡ sell
      → o.status ≢ filled
      → get o.stock_code s.positions ≡ p
      → Effect o s (place_sell v now o p s)
  unfolding place_sell
  place_sell-Effect none o s side new e = reject-Effect _ o o s
  place_sell-Effect (some held) o s side new e = elim (Bool-cases (ltb held.quantity o.quantity)) [
    | inl short ↦ rw (short, place_sell) (reject-Effect _ o o s)
    | inr enough ↦
        rw (enough, place_sell) (execute_sell-Effect _ o held s side new e (ground arith) refl)
  ]

  place-Effect :
      (t : OrderType) (o : Order) (current : ℕ) (s : KiwoomSimulator)
      → o.order_type ≡ t
      → o.status ≢ filled
      → Effect o s (place v now t o current s)
  unfolding place
  place-Effect buy o current s side new = place_buy-Effect o current s side new
  place-Effect sell o current s side new = place_sell-Effect _ o s side new refl

  submit_at-Effect :
      (p : Option ℕ) (o : Order) (s : KiwoomSimulator)
      → o.status ≢ filled
      → Effect o s (submit_at v now p o s)
  unfolding submit_at
  submit_at-Effect none o s new = reject-Effect _ o o s
  submit_at-Effect (some current) o s new = place-Effect o.order_type o current s refl new

-- The order was marked as submitted on the way.
Effect-submitted :
    (now : ℕ) (o : Order) (s : KiwoomSimulator) (r : Result Order)
    → Effect (record o { status = submitted; submitted_at = some now }) s r
    → Effect o s r
Effect-submitted now o s (fail e, s') h = h
Effect-submitted now o s (ok o', s') (same, how) = (
  record {
    same_id = same.same_id;
    same_stock = same.same_stock;
    same_type = same.same_type;
    same_quantity = same.same_quantity;
  },
  how,
)

-- Where no error is injected, a submission either raises and leaves the account and the positions
-- as they were; or returns the same order still open, and again changes neither; or returns it
-- filled in full at a price: then the cash falls by price times quantity for a buy and rises by it
-- for a sell, the shares of the stock change by the quantity, and those of any other stock do not.
pub submit_order-Effect :
    (v : Division) (now : ℕ) (o : Order) (s : KiwoomSimulator)
    → s.injected_error ≡ none
    → Effect o s (submit_order v now o s)
unfolding submit_order submit_checked check_injected_error
submit_order-Effect v now o s clean =
    subst (λ e. Effect o s (submit_after v now (check_injected_error e s) o)) (sym clean)
      (Effect-submitted now o s (submit_checked v now o s) (
        submit_at-Effect v now (get_price o.stock_code s.exchange)
          (record o { status = submitted; submitted_at = some now }) s (λ e. cc)))
