-- ===== src/Trading/Simulator/Settlement.antt =====
-- The settlement of a filled order in the cash and the shares of the simulated account
-- (src/simulator/kiwoom_simulator.py).
use auto_trading.Prelude.{
  ℕ, ◌+◌, ◌-◌, ◌*◌, ◌≤◌, ◌≡◌, inl, inr, refl, ap, false, Option, none, some, ◌==◌, ltb,
  if◌then◌else◌, Dict, get, put, pop, get-put, get-pop, Bool-cases, arith,
}
use native.Mathlib.Decide.{ℕ_discrete}
use auto_trading.Prelude.Int.{pos, ◌+ℤ◌, int_laws}
use auto_trading.Trading.Division.{Division}
use auto_trading.Trading.Models.{
  Order, OrderType, buy, sell, Position, reduce_quantity, add_quantity,
}
use auto_trading.Trading.Simulator.Exchange.{ok}
use auto_trading.Trading.Simulator.{KiwoomSimulator, new_position, settle_buy, settle_sell}

-- The shares of a stock that are held.
abbrev pub held_of : Option Position → ℕ
held_of none = 0
held_of (some p) = p.quantity

abbrev pub shares : ℕ → KiwoomSimulator → ℕ
shares code s = held_of (get code s.positions)

-- A buy pays the amount and adds the shares, a sell is paid it and gives them; no other stock
-- changes.
abbrev pub Traded :
    OrderType → (code quantity amount : ℕ) → KiwoomSimulator → KiwoomSimulator → Type 0
Traded buy code quantity amount s s' =
    (s'.account.cash_balance +ℤ pos amount ≡ s.account.cash_balance)
    × ((k : ℕ) → shares k s' ≡ shares k s + (if code == k then quantity else 0))
Traded sell code quantity amount s s' =
    (s'.account.cash_balance ≡ s.account.cash_balance +ℤ pos amount)
    × ((k : ℕ) → shares k s' + (if code == k then quantity else 0) ≡ shares k s)

pub leb-not-ltb : (a b : ℕ) → b ≤ a → ltb a b ≡ false
leb-not-ltb a b h = ground arith

held-put :
    (code k n : ℕ) (p : Position) (d : Dict Position)
    → p.quantity ≡ held_of (get code d) + n
    → held_of (get k (put code p d)) ≡ held_of (get k d) + (if code == k then n else 0)
held-put code k n p d e = rw (get-put k code p d) (elim (ℕ_discrete code k) [
  | yes same ↦
      let moved : held_of (get code d) ≡ held_of (get k d) = ap (λ c. held_of (get c d)) same in
      ground (arith, moved)
  | no differs ↦ ground arith
])

held-pop :
    (code k n : ℕ) (d : Dict Position)
    → n ≡ held_of (get code d)
    → held_of (get k (pop code d)) + (if code == k then n else 0) ≡ held_of (get k d)
held-pop code k n d e = rw (get-pop k code d) (elim (ℕ_discrete code k) [
  | yes same ↦
      let moved : held_of (get code d) ≡ held_of (get k d) = ap (λ c. held_of (get c d)) same in
      ground (arith, moved)
  | no differs ↦ ground arith
])

held-lower :
    (code k n : ℕ) (p : Position) (d : Dict Position)
    → p.quantity + n ≡ held_of (get code d)
    → held_of (get k (put code p d)) + (if code == k then n else 0) ≡ held_of (get k d)
held-lower code k n p d e = rw (get-put k code p d) (elim (ℕ_discrete code k) [
  | yes same ↦
      let moved : held_of (get code d) ≡ held_of (get k d) = ap (λ c. held_of (get c d)) same in
      ground (arith, moved)
  | no differs ↦ ground arith
])

held-drop :
    (code k n : ℕ) (p : Position) (d : Dict Position)
    → p.quantity + n ≡ held_of (get code d)
    → held_of (get k (if p.quantity == 0 then pop code d else put code p d))
        + (if code == k then n else 0)
      ≡ held_of (get k d)
held-drop code k n p d e = elim (Bool-cases (p.quantity == 0)) [
  | inl out ↦ rw out (held-pop code k n d (ground arith))
  | inr some_left ↦ rw some_left (held-lower code k n p d e)
]

module _ (v : Division) (now : ℕ) where
  pub settle_buy-Traded :
      (o : Order) (price current : ℕ) (s : KiwoomSimulator)
      → Traded buy o.stock_code o.filled_quantity
          (price * o.filled_quantity)
          s
          (settle_buy v now o price current s)
  unfolding settle_buy add_quantity
  settle_buy-Traded o price current s = (
    omega int_laws,
    λ k.
        held-put o.stock_code k o.filled_quantity _ s.positions
          (bought (get o.stock_code s.positions)),
  )
    where
      bought :
          (q : Option Position)
          → (let p : Position = elim q [
            | none ↦ new_position v now o price current s
            | some held ↦ add_quantity v o.filled_quantity price now held
          ] in
              p.quantity ≡ held_of q + o.filled_quantity)
      bought none = ground arith
      bought (some held) = refl

  pub settle_sell-Traded :
      (o : Order) (price : ℕ) (held : Position) (s : KiwoomSimulator)
      → get o.stock_code s.positions ≡ some held
      → o.filled_quantity ≤ held.quantity
      → let (result, s') = settle_sell v now o price held s in
        (result ≡ ok tt)
        × Traded sell o.stock_code o.filled_quantity (price * o.filled_quantity) s s'
  unfolding settle_sell reduce_quantity
  settle_sell-Traded o price held s e h =
      let p : Position = record held {
        quantity = held.quantity - o.filled_quantity;
        updated_at = now;
      } in
      rw (leb-not-ltb held.quantity o.filled_quantity h, settle_sell, reduce_quantity)
        (
          refl,
          (
            refl,
            λ k. held-drop o.stock_code k o.filled_quantity p s.positions (rw e (omega arith)),
          ),
        )
