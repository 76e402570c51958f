-- ===== src/Trading/Models/Positions/Averages.antt =====
-- The average buy price of a position (src/models/position.py).
use auto_trading.Prelude.{ℕ, ◌+◌, ◌*◌, ◌≤◌, ◌<◌, ◌≡◌, refl, arith}
use native.Mathlib.Nat.{mul-le-mul_right}
use auto_trading.Trading.Division.{
  Division, rounded, quotient_bounds, rounded_bounds, FitsUpTo, FitsUpTo-self,
}
use auto_trading.Trading.Models.Positions.{Position, add_quantity}

-- The cost of the old and of the new shares, each product and the sum rounded.
total_cost-bounds :
    (v : Division) (x m y n lo hi : ℕ)
    → FitsUpTo v (m + n) lo
    → FitsUpTo v (m + n) hi
    → lo ≤ x
    → lo ≤ y
    → x ≤ hi
    → y ≤ hi
    → let total = rounded v (rounded v (x * m) + rounded v (y * n)) in
      (lo * (m + n) ≤ total) × (total ≤ hi * (m + n))
total_cost-bounds v x m y n lo hi flo fhi a b c d =
    let (p, p') =
      rounded_bounds v (x * m) (lo * m) (hi * m) (flo m (omega arith)) (fhi m (omega arith))
        (mul-le-mul_right m a) (mul-le-mul_right m c) in
    let (q, q') =
      rounded_bounds v (y * n) (lo * n) (hi * n) (flo n (omega arith)) (fhi n (omega arith))
        (mul-le-mul_right n b) (mul-le-mul_right n d) in
    rounded_bounds v (rounded v (x * m) + rounded v (y * n)) (lo * (m + n)) (hi * (m + n))
      (flo (m + n) (omega arith)) (fhi (m + n) (omega arith)) (omega (arith, p, q))
      (omega (arith, p', q'))

-- After a buy that leaves some shares held, the average price lies between any two bounds of the old
-- average and of the price of the buy whose multiples, up to the number of shares then held, the
-- precision of the context represents, as it does whole won; and the quantity has grown by that of
-- the buy. The two products, their sum and the quotient are each rounded.
pub add_quantity-between :
    (v : Division) (additional price now lo hi : ℕ) (p : Position)
    → 0 < p.quantity + additional
    → FitsUpTo v (p.quantity + additional) lo
    → FitsUpTo v (p.quantity + additional) hi
    → lo ≤ p.average_buy_price
    → lo ≤ price
    → p.average_buy_price ≤ hi
    → price ≤ hi
    → let p' = add_quantity v additional price now p in
      (p'.quantity ≡ p.quantity + additional)
      × (lo ≤ p'.average_buy_price)
      × (p'.average_buy_price ≤ hi)
unfolding add_quantity
add_quantity-between v additional price now lo hi p positive flo fhi a b c d =
    let (above, below) =
      total_cost-bounds v p.average_buy_price p.quantity price additional lo hi flo fhi a b c d in
    let (least, greatest) =
      quotient_bounds v _ (p.quantity + additional) lo hi positive
        (FitsUpTo-self v lo (p.quantity + additional) positive flo)
        (FitsUpTo-self v hi (p.quantity + additional) positive fhi) above below in
    (refl, least, greatest)
