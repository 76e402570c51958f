-- ===== src/Strategies/Imbalance/Bounds.antt =====
-- The ratio of an order book, and what it makes of the two signals
-- (src/strategies/order_book_imbalance.py).
use auto_trading.Prelude.{
  ℕ, ◌+◌, ◌-◌, ◌*◌, ◌≤◌, ◌<◌, ◌≡◌, refl, true, false, Option, none, some, ◌==◌, Bool-cases, inl,
  inr, arith,
}
use auto_trading.Prelude.Int.{pos, ◌≤ℤ◌}
use auto_trading.Trading.Division.{Division}
use native.Mathlib.Nat.{mul-le-mul_right}
use auto_trading.Engine.{Stock}
use auto_trading.Strategies.{unit, neg, signed_ratio}
use auto_trading.Strategies.Imbalance.{
  OrderBook, OrderBookImbalance, get_best_ask, get_order_book, get_imbalance_ratio, spread_pct,
  buys_on, sells_on, imbalance_buy,
}

module _ (v : Division) where
  -- A part of a whole is at most 1.
  quotient-part : (n d : ℕ) → v.fits unit ≡ true → 0 < d → n ≤ d → v.quotient (n * unit) d ≤ unit
  quotient-part n d fits pos_d part =
      rw (v.exact unit d fits pos_d) at (
        v.monotone (n * unit) d (unit * d) d pos_d pos_d (mul-le-mul_right d (omega (arith, part))))

  signed_ratio-bounds :
      (a b d : ℕ)
      → v.fits unit ≡ true
      → 0 < d
      → a + b ≤ d
      → (neg unit ≤ℤ signed_ratio v a b d) × (signed_ratio v a b d ≤ℤ pos unit)
  unfolding signed_ratio
  signed_ratio-bounds a b d fits pos_d whole =
      let up = quotient-part (a - b) d fits pos_d (omega (arith, whole)) in
      let down = quotient-part (b - a) d fits pos_d (omega (arith, whole)) in
      ground (arith, up, down)

  -- The ratio of every order book lies between -1 and 1, where the context represents 1; also that
  -- of an empty book, and also where all the quantity is on one side.
  get_imbalance_ratio-bounds :
      (b : OrderBook)
      → v.fits unit ≡ true
      → (neg unit ≤ℤ get_imbalance_ratio v b) × (get_imbalance_ratio v b ≤ℤ pos unit)
  unfolding get_imbalance_ratio
  get_imbalance_ratio-bounds b fits =
      let total = b.total_bid_quantity + b.total_ask_quantity in
      elim (Bool-cases (total == 0)) [
        | inl empty ↦ rw (empty, get_imbalance_ratio) (ground arith)
        | inr some_quantity ↦
            rw (some_quantity, get_imbalance_ratio)
              (signed_ratio-bounds b.total_bid_quantity b.total_ask_quantity total fits
                (ground arith) (omega arith))
      ]

  -- A buy signal of the order book strategy comes from a book that is there, with an ask, with a
  -- ratio no less than the threshold and a spread no more than the greatest allowed; and unless both
  -- thresholds are 0 the same book then does not make the strategy sell.
  imbalance_buy-means :
      (s : OrderBookImbalance) (stock : Stock)
      → imbalance_buy v s stock ≡ true
      → 0 < s.buy_threshold + s.sell_threshold
      → (b : OrderBook) × (get_order_book stock.stock_code s ≡ some b)
        × (0 < get_best_ask b)
        × (pos s.buy_threshold ≤ℤ get_imbalance_ratio v b)
        × (spread_pct v b ≤ℤ pos s.max_spread_pct)
        × (sells_on v s (some b) ≡ false)
  unfolding imbalance_buy
  imbalance_buy-means s stock signal thresholds =
      on_book (get_order_book stock.stock_code s) refl signal
    where
      on_book :
          (o : Option OrderBook)
          → get_order_book stock.stock_code s ≡ o
          → buys_on v s o ≡ true
          → (b : OrderBook) × (get_order_book stock.stock_code s ≡ some b)
            × (0 < get_best_ask b)
            × (pos s.buy_threshold ≤ℤ get_imbalance_ratio v b)
            × (spread_pct v b ≤ℤ pos s.max_spread_pct)
            × (sells_on v s (some b) ≡ false)
      on_book none is h = absurd (ground (arith, h))
      on_book (some b) is h =
          (b, is, ground (arith, h), ground (arith, h), ground (arith, h), ground (arith, h))
