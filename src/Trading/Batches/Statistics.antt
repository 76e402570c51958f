-- ===== src/Trading/Batches/Statistics.antt =====
-- The prices of a batch (`_update_statistics` of src/services/order_batch_aggregator.py).
use auto_trading.Prelude.{
  ℕ, ◌*◌, ◌≤◌, ◌<◌, ◌≡◌, ◌≢◌, ◌⊎◌, inl, inr, refl, true, false, Option, none, some, List, [], ◌∷◌,
  min, max, All, ◌==◌, Bool-cases, Option-cases, leb, leb→le, ap, ◌∙◌, subst, sym, arith,
}
use native.Mathlib.Nat.{mul-le-mul_right}
use auto_trading.Trading.Division.{Division, quotient_bounds}
use auto_trading.Trading.Models.{Order, PriceType, market, limit}
use auto_trading.Trading.Batches.{
  OrderBatch, priced, limit_prices, limit_value, limit_quantity, is_limit, least, greatest,
  with_prices, sum_quantities, update_statistics,
}
use auto_trading.Trading.Batches.Grouping.{IsGrouped, HasGroup}

least-le : (x : ℕ) (ps : List ℕ) → (least x ps ≤ x) × All (λ p. least x ps ≤ p) ps
unfolding least
least-le x [] = (omega arith, tt)
least-le x (p ∷ ps) =
    let (h, a) = least-le (min x p) ps in (omega (arith, h), (omega (arith, h), a))

le-greatest : (x : ℕ) (ps : List ℕ) → (x ≤ greatest x ps) × All (λ p. p ≤ greatest x ps) ps
unfolding greatest
le-greatest x [] = (omega arith, tt)
le-greatest x (p ∷ ps) =
    let (h, a) = le-greatest (max x p) ps in (omega (arith, h), (omega (arith, h), a))

min-either : (x y : ℕ) → (min x y ≡ x) ⊎ (min x y ≡ y)
min-either x y = elim (Bool-cases (leb x y)) [
  | inl le ↦ inl (omega (arith, leb→le x y le))
  | inr gt ↦ inr (ground arith)
]

max-either : (x y : ℕ) → (max x y ≡ x) ⊎ (max x y ≡ y)
max-either x y = elim (Bool-cases (leb x y)) [
  | inl le ↦ inr (omega (arith, leb→le x y le))
  | inr gt ↦ inl (ground arith)
]

-- The least and the greatest price are prices of the batch.
least-fits :
    (v : Division) (x : ℕ) (ps : List ℕ)
    → v.fits x ≡ true
    → All (λ p. v.fits p ≡ true) ps
    → v.fits (least x ps) ≡ true
unfolding least
least-fits v x [] h a = h
least-fits v x (p ∷ ps) h a = elim (min-either x p) [
  | inl e ↦ least-fits v (min x p) ps (ap v.fits e ∙ h) a.1
  | inr e ↦ least-fits v (min x p) ps (ap v.fits e ∙ a.0) a.1
]

greatest-fits :
    (v : Division) (x : ℕ) (ps : List ℕ)
    → v.fits x ≡ true
    → All (λ p. v.fits p ≡ true) ps
    → v.fits (greatest x ps) ≡ true
unfolding greatest
greatest-fits v x [] h a = h
greatest-fits v x (p ∷ ps) h a = elim (max-either x p) [
  | inl e ↦ greatest-fits v (max x p) ps (ap v.fits e ∙ h) a.1
  | inr e ↦ greatest-fits v (max x p) ps (ap v.fits e ∙ a.0) a.1
]

is_limit-none :
    (t : PriceType) (price : Option ℕ)
    → HasGroup t price
    → priced t price ≡ none
    → is_limit t ≡ false
unfolding priced
is_limit-none market price h e = refl
is_limit-none limit none h e = absurd h
is_limit-none limit (some p) h e = absurd (ground arith)

is_limit-some :
    (t : PriceType) (price : Option ℕ) {p : ℕ} → priced t price ≡ some p → is_limit t ≡ true
unfolding priced
is_limit-some market price e = cc
is_limit-some limit price e = refl

limit_value-between :
    (lo hi : ℕ) (orders : List Order)
    → All IsGrouped orders
    → All (λ p. lo ≤ p) (limit_prices orders)
    → All (λ p. p ≤ hi) (limit_prices orders)
    → (lo * limit_quantity orders ≤ limit_value orders)
      × (limit_value orders ≤ hi * limit_quantity orders)
unfolding limit_prices limit_value limit_quantity
limit_value-between lo hi [] g below above = (omega arith, omega arith)
limit_value-between lo hi (o ∷ orders) g below above =
    elim (Option-cases (priced o.price_type o.limit_price)) [
      | inl no_price ↦
          let same : limit_prices (o ∷ orders) ≡ limit_prices orders =
            rw (limit_prices, no_price) refl in
          let (h, k) =
            limit_value-between lo hi orders g.1 (subst (λ ps. All (λ x. lo ≤ x) ps) same below)
              (subst (λ ps. All (λ x. x ≤ hi) ps) same above) in
          rw
            (
              limit_value,
              limit_quantity,
              no_price,
              is_limit-none o.price_type o.limit_price g.0 no_price,
            )
            (h, k)
      | inr (p, price) ↦
          let first : limit_prices (o ∷ orders) ≡ p ∷ limit_prices orders =
            rw (limit_prices, price) refl in
          let below' = subst (λ ps. All (λ x. lo ≤ x) ps) first below in
          let above' = subst (λ ps. All (λ x. x ≤ hi) ps) first above in
          let (h, k) = limit_value-between lo hi orders g.1 below'.1 above'.1 in
          rw (limit_value, limit_quantity, price, is_limit-some o.price_type o.limit_price price)
            (
              omega (arith, h, mul-le-mul_right o.quantity below'.0),
              omega (arith, k, mul-le-mul_right o.quantity above'.0),
            )
    ]

-- With a price and some quantity at a limit in the batch, and limit orders that all have a price, the statistics hold a least and a
-- greatest price and an average between them, where the prices are values that the precision
-- represents.
pub update_statistics-between :
    (v : Division) (b : OrderBatch)
    → All IsGrouped b.orders
    → 0 < limit_quantity b.orders
    → limit_prices b.orders ≢ []
    → All (λ p. v.fits p ≡ true) (limit_prices b.orders)
    → let b' = update_statistics v b in
      (lo average hi : ℕ) × (b'.min_price ≡ some lo)
      × (b'.average_price ≡ some average)
      × (b'.max_price ≡ some hi)
      × (lo ≤ average)
      × (average ≤ hi)
      × All (λ p. lo ≤ p) (limit_prices b.orders)
      × All (λ p. p ≤ hi) (limit_prices b.orders)
unfolding update_statistics
update_statistics-between v b g some_quantity some_price fit =
    by_prices (limit_prices b.orders) refl
  where
    not_zero : (n : ℕ) → 0 < n → (n == 0) ≡ false
    not_zero n h = ground arith

    by_prices :
        (prices : List ℕ)
        → limit_prices b.orders ≡ prices
        → let b' = with_prices v prices (record b { total_quantity = sum_quantities b.orders }) in
          (lo average hi : ℕ) × (b'.min_price ≡ some lo)
          × (b'.average_price ≡ some average)
          × (b'.max_price ≡ some hi)
          × (lo ≤ average)
          × (average ≤ hi)
          × All (λ p. lo ≤ p) prices
          × All (λ p. p ≤ hi) prices
    by_prices [] e = absurd (some_price e)
    by_prices (x ∷ ps) e =
        let lo = least x ps in
        let hi = greatest x ps in
        let fits' = subst (λ ps. All (λ p. v.fits p ≡ true) ps) e fit in
        let (lo-le, lo-all) = least-le x ps in
        let (le-hi, all-hi) = le-greatest x ps in
        let (below, above) =
          limit_value-between lo hi b.orders g
            (subst (λ ps. All (λ p. lo ≤ p) ps) (sym e) (lo-le, lo-all))
            (subst (λ ps. All (λ p. p ≤ hi) ps) (sym e) (le-hi, all-hi)) in
        let (h, k) =
          quotient_bounds v (limit_value b.orders) (limit_quantity b.orders) lo hi some_quantity
            (least-fits v x ps fits'.0 fits'.1) (greatest-fits v x ps fits'.0 fits'.1) below
            above in
        rw (with_prices, not_zero (limit_quantity b.orders) some_quantity)
          (
            lo,
            v.quotient (limit_value b.orders) (limit_quantity b.orders),
            hi,
            refl,
            refl,
            refl,
            h,
            k,
            (lo-le, lo-all),
            (le-hi, all-hi),
          )
