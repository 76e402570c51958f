-- ===== src/Aggregation/Conservation.antt =====
-- What the aggregation keeps (src/services/data_aggregator.py).
use auto_trading.Prelude.{
  ℕ, suc, ◌+◌, ◌<◌, ◌≡◌, refl, ap, ◌∙◌, false, some, List, [], ◌∷◌, ◌++◌, length, length-append,
  sum_of, sum_of-append, All, ◌==◌, Bool-cases, inl, inr, arith,
}
use auto_trading.Trading.Division.{Division}
use auto_trading.Bars.{MinuteBar}
use auto_trading.Aggregation.{
  ChartInterval, AggregatedData, get_window_start, get_interval_minutes, insert_bar, sort_bars,
  traded, aggregate_sorted, aggregate_group, group_from, group_all, aggregate_bars,
}

length-insert_bar :
    (b : MinuteBar) (bars : List MinuteBar) → length (insert_bar b bars) ≡ suc (length bars)
length-insert_bar b [] = refl
length-insert_bar b (x ∷ bars) = ground (arith, length-insert_bar b bars)

sum_of-insert_bar :
    (f : MinuteBar → ℕ) (b : MinuteBar) (bars : List MinuteBar)
    → sum_of f (insert_bar b bars) ≡ f b + sum_of f bars
sum_of-insert_bar f b [] = refl
sum_of-insert_bar f b (x ∷ bars) = ground (arith, sum_of-insert_bar f b bars)

length-sort_bars : (bars : List MinuteBar) → length (sort_bars bars) ≡ length bars
unfolding sort_bars
length-sort_bars [] = refl
length-sort_bars (b ∷ bars) =
    length-insert_bar b (sort_bars bars) ∙ ap (λ n. suc n) (length-sort_bars bars)

sum_of-sort_bars :
    (f : MinuteBar → ℕ) (bars : List MinuteBar) → sum_of f (sort_bars bars) ≡ sum_of f bars
unfolding sort_bars
sum_of-sort_bars f [] = refl
sum_of-sort_bars f (b ∷ bars) =
    sum_of-insert_bar f b (sort_bars bars) ∙ ap (λ n. f b + n) (sum_of-sort_bars f bars)

-- The data hold so much volume and so many bars in all.
pub record Holds (volume bars : ℕ) (out : List AggregatedData) : Type 0 where
  pub in_volume : sum_of (λ x. x.volume) out ≡ volume
  pub in_bars : sum_of (λ x. x.bar_count) out ≡ bars
  pub none_empty : All (λ x. 0 < x.bar_count) out

module _ (v : Division) (target : ChartInterval) where
  aggregate_sorted-holds :
      (bars : List MinuteBar)
      → 0 < length bars
      → (x : AggregatedData) × (aggregate_sorted v target bars ≡ some x)
        × (x.volume ≡ traded bars)
        × (x.bar_count ≡ length bars)
  unfolding aggregate_sorted
  aggregate_sorted-holds [] h = absurd (omega (arith, h))
  aggregate_sorted-holds (b ∷ bars) h = (_, refl, refl, refl)

  aggregate_group-holds :
      (group : List MinuteBar)
      → 0 < length group
      → (x : AggregatedData) × (aggregate_group v target group ≡ some x)
        × (x.volume ≡ traded group)
        × (x.bar_count ≡ length group)
  unfolding aggregate_group
  aggregate_group-holds group h =
      let (x, made, volume, count) =
        aggregate_sorted-holds (sort_bars group) (omega (arith, h, length-sort_bars group)) in
      (x, made, volume ∙ sum_of-sort_bars (λ b. b.volume) group, count ∙ length-sort_bars group)

  group_from-Holds :
      (window : ℕ) (group bars : List MinuteBar)
      → 0 < length group
      → (out : List AggregatedData) × (group_from v target window group bars ≡ some out)
        × Holds (traded group + traded bars) (length group + length bars) out
  unfolding group_from
  group_from-Holds window group [] h =
      let (x, made, volume, count) = aggregate_group-holds group h in
      (
        x ∷ [],
        rw (made, group_from) refl,
        record {
          in_volume = omega (arith, volume);
          in_bars = omega (arith, count);
          none_empty = (omega (arith, count, h), tt);
        },
      )
  group_from-Holds window group (b ∷ bars) h =
      let start = get_window_start b.start_time (get_interval_minutes target) in
      elim (Bool-cases (start == window)) [
        | inl same ↦
            let (out, made, holds) =
              group_from-Holds window (group ++ b ∷ []) bars
                (omega (arith, length-append group (b ∷ []))) in
            (
              out,
              rw (same, group_from) made,
              record {
                in_volume =
                    omega (arith, holds.in_volume, sum_of-append (λ x. x.volume) group (b ∷ []));
                in_bars = omega (arith, holds.in_bars, length-append group (b ∷ []));
                none_empty = holds.none_empty;
              },
            )
        | inr other ↦
            let (x, made, volume, count) = aggregate_group-holds group h in
            let (out, rest, holds) = group_from-Holds start (b ∷ []) bars (omega arith) in
            (
              x ∷ out,
              rw (other, group_from, made, rest) refl,
              record {
                in_volume = omega (arith, holds.in_volume, volume);
                in_bars = omega (arith, holds.in_bars, count);
                none_empty = (omega (arith, count, h), holds.none_empty);
              },
            )
      ]

  group_all-Holds :
      (bars : List MinuteBar)
      → (out : List AggregatedData) × (group_all v target bars ≡ some out)
        × Holds (traded bars) (length bars) out
  unfolding group_all
  group_all-Holds [] = ([], refl, record { in_volume = refl; in_bars = refl; none_empty = tt })
  group_all-Holds (b ∷ bars) =
      let start = get_window_start b.start_time (get_interval_minutes target) in
      let (out, made, holds) = group_from-Holds start (b ∷ []) bars (omega arith) in
      (
        out,
        made,
        record {
          in_volume = omega (arith, holds.in_volume);
          in_bars = omega (arith, holds.in_bars);
          none_empty = holds.none_empty;
        },
      )

  -- To minutes, up to an hour, or to days, the aggregation never fails, and for any bars in any
  -- order it makes data that hold the same volume and the same number of bars in all, each at
  -- least one bar.
  pub aggregate_bars-Holds :
      (bars : List MinuteBar)
      → 0 < get_interval_minutes target
      → (out : List AggregatedData) × (aggregate_bars v target bars ≡ some out)
        × Holds (traded bars) (length bars) out
  unfolding aggregate_bars
  aggregate_bars-Holds bars known =
      let (out, made, holds) = group_all-Holds (sort_bars bars) in
      let known' : (get_interval_minutes target == 0) ≡ false = ground (arith, known) in
      (
        out,
        rw (known', aggregate_bars) made,
        record {
          in_volume = holds.in_volume ∙ sum_of-sort_bars (λ b. b.volume) bars;
          in_bars = holds.in_bars ∙ length-sort_bars bars;
          none_empty = holds.none_empty;
        },
      )
