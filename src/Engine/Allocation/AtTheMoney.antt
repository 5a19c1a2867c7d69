-- ===== src/Engine/Allocation/AtTheMoney.antt =====
-- The fill map of the orders at the money.
use native.Mathlib.Nat.{le_of_mul-le-mul_right}
use fair_cross.Prelude.{
  ℕ, ◌+◌, ◌-◌, ◌*◌, ◌≤◌, ◌<◌, ◌≡◌, ◌∙◌, ◌⊎◌, refl, sym, ap, subst, true, false, not, ◌&&◌, List, [],
  ◌∷◌, map, leb, ltb, ◌==◌, sum_by, sum_by-map, All, All-map, All-of, All-of_map, All-to_map,
  All-of_sort, All-sort, DistinctBy-map, DistinctBy-of_map, sort, sum_by-sort, sort-DistinctBy,
  sort-IsSortedBy, arith, inl, inr, Bool-cases,
}
use fair_cross.Prelude.OrdMap.{lookup}
use fair_cross.Domain.Words.{u64_mod, sub64, sub64-eq}
use fair_cross.Domain.Order.{Order}
use fair_cross.Engine.Allocation.{
  Partition, FillMap, AtTheMoneyCandidate, allocate_atm, pro_rata, candidate, base_sum_from,
  larger_remainder, is_nil,
}
use fair_cross.Engine.Allocation.Fills.{
  Entry, order_of, fill_in, put_all, filled, full, full_sum, full_exact, fill_fully-put_all,
}
use fair_cross.Engine.Allocation.Precedence.{
  Pairs, AnyTwo, RoundedFirst, HasRemainder, candidate-HasRemainder, handed_first,
}
use fair_cross.Engine.Allocation.Shares.{
  IsShare, IsRounded, candidate-IsShare, bases, remainders, shares_sum, base_sum_from-bases, handed,
  handed_orders, handed_exact, hand_out-put_all,
}
use fair_cross.Engine.Allocation.InTheMoney.{
  quantity, Rearranges, settle_sum, settle_All, settle_pairs, IsTotalled, full-Rearranges,
  All-exact_le,
}

-- What `allocate_atm` achieves with a remaining volume `v` that the orders at the money cover: they
-- get exactly that volume, each no more than its quantity, each its exact share rounded down or up,
-- and the lots of the rounding by remainder.
pub record AtmRules (v : ℕ) (p : Partition) (m : FillMap) : Type 0 where
  pub atm_sum : sum_by (filled m) p.atm_orders ≡ v
  pub atm_bounded : All (λ o. filled m o ≤ o.qty) p.atm_orders
  pub atm_rounded : (p.q_atm ≡ 0) ⊎ All (λ o. IsRounded v p.q_atm o (filled m o)) p.atm_orders
  pub atm_first : AnyTwo (RoundedFirst v p.q_atm) p.atm_orders (filled m)

larger_asym :
    (a b : AtTheMoneyCandidate) → larger_remainder a b ≡ true → larger_remainder b a ≡ false
unfolding larger_remainder
larger_asym a b h = ground arith

larger_trans :
    (a b c : AtTheMoneyCandidate)
    → larger_remainder b a ≡ false
    → larger_remainder c b ≡ false
    → larger_remainder c a ≡ false
unfolding larger_remainder
larger_trans a b c h k = ground arith

-- No order exceeds the total.
qty-le-quantity : (n : ℕ) (os : List Order) → quantity os ≤ n → All (λ o. o.qty ≤ n) os
qty-le-quantity n [] h = tt
qty-le-quantity n (o ∷ os) h = (omega arith, qty-le-quantity n os (omega arith))

candidate_orders : (v t : ℕ) (os : List Order) → map (λ c. c.order) (map (candidate v t) os) ≡ os
unfolding candidate
candidate_orders v t [] = refl
candidate_orders v t (o ∷ os) = cc (candidate_orders v t os)

candidates-Rearranges :
    (v t : ℕ) (os : List Order)
    → Rearranges os (map (λ c. c.order) (sort larger_remainder (map (candidate v t) os)))
candidates-Rearranges v t os =
    subst (λ l. Rearranges l (map (λ c. c.order) (sort larger_remainder cs)))
      (candidate_orders v t os)
      (record {
        sums = λ f.
            sum_by-map f (λ c. c.order) (sort larger_remainder cs)
            ∙ sum_by-sort larger_remainder (λ c. f c.order) cs
            ∙ sym (sum_by-map f (λ c. c.order) cs);
        alls = λ P h.
            All-to_map P (λ c. c.order) cs
              (All-of_sort larger_remainder (λ c. P c.order) cs
                (All-of_map P (λ c. c.order) (sort larger_remainder cs) h));
        distinct = λ d.
            DistinctBy-map (λ o. o.id) (λ c. c.order) (sort larger_remainder cs)
              (sort-DistinctBy larger_remainder (λ c. c.order.id) cs
                (DistinctBy-of_map (λ o. o.id) (λ c. c.order) cs d));
      })
  where
    cs : List AtTheMoneyCandidate
    cs = map (candidate v t) os

module _ (v : ℕ) (p : Partition) (t : IsTotalled p) (less : v < p.q_atm) where
  cands : List AtTheMoneyCandidate
  cands = map (candidate v p.q_atm) p.atm_orders

  sorted : List AtTheMoneyCandidate
  unfolding cands
  sorted = sort larger_remainder cands

  words : All (λ c. c.order.qty < u64_mod) cands
  unfolding cands candidate
  words =
      All-to_map (λ c. c.order.qty < u64_mod) (candidate v p.q_atm) p.atm_orders
        (All-map {P = λ o. o.qty ≤ p.q_atm} (λ o h. omega (arith, t.atm_fits)) p.atm_orders
          (qty-le-quantity p.q_atm p.atm_orders (omega (arith, t.atm_total))))

  shares : All (IsShare v p.q_atm) cands
  unfolding cands
  shares = All-to_map (IsShare v p.q_atm) (candidate v p.q_atm) p.atm_orders (
      All-map {P = λ o. o.qty ≤ p.q_atm}
        (λ o h. candidate-IsShare v p.q_atm o less t.atm_fits (omega (arith, t.atm_fits)))
        p.atm_orders (qty-le-quantity p.q_atm p.atm_orders (omega (arith, t.atm_total))))

  with_remainders : All (HasRemainder v p.q_atm) cands
  unfolding cands
  with_remainders = All-to_map (HasRemainder v p.q_atm) (candidate v p.q_atm) p.atm_orders (
      All-map {P = λ o. o.qty ≤ p.q_atm}
        (λ o h. candidate-HasRemainder v p.q_atm o less t.atm_fits (omega (arith, t.atm_fits)))
        p.atm_orders (qty-le-quantity p.q_atm p.atm_orders (omega (arith, t.atm_total))))

  quantities_total : sum_by (λ c. c.order.qty) cands ≡ p.q_atm
  unfolding cands candidate
  quantities_total =
      sum_by-map (λ c. c.order.qty) (candidate v p.q_atm) p.atm_orders ∙ sym t.atm_total

  balance : bases cands * p.q_atm + remainders cands ≡ p.q_atm * v
  balance = shares_sum v p.q_atm cands shares ∙ ap (λ (n : ℕ). n * v) quantities_total

  bases-le : bases cands ≤ v
  bases-le = le_of_mul-le-mul_right {k = p.q_atm} (omega (arith, balance)) (omega arith)

  surplus : sub64 v (base_sum_from 0 cands) ≡ v - bases cands
  surplus =
      let exact = base_sum_from-bases 0 cands (omega (arith, bases-le, t.atm_fits)) in
      rw exact (
        sub64-eq v (0 + bases cands) (omega (arith, bases-le)) (omega (arith, t.atm_fits))
        ∙ omega arith)

  covers : (v - bases cands) * p.q_atm ≤ remainders sorted
  unfolding sorted
  covers =
      let split : v ≡ bases cands + (v - bases cands) = omega (arith, bases-le) in
      omega (
        arith,
        ap (λ (n : ℕ). n * p.q_atm) split,
        balance,
        sum_by-sort larger_remainder (λ c. c.remainder) cands,
      )

  es : List Entry
  unfolding sorted
  es = handed (v - bases cands) sorted

  sorted-Rearranges : Rearranges p.atm_orders (map order_of es)
  unfolding es sorted cands
  sorted-Rearranges =
      subst (Rearranges p.atm_orders) (sym (handed_orders (v - bases cands) sorted))
        (candidates-Rearranges v p.q_atm p.atm_orders)

  exact :
      (sum_by fill_in es ≡ bases sorted + (v - bases cands))
      × All (λ (e : Entry). IsRounded v p.q_atm e.0 e.1) es
  unfolding es sorted
  exact =
      handed_exact v p.q_atm (v - bases cands) sorted less
        (All-sort larger_remainder (λ c. c.order.qty < u64_mod) cands words)
        (All-sort larger_remainder (IsShare v p.q_atm) cands shares)
        (sort-IsSortedBy larger_remainder larger_asym larger_trans cands) covers

  first : Pairs (RoundedFirst v p.q_atm) es
  unfolding es sorted cands
  first =
      handed_first v p.q_atm (v - bases cands) sorted less
        (All-sort larger_remainder (λ c. c.order.qty < u64_mod) cands words)
        (All-sort larger_remainder (IsShare v p.q_atm) cands shares)
        (All-sort larger_remainder (HasRemainder v p.q_atm) cands with_remainders)
        (sort-IsSortedBy larger_remainder larger_asym larger_trans cands) covers

  written : pro_rata v p ≡ put_all es []
  unfolding pro_rata es sorted cands
  written = cc (surplus, hand_out-put_all (v - bases cands) sorted [])

  pro_rata_rules : AtmRules v p (pro_rata v p)
  pro_rata_rules = rw written (record {
    atm_sum = settle_sum p.atm_orders es sorted-Rearranges t.atm_distinct ∙ whole;
    atm_bounded =
        All-map {P = λ o. IsRounded v p.q_atm o (filled (put_all es []) o)} (λ o h. h.0)
          p.atm_orders rounded;
    atm_rounded = inr rounded;
    atm_first =
        settle_pairs (RoundedFirst v p.q_atm) p.atm_orders es sorted-Rearranges t.atm_distinct
          first;
  })
    where
      whole : sum_by fill_in es ≡ v
      whole =
          unfold sorted in
          omega (arith, exact.0, bases-le, sum_by-sort larger_remainder (λ c. c.base_fill) cands)

      rounded : All (λ o. IsRounded v p.q_atm o (filled (put_all es []) o)) p.atm_orders
      rounded =
          settle_All (IsRounded v p.q_atm) p.atm_orders es sorted-Rearranges t.atm_distinct exact.1

nothing_filled : (os : List Order) → (sum_by (filled []) os ≡ 0) × All (λ o. filled [] o ≡ 0) os
unfolding lookup
nothing_filled [] = (refl, tt)
nothing_filled (o ∷ os) =
    let rest = nothing_filled os in (omega (arith, rest.0), (omega arith, rest.1))

-- A full fill is the share in a volume that is the whole quantity, and no fill that in none.
full-IsRounded : (t v : ℕ) (o : Order) (f : ℕ) → 0 < t → v ≡ t → f ≡ o.qty → IsRounded v t o f
full-IsRounded t v o f pos whole e = rw (whole, e) (omega arith, omega arith, omega arith)

none-IsRounded : (t v : ℕ) (o : Order) (f : ℕ) → 0 < t → v ≡ 0 → f ≡ 0 → IsRounded v t o f
none-IsRounded t v o f pos none_left e = rw (none_left, e) (omega arith, omega arith, omega arith)

empty_quantity : (os : List Order) → is_nil os ≡ true → quantity os ≡ 0
empty_quantity [] e = refl
empty_quantity (o ∷ os) e = cc

all_filled_rules :
    (v : ℕ) (p : Partition)
    → IsTotalled p
    → v ≡ p.q_atm
    → AtmRules v p (put_all (full p.atm_orders) [])
all_filled_rules v p t e = record {
  atm_sum = omega (
    arith,
    settle_sum p.atm_orders (full p.atm_orders) (full-Rearranges p.atm_orders) t.atm_distinct,
    full_sum p.atm_orders,
    t.atm_total,
  );
  atm_bounded = All-exact_le _ p.atm_orders filled_up;
  atm_rounded = elim (Bool-cases (p.q_atm == 0)) [
    | inl z ↦ inl (ground arith)
    | inr n ↦ inr (
        All-map {P = λ o. filled (put_all (full p.atm_orders) []) o ≡ o.qty}
          (λ o h. full-IsRounded p.q_atm v o _ (ground arith) e h) p.atm_orders filled_up)
  ];
  atm_first =
      All-of {P = λ o. All (λ o'. RoundedFirst v p.q_atm o (fills o) o' (fills o')) p.atm_orders}
        (λ o.
          All-map {P = λ o'. fills o' ≡ o'.qty}
            (λ o' h _ more.
              absurd (omega (arith, ap (λ n. o'.qty * n) e, ap (λ n. n * p.q_atm) h, more)))
            p.atm_orders filled_up)
        p.atm_orders;
}
  where
    fills : Order → ℕ
    fills = filled (put_all (full p.atm_orders) [])

    filled_up : All (λ o. filled (put_all (full p.atm_orders) []) o ≡ o.qty) p.atm_orders
    filled_up =
        settle_All (λ o f. f ≡ o.qty) p.atm_orders (full p.atm_orders)
          (full-Rearranges p.atm_orders) t.atm_distinct (full_exact p.atm_orders)

no_volume_rules : (v : ℕ) (p : Partition) → v ≡ 0 → AtmRules v p []
no_volume_rules v p z =
    let (none_summed, none_filled) = nothing_filled p.atm_orders in
    record {
      atm_sum = omega (arith, none_summed);
      atm_bounded =
          All-map {P = λ o. filled [] o ≡ 0} (λ o h. omega arith) p.atm_orders none_filled;
      atm_rounded = elim (Bool-cases (p.q_atm == 0)) [
        | inl q ↦ inl (ground arith)
        | inr n ↦ inr (
            All-map {P = λ o. filled [] o ≡ 0}
              (λ o h. none-IsRounded p.q_atm v o _ (ground arith) z h) p.atm_orders none_filled)
      ];
      atm_first =
          All-of
            {P = λ o.
              All (λ o'. RoundedFirst v p.q_atm o (filled [] o) o' (filled [] o')) p.atm_orders}
            (λ o.
              All-map {P = λ o'. filled [] o' ≡ 0}
                (λ o' h _ more. absurd (omega (arith, ap (λ n. n * p.q_atm) h, more))) p.atm_orders
                none_filled)
            p.atm_orders;
    }

-- The orders at the money take exactly the remaining volume, if they cover it.
pub allocate_atm_rules :
    (v : ℕ) (p : Partition) → IsTotalled p → v ≤ p.q_atm → AtmRules v p (allocate_atm v p)
unfolding allocate_atm
allocate_atm_rules v p t le = elim (Bool-cases (ltb 0 v && not (is_nil p.atm_orders))) [
  | inl e ↦ elim (Bool-cases (leb p.q_atm v)) [
    | inl f ↦ rw (e, f, fill_fully-put_all p.atm_orders []) (all_filled_rules v p t (ground arith))
    | inr f ↦ rw (e, f) (pro_rata_rules v p t (ground arith))
  ]
  | inr e ↦ rw e (no_volume_rules v p (ground (arith, t.atm_total, empty_quantity p.atm_orders)))
]
