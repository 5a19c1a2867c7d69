-- ===== src/Engine/Allocation/InTheMoney.antt =====
-- The fill map of the orders in the money.
use Prim.Native.Nat.{min}
use fair_cross.Prelude.{
  ℕ, ◌-◌, ◌≤◌, ◌<◌, ◌≡◌, ◌∙◌, refl, sym, subst, Bool, List, [], map, leb, sum_by, All, All-map,
  All-of, All-of_sort, DistinctBy, sort, sum_by-sort, sort-DistinctBy, arith, inl, inr, Bool-cases,
}
use fair_cross.Domain.Words.{u64_mod, sub64, sub64-eq}
use fair_cross.Domain.Order.{Order, Side}
use fair_cross.Engine.Allocation.{Partition, FillMap, allocate_itm, has_priority}
use fair_cross.Engine.Allocation.Precedence.{
  Pairs, AnyTwo, ServedFirst, sort-priority, turns_served,
}
use fair_cross.Engine.Allocation.Fills.{
  Entry, order_of, fill_in, put_all, filled, filled-All, filled-sum, turns, turns_orders, turns_sum,
  turns_bounded, turns_full, fill_in_turn-put_all, full, full_orders, full_sum, full_exact,
  fill_fully-put_all,
}

abbrev pub Distinct : List Order → Type 0
Distinct os = DistinctBy (λ o. o.id) os

abbrev pub quantity : List Order → ℕ
quantity os = sum_by (λ o. o.qty) os

-- The second list rearranges the first.
pub record Rearranges (os os' : List Order) : Type 1 where
  pub sums : (f : Order → ℕ) → sum_by f os' ≡ sum_by f os
  pub alls : (P : Order → Type 0) → All P os' → All P os
  pub distinct : Distinct os → Distinct os'

sort-Rearranges : (less : Order → Order → Bool) (os : List Order) → Rearranges os (sort less os)
sort-Rearranges less os = record {
  sums = λ f. sum_by-sort less f os;
  alls = λ P. All-of_sort less P os;
  distinct = sort-DistinctBy less (λ o. o.id) os;
}

-- The map that is written from entries for the orders holds their fills.
pub settle_sum :
    (os : List Order) (es : List Entry)
    → Rearranges os (map order_of es)
    → Distinct os
    → sum_by (filled (put_all es [])) os ≡ sum_by fill_in es
settle_sum os es r d = sym (r.sums (filled (put_all es []))) ∙ filled-sum es [] (r.distinct d)

pub settle_All :
    (P : Order → ℕ → Type 0) (os : List Order) (es : List Entry)
    → Rearranges os (map order_of es)
    → Distinct os
    → All (λ (e : Entry). P e.0 e.1) es
    → All (λ o. P o (filled (put_all es []) o)) os
settle_All P os es r d h =
    r.alls (λ o. P o (filled (put_all es []) o)) (filled-All P es [] (r.distinct d) h)

-- A relation between any two entries holds of the fills of any two orders.
pub settle_pairs :
    (R : Order → ℕ → Order → ℕ → Type 0) (os : List Order) (es : List Entry)
    → Rearranges os (map order_of es)
    → Distinct os
    → Pairs R es
    → AnyTwo R os (filled (put_all es []))
settle_pairs R os es r d h =
    let m = put_all es [] in
    settle_All (λ o n. All (λ o'. R o n o' (filled m o')) os) os es r d
      (All-map {P = λ (e : Entry). All (λ (e' : Entry). R e.0 e.1 e'.0 e'.1) es}
        (λ e k. settle_All (λ o' n'. R e.0 e.1 o' n') os es r d k) es h)

-- What `allocate_itm` achieves: the orders in the money get the target, as far as they go; the rest
-- remains for the orders at the money; if there is enough for all, all are filled; and the orders are
-- served by priority.
pub record ItmRules (side : Side) (target : ℕ) (p : Partition) (m : FillMap) (v : ℕ) : Type 0 where
  pub itm_sum : sum_by (filled m) p.itm_orders ≡ min target p.q_itm
  pub itm_left : v ≡ target - p.q_itm
  pub itm_bounded : All (λ o. filled m o ≤ o.qty) p.itm_orders
  pub itm_full : p.q_itm ≤ target → All (λ o. filled m o ≡ o.qty) p.itm_orders
  pub itm_served : AnyTwo (ServedFirst side) p.itm_orders (filled m)

-- The totals of the partition are those of its lists, and the ids in each list differ.
pub record IsTotalled (p : Partition) : Type 0 where
  pub itm_total : p.q_itm ≡ quantity p.itm_orders
  pub atm_total : p.q_atm ≡ quantity p.atm_orders
  pub itm_fits : p.q_itm < u64_mod
  pub atm_fits : p.q_atm < u64_mod
  pub itm_distinct : Distinct p.itm_orders
  pub atm_distinct : Distinct p.atm_orders

turns_rules :
    (side : Side) (target : ℕ) (p : Partition)
    → IsTotalled p
    → target ≤ p.q_itm
    → target < u64_mod
    → ItmRules side target p (put_all (turns target (sort (has_priority side) p.itm_orders)) []) 0
turns_rules side target p t le tw = record {
  itm_sum = omega (
    arith,
    settle_sum p.itm_orders es same t.itm_distinct,
    turns_sum target sorted tw,
    sum_by-sort (has_priority side) (λ o. o.qty) p.itm_orders,
    t.itm_total,
  );
  itm_left = omega arith;
  itm_bounded =
      settle_All (λ o f. f ≤ o.qty) p.itm_orders es same t.itm_distinct
        (turns_bounded target sorted);
  itm_full = λ ge.
      settle_All (λ o f. f ≡ o.qty) p.itm_orders es same t.itm_distinct
        (turns_full target sorted tw
          (omega (arith, sum_by-sort (has_priority side) (λ o. o.qty) p.itm_orders, t.itm_total)));
  itm_served =
      settle_pairs (ServedFirst side) p.itm_orders es same t.itm_distinct
        (turns_served side target sorted tw (sort-priority side p.itm_orders));
}
  where
    sorted : List Order
    sorted = sort (has_priority side) p.itm_orders

    es : List Entry
    es = turns target sorted

    same : Rearranges p.itm_orders (map order_of es)
    same =
        subst (Rearranges p.itm_orders) (sym (turns_orders target sorted))
          (sort-Rearranges (has_priority side) p.itm_orders)

pub full-Rearranges : (os : List Order) → Rearranges os (map order_of (full os))
full-Rearranges os =
    subst (Rearranges os) (sym (full_orders os))
      (record { sums = λ f. refl; alls = λ P h. h; distinct = λ d. d })

pub All-exact_le :
    (m : FillMap) (os : List Order)
    → All (λ o. filled m o ≡ o.qty) os
    → All (λ o. filled m o ≤ o.qty) os
All-exact_le m os h = All-map {P = λ o. filled m o ≡ o.qty} (λ o e. omega arith) os h

full_rules :
    (side : Side) (target : ℕ) (p : Partition)
    → IsTotalled p
    → p.q_itm < target
    → target < u64_mod
    → ItmRules side target p (put_all (full p.itm_orders) []) (sub64 target p.q_itm)
full_rules side target p t lt tw = record {
  itm_sum = omega (
    arith,
    settle_sum p.itm_orders (full p.itm_orders) (full-Rearranges p.itm_orders) t.itm_distinct,
    full_sum p.itm_orders,
    t.itm_total,
  );
  itm_left = omega (arith, sub64-eq target p.q_itm (omega arith) tw);
  itm_bounded = All-exact_le _ p.itm_orders all_full;
  itm_full = λ _. all_full;
  itm_served =
      All-map {P = λ o. filled (put_all (full p.itm_orders) []) o ≡ o.qty}
        (λ o e. All-of (λ o' _ _. e) p.itm_orders) p.itm_orders all_full;
}
  where
    all_full : All (λ o. filled (put_all (full p.itm_orders) []) o ≡ o.qty) p.itm_orders
    all_full =
        settle_All (λ o f. f ≡ o.qty) p.itm_orders (full p.itm_orders)
          (full-Rearranges p.itm_orders) t.itm_distinct (full_exact p.itm_orders)

pub allocate_itm_rules :
    (side : Side) (target : ℕ) (p : Partition)
    → IsTotalled p
    → target < u64_mod
    → ItmRules side target p (allocate_itm side target p).0 (allocate_itm side target p).1
unfolding allocate_itm
allocate_itm_rules side target p t tw = elim (Bool-cases (leb target p.q_itm)) [
  | inl e ↦
      rw (e, fill_in_turn-put_all target (sort (has_priority side) p.itm_orders) [])
        (turns_rules side target p t (ground arith) tw)
  | inr e ↦
      rw (e, fill_fully-put_all p.itm_orders []) (full_rules side target p t (ground arith) tw)
]
