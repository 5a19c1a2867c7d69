-- ===== src/Engine/Allocation/OneSide.antt =====
-- `allocate_side` as a whole: the partition is exact, and the fills of the side add up to the target.
use Prim.Native.Nat.{min}
use fair_cross.Prelude.{
  ℕ, ◌+◌, ◌-◌, ◌≤◌, ◌<◌, ◌≡◌, ◌⊎◌, Bool, true, false, ◌&&◌, List, [], ◌∷◌, if◌then◌else◌, keep,
  sum_by, sum_by-keep, sum_by-congr, sum_by-plus, All, All-of, All-of_keep, All-keep_of, All-zip,
  arith, inl, inr, subst,
}
use fair_cross.Domain.Error.{ok}
use fair_cross.Domain.Words.{Price, Qty, u64_mod}
use fair_cross.Domain.Order.{Order, Side, same_side}
use fair_cross.Domain.Qty.{checked_add_fits}
use fair_cross.Engine.Partition.{
  OrderMoneyness, in_the_money, at_the_money, out_of_the_money, classify_order,
}
use fair_cross.Engine.Allocation.{Partition, FillMap, partition_from, fill_of}
use fair_cross.Engine.Allocation.Fills.{filled}
use fair_cross.Engine.Allocation.Precedence.{AnyTwo, AnyTwo-agree, ServedFirst, RoundedFirst}
use fair_cross.Engine.Allocation.Shares.{IsRounded}
use fair_cross.Engine.Allocation.InTheMoney.{ItmRules}
use fair_cross.Engine.Allocation.AtTheMoney.{AtmRules}
use fair_cross.Engine.Auction.Totals.{total}

abbrev pub is_itm : OrderMoneyness → Bool
is_itm in_the_money = true
is_itm at_the_money = false
is_itm out_of_the_money = false

abbrev pub is_atm : OrderMoneyness → Bool
is_atm in_the_money = false
is_atm at_the_money = true
is_atm out_of_the_money = false

abbrev pub is_otm : OrderMoneyness → Bool
is_otm in_the_money = false
is_otm at_the_money = false
is_otm out_of_the_money = true

-- The orders of the side in one class.
abbrev pub in_class : (OrderMoneyness → Bool) → Price → Side → Order → Bool
in_class c cp side o = same_side o.side side && c (classify_order o cp)

abbrev pub itm_quantity : Price → Side → List Order → ℕ
itm_quantity cp side os = total (in_class is_itm cp side) os

abbrev pub atm_quantity : Price → Side → List Order → ℕ
atm_quantity cp side os = total (in_class is_atm cp side) os

-- The partition by its specification, from running totals.
abbrev pub partition_of : Price → Side → Qty → Qty → List Order → Partition
partition_of cp side q_itm q_atm os = record {
  itm_orders = keep (in_class is_itm cp side) os;
  atm_orders = keep (in_class is_atm cp side) os;
  otm_orders = keep (in_class is_otm cp side) os;
  q_itm = q_itm + itm_quantity cp side os;
  q_atm = q_atm + atm_quantity cp side os;
}

pub partition_from_exact :
    (cp : Price) (side : Side) (q_itm q_atm : Qty) (os : List Order)
    → q_itm + itm_quantity cp side os < u64_mod
    → q_atm + atm_quantity cp side os < u64_mod
    → partition_from cp side q_itm q_atm os ≡ ok (partition_of cp side q_itm q_atm os)
unfolding partition_from
partition_from_exact cp side q_itm q_atm [] h k = ground arith
partition_from_exact cp side q_itm q_atm (o ∷ os) h k = ground (
  arith,
  checked_add_fits q_itm o.qty,
  checked_add_fits q_atm o.qty,
  partition_from_exact cp side q_itm q_atm os,
  partition_from_exact cp side (q_itm + o.qty) q_atm os,
  partition_from_exact cp side q_itm (q_atm + o.qty) os,
)

-- The rules of the allocation of one side at a clearing price, for the fill of each order: the fills
-- add up to the target; no order gets more than its quantity; orders out of the money get nothing;
-- those in the money get all of the target that they can take, by price and then by time, so that one
-- with a fill has all that are before it filled whole; only the rest goes to those at the money; each
-- of these gets its exact share of that rest, rounded down or up, and the larger remainders are
-- rounded up first.
pub record SideRules (cp : Price) (side : Side) (target : ℕ) (os : List Order) (fill : Order → ℕ)
    : Type 0 where
  pub fills_total : sum_by (λ o. if same_side o.side side then fill o else 0) os ≡ target
  pub bounded : All (λ o. fill o ≤ o.qty) (keep (λ o. same_side o.side side) os)
  pub otm_none : All (λ o. fill o ≡ 0) (keep (in_class is_otm cp side) os)
  pub itm_total :
      sum_by fill (keep (in_class is_itm cp side) os) ≡ min target (itm_quantity cp side os)
  pub atm_shared :
      (atm_quantity cp side os ≡ 0)
      ⊎ All
          (λ o. IsRounded (target - itm_quantity cp side os) (atm_quantity cp side os) o (fill o))
          (keep (in_class is_atm cp side) os)
  pub itm_served : AnyTwo (ServedFirst side) (keep (in_class is_itm cp side) os) fill
  pub atm_first :
      AnyTwo
        (RoundedFirst (target - itm_quantity cp side os) (atm_quantity cp side os))
        (keep (in_class is_atm cp side) os)
        fill

fill_of_itm :
    (cp : Price) (mi ma : FillMap) (side : Side) (o : Order)
    → in_class is_itm cp side o ≡ true
    → fill_of cp mi ma o ≡ filled mi o
unfolding fill_of
fill_of_itm cp mi ma side o h = ground arith

fill_of_atm :
    (cp : Price) (mi ma : FillMap) (side : Side) (o : Order)
    → in_class is_atm cp side o ≡ true
    → fill_of cp mi ma o ≡ filled ma o
unfolding fill_of
fill_of_atm cp mi ma side o h = ground arith

fill_of_otm :
    (cp : Price) (mi ma : FillMap) (side : Side) (o : Order)
    → in_class is_otm cp side o ≡ true
    → fill_of cp mi ma o ≡ 0
unfolding fill_of
fill_of_otm cp mi ma side o h = ground arith

fill_of_split :
    (cp : Price) (mi ma : FillMap) (side : Side) (o : Order)
    → (if same_side o.side side then fill_of cp mi ma o else 0)
      ≡ (if in_class is_itm cp side o then filled mi o else 0)
        + (if in_class is_atm cp side o then filled ma o else 0)
unfolding fill_of
fill_of_split cp mi ma side o = ground arith

-- One of the classes holds of every order of the side.
fill_of_bounded :
    (cp : Price) (mi ma : FillMap) (side : Side) (o : Order)
    → (in_class is_itm cp side o ≡ true → filled mi o ≤ o.qty)
    → (in_class is_atm cp side o ≡ true → filled ma o ≤ o.qty)
    → same_side o.side side ≡ true
    → fill_of cp mi ma o ≤ o.qty
unfolding fill_of
fill_of_bounded cp mi ma side o h k s = ground arith

module _ (cp : Price) (side : Side) (target : ℕ) (os : List Order) (mi ma : FillMap)
    (ri : ItmRules side target (partition_of cp side 0 0 os) mi (target - itm_quantity cp side os))
    (ra : AtmRules (target - itm_quantity cp side os) (partition_of cp side 0 0 os) ma)
    (enough : target ≤ itm_quantity cp side os + atm_quantity cp side os) where
  rules_sum : sum_by (λ o. if same_side o.side side then fill_of cp mi ma o else 0) os ≡ target
  rules_sum = omega (
    arith,
    sum_by-congr _ _ os (All-of (fill_of_split cp mi ma side) os),
    sum_by-plus (λ o. if in_class is_itm cp side o then filled mi o else 0)
        (λ o. if in_class is_atm cp side o then filled ma o else 0) os,
    sum_by-keep (filled mi) (in_class is_itm cp side) os,
    sum_by-keep (filled ma) (in_class is_atm cp side) os,
    ri.itm_sum,
    ra.atm_sum,
  )

  pub side_rules : SideRules cp side target os (fill_of cp mi ma)
  side_rules = record {
    fills_total = rules_sum;
    bounded =
        All-keep_of
          {P = λ o.
            (in_class is_itm cp side o ≡ true → filled mi o ≤ o.qty)
            × (in_class is_atm cp side o ≡ true → filled ma o ≤ o.qty)}
          (λ o. same_side o.side side) (λ o h s. fill_of_bounded cp mi ma side o h.0 h.1 s) os
          (All-zip (λ o. in_class is_itm cp side o ≡ true → filled mi o ≤ o.qty)
            (λ o. in_class is_atm cp side o ≡ true → filled ma o ≤ o.qty) os
            (All-of_keep (λ o. filled mi o ≤ o.qty) (in_class is_itm cp side) os ri.itm_bounded)
            (All-of_keep (λ o. filled ma o ≤ o.qty) (in_class is_atm cp side) os ra.atm_bounded));
    otm_none =
        All-keep_of {P = λ o. Unit {0}} (in_class is_otm cp side)
          (λ o _ h. fill_of_otm cp mi ma side o h) os (All-of (λ o. tt) os);
    itm_total = omega (
      arith,
      sum_by-congr (fill_of cp mi ma) (filled mi) (keep (in_class is_itm cp side) os) (
          All-keep_of {P = λ o. Unit {0}} (in_class is_itm cp side)
            (λ o _ h. fill_of_itm cp mi ma side o h) os (All-of (λ o. tt) os)),
      ri.itm_sum,
    );
    atm_shared = elim ra.atm_rounded [
      | inl z ↦ inl (omega arith)
      | inr r ↦ inr (
          All-keep_of
            {P = λ o.
              in_class is_atm cp side o ≡ true
              → IsRounded (target - itm_quantity cp side os) (0 + atm_quantity cp side os) o
                  (filled ma o)}
            (in_class is_atm cp side)
            (λ o f h.
              let q = f h in
              rw (fill_of_atm cp mi ma side o h) (q.0, omega (arith, q), omega (arith, q)))
            os
            (All-of_keep
              (λ o.
                IsRounded (target - itm_quantity cp side os) (0 + atm_quantity cp side os) o
                  (filled ma o))
              (in_class is_atm cp side) os r))
    ];
    itm_served =
        AnyTwo-agree (ServedFirst side) (keep (in_class is_itm cp side) os) (filled mi)
          (fill_of cp mi ma)
          (All-keep_of {P = λ o. Unit {0}} (in_class is_itm cp side)
            (λ o _ h. fill_of_itm cp mi ma side o h) os (All-of (λ o. tt) os))
          ri.itm_served;
    atm_first =
        AnyTwo-agree (RoundedFirst (target - itm_quantity cp side os) (atm_quantity cp side os))
          (keep (in_class is_atm cp side) os) (filled ma) (fill_of cp mi ma)
          (All-keep_of {P = λ o. Unit {0}} (in_class is_atm cp side)
            (λ o _ h. fill_of_atm cp mi ma side o h) os (All-of (λ o. tt) os))
          (let whole : 0 + atm_quantity cp side os ≡ atm_quantity cp side os = omega arith in
            subst
              (λ t.
                AnyTwo (RoundedFirst (target - itm_quantity cp side os) t)
                  (keep (in_class is_atm cp side) os) (filled ma))
              whole ra.atm_first);
  }
