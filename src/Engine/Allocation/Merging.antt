-- ===== src/Engine/Allocation/Merging.antt =====
-- The machine sums of `allocate_batch`, and its last loop, which takes each order's allocation from
-- the map of its side.
use fair_cross.Prelude.{
  ℕ, ◌+◌, ◌<◌, ◌≡◌, ◌≢◌, ◌∙◌, refl, sym, subst, List, [], ◌∷◌, map, none, some, if◌then◌else◌, keep,
  sum_by, sum_by-map, sum_by-keep, All, All-map, All-zip, arith,
}
use fair_cross.Prelude.OrdMap.{OrdMap, lookup, insert, erase, lookup-insert, lookup-erase_ne}
use fair_cross.Domain.Words.{u64_mod, add64-eq}
use fair_cross.Domain.Order.{Order, Side, buy, sell, is_buy, same_side}
use fair_cross.Engine.Auction.Totals.{HasSide}
use fair_cross.Engine.Allocation.{
  OrderAllocation, allocation_of, collect, allocated_from, by_order, merge_allocations,
}
use fair_cross.Engine.Allocation.InTheMoney.{Distinct}

-- The machine sum of the allocations of a side is the exact one.
pub allocated_from-exact :
    (acc : ℕ) (as' : List OrderAllocation)
    → acc + sum_by (λ a. a.allocated_qty) as' < u64_mod
    → allocated_from acc as' ≡ acc + sum_by (λ a. a.allocated_qty) as'
unfolding allocated_from
allocated_from-exact acc [] h = omega arith
allocated_from-exact acc (a ∷ as') h =
    let step = add64-eq acc a.allocated_qty (omega arith) in
    rw step (omega (arith, allocated_from-exact (acc + a.allocated_qty) as' (omega arith)))

pub collect-sum :
    (side : Side) (fill : Order → ℕ) (os : List Order)
    → sum_by (λ (a : OrderAllocation). a.allocated_qty) (collect side fill os)
      ≡ sum_by (λ o. if same_side o.side side then fill o else 0) os
unfolding collect
collect-sum side fill os =
    sum_by-map (λ (a : OrderAllocation). a.allocated_qty) (λ o. allocation_of o (fill o))
      (keep (λ o. same_side o.side side) os)
    ∙ sum_by-keep fill (λ o. same_side o.side side) os

-- The fill of an order by its side.
abbrev pub either_fill : (Order → ℕ) → (Order → ℕ) → Order → ℕ
either_fill buy_fill sell_fill o = if is_buy o.side then buy_fill o else sell_fill o

-- A map from ids that agrees with the allocations of the orders of one side.
abbrev pub Agrees : Side → (Order → ℕ) → List Order → OrdMap OrderAllocation → Type 0
Agrees side fill os m =
    All
      (λ o.
        lookup o.id m ≡ (if same_side o.side side then some (allocation_of o (fill o)) else none))
      os

lookup-by_order_ne :
    (k : ℕ) (side : Side) (fill : Order → ℕ) (os : List Order) (m : OrdMap OrderAllocation)
    → All (λ o. o.id ≢ k) os
    → lookup k (by_order (collect side fill os) m) ≡ lookup k m
unfolding by_order collect
lookup-by_order_ne k side fill [] m h = refl
lookup-by_order_ne k side fill (o ∷ os) m h = ground (
  arith,
  lookup-by_order_ne k side fill os m h.1,
  lookup-by_order_ne k side fill os (insert o.id (allocation_of o (fill o)) m) h.1,
  lookup-insert k o.id (allocation_of o (fill o)) m,
)

by_order-collect :
    (side : Side) (fill : Order → ℕ) (o : Order) (os : List Order) (m : OrdMap OrderAllocation)
    → by_order (collect side fill (o ∷ os)) m
      ≡ by_order
          (collect side fill os)
          (if same_side o.side side then insert o.id (allocation_of o (fill o)) m else m)
unfolding by_order collect
by_order-collect side fill o os m = ground arith

pub by_order-Agrees :
    (side : Side) (fill : Order → ℕ) (os : List Order) (m : OrdMap OrderAllocation)
    → Distinct os
    → All (λ o. lookup o.id m ≡ none) os
    → Agrees side fill os (by_order (collect side fill os) m)
by_order-Agrees side fill [] m d h = tt
by_order-Agrees side fill (o ∷ os) m d h =
    subst (Agrees side fill (o ∷ os)) (sym (by_order-collect side fill o os m)) (
      ground (
        arith,
        lookup-by_order_ne o.id side fill os m' d.0,
        lookup-insert o.id o.id (allocation_of o (fill o)) m,
        h.0,
      ),
      by_order-Agrees side fill os m' d.1 (
          All-map {P = λ r. (r.id ≢ o.id) × (lookup r.id m ≡ none)}
            (λ r q. ground (arith, lookup-insert r.id o.id (allocation_of o (fill o)) m)) os
            (All-zip (λ r. r.id ≢ o.id) (λ r. lookup r.id m ≡ none) os d.0 h.1)),
    )
  where
    m' : OrdMap OrderAllocation
    m' = if same_side o.side side then insert o.id (allocation_of o (fill o)) m else m

Agrees-erase :
    (k : ℕ) (side : Side) (fill : Order → ℕ) (os : List Order) (m : OrdMap OrderAllocation)
    → All (λ o. o.id ≢ k) os
    → Agrees side fill os m
    → Agrees side fill os (erase k m)
Agrees-erase k side fill [] m n h = tt
Agrees-erase k side fill (o ∷ os) m n h =
    (lookup-erase_ne o.id k m n.0 ∙ h.0, Agrees-erase k side fill os m n.1 h.1)

pub merge_exact :
    (f g : Order → ℕ) (os : List Order) (bm sm : OrdMap OrderAllocation)
    → Distinct os
    → All HasSide os
    → Agrees buy f os bm
    → Agrees sell g os sm
    → merge_allocations os bm sm ≡ map (λ o. allocation_of o (either_fill f g o)) os
unfolding merge_allocations
merge_exact f g [] bm sm d s hb hs = refl
merge_exact f g (o ∷ os) bm sm d s hb hs = ground (
  arith,
  s.0,
  hb.0,
  hs.0,
  merge_exact f g os (erase o.id bm) sm d.1 s.1 (Agrees-erase o.id buy f os bm d.0 hb.1) hs.1,
  merge_exact f g os bm (erase o.id sm) d.1 s.1 hb.1 (Agrees-erase o.id sell g os sm d.0 hs.1),
)
