-- ===== src/Engine/Allocation/Whole.antt =====
-- `allocate_side` and `allocate_batch`: success, the rules of each side, and one allocation for each
-- order of the batch.
use fair_cross.Prelude.{
  ℕ, ◌+◌, ◌-◌, ◌≤◌, ◌<◌, ◌≡◌, ◌∙◌, refl, sym, subst, List, [], ◌∷◌, map, none, some, sum_by-keep,
  sum_by-congr, sum_by-plus, All, All-of, DistinctBy-keep, arith,
}
use fair_cross.Prelude.OrdMap.{lookup}
use fair_cross.Domain.Error.{ok}
use fair_cross.Domain.Words.{Price, Qty, u64_mod}
use fair_cross.Domain.Order.{Order, Side, buy, sell}
use fair_cross.Domain.Qty.{is_zero}
use fair_cross.Engine.Batch.{Batch}
use fair_cross.Engine.Partition.{classify_order}
use fair_cross.Engine.Auction.{bids_at, offers_at}
use fair_cross.Engine.Auction.Totals.{
  weight, demand, supply, HasSide, Fits, demand-le-buying, supply-le-not_buying,
}
use fair_cross.Engine.Allocation.{
  Partition, FillMap, OrderAllocation, BatchAllocation, allocation_of, allocate_itm, allocate_atm,
  fill_of, collect, allocate_side, allocated_from, by_order, allocate_batch,
}
use fair_cross.Engine.Allocation.InTheMoney.{Distinct, IsTotalled, ItmRules, allocate_itm_rules}
use fair_cross.Engine.Allocation.AtTheMoney.{AtmRules, allocate_atm_rules}
use fair_cross.Engine.Allocation.OneSide.{
  is_itm, is_atm, in_class, itm_quantity, atm_quantity, partition_of, partition_from_exact,
  SideRules, side_rules,
}
use fair_cross.Engine.Allocation.Merging.{
  allocated_from-exact, collect-sum, either_fill, by_order-Agrees, merge_exact,
}

module _ (cp : Price) (side : Side) (os : List Order) (d : Distinct os)
    (itm : itm_quantity cp side os < u64_mod) (atm : atm_quantity cp side os < u64_mod) where
  totalled : IsTotalled (partition_of cp side 0 0 os)
  totalled = record {
    itm_total = omega (arith, sum_by-keep (λ o. o.qty) (in_class is_itm cp side) os);
    atm_total = omega (arith, sum_by-keep (λ o. o.qty) (in_class is_atm cp side) os);
    itm_fits = omega arith;
    atm_fits = omega arith;
    itm_distinct = DistinctBy-keep (λ o. o.id) (in_class is_itm cp side) os d;
    atm_distinct = DistinctBy-keep (λ o. o.id) (in_class is_atm cp side) os d;
  }

  pub allocate_side_rules :
      (target : ℕ)
      → 0 < target
      → target < u64_mod
      → target ≤ itm_quantity cp side os + atm_quantity cp side os
      → (fill : Order → ℕ) × (allocate_side os cp target side ≡ ok (collect side fill os))
        × SideRules cp side target os fill
  unfolding allocate_side is_zero
  allocate_side_rules target pos tw enough = (
    fill_of cp itm_map atm_map,
    ground (arith, partition_from_exact cp side 0 0 os),
    side_rules cp side target os itm_map atm_map
        (subst (λ v. ItmRules side target p itm_map v) left itm_rules)
        (subst (λ v. AtmRules v p atm_map) left
          (allocate_atm_rules v_rem p totalled (omega (arith, left))))
        enough,
  )
    where
      p : Partition
      p = partition_of cp side 0 0 os

      itm_map : FillMap
      itm_map = (allocate_itm side target p).0

      v_rem : ℕ
      v_rem = (allocate_itm side target p).1

      atm_map : FillMap
      atm_map = allocate_atm v_rem p

      itm_rules : ItmRules side target p itm_map v_rem
      itm_rules = allocate_itm_rules side target p totalled tw

      left : v_rem ≡ target - itm_quantity cp side os
      left = omega (arith, itm_rules.itm_left)

-- The buy orders in and at the money are those that demand at the price, and the sell orders those
-- that supply at it.
eligible_buy :
    (cp : Price) (o : Order)
    → weight (in_class is_itm cp buy) o + weight (in_class is_atm cp buy) o ≡ weight (bids_at cp) o
unfolding classify_order
eligible_buy cp o = ground arith

eligible_sell :
    (cp : Price) (o : Order)
    → weight (in_class is_itm cp sell) o + weight (in_class is_atm cp sell) o
      ≡ weight (offers_at cp) o
unfolding classify_order
eligible_sell cp o = ground arith

pub eligible_buys :
    (os : List Order) (cp : Price) → itm_quantity cp buy os + atm_quantity cp buy os ≡ demand os cp
eligible_buys os cp =
    sym (sum_by-plus (weight (in_class is_itm cp buy)) (weight (in_class is_atm cp buy)) os)
    ∙ sum_by-congr _ _ os (All-of (eligible_buy cp) os)

pub eligible_sells :
    (os : List Order) (cp : Price)
    → itm_quantity cp sell os + atm_quantity cp sell os ≡ supply os cp
eligible_sells os cp =
    sym (sum_by-plus (weight (in_class is_itm cp sell)) (weight (in_class is_atm cp sell)) os)
    ∙ sum_by-congr _ _ os (All-of (eligible_sell cp) os)

-- The allocation of a batch at a price and a volume by the fills of its sides: one allocation for
-- each order, in the order of the batch.
abbrev pub batch_allocation : Price → Qty → (Order → ℕ) → (Order → ℕ) → List Order → BatchAllocation
batch_allocation cp v buy_fill sell_fill os = record {
  clearing_price = some cp;
  target_volume = v;
  total_buy_allocated = v;
  total_sell_allocated = v;
  allocations = map (λ o. allocation_of o (either_fill buy_fill sell_fill o)) os;
}

no_entries : (os : List Order) → All (λ o. lookup {V = OrderAllocation} o.id [] ≡ none) os
unfolding lookup
no_entries [] = tt
no_entries (o ∷ os) = (refl, no_entries os)

allocated_total :
    (cp : Price) (side : Side) (v : ℕ) (os : List Order) (fill : Order → ℕ)
    → v < u64_mod
    → SideRules cp side v os fill
    → allocated_from 0 (collect side fill os) ≡ v
allocated_total cp side v os fill vw r =
    let exact = collect-sum side fill os ∙ r.fills_total in
    omega (arith, allocated_from-exact 0 (collect side fill os) (omega (arith, exact)), exact)

pub allocate_batch_rules :
    (b : Batch) (cp : Price) (v : ℕ)
    → Distinct b.orders
    → All HasSide b.orders
    → Fits b.orders
    → 0 < v
    → v ≤ demand b.orders cp
    → v ≤ supply b.orders cp
    → (buy_fill : Order → ℕ) × (sell_fill : Order → ℕ) × (allocate_batch b (some cp) v
        ≡ ok (batch_allocation cp v buy_fill sell_fill b.orders))
      × SideRules cp buy v b.orders buy_fill
      × SideRules cp sell v b.orders sell_fill
unfolding allocate_batch is_zero
allocate_batch_rules b cp v d sides fits pos vd vs =
    let buys = eligible_buys b.orders cp in
    let sells = eligible_sells b.orders cp in
    let most = demand-le-buying b.orders cp in
    let most' = supply-le-not_buying b.orders cp in
    let (f, ef, rf) =
      allocate_side_rules cp buy b.orders d (omega (arith, buys, most, fits))
        (omega (arith, buys, most, fits)) v pos (omega (arith, most, fits)) (omega (arith, buys)) in
    let (g, eg, rg) =
      allocate_side_rules cp sell b.orders d (omega (arith, sells, most', fits))
        (omega (arith, sells, most', fits)) v pos (omega (arith, most, fits))
        (omega (arith, sells)) in
    let vw : v < u64_mod = omega (arith, most, fits) in
    (
      f,
      g,
      ground (
        arith,
        ef,
        eg,
        allocated_total cp buy v b.orders f vw rf,
        allocated_total cp sell v b.orders g vw rg,
        merge_exact f g b.orders (by_order (collect buy f b.orders) [])
            (by_order (collect sell g b.orders) []) d sides
            (by_order-Agrees buy f b.orders [] d (no_entries b.orders))
            (by_order-Agrees sell g b.orders [] d (no_entries b.orders)),
      ),
      rf,
      rg,
    )
