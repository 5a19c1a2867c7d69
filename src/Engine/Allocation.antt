-- ===== src/Engine/Allocation.antt =====
-- cpp/include/faircross/engine/allocation.hpp and cpp/src/engine/allocation.cpp: price-time priority
-- in the money, largest remainders at the money, and the allocation of a whole batch.
pub mod Fills
pub mod Shares
pub mod Precedence
pub mod InTheMoney
pub mod AtTheMoney
pub mod OneSide
pub mod Merging
pub mod Whole
use Prim.Native.Nat.{min}
use fair_cross.Prelude.{
  ℕ, ◌+◌, ◌-◌, ◌/◌, ◌%◌, Bool, true, false, ◌&&◌, not, ltb, leb, ◌==◌, if◌then◌else◌, List, [], ◌∷◌,
  map, Option, none, some, sort, keep,
}
use fair_cross.Prelude.OrdMap.{OrdMap, lookup, insert, erase}
use fair_cross.Domain.Error.{Result, ok, err, ◌>>=◌, converted}
use fair_cross.Domain.Words.{OrderId, AccountId, Price, Qty, add64, sub64, mul128, to_u64}
use fair_cross.Domain.Order.{Order, Side, buy, sell, is_buy, same_side}
use fair_cross.Domain.Qty
use fair_cross.Engine.Batch.{Batch}
use fair_cross.Engine.Partition.{
  OrderMoneyness, in_the_money, at_the_money, out_of_the_money, classify_order,
}

pub record OrderAllocation : Type 0 where
  pub order_id : OrderId
  pub account : AccountId
  pub side : Side
  pub limit_price : Price
  pub original_qty : Qty
  pub allocated_qty : Qty
  pub seq : ℕ

pub record BatchAllocation : Type 0 where
  pub clearing_price : Option Price
  pub target_volume : Qty
  pub total_buy_allocated : Qty
  pub total_sell_allocated : Qty
  pub allocations : List OrderAllocation

-- The allocation of an order, with the quantity that it gets.
abbrev pub allocation_of : Order → Qty → OrderAllocation
allocation_of o fill = record {
  order_id = o.id;
  account = o.account;
  side = o.side;
  limit_price = o.price;
  original_qty = o.qty;
  allocated_qty = fill;
  seq = o.seq;
}

abbrev pub FillMap : Type 0
FillMap = OrdMap ℕ

-- The orders of the side by class, and the two totals.
pub record Partition : Type 0 where
  pub itm_orders : List Order
  pub atm_orders : List Order
  pub otm_orders : List Order
  pub q_itm : Qty
  pub q_atm : Qty

-- The first loop of `allocate_side`, from the running totals.
unfoldable pub partition_from : Price → Side → Qty → Qty → List Order → Result Partition
partition_from cp side q_itm q_atm [] =
    ok (record { itm_orders = []; atm_orders = []; otm_orders = []; q_itm = q_itm; q_atm = q_atm })
partition_from cp side q_itm q_atm (order ∷ orders) =
    let skipped = partition_from cp side q_itm q_atm orders in
    let in_money = (do
      q ← converted (Qty.checked_add q_itm order.qty)
      r ← partition_from cp side q q_atm orders
      ok (record r { itm_orders = order ∷ r.itm_orders })) in
    let at_money = (do
      q ← converted (Qty.checked_add q_atm order.qty)
      r ← partition_from cp side q_itm q orders
      ok (record r { atm_orders = order ∷ r.atm_orders })) in
    let out_of_money = (do
      r ← partition_from cp side q_itm q_atm orders
      ok (record r { otm_orders = order ∷ r.otm_orders })) in
    if not (same_side order.side side) then skipped else elim (classify_order order cp) [
      | in_the_money ↦ in_money
      | at_the_money ↦ at_money
      | out_of_the_money ↦ out_of_money
    ]

-- The comparator of the in-the-money orders: by price, then by sequence number.
unfoldable pub has_priority : Side → Order → Order → Bool
has_priority side a b =
    if same_side side buy
    then if not (a.price == b.price) then ltb b.price a.price else ltb a.seq b.seq
    else if not (a.price == b.price)
    then ltb a.price b.price
    else ltb a.seq b.seq

-- The loop that fills the sorted orders while the target lasts.
unfoldable pub fill_in_turn : ℕ → List Order → FillMap → FillMap
fill_in_turn rem_target [] m = m
fill_in_turn rem_target (o ∷ os) m =
    let fill = min o.qty rem_target in fill_in_turn (sub64 rem_target fill) os (insert o.id fill m)

-- The loops that give each order all of its quantity.
unfoldable pub fill_fully : List Order → FillMap → FillMap
fill_fully [] m = m
fill_fully (o ∷ os) m = fill_fully os (insert o.id o.qty m)

-- `itm_fill_map` and `v_rem`.
unfoldable pub allocate_itm : Side → Qty → Partition → FillMap × ℕ
unfolding fill_in_turn fill_fully has_priority
allocate_itm side target_volume p =
    if leb target_volume p.q_itm
    then (fill_in_turn target_volume (sort (has_priority side) p.itm_orders) [], 0)
    else (fill_fully p.itm_orders [], sub64 target_volume p.q_itm)

pub record AtTheMoneyCandidate : Type 0 where
  pub order : Order
  pub base_fill : ℕ
  pub remainder : ℕ

-- The share of an order in the remaining volume, rounded down, and what the rounding left.
unfoldable pub candidate : ℕ → ℕ → Order → AtTheMoneyCandidate
candidate v_rem total_atm o =
    let num = mul128 o.qty v_rem in
    record { order = o; base_fill = to_u64 (num / total_atm); remainder = to_u64 (num % total_atm) }

-- The running `base_sum` of the same loop.
unfoldable pub base_sum_from : ℕ → List AtTheMoneyCandidate → ℕ
base_sum_from sum [] = sum
base_sum_from sum (c ∷ cs) = base_sum_from (add64 sum c.base_fill) cs

-- The comparator of the candidates: the larger remainder, then sequence number, then id.
unfoldable pub larger_remainder : AtTheMoneyCandidate → AtTheMoneyCandidate → Bool
larger_remainder a b =
    if not (a.remainder == b.remainder)
    then ltb b.remainder a.remainder
    else if not (a.order.seq == b.order.seq)
    then ltb a.order.seq b.order.seq
    else ltb a.order.id b.order.id

-- The loop that hands one extra lot to each candidate while the surplus lasts.
unfoldable pub hand_out : ℕ → List AtTheMoneyCandidate → FillMap → FillMap
hand_out surplus [] m = m
hand_out surplus (c ∷ cs) m =
    let extra = (if ltb 0 surplus then 1 else 0) in
    let total_fill = min (add64 c.base_fill extra) c.order.qty in
    hand_out (if ltb 0 surplus then surplus - 1 else surplus) cs (insert c.order.id total_fill m)

unfoldable pub pro_rata : ℕ → Partition → FillMap
unfolding candidate base_sum_from larger_remainder hand_out
pro_rata v_rem p =
    let candidates = map (candidate v_rem p.q_atm) p.atm_orders in
    let surplus = sub64 v_rem (base_sum_from 0 candidates) in
    hand_out surplus (sort larger_remainder candidates) []

abbrev pub is_nil {ℓ} : {A : Type ℓ} → List A → Bool
is_nil [] = true
is_nil (x ∷ xs) = false

-- `atm_fill_map`.
unfoldable pub allocate_atm : ℕ → Partition → FillMap
unfolding fill_fully pro_rata
allocate_atm v_rem p =
    if ltb 0 v_rem && not (is_nil p.atm_orders)
    then if leb p.q_atm v_rem then fill_fully p.atm_orders [] else pro_rata v_rem p
    else []

abbrev pub fill_or_zero : Option ℕ → ℕ
fill_or_zero none = 0
fill_or_zero (some fill) = fill

-- The fill of one order in the last loop.
unfoldable pub fill_of : Price → FillMap → FillMap → Order → ℕ
fill_of cp itm_fill_map atm_fill_map order = elim (classify_order order cp) [
  | in_the_money ↦ fill_or_zero (lookup order.id itm_fill_map)
  | at_the_money ↦ fill_or_zero (lookup order.id atm_fill_map)
  | out_of_the_money ↦ 0
]

-- A loop that allocates each order of the side by a fill.
unfoldable pub collect : Side → (Order → ℕ) → List Order → List OrderAllocation
collect side fill orders =
    map (λ o. allocation_of o (fill o)) (keep (λ o. same_side o.side side) orders)

unfoldable pub allocate_side : List Order → Price → Qty → Side → Result (List OrderAllocation)
unfolding partition_from allocate_itm allocate_atm fill_of collect
allocate_side orders clearing_price target_volume target_side =
    let filled = (do
      p ← partition_from clearing_price target_side 0 0 orders
      let (itm_fill_map, v_rem) = allocate_itm target_side target_volume p
      let atm_fill_map = allocate_atm v_rem p
      ok (collect target_side (fill_of clearing_price itm_fill_map atm_fill_map) orders)) in
    if Qty.is_zero target_volume then ok (collect target_side (λ o. 0) orders) else filled

-- The unchecked sums of `allocate_batch`.
unfoldable pub allocated_from : ℕ → List OrderAllocation → ℕ
allocated_from sum [] = sum
allocated_from sum (a ∷ as') = allocated_from (add64 sum a.allocated_qty) as'

-- `buy_map` and `sell_map`.
unfoldable pub by_order : List OrderAllocation → OrdMap OrderAllocation → OrdMap OrderAllocation
by_order [] m = m
by_order (a ∷ as') m = by_order as' (insert a.order_id a m)

-- The last loop: the allocations in the order of the batch, each taken from its map.
unfoldable pub merge_allocations :
    List Order → OrdMap OrderAllocation → OrdMap OrderAllocation → List OrderAllocation
merge_allocations [] buy_map sell_map = []
merge_allocations (o ∷ os) buy_map sell_map = elim (lookup o.id buy_map) [
  | some a ↦ a ∷ merge_allocations os (erase o.id buy_map) sell_map
  | none ↦ elim (lookup o.id sell_map) [
    | some a ↦ a ∷ merge_allocations os buy_map (erase o.id sell_map)
    | none ↦ merge_allocations os buy_map sell_map
  ]
]

unfoldable pub allocate_at : Batch → Price → Qty → Result BatchAllocation
unfolding allocate_side allocated_from by_order merge_allocations
allocate_at batch cp target_volume = do
  buy_allocs ← converted (allocate_side batch.orders cp target_volume buy)
  sell_allocs ← converted (allocate_side batch.orders cp target_volume sell)
  ok (record {
    clearing_price = some cp;
    target_volume = target_volume;
    total_buy_allocated = allocated_from 0 buy_allocs;
    total_sell_allocated = allocated_from 0 sell_allocs;
    allocations = merge_allocations batch.orders (by_order buy_allocs []) (by_order sell_allocs []);
  })

abbrev pub nothing_allocated : Batch → BatchAllocation
nothing_allocated batch = record {
  clearing_price = none;
  target_volume = 0;
  total_buy_allocated = 0;
  total_sell_allocated = 0;
  allocations = map (λ o. allocation_of o 0) batch.orders;
}

unfoldable pub allocate_batch : Batch → Option Price → Qty → Result BatchAllocation
unfolding allocate_at
allocate_batch batch clearing_price target_volume = elim clearing_price [
  | none ↦ ok (nothing_allocated batch)
  | some cp ↦
      if Qty.is_zero target_volume
      then ok (nothing_allocated batch)
      else allocate_at batch cp target_volume
]
