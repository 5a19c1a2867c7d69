-- ===== src/Engine/Auction.antt =====
-- cpp/include/faircross/engine/auction.hpp and cpp/src/engine/auction.cpp: demand, supply and the
-- uniform clearing price.
pub mod Totals
pub mod Candidates
pub mod Bucketing
pub mod Running
pub mod Reference
pub mod Optimal
pub mod Clearing
use fair_cross.Prelude.{
  ℕ, zero, suc, ◌+◌, ◌-◌, ◌/◌, Bool, true, false, ◌&&◌, not, ltb, leb, ◌==◌, if◌then◌else◌, List,
  [], ◌∷◌, map, Option, none, some, get_elem?, get_or, set, replicate, length, keep, head_or,
  last_or, sort,
}
use fair_cross.Domain.Error.{Result, ok, err, ◌>>=◌, converted}
use fair_cross.Domain.Words.{Price, Qty, add64, sub64}
use fair_cross.Domain.Order.{Order, Side, buy, is_buy, is_sell}
use fair_cross.Domain.Qty
use fair_cross.Domain.Price
use fair_cross.Engine.Batch.{Batch}

pub record CandidateEvaluation : Type 0 where
  pub price : Price
  pub demand : Qty
  pub supply : Qty
  pub executable_volume : Qty

pub record VolumeMaximizers : Type 0 where
  pub max_volume : Qty
  pub evaluations : List CandidateEvaluation
  pub maximizing_prices : List Price

pub record ClearingOutcome : Type 0 where
  pub clearing_price : Option Price
  pub executable_volume : Qty

-- The loop of `demand_from_orders` and of `supply_from_orders`, over the orders that pass a test.
unfoldable pub total_from : (Order → Bool) → Qty → List Order → Result Qty
total_from counts total [] = ok total
total_from counts total (order ∷ orders) =
    let skipped = total_from counts total orders in
    let added = (do total ← Qty.checked_add total order.qty; total_from counts total orders) in
    if counts order then added else skipped

abbrev pub bids_at : Price → Order → Bool
bids_at price order = is_buy order.side && leb price order.price

abbrev pub offers_at : Price → Order → Bool
offers_at price order = is_sell order.side && leb order.price price

unfoldable pub demand_from_orders : List Order → Price → Result Qty
unfolding total_from
demand_from_orders orders price = total_from (bids_at price) 0 orders

unfoldable pub supply_from_orders : List Order → Price → Result Qty
unfolding total_from
supply_from_orders orders price = total_from (offers_at price) 0 orders

-- `std::unique` and `erase`: of equal neighbours the first is kept.
unfoldable pub unique_from : Price → List Price → List Price
unique_from p [] = []
unique_from p (q ∷ qs) = if p == q then unique_from p qs else q ∷ unique_from q qs

unfoldable pub unique : List Price → List Price
unfolding unique_from
unique [] = []
unique (p ∷ ps) = p ∷ unique_from p ps

unfoldable pub candidate_prices_from_orders : List Order → List Price
unfolding unique
candidate_prices_from_orders orders = unique (sort ltb (map (λ o. o.price) orders))

-- `std::lower_bound`: the index of the first candidate that is not below the price.
unfoldable pub lower_bound : List Price → Price → ℕ
lower_bound [] p = 0
lower_bound (c ∷ cs) p = if ltb c p then suc (lower_bound cs p) else 0

-- `buy_qty_at_price` and `sell_qty_at_price`.
pub record Buckets : Type 0 where
  pub buys : List Qty
  pub sells : List Qty

-- The write to a bucket of the order's side.
unfoldable pub add_to_bucket : ℕ → Order → Buckets → Result Buckets
add_to_bucket idx order b =
    let on_buys = (do
      q ← converted (Qty.checked_add (get_or b.buys idx 0) order.qty)
      ok (record b { buys = set b.buys idx q })) in
    let on_sells = (do
      q ← converted (Qty.checked_add (get_or b.sells idx 0) order.qty)
      ok (record b { sells = set b.sells idx q })) in
    if is_buy order.side then on_buys else on_sells

-- `it != candidates.end() && *it == order.price`.
unfoldable pub found_at : List Price → ℕ → Price → Bool
found_at cands idx p = elim (get_elem? cands idx) [ none ↦ false | some c ↦ c == p ]

-- One round of the loop over the orders.
unfoldable pub bucket_order : List Price → Order → Buckets → Result Buckets
unfolding add_to_bucket found_at lower_bound
bucket_order cands order b =
    let idx = lower_bound cands order.price in
    if found_at cands idx order.price then add_to_bucket idx order b else ok b

unfoldable pub bucket_orders : List Price → List Order → Buckets → Result Buckets
bucket_orders cands [] b = ok b
bucket_orders cands (order ∷ orders) b = do
  b ← bucket_order cands order b
  bucket_orders cands orders b

-- The upward loop: `supply_at_cand[k]` is the running sum up to `k`.
unfoldable pub running_up : Qty → List Qty → Result (List Qty)
running_up running [] = ok []
running_up running (q ∷ qs) = do
  running ← converted (Qty.checked_add running q)
  sums ← running_up running qs
  ok (running ∷ sums)

-- The downward loop, from the last candidate to the first: the running sum and the vector.
unfoldable pub running_down : List Qty → Result (Qty × List Qty)
running_down [] = ok (0, [])
running_down (q ∷ qs) = do
  (running, sums) ← running_down qs
  running' ← converted (Qty.checked_add running q)
  ok (running', running' ∷ sums)

-- The loop that evaluates the candidates.
unfoldable pub evaluate : List Price → List Qty → List Qty → List CandidateEvaluation
evaluate (p ∷ ps) (d ∷ ds) (s ∷ ss) =
    record { price = p; demand = d; supply = s; executable_volume = if ltb d s then d else s }
    ∷ evaluate ps ds ss
evaluate _ _ _ = []

-- The running maximum of the same loop.
unfoldable pub max_from : Qty → List CandidateEvaluation → Qty
max_from m [] = m
max_from m (e ∷ es) = max_from (if ltb m e.executable_volume then e.executable_volume else m) es

unfoldable pub maximizers_of : List CandidateEvaluation → VolumeMaximizers
unfolding max_from
maximizers_of evaluations =
    let max_volume = max_from 0 evaluations in
    record {
      max_volume = max_volume;
      evaluations = evaluations;
      maximizing_prices =
          map (λ e. e.price) (keep (λ e. e.executable_volume == max_volume) evaluations);
    }

unfoldable pub compute_volume_maximizers_from_orders : List Order → Result VolumeMaximizers
unfolding bucket_orders running_up running_down evaluate maximizers_of
compute_volume_maximizers_from_orders orders =
    let cands = candidate_prices_from_orders orders in
    let n = length cands in
    let evaluated = (do
      b ← bucket_orders cands orders (record { buys = replicate n 0; sells = replicate n 0 })
      supply_at_cand ← running_up 0 b.sells
      (running_demand, demand_at_cand) ← running_down b.buys
      ok (maximizers_of (evaluate cands demand_at_cand supply_at_cand))) in
    if n == 0
    then ok (record { max_volume = 0; evaluations = []; maximizing_prices = [] })
    else evaluated

-- `Price::create(mid)`, its failure read as no price.
abbrev pub ok_price : Result Price → Option Price
ok_price (ok p) = some p
ok_price (err e) = none

unfoldable pub midpoint : Price → Price → Price
midpoint p_min p_max = add64 p_min (sub64 p_max p_min / 2)

unfoldable pub resolve_clearing_price_tie : VolumeMaximizers → Option Price
unfolding midpoint
resolve_clearing_price_tie m = elim m.maximizing_prices [
  | [] ↦ none
  | p ∷ ps ↦
      if Qty.is_zero m.max_volume then none else ok_price (Price.create (midpoint p (last_or ps p)))
]

unfoldable pub determine_clearing_outcome : Batch → Result ClearingOutcome
unfolding compute_volume_maximizers_from_orders resolve_clearing_price_tie
determine_clearing_outcome batch = do
  maximizers ← converted (compute_volume_maximizers_from_orders batch.orders)
  ok (record {
    clearing_price = resolve_clearing_price_tie maximizers;
    executable_volume = maximizers.max_volume;
  })
