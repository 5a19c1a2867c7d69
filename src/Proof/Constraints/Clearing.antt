-- ===== src/Proof/Constraints/Clearing.antt =====
-- cpp/src/proof/constraints/clearing_optimality.cpp and allocation.cpp: no candidate price clears more than
-- the published volume, and the allocation is the canonical one.
use Prim.Native.Nat.{min}
use Prim.Native.String.{◌++◌ as concat}
use fair_cross.Prelude.{
  ℕ, ◌-◌, Bool, true, false, ltb, ◌==◌, if◌then◌else◌, List, [], ◌∷◌, Option, none, some, length,
  String,
}
use fair_cross.Domain.Error.{Result, ok, err, ◌>>=◌, ◌>>◌, guard, or_fail, failed_with}
use fair_cross.Domain.Words.{Price, Qty}
use fair_cross.Domain.Order.{Order, is_buy}
use fair_cross.Engine.Batch.{Batch}
use fair_cross.Engine.Auction.{
  determine_clearing_outcome, candidate_prices_from_orders, demand_from_orders, supply_from_orders,
}
use fair_cross.Engine.Partition.{
  OrderMoneyness, in_the_money, at_the_money, out_of_the_money, classify_order,
}
use fair_cross.Engine.Allocation.{OrderAllocation, BatchAllocation, allocate_batch}
use fair_cross.Engine.Fills.Origins.{find_order}
use fair_cross.Engine.Checker.{is_same, BatchAllocation-discrete}
use fair_cross.Proof.R1cs.{
  Variable, LinearCombination, Synthesis, from_var, from_constant, add_term, minus_one,
  wrapping_mul, next_var, next_public, push_witnesses, push_public, require, require_equal,
}

pub record ProofComplexityMetrics : Type 0 where
  pub num_constraints : ℕ
  pub num_public_variables : ℕ
  pub num_witness_variables : ℕ
  pub num_candidate_prices : ℕ

-- `==` of optional prices.
abbrev pub same_price : Option Price → Option Price → Bool
same_price none none = true
same_price none (some q) = false
same_price (some p) none = false
same_price (some p) (some q) = p == q

abbrev raw_price : Option Price → ℕ
raw_price none = 0
raw_price (some p) = p

module _ (to_string : ℕ → String) where
  -- One round of the loop over the candidate prices.
  unfoldable pub constrain_candidate : Batch → Qty → Variable → Price → Synthesis → Result Synthesis
  unfolding push_witnesses wrapping_mul
  constrain_candidate batch vol_raw vol_pub_var price s = do
    d ←
        or_fail (demand_from_orders batch.orders price)
          (failed_with "InvalidWitness: arithmetic overflow computing demand")
    t ←
        or_fail (supply_from_orders batch.orders price)
          (failed_with "InvalidWitness: arithmetic overflow computing supply")
    let v = min d t
    let s1 = push_witnesses (d ∷ t ∷ v ∷ (if ltb v vol_raw then vol_raw - v else 0) ∷ []) s
    let s2 =
        require_equal (add_term (from_var vol_pub_var) (next_var s 2) minus_one)
          (from_var (next_var s 3)) (concat "optimality_slack_at_price_" (to_string price)) s1
    ok (
        require (from_var (next_var s 0)) (from_var (next_var s 1))
          (from_constant (wrapping_mul d t)) (concat "supply_demand_bound_" (to_string price)) s2)

  unfoldable pub constrain_candidates :
      Batch → Qty → Variable → List Price → Synthesis → Result Synthesis
  unfolding constrain_candidate
  constrain_candidates batch vol_raw vol_pub_var [] s = ok s
  constrain_candidates batch vol_raw vol_pub_var (price ∷ prices) s = do
    s ← constrain_candidate batch vol_raw vol_pub_var price s
    constrain_candidates batch vol_raw vol_pub_var prices s

  unfoldable pub synthesize_clearing_optimality_constraints :
      Batch → Option Price → Qty → Synthesis → Result (ProofComplexityMetrics × Synthesis)
  unfolding push_public push_witnesses constrain_candidates
  synthesize_clearing_optimality_constraints batch clearing_price cleared_volume s = do
    honest ←
        or_fail (determine_clearing_outcome batch)
          (failed_with "InvalidWitness: engine failed to determine clearing outcome")
    guard (same_price clearing_price honest.clearing_price)
        (failed_with "clearing_price_optimality_and_tie_break")
    guard (cleared_volume == honest.executable_volume) (failed_with "cleared_volume_maximality")
    let cp_pub_var = next_public s 0
    let vol_pub_var = next_public s 1
    let prices = candidate_prices_from_orders batch.orders
    s1 ← constrain_candidates batch cleared_volume vol_pub_var prices (push_public (push_public s))
    let s2 = push_witnesses (raw_price clearing_price ∷ cleared_volume ∷ []) s1
    let s3 =
        require_equal (from_var (next_var s1 0)) (from_var cp_pub_var) "clearing_price_equality" s2
    let s4 =
        require_equal (from_var (next_var s1 1)) (from_var vol_pub_var) "cleared_volume_equality" s3
    ok (
      record {
        num_constraints = length s4.system.constraints;
        num_public_variables = s4.system.num_public;
        num_witness_variables = s4.system.num_witness;
        num_candidate_prices = length prices;
      },
      s4,
    )

  abbrev batch_order : Option Order → Result Order
  batch_order none = err (failed_with "InvalidWitness: order not in batch")
  batch_order (some order) = ok order

  -- The bound or the zero of one fill, by the class of its order, after its two scalars.
  unfoldable pub constrain_class :
      Order → Qty → Variable → Variable → OrderMoneyness → Synthesis → Synthesis
  unfolding push_witnesses
  constrain_class order alloc_qty alloc_var order_var out_of_the_money s =
      require_equal (from_var alloc_var) []
        (concat "otm_order_" (concat (to_string order.id) "_zero_fill")) s
  constrain_class order alloc_qty alloc_var order_var in_the_money s =
      let rem_val = (if ltb alloc_qty order.qty then order.qty - alloc_qty else 0) in
      require_equal (add_term (from_var order_var) alloc_var minus_one) (from_var (next_var s 0))
        (concat "order_" (concat (to_string order.id) "_fill_bound"))
        (push_witnesses (rem_val ∷ []) s)
  constrain_class order alloc_qty alloc_var order_var at_the_money s =
      let rem_val = (if ltb alloc_qty order.qty then order.qty - alloc_qty else 0) in
      require_equal (add_term (from_var order_var) alloc_var minus_one) (from_var (next_var s 0))
        (concat "order_" (concat (to_string order.id) "_fill_bound"))
        (push_witnesses (rem_val ∷ []) s)

  -- The loop over the allocations, with the combinations of the two totals.
  unfoldable pub constrain_allocations :
      Batch
      → Price
      → List OrderAllocation
      → LinearCombination × LinearCombination
      → Synthesis
      → Result ((LinearCombination × LinearCombination) × Synthesis)
  unfolding push_witnesses constrain_class
  constrain_allocations batch clearing_price [] totals s = ok (totals, s)
  constrain_allocations batch clearing_price (a ∷ allocations) (buys, sells) s = do
    order ← batch_order (find_order a.order_id batch.orders)
    let s1 = push_witnesses (a.allocated_qty ∷ order.qty ∷ []) s
    let totals =
        (if is_buy order.side
          then (add_term buys (next_var s 0) 1, sells)
          else (buys, add_term sells (next_var s 0) 1))
    constrain_allocations batch clearing_price allocations totals (
        constrain_class order a.allocated_qty (next_var s 0) (next_var s 1)
          (classify_order order clearing_price) s1)

  unfoldable pub synthesize_allocation_constraints :
      Batch → Price → Qty → BatchAllocation → Synthesis → Result Synthesis
  unfolding push_public constrain_allocations
  synthesize_allocation_constraints batch clearing_price cleared_volume allocation s = do
    honest ←
        or_fail (allocate_batch batch (some clearing_price) cleared_volume)
          (failed_with "InvalidWitness: engine failed to allocate batch")
    guard (is_same BatchAllocation-discrete allocation honest)
        (failed_with "deterministic_allocation_rule_match")
    let vol_pub_var = next_public s 0
    ((buys, sells), s1) ←
        constrain_allocations batch clearing_price allocation.allocations ([], []) (push_public s)
    let s2 = require_equal buys (from_var vol_pub_var) "total_buy_allocation_conservation" s1
    ok (require_equal sells (from_var vol_pub_var) "total_sell_allocation_conservation" s2)
