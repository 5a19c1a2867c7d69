-- ===== src/Tests/Accounting.antt =====
-- The account of two crossing orders, of which one is filled in part, and the theorem on it.
use fair_cross.Prelude.{◌≡◌, List, [], ◌∷◌, map, length, replicate, some, All, DistinctBy}
use fair_cross.Prelude.OrdMap.{lookup, insert}
use fair_cross.Domain.Error.{IsOk}
use fair_cross.Domain.Order.{SaltedOrderPreimage, buy, sell}
use fair_cross.Engine.Batch.{Batch}
use fair_cross.Engine.Allocation.{BatchAllocation, allocation_of}
use fair_cross.Engine.Checker.{order_map}
use fair_cross.Commitments.Sha256.{Commitment}
use fair_cross.Commitments.Merkle.{new_tree, root, generate_proof, verify}
use fair_cross.Commitments.Payloads.{commit_order}
use fair_cross.Engine.Accounting.{
  CompleteInputAccounting, fully_executed, partially_executed, build_complete_input_accounting,
  verify_complete_input_accounting,
}
use fair_cross.Engine.Accounting.Sound.{IsAccounted, verify_complete_input_accounting_sound}
use fair_cross.Tests.{limit_order}

abbrev pair_batch : Batch
pair_batch = record {
  batch_id = 1;
  instrument = 7;
  orders = limit_order 1 1 buy 102 10 ∷ limit_order 2 2 sell 98 6 ∷ [];
}

abbrev pair_preimages : List SaltedOrderPreimage
pair_preimages = map (λ o. record { order = o; nonce = replicate 32 9 }) pair_batch.orders

abbrev pair_allocation : BatchAllocation
pair_allocation = record {
  clearing_price = some 100;
  target_volume = 6;
  total_buy_allocated = 6;
  total_sell_allocated = 6;
  allocations =
      allocation_of (limit_order 1 1 buy 102 10) 6
      ∷ allocation_of (limit_order 2 2 sell 98 6) 6
      ∷ [];
}

abbrev pair_leaves : List Commitment
pair_leaves = map commit_order pair_preimages

abbrev pair_accounting : CompleteInputAccounting
pair_accounting = (build_complete_input_accounting pair_batch pair_preimages pair_allocation).1

pair_accepted : IsOk (
    verify_complete_input_accounting pair_batch
      (new_tree pair_leaves)
      pair_accounting
      pair_allocation)
unfolding verify_complete_input_accounting build_complete_input_accounting commit_order new_tree
    generate_proof verify root lookup insert order_map fair_cross.Commitments.Sha256.transform
    fair_cross.Commitments.Sha256.commit_raw_bytes fair_cross.Commitments.Sha256.combine_nodes
    fair_cross.Domain.Encoding.canonical_encode_order
    fair_cross.Engine.Accounting.OrderDisposition-discrete
    fair_cross.Engine.Accounting.DispositionKind-discrete native.Mathlib.Decide.ℕ_discrete
pair_accepted = tt

verify_complete_input_accounting_sound_example :
    (length pair_accounting.records ≡ length pair_batch.orders)
    × (pair_accounting.total_committed ≡ length pair_batch.orders)
    × (length (new_tree pair_leaves).leaves ≡ length pair_batch.orders)
    × DistinctBy (λ r. r.leaf_index) pair_accounting.records
    × DistinctBy (λ r. r.order_id) pair_accounting.records
    × All
        (IsAccounted pair_leaves (order_map pair_batch.orders []) pair_allocation)
        pair_accounting.records
verify_complete_input_accounting_sound_example =
    verify_complete_input_accounting_sound pair_batch pair_leaves pair_accounting pair_allocation
      pair_accepted
