-- ===== src/Engine/Accounting.antt =====
-- cpp/include/faircross/engine/accounting.hpp and cpp/src/engine/accounting.cpp: the account of what
-- became of every committed order.
pub mod Sound
use native.Mathlib.Decide.{ℕ_discrete}
use fair_cross.Prelude.{
  ℕ, zero, suc, ◌+◌, ◌-◌, Bool, true, false, not, ◌&&◌, ◌||◌, ltb, ◌==◌, if◌then◌else◌, List, [],
  ◌∷◌, map, Option, none, some, length,
}
use fair_cross.Prelude.OrdMap.{OrdMap, lookup, insert}
use fair_cross.Domain.Error.{Result, Ok, ok_value, ok, err, ◌>>=◌, ◌>>◌, guard, failed_with, Error}
use fair_cross.Domain.Words.{OrderId, Qty}
use fair_cross.Domain.Order.{Order, SaltedOrderPreimage}
use fair_cross.Engine.Batch.{Batch}
use fair_cross.Engine.Allocation.{OrderAllocation, BatchAllocation}
use fair_cross.Engine.Checker.{order_map, is_same}
use fair_cross.Commitments.Sha256.{Commitment}
use fair_cross.Commitments.Merkle.{MerkleProof, MerkleTree, new_tree, root, generate_proof, verify}
use fair_cross.Commitments.Payloads.{commit_order}

pub data DispositionKind : Type 0 where
  fully_executed_kind partially_executed_kind unfilled_kind cancelled_kind expired_kind :
      DispositionKind

pub record OrderDisposition : Type 0 where
  pub kind : DispositionKind
  pub fill_qty : Qty
  pub unfilled_qty : Qty

unfoldable pub DispositionKind-discrete : Discrete DispositionKind
DispositionKind-discrete = hlevel ℕ_discrete

unfoldable pub OrderDisposition-discrete : Discrete OrderDisposition
OrderDisposition-discrete = hlevel (ℕ_discrete, DispositionKind-discrete)

abbrev pub fully_executed : Qty → OrderDisposition
fully_executed fill_qty = record {
  kind = fully_executed_kind;
  fill_qty = fill_qty;
  unfilled_qty = 0;
}

abbrev pub partially_executed : Qty → Qty → OrderDisposition
partially_executed fill_qty rem = record {
  kind = partially_executed_kind;
  fill_qty = fill_qty;
  unfilled_qty = rem;
}

abbrev pub unfilled : OrderDisposition
unfilled = record { kind = unfilled_kind; fill_qty = 0; unfilled_qty = 0 }

pub record OrderAccountingRecord : Type 0 where
  pub leaf_index : ℕ
  pub order_id : OrderId
  pub commitment : Commitment
  pub disposition : OrderDisposition

pub record CompleteInputAccounting : Type 0 where
  pub records : List OrderAccountingRecord
  pub total_committed : ℕ
  pub total_fully_executed : ℕ
  pub total_partially_executed : ℕ
  pub total_unfilled : ℕ
  pub total_cancelled : ℕ
  pub total_expired : ℕ

-- `alloc_map`, and what it gives an order.
unfoldable pub alloc_map : List OrderAllocation → OrdMap Qty → OrdMap Qty
alloc_map [] m = m
alloc_map (a ∷ allocations) m = alloc_map allocations (insert a.order_id a.allocated_qty m)

abbrev pub found_qty : Option Qty → Qty
found_qty none = 0
found_qty (some q) = q

abbrev pub allocated_to : OrderId → BatchAllocation → Qty
allocated_to id allocation = found_qty (lookup id (alloc_map allocation.allocations []))

-- What becomes of an order of which a quantity is allocated, in the code that builds the account and,
-- once more, in the code that checks it.
unfoldable pub disposition_of : Qty → Qty → OrderDisposition
disposition_of qty allocated =
    if allocated == qty
    then fully_executed allocated
    else if not (allocated == 0) && ltb allocated qty
    then partially_executed allocated (qty - allocated)
    else unfilled

unfoldable pub records_from :
    ℕ → List SaltedOrderPreimage → BatchAllocation → List OrderAccountingRecord
unfolding alloc_map disposition_of
records_from idx [] allocation = []
records_from idx (p ∷ preimages) allocation =
    record {
      leaf_index = idx;
      order_id = p.order.id;
      commitment = commit_order p;
      disposition = disposition_of p.order.qty (allocated_to p.order.id allocation);
    }
    ∷ records_from (suc idx) preimages allocation

-- The counters of the loop, each increased where a disposition of its kind is set.
unfoldable pub count_kind : DispositionKind → List OrderAccountingRecord → ℕ
count_kind kind [] = 0
count_kind kind (r ∷ records) =
    if is_same DispositionKind-discrete r.disposition.kind kind
    then suc (count_kind kind records)
    else count_kind kind records

unfoldable pub build_complete_input_accounting :
    Batch → List SaltedOrderPreimage → BatchAllocation → MerkleTree × CompleteInputAccounting
unfolding records_from count_kind
build_complete_input_accounting batch preimages allocation =
    let records = records_from 0 preimages allocation in
    (
      new_tree (map commit_order preimages),
      record {
        records = records;
        total_committed = length preimages;
        total_fully_executed = count_kind fully_executed_kind records;
        total_partially_executed = count_kind partially_executed_kind records;
        total_unfilled = count_kind unfilled_kind records;
        total_cancelled = 0;
        total_expired = 0;
      },
    )

-- `std::set::insert`, which fails on an element that is there.
abbrev pub Seen : Type 0
Seen = OrdMap (Unit {0})

abbrev pub is_free : Option (Unit {0}) → Bool
is_free none = true
is_free (some u) = false

unfoldable pub insert_new : ℕ → Seen → Error → Result Seen
insert_new k seen e = guard (is_free (lookup k seen)) e >> ok (insert k tt seen)

abbrev pub found_proof : Option MerkleProof → Result MerkleProof
found_proof none = err (failed_with "OmittedLeaf")
found_proof (some proof) = ok proof

abbrev pub found_order : Option Order → Result Order
found_order none = err (failed_with "DispositionMismatch: order not in batch")
found_order (some order) = ok order

-- `==` of dispositions.
abbrev pub same_disposition : OrderDisposition → OrderDisposition → Bool
same_disposition d e = is_same OrderDisposition-discrete d e

-- One round of the loop over the records.
unfoldable pub check_record :
    MerkleTree
    → OrdMap Order
    → BatchAllocation
    → OrderAccountingRecord
    → Seen × Seen
    → Result (Seen × Seen)
unfolding insert_new
check_record merkle_tree orders allocation r (seen_indices, seen_order_ids) = do
  seen_indices ← insert_new r.leaf_index seen_indices (failed_with "DuplicateLeaf")
  seen_order_ids ← insert_new r.order_id seen_order_ids (failed_with "DuplicateOrderId")
  proof ← found_proof (generate_proof merkle_tree r.leaf_index)
  guard (verify proof (root merkle_tree) r.commitment) (failed_with "MerkleInclusionFailed")
  order ← found_order (lookup r.order_id orders)
  guard
      (same_disposition r.disposition
        (disposition_of order.qty (allocated_to r.order_id allocation)))
      (failed_with "DispositionMismatch")
  ok (seen_indices, seen_order_ids)

unfoldable pub check_records :
    MerkleTree
    → OrdMap Order
    → BatchAllocation
    → List OrderAccountingRecord
    → Seen × Seen
    → Result (Seen × Seen)
unfolding check_record
check_records merkle_tree orders allocation [] seen = ok seen
check_records merkle_tree orders allocation (r ∷ records) seen = do
  seen ← check_record merkle_tree orders allocation r seen
  check_records merkle_tree orders allocation records seen

-- The last loop: the indices from `idx` on, `n` of them, were seen.
unfoldable pub check_seen : ℕ → ℕ → Seen → Result Ok
check_seen zero idx seen = ok ok_value
check_seen (suc n) idx seen =
    guard (not (is_free (lookup idx seen))) (failed_with "OmittedLeaf")
    >> check_seen n (suc idx) seen

unfoldable pub verify_complete_input_accounting :
    Batch → MerkleTree → CompleteInputAccounting → BatchAllocation → Result Ok
unfolding check_records check_seen
verify_complete_input_accounting batch merkle_tree accounting allocation = do
  let n = length batch.orders
  guard (length merkle_tree.leaves == n) (failed_with "MerkleLeafCountMismatch")
  guard (length accounting.records == n && accounting.total_committed == n)
      (failed_with "TotalCountMismatch")
  (seen_indices, seen_order_ids) ←
      check_records merkle_tree (order_map batch.orders []) allocation accounting.records ([], [])
  check_seen n 0 seen_indices
