-- ===== src/Proof/Constraints/CompleteInput.antt =====
-- cpp/src/proof/constraints/merkle_inclusion.cpp and complete_input_accounting.cpp: every committed order
-- is in the tree, and its record has the disposition that the allocation implies.
use Prim.Native.String.{◌++◌ as concat}
use fair_cross.Prelude.{
  ℕ, zero, suc, ◌+◌, ◌-◌, ◌*◌, ◌^◌, ltb, ◌==◌, if◌then◌else◌, List, [], ◌∷◌, Option, none, some,
  length, get_or, String,
}
use fair_cross.Domain.Error.{Result, ok, err, ◌>>=◌, ◌>>◌, guard, failed_with, error_message}
use fair_cross.Domain.Words.{OrderId}
use fair_cross.Domain.Order.{SaltedOrderPreimage}
use fair_cross.Engine.Batch.{Batch}
use fair_cross.Engine.Allocation.{OrderAllocation, BatchAllocation}
use fair_cross.Engine.Accounting.{
  OrderDisposition, OrderAccountingRecord, CompleteInputAccounting, fully_executed,
  partially_executed, unfilled, same_disposition, verify_complete_input_accounting,
}
use fair_cross.Commitments.Sha256.{Commitment}
use fair_cross.Commitments.Merkle.{MerkleProof, MerkleTree, root, generate_proof, verify, climbed}
use fair_cross.Commitments.Payloads.{commit_order}
use fair_cross.Proof.R1cs.{
  Variable, LinearCombination, Synthesis, one, from_var, from_constant, add_term, next_var,
  next_public, push_witnesses, push_public, require_equal,
}

-- The first eight bytes, the lowest first.
abbrev pub low_word : Commitment → ℕ
low_word c =
    get_or c 0 0
    + get_or c 1 0 * 2 ^ 8
    + get_or c 2 0 * 2 ^ 16
    + get_or c 3 0 * 2 ^ 24
    + get_or c 4 0 * 2 ^ 32
    + get_or c 5 0 * 2 ^ 40
    + get_or c 6 0 * 2 ^ 48
    + get_or c 7 0 * 2 ^ 56

-- An error under a heading of the caller's.
abbrev pub headed {ℓ} : {A : Type ℓ} → String → Result A → Result A
headed heading (ok a) = ok a
headed heading (err e) = err (failed_with (concat heading (error_message e)))

unfoldable pub alloc_of : OrderId → List OrderAllocation → Option OrderAllocation
alloc_of id [] = none
alloc_of id (a ∷ allocations) = if a.order_id == id then some a else alloc_of id allocations

-- The disposition of an allocation, as this file reads it.
unfoldable pub expected_disposition : OrderAllocation → OrderDisposition
expected_disposition a =
    if a.allocated_qty == 0
    then unfilled
    else if a.allocated_qty == a.original_qty
    then fully_executed a.allocated_qty
    else partially_executed a.allocated_qty
        (if ltb a.allocated_qty a.original_qty then a.original_qty - a.allocated_qty else 0)

abbrev found_alloc : Option OrderAllocation → Result OrderAllocation
found_alloc none = err (failed_with "InvalidWitness: order not found in allocation")
found_alloc (some a) = ok a

-- `preimages[idx]`; nothing where there is none.
abbrev pub leaf_at : List SaltedOrderPreimage → ℕ → Commitment
leaf_at [] idx = []
leaf_at (p ∷ preimages) zero = commit_order p
leaf_at (p ∷ preimages) (suc idx) = leaf_at preimages idx

module _ (to_string : ℕ → String) where
  unfoldable pub synthesize_merkle_inclusion_constraint_with_root_var :
      Variable → Commitment → Commitment → MerkleProof → Synthesis → Result Synthesis
  unfolding push_witnesses
  synthesize_merkle_inclusion_constraint_with_root_var root_pub_var expected_root leaf proof s = do
    guard (verify proof expected_root leaf)
        (failed_with (concat "MerkleProofInvalid: leaf_index " (to_string proof.leaf_index)))
    let current = climbed proof.path leaf
    ok (
        require_equal (from_var (next_var s 0)) (from_var root_pub_var)
          (concat "merkle_inclusion_root_leaf_" (to_string proof.leaf_index))
          (push_witnesses (low_word current ∷ []) s))

  abbrev proof_of : Option MerkleProof → ℕ → Result MerkleProof
  proof_of none idx = err (failed_with (concat "MerkleProofInvalid: leaf_index " (to_string idx)))
  proof_of (some proof) idx = ok proof

  -- One round of the loop over the records.
  unfoldable pub constrain_record :
      List SaltedOrderPreimage
      → MerkleTree
      → BatchAllocation
      → Variable
      → ℕ
      → OrderAccountingRecord
      → Synthesis
      → Result Synthesis
  unfolding push_witnesses alloc_of synthesize_merkle_inclusion_constraint_with_root_var
      expected_disposition
  constrain_record preimages merkle_tree allocation root_pub_var idx r s = do
    let s1 =
        require_equal (from_var (next_var s 0)) (from_constant idx)
          (concat "record_" (concat (to_string idx) "_sequential_index"))
          (push_witnesses (r.leaf_index ∷ []) s)
    proof ← proof_of (generate_proof merkle_tree idx) idx
    s2 ←
        synthesize_merkle_inclusion_constraint_with_root_var root_pub_var (root merkle_tree)
          (leaf_at preimages idx) proof s1
    alloc ← found_alloc (alloc_of r.order_id allocation.allocations)
    guard (same_disposition r.disposition (expected_disposition alloc))
        (failed_with (concat "record_" (concat (to_string idx) "_disposition_match")))
    ok s2

  -- The loop, with the combination that counts the records.
  unfoldable pub constrain_records :
      List SaltedOrderPreimage
      → MerkleTree
      → BatchAllocation
      → Variable
      → ℕ
      → List OrderAccountingRecord
      → LinearCombination
      → Synthesis
      → Result (LinearCombination × Synthesis)
  unfolding constrain_record
  constrain_records preimages merkle_tree allocation root_pub_var idx [] count s = ok (count, s)
  constrain_records preimages merkle_tree allocation root_pub_var idx (r ∷ records) count s = do
    s ← constrain_record preimages merkle_tree allocation root_pub_var idx r s
    constrain_records preimages merkle_tree allocation root_pub_var (suc idx) records
        (add_term count one 1) s

  unfoldable pub synthesize_complete_input_accounting_constraints :
      Batch
      → List SaltedOrderPreimage
      → MerkleTree
      → CompleteInputAccounting
      → BatchAllocation
      → Synthesis
      → Result Synthesis
  unfolding push_public constrain_records
  synthesize_complete_input_accounting_constraints batch preimages merkle_tree accounting allocation
        s =
      do
        headed "complete_input_accounting_invariant: "
            (verify_complete_input_accounting batch merkle_tree accounting allocation)
        guard (length batch.orders == length accounting.records) (
            failed_with (
              concat "accounting_cardinality: expected batch_size == " (
                concat (to_string (length batch.orders))
                  (concat ", got " (to_string (length accounting.records))))))
        let batch_len_var = next_public s 0
        let root_pub_var = next_public s 1
        (count, s1) ←
            constrain_records preimages merkle_tree allocation root_pub_var 0 accounting.records []
              (push_public (push_public s))
        ok (require_equal count (from_var batch_len_var) "total_accounting_cardinality_equality" s1)
