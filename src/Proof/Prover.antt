-- ===== src/Proof/Prover.antt =====
-- cpp/src/proof/prover.cpp: the proof of one batch. Parameters stand for the standard library: `to_string`
-- in the text of errors and labels, and `decimal` for the digits that a stream writes.
pub mod Bound
pub mod Sound
pub mod Counted
pub mod Accepted
use native.Mathlib.Decide.{ℕ_discrete}
use Prim.Native.String.{◌++◌ as concat}
use fair_cross.Prelude.{
  ℕ, zero, suc, ◌+◌, ◌-◌, ◌%◌, Bool, true, false, not, ◌&&◌, ◌||◌, ltb, leb, ◌==◌, if◌then◌else◌,
  List, [], ◌∷◌, ◌++◌, take, drop, Option, none, some, length, String,
}
use fair_cross.Prelude.OrdMap.{OrdMap, lookup, insert}
use fair_cross.Domain.Error.{
  Result, Ok, ok_value, ok, err, ◌>>=◌, ◌>>◌, guard, converted, failed_with,
}
use fair_cross.Domain.Words.{Price}
use fair_cross.Domain.Order.{Order, SaltedOrderPreimage}
use fair_cross.Domain.Oracle.{ReferencePriceSnapshot, ReferencePricePolicy}
use fair_cross.Engine.Batch.{Batch}
use fair_cross.Engine.Checker.{is_same, Side-discrete, verify_transition}
use fair_cross.Engine.Accounting.{
  OrderAccountingRecord, CompleteInputAccounting, verify_complete_input_accounting,
}
use fair_cross.Commitments.Sha256.{Commitment}
use fair_cross.Commitments.Merkle.{MerkleTree, new_tree, root, same_bytes}
use fair_cross.Commitments.Payloads.{
  BatchHeader, commit_order, compute_batch_commitment, compute_oracle_snapshot_commitment,
}
use fair_cross.Commitments.LedgerRoot.{compute_ledger_root}
use fair_cross.Proof.R1cs.{ConstraintSystem, Synthesis, new_system, is_satisfied}
use fair_cross.Proof.Statement.{BatchProofPublicInputs, BatchProofWitness, BatchProof}
use fair_cross.Proof.Constraints.OrderValidity.{synthesize_order_validity_constraints}
use fair_cross.Proof.Constraints.CompleteInput.{
  headed, low_word, synthesize_complete_input_accounting_constraints,
}
use fair_cross.Proof.Constraints.Clearing.{
  synthesize_clearing_optimality_constraints, synthesize_allocation_constraints,
}
use fair_cross.Proof.Constraints.FillBounds.{synthesize_fill_bounds_constraints}
use fair_cross.Proof.Constraints.Conservation.{synthesize_conservation_constraints}
use fair_cross.Proof.Constraints.Oracle.{synthesize_oracle_freshness_constraints}

unfoldable pub Order-discrete : Discrete Order
Order-discrete = hlevel (ℕ_discrete, Side-discrete)

-- The leaves, each of a preimage of the order at its place.
unfoldable pub bind_leaves : List SaltedOrderPreimage → List Order → Result (List Commitment)
bind_leaves [] orders = ok []
bind_leaves (p ∷ preimages) [] = ok []
bind_leaves (p ∷ preimages) (o ∷ orders) = do
  guard (is_same Order-discrete p.order o)
      (failed_with "InputBindingFailed: preimage order does not match batch leaf")
  leaves ← bind_leaves preimages orders
  ok (commit_order p ∷ leaves)

abbrev pub is_there : Option OrderAccountingRecord → Bool
is_there none = false
is_there (some r) = true

-- The records by their leaf index: `canonical_records`, with the places that are `present`.
unfoldable pub place_records :
    ℕ
    → List OrderAccountingRecord
    → OrdMap OrderAccountingRecord
    → Result (OrdMap OrderAccountingRecord)
place_records batch_len [] placed = ok placed
place_records batch_len (r ∷ records) placed = do
  guard (not (leb batch_len r.leaf_index || is_there (lookup r.leaf_index placed)))
      (failed_with "InputBindingFailed: invalid accounting leaf index")
  place_records batch_len records (insert r.leaf_index r placed)

abbrev pub placed_record : Option OrderAccountingRecord → Result OrderAccountingRecord
placed_record none = err (failed_with "InputBindingFailed: omitted accounting leaf")
placed_record (some r) = ok r

-- The records in the order of the leaves, each against the order and the leaf at its place.
unfoldable pub canonical_from :
    ℕ
    → List Order
    → List Commitment
    → OrdMap OrderAccountingRecord
    → Result (List OrderAccountingRecord)
canonical_from idx [] leaves placed = ok []
canonical_from idx (o ∷ orders) [] placed = ok []
canonical_from idx (o ∷ orders) (leaf ∷ leaves) placed = do
  r ← placed_record (lookup idx placed)
  guard (r.order_id == o.id)
      (failed_with "InputBindingFailed: accounting order does not match batch leaf")
  guard (same_bytes r.commitment leaf)
      (failed_with "InputBindingFailed: accounting commitment does not match preimage")
  records ← canonical_from (suc idx) orders leaves placed
  ok (r ∷ records)

abbrev pub header_of : BatchProofWitness → MerkleTree → BatchHeader
header_of witness merkle_tree = record {
  semantic_version = 1;
  batch_id = witness.batch.batch_id;
  instrument_id = witness.batch.instrument;
  cutoff_timestamp = witness.batch_cutoff_nanos;
  order_count = length witness.batch.orders % 4294967296;
  orders_merkle_root = root merkle_tree;
}

-- The input binding: the tree of the preimages, and the account in canonical order.
unfoldable pub bind_inputs :
    BatchProofPublicInputs → BatchProofWitness → Result (MerkleTree × CompleteInputAccounting)
unfolding bind_leaves place_records canonical_from
bind_inputs public_inputs witness = do
  let batch_len = length witness.batch.orders
  guard (length witness.preimages == batch_len)
      (failed_with "InputBindingFailed: preimage count does not match batch length")
  guard (not (ltb 4294967295 batch_len))
      (failed_with "InputBindingFailed: batch length exceeds uint32 order count")
  leaves ← bind_leaves witness.preimages witness.batch.orders
  let merkle_tree = new_tree leaves
  guard
      (same_bytes (compute_batch_commitment (header_of witness merkle_tree))
        public_inputs.batch_header_hash)
      (failed_with "PublicInputMismatch: batch_header_hash")
  guard (length witness.accounting.records == batch_len)
      (failed_with "InputBindingFailed: accounting count does not match batch length")
  placed ← place_records batch_len witness.accounting.records []
  records ← canonical_from 0 witness.batch.orders leaves placed
  ok (merkle_tree, record witness.accounting { records = records })

abbrev pub published_price : ℕ → Option Price
published_price n = if ltb 0 n then some n else none

-- What is run only where the book crossed.
abbrev pub where_priced :
    Option Price → (Price → Synthesis → Result Synthesis) → Synthesis → Result Synthesis
where_priced none f s = ok s
where_priced (some price) f s = f price s

abbrev pub where_policed :
    Option ReferencePriceSnapshot
    → Option ReferencePricePolicy
    → (ReferencePricePolicy → Synthesis → Result Synthesis)
    → Synthesis
    → Result Synthesis
where_policed none policy f s = ok s
where_policed (some snapshot) none f s = ok s
where_policed (some snapshot) (some policy) f s = f policy s

-- A subrelation starts with scalars of its own, in the common system.
abbrev pub fresh : Synthesis → Synthesis
fresh s = record s { scalars = [] }

abbrev pub certificate_prefix : List ℕ
certificate_prefix =
    b'F' ∷ b'C' ∷ b'-' ∷ b'R' ∷ b'1' ∷ b'C' ∷ b'S' ∷ b'-' ∷ b'V' ∷ b'1' ∷ b':' ∷ b'c' ∷ b'o' ∷ b'n'
    ∷ b's' ∷ b't' ∷ b'r' ∷ b'a' ∷ b'i' ∷ b'n' ∷ b't' ∷ b's' ∷ b'=' ∷ []

abbrev pub certificate_suffix : List ℕ
certificate_suffix =
    b':' ∷ b'p' ∷ b'u' ∷ b'b' ∷ b'l' ∷ b'i' ∷ b'c' ∷ b'_' ∷ b'i' ∷ b'n' ∷ b'p' ∷ b'u' ∷ b't' ∷ b's'
    ∷ b'_' ∷ b'l' ∷ b'e' ∷ b'n' ∷ b'=' ∷ b'5' ∷ b':' ∷ b's' ∷ b't' ∷ b'a' ∷ b't' ∷ b'u' ∷ b's'
    ∷ b'=' ∷ b'S' ∷ b'A' ∷ b'T' ∷ []

-- `public_scalars`.
abbrev pub public_scalars : BatchProofPublicInputs → BatchProofWitness → MerkleTree → List ℕ
public_scalars public_inputs witness merkle_tree =
    length witness.batch.orders
    ∷ low_word (root merkle_tree)
    ∷ public_inputs.clearing_price
    ∷ public_inputs.cleared_volume
    ∷ public_inputs.cleared_volume
    ∷ []

module _ (to_string : ℕ → String) where
  -- The checks against the engine, the state roots and the oracle commitment.
  unfoldable pub check_invariants :
      BatchProofPublicInputs → BatchProofWitness → MerkleTree → CompleteInputAccounting → Result Ok
  check_invariants public_inputs witness merkle_tree accounting = do
    headed "StateTransitionInvariantFailed: " (
        verify_transition to_string witness.pre_state witness.batch (record {
          clearing_outcome = record {
            clearing_price = published_price public_inputs.clearing_price;
            executable_volume = public_inputs.cleared_volume;
          };
          allocation = witness.allocation;
          fills = witness.fills;
          post_state = witness.post_state;
        }))
    headed "CompleteInputAccountingFailed: "
        (verify_complete_input_accounting witness.batch merkle_tree accounting witness.allocation)
    guard
        (same_bytes public_inputs.pre_state_root
          (compute_ledger_root witness.pre_state witness.batch.instrument))
        (failed_with "PublicInputMismatch: pre_state_root")
    guard
        (same_bytes public_inputs.post_state_root
          (compute_ledger_root witness.post_state witness.batch.instrument))
        (failed_with "PublicInputMismatch: post_state_root")
    guard
        (same_bytes public_inputs.oracle_snapshot_hash
          (compute_oracle_snapshot_commitment witness.oracle_snapshot witness.oracle_policy))
        (failed_with "PublicInputMismatch: oracle_snapshot_hash")

  -- The subrelations in their order: the system, and the scalars of them all.
  unfoldable pub synthesize_all :
      BatchProofPublicInputs
      → BatchProofWitness
      → MerkleTree
      → CompleteInputAccounting
      → Result (ConstraintSystem × List ℕ)
  synthesize_all public_inputs witness merkle_tree accounting = do
    let batch = witness.batch
    let price = published_price public_inputs.clearing_price
    let volume = public_inputs.cleared_volume
    let start : Synthesis = record { system = new_system; scalars = [] }
    let s1 = (synthesize_order_validity_constraints to_string batch.instrument batch.orders start).1
    s2 ← converted (
        synthesize_complete_input_accounting_constraints to_string batch witness.preimages
          merkle_tree accounting witness.allocation (fresh s1))
    (metrics, s3) ←
        converted
          (synthesize_clearing_optimality_constraints to_string batch price volume (fresh s2))
    s4 ← converted (
        where_priced price
          (λ p. synthesize_allocation_constraints to_string batch p volume witness.allocation)
          (fresh s3))
    s5 ← converted (
        where_priced price
          (λ p. synthesize_fill_bounds_constraints to_string p batch.orders witness.fills)
          (fresh s4))
    s6 ← converted (
        synthesize_conservation_constraints to_string witness.pre_state witness.post_state
          witness.fills batch.instrument (fresh s5))
    s7 ← converted (
        where_priced price
          (λ p. where_policed witness.oracle_snapshot witness.oracle_policy (λ policy.
            synthesize_oracle_freshness_constraints batch.instrument witness.batch_cutoff_nanos p
              policy witness.oracle_snapshot))
          (fresh s6))
    ok (
      s7.system,
      s1.scalars
          ++ (s2.scalars
              ++ (s3.scalars ++ (s4.scalars ++ (s5.scalars ++ (s6.scalars ++ s7.scalars))))),
    )

  unfoldable pub prove :
      (ℕ → List ℕ) → BatchProofPublicInputs → BatchProofWitness → Result BatchProof
  unfolding bind_inputs check_invariants synthesize_all
  prove decimal public_inputs witness = do
    (merkle_tree, accounting) ← bind_inputs public_inputs witness
    check_invariants public_inputs witness merkle_tree accounting
    (cs, full_witness) ← synthesize_all public_inputs witness merkle_tree accounting
    headed "R1CSUnsatisfied: "
        (is_satisfied cs (public_scalars public_inputs witness merkle_tree) full_witness)
    ok (record {
      proof_version = 1;
      public_inputs = public_inputs;
      proof_bytes = certificate_prefix ++ (decimal (length cs.constraints) ++ certificate_suffix);
    })
