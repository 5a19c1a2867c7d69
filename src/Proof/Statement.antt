-- ===== src/Proof/Statement.antt =====
-- cpp/include/faircross/proof/statement.hpp: what a proof states, and the witness for it.
use fair_cross.Prelude.{ℕ, List, Option}
use fair_cross.Domain.Order.{SaltedOrderPreimage}
use fair_cross.Domain.Ledger.{Ledger}
use fair_cross.Domain.Fill.{Fill}
use fair_cross.Domain.Oracle.{ReferencePriceSnapshot, ReferencePricePolicy}
use fair_cross.Engine.Batch.{Batch}
use fair_cross.Engine.Allocation.{BatchAllocation}
use fair_cross.Engine.Accounting.{CompleteInputAccounting}
use fair_cross.Commitments.Sha256.{Commitment}

pub record BatchProofPublicInputs : Type 0 where
  pub pre_state_root : Commitment
  pub post_state_root : Commitment
  pub batch_header_hash : Commitment
  pub oracle_snapshot_hash : Commitment
  pub clearing_price : ℕ
  pub cleared_volume : ℕ

pub record BatchProofWitness : Type 0 where
  pub pre_state : Ledger
  pub post_state : Ledger
  pub batch : Batch
  pub preimages : List SaltedOrderPreimage
  pub allocation : BatchAllocation
  pub fills : List Fill
  pub accounting : CompleteInputAccounting
  pub oracle_snapshot : Option ReferencePriceSnapshot
  pub oracle_policy : Option ReferencePricePolicy
  pub batch_cutoff_nanos : ℕ

pub record BatchProof : Type 0 where
  pub proof_version : ℕ
  pub public_inputs : BatchProofPublicInputs
  pub proof_bytes : List ℕ
