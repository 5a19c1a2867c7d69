-- ===== src/Commitments/Payloads.antt =====
-- cpp/include/faircross/commitments/{order,batch,oracle}_commitment.hpp: what is committed of an order, a
-- batch header and a reference price.
pub mod Binding
pub mod Header
use fair_cross.Prelude.{ℕ, Bool, List, [], ◌∷◌, ◌++◌, Option, none, some}
use fair_cross.Domain.Words.{BatchId, InstrumentId}
use fair_cross.Domain.Order.{Order, SaltedOrderPreimage}
use fair_cross.Domain.Oracle.{ReferencePriceSnapshot, ReferencePricePolicy}
use fair_cross.Domain.Encoding.{
  OracleSnapshotPreimage, append_le32, append_le64, batch_header_tag, encoding_version_v1,
  canonical_encode_order, canonical_encode_oracle_snapshot,
}
use fair_cross.Commitments.Sha256.{Commitment, commit_raw_bytes}
use fair_cross.Commitments.Merkle.{same_bytes}

unfoldable pub commit_order : SaltedOrderPreimage → Commitment
commit_order preimage = commit_raw_bytes (canonical_encode_order preimage)

unfoldable pub commit_order_fields : Order → List ℕ → Commitment
unfolding commit_order
commit_order_fields order nonce = commit_order (record { order = order; nonce = nonce })

unfoldable pub verify_order_commitment : Commitment → SaltedOrderPreimage → Bool
unfolding commit_order
verify_order_commitment claimed preimage = same_bytes (commit_order preimage) claimed

pub record BatchHeader : Type 0 where
  pub semantic_version : ℕ
  pub batch_id : BatchId
  pub instrument_id : InstrumentId
  pub cutoff_timestamp : ℕ
  pub order_count : ℕ
  pub orders_merkle_root : Commitment

-- The loops over four bytes are those of `append_le32`.
unfoldable pub canonical_encode : BatchHeader → List ℕ
unfolding append_le32 append_le64
canonical_encode header =
    let versioned =
      append_le32 (batch_header_tag ++ encoding_version_v1 ∷ []) header.semantic_version in
    let named = append_le64 (append_le64 versioned header.batch_id) header.instrument_id in
    append_le32 (append_le64 named header.cutoff_timestamp) header.order_count
    ++ header.orders_merkle_root

unfoldable pub compute_batch_commitment : BatchHeader → Commitment
unfolding canonical_encode
compute_batch_commitment header = commit_raw_bytes (canonical_encode header)

-- "FCOS_ABSENT_V1".
abbrev pub absent_oracle_marker : List ℕ
absent_oracle_marker =
    b'F' ∷ b'C' ∷ b'O' ∷ b'S' ∷ b'_' ∷ b'A' ∷ b'B' ∷ b'S' ∷ b'E' ∷ b'N' ∷ b'T' ∷ b'_' ∷ b'V' ∷ b'1'
    ∷ []

unfoldable pub compute_oracle_snapshot_commitment :
    Option ReferencePriceSnapshot → Option ReferencePricePolicy → Commitment
compute_oracle_snapshot_commitment (some snapshot) (some policy) =
    commit_raw_bytes
      (canonical_encode_oracle_snapshot (record { snapshot = snapshot; policy = policy }))
compute_oracle_snapshot_commitment (some snapshot) none = commit_raw_bytes absent_oracle_marker
compute_oracle_snapshot_commitment none policy = commit_raw_bytes absent_oracle_marker
