-- ===== src/Domain/Encoding.antt =====
-- cpp/include/faircross/domain/encoding.hpp: the canonical byte encodings. A buffer is the list of its
-- bytes.
pub mod Bytes
pub mod Injective
use fair_cross.Prelude.{ℕ, zero, suc, ◌+◌, ◌*◌, ◌/◌, ◌%◌, ◌^◌, if◌then◌else◌, List, [], ◌∷◌, ◌++◌}
use fair_cross.Domain.Words.{AccountId, InstrumentId, Money, Qty}
use fair_cross.Domain.Order.{SaltedOrderPreimage, is_buy}
use fair_cross.Domain.Oracle.{ReferencePriceSnapshot, ReferencePricePolicy}

abbrev pub order_tag : List ℕ
order_tag = b'F' ∷ b'C' ∷ b'O' ∷ b'R' ∷ []

abbrev pub account_tag : List ℕ
account_tag = b'F' ∷ b'C' ∷ b'A' ∷ b'C' ∷ []

abbrev pub batch_header_tag : List ℕ
batch_header_tag = b'F' ∷ b'C' ∷ b'B' ∷ b'H' ∷ []

abbrev pub oracle_snapshot_tag : List ℕ
oracle_snapshot_tag = b'F' ∷ b'C' ∷ b'O' ∷ b'S' ∷ []

abbrev pub encoding_version_v1 : ℕ
encoding_version_v1 = 1

pub record SaltedAccountPreimage : Type 0 where
  pub account_id : AccountId
  pub cash : Money
  pub instrument : InstrumentId
  pub inventory : Qty
  pub salt : List ℕ

-- The bytes from index `i` on, `n` of them.
unfoldable pub append_bytes : ℕ → ℕ → List ℕ → ℕ → List ℕ
append_bytes zero i buf val = buf
append_bytes (suc n) i buf val = append_bytes n (i + 1) (buf ++ val / 2 ^ (i * 8) % 256 ∷ []) val

unfoldable pub append_le32 : List ℕ → ℕ → List ℕ
unfolding append_bytes
append_le32 buf val = append_bytes 4 0 buf val

unfoldable pub append_le64 : List ℕ → ℕ → List ℕ
unfolding append_bytes
append_le64 buf val = append_bytes 8 0 buf val

unfoldable pub append_le128 : List ℕ → ℕ → List ℕ
unfolding append_bytes
append_le128 buf val = append_bytes 16 0 buf val

unfoldable pub canonical_encode_order : SaltedOrderPreimage → List ℕ
unfolding append_le64
canonical_encode_order preimage =
    let order = preimage.order in
    let ids =
      append_le64
        (append_le64 (append_le64 (order_tag ++ encoding_version_v1 ∷ []) order.id) order.account)
        order.instrument in
    let sided = ids ++ (if is_buy order.side then 0 else 1) ∷ [] in
    append_le64 (append_le64 (append_le64 sided order.price) order.qty) order.seq ++ preimage.nonce

unfoldable pub canonical_encode_account : SaltedAccountPreimage → List ℕ
unfolding append_le64 append_le128
canonical_encode_account preimage =
    let funds =
      append_le128 (append_le64 (account_tag ++ encoding_version_v1 ∷ []) preimage.account_id)
        preimage.cash in
    append_le64 (append_le64 funds preimage.instrument) preimage.inventory ++ preimage.salt

pub record OracleSnapshotPreimage : Type 0 where
  pub snapshot : ReferencePriceSnapshot
  pub policy : ReferencePricePolicy

unfoldable pub canonical_encode_oracle_snapshot : OracleSnapshotPreimage → List ℕ
unfolding append_le32 append_le64
canonical_encode_oracle_snapshot preimage =
    let snapshot = preimage.snapshot in
    let named =
      append_le64 (append_le32 (oracle_snapshot_tag ++ encoding_version_v1 ∷ []) snapshot.oracle_id)
        snapshot.instrument_id in
    let priced =
      append_le64
        (append_le64 (append_le64 named snapshot.reference_price) snapshot.timestamp_nanos)
        snapshot.sequence in
    append_le64 (append_le64 priced preimage.policy.max_staleness_nanos)
      preimage.policy.max_deviation_ticks
