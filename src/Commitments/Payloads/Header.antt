-- ===== src/Commitments/Payloads/Header.antt =====
-- What the commitment of a batch header binds.
use fair_cross.Prelude.{arith, ◌<◌, ◌≡◌, ◌⊎◌, sym, ◌∙◌, inl, inr, [], ◌∷◌, ◌++◌}
use fair_cross.Domain.Words.{u64_mod}
use fair_cross.Domain.Encoding.{append_le32, append_le64, batch_header_tag, encoding_version_v1}
use fair_cross.Domain.Encoding.Bytes.{
  little_endian, append_le32-little_endian, append_le64-little_endian, word_read, half_read,
}
use fair_cross.Domain.Encoding.Injective.{after_tag}
use fair_cross.Commitments.Payloads.{BatchHeader, canonical_encode, compute_batch_commitment}
use fair_cross.Commitments.Collision.{LeafCollision, leaf_collision}
use fair_cross.Commitments.Bytes.{IsBytes, IsBytes-append, append_le32-IsBytes, append_le64-IsBytes}
use fair_cross.Commitments.Payloads.Binding.{commit_raw_bytes_binding}

pub record IsWordHeader (h : BatchHeader) : Type 0 where
  pub version_fits : h.semantic_version < 4294967296
  pub batch_fits : h.batch_id < u64_mod
  pub instrument_fits : h.instrument_id < u64_mod
  pub cutoff_fits : h.cutoff_timestamp < u64_mod
  pub count_fits : h.order_count < 4294967296

header_bytes :
    (h : BatchHeader)
    → canonical_encode h
      ≡ (batch_header_tag ++ encoding_version_v1 ∷ [])
        ++ little_endian 4 h.semantic_version (
            little_endian 8 h.batch_id (
              little_endian 8 h.instrument_id (
                little_endian 8 h.cutoff_timestamp
                  (little_endian 4 h.order_count h.orders_merkle_root))))
unfolding canonical_encode
header_bytes h = simp (append_le64-little_endian, append_le32-little_endian)

canonical_encode_injective :
    (g h : BatchHeader)
    → IsWordHeader g
    → IsWordHeader h
    → canonical_encode g ≡ canonical_encode h
    → g ≡ h
canonical_encode_injective g h p q e =
    let e0 = after_tag b'F' b'C' b'B' b'H' 1 _ _ (sym (header_bytes g) ∙ e ∙ header_bytes h) in
    let (version, e1) = half_read _ _ _ _ p.version_fits q.version_fits e0 in
    let (batch, e2) = word_read _ _ _ _ p.batch_fits q.batch_fits e1 in
    let (instrument, e3) = word_read _ _ _ _ p.instrument_fits q.instrument_fits e2 in
    let (cutoff, e4) = word_read _ _ _ _ p.cutoff_fits q.cutoff_fits e3 in
    let (count, merkle_root) = half_read _ _ _ _ p.count_fits q.count_fits e4 in
    λ i. record {
      semantic_version = version i;
      batch_id = batch i;
      instrument_id = instrument i;
      cutoff_timestamp = cutoff i;
      order_count = count i;
      orders_merkle_root = merkle_root i;
    }

canonical_encode-IsBytes :
    (h : BatchHeader) → IsBytes h.orders_merkle_root → IsBytes (canonical_encode h)
unfolding canonical_encode
canonical_encode-IsBytes h k =
    let start = batch_header_tag ++ encoding_version_v1 ∷ [] in
    let tagged : IsBytes start =
      (omega arith, (omega arith, (omega arith, (omega arith, (omega arith, tt))))) in
    let buf_1 = append_le32 start h.semantic_version in
    let buf_2 = append_le64 buf_1 h.batch_id in
    let buf_3 = append_le64 buf_2 h.instrument_id in
    let buf_4 = append_le64 buf_3 h.cutoff_timestamp in
    let buf_5 = append_le32 buf_4 h.order_count in
    IsBytes-append buf_5 h.orders_merkle_root
      (append_le32-IsBytes buf_4 h.order_count (
        append_le64-IsBytes buf_3 h.cutoff_timestamp (
          append_le64-IsBytes buf_2 h.instrument_id (
            append_le64-IsBytes buf_1 h.batch_id
              (append_le32-IsBytes start h.semantic_version tagged)))))
      k

-- Two batch headers whose numbers fit their types and whose roots are bytes, with the same commitment,
-- are the same header, root of the orders included, or their two encodings differ and collide.
pub compute_batch_commitment_binding :
    (g h : BatchHeader)
    → IsWordHeader g
    → IsWordHeader h
    → IsBytes g.orders_merkle_root
    → IsBytes h.orders_merkle_root
    → compute_batch_commitment g ≡ compute_batch_commitment h
    → (g ≡ h) ⊎ LeafCollision (canonical_encode g ∷ []) (canonical_encode h ∷ [])
unfolding compute_batch_commitment
compute_batch_commitment_binding g h p q gr hr e =
    elim (commit_raw_bytes_binding (canonical_encode g) (canonical_encode h) e) [
      | inl b ↦ inl (canonical_encode_injective g h p q b)
      | inr c ↦ inr (
          leaf_collision (canonical_encode g ∷ []) (canonical_encode h ∷ [])
            (canonical_encode-IsBytes g gr, tt) (canonical_encode-IsBytes h hr, tt) c)
    ]
