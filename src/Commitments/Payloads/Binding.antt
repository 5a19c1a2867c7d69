-- ===== src/Commitments/Payloads/Binding.antt =====
-- cpp/include/faircross/commitments/: what the commitments of orders and oracle references bind.
use mathlib.Core.List.{head-eq_of_cons-eq, tail-eq_of_cons-eq}
use fair_cross.Prelude.{
  ℕ, ◌≡◌, ◌⊎◌, refl, sym, ◌∙◌, ap, inl, inr, List, [], ◌∷◌, ◌++◌, if◌then◌else◌, Option, none, some,
  arith,
}
use fair_cross.Domain.Order.{SaltedOrderPreimage, is_buy}
use fair_cross.Domain.Oracle.{ReferencePriceSnapshot, ReferencePricePolicy}
use fair_cross.Domain.Encoding.{
  order_tag, append_le32, append_le64, oracle_snapshot_tag, encoding_version_v1,
  OracleSnapshotPreimage, canonical_encode_order, canonical_encode_oracle_snapshot,
}
use fair_cross.Domain.Encoding.Injective.{
  IsWordPreimage, IsWordSnapshot, oracle_versioned, canonical_encode_order_injective,
  canonical_encode_oracle_snapshot_injective,
}
use fair_cross.Commitments.Sha256.{commit_raw_bytes}
use fair_cross.Commitments.Collision.{LeafClash, LeafCollision, leaf_collision, collide}
use fair_cross.Commitments.Bytes.{IsBytes, IsBytes-append, append_le32-IsBytes, append_le64-IsBytes}
use fair_cross.Commitments.Merkle.Binding.{same_or_different}
use fair_cross.Commitments.Payloads.{
  commit_order, compute_oracle_snapshot_commitment, absent_oracle_marker,
}

pub commit_raw_bytes_binding :
    (a b : List ℕ) → commit_raw_bytes a ≡ commit_raw_bytes b → (a ≡ b) ⊎ LeafClash (a ∷ []) (b ∷ [])
commit_raw_bytes_binding a b h = elim (same_or_different a b) [
  | inl e ↦ inl e
  | inr n ↦ inr (collide a b n h)
]

canonical_encode_order-IsBytes :
    (p : SaltedOrderPreimage) → IsBytes p.nonce → IsBytes (canonical_encode_order p)
unfolding canonical_encode_order
canonical_encode_order-IsBytes p h =
    let start = order_tag ++ encoding_version_v1 ∷ [] in
    let tagged : IsBytes start =
      (omega arith, (omega arith, (omega arith, (omega arith, (omega arith, tt))))) in
    let buf_1 = append_le64 start p.order.id in
    let buf_2 = append_le64 buf_1 p.order.account in
    let buf_3 = append_le64 buf_2 p.order.instrument in
    let side_byte : ℕ = if is_buy p.order.side then 0 else 1 in
    let sided = buf_3 ++ side_byte ∷ [] in
    let sided_bytes : IsBytes sided =
      IsBytes-append buf_3 (side_byte ∷ [])
        (append_le64-IsBytes buf_2 p.order.instrument
          (append_le64-IsBytes buf_1 p.order.account (append_le64-IsBytes start p.order.id tagged)))
        (ground arith, tt) in
    let priced = append_le64 sided p.order.price in
    let sized = append_le64 priced p.order.qty in
    let sequenced = append_le64 sized p.order.seq in
    IsBytes-append sequenced p.nonce
      (append_le64-IsBytes sized p.order.seq (
        append_le64-IsBytes priced p.order.qty
          (append_le64-IsBytes sided p.order.price sided_bytes)))
      h

-- Two salted orders of 64-bit fields, proper sides and nonces of bytes with the same commitment are
-- the same, or their two encodings differ and collide.
pub commit_order_binding :
    (p q : SaltedOrderPreimage)
    → IsWordPreimage p
    → IsWordPreimage q
    → IsBytes p.nonce
    → IsBytes q.nonce
    → commit_order p ≡ commit_order q
    → (p ≡ q) ⊎ LeafCollision (canonical_encode_order p ∷ []) (canonical_encode_order q ∷ [])
unfolding commit_order
commit_order_binding p q h k hn kn e =
    elim (commit_raw_bytes_binding (canonical_encode_order p) (canonical_encode_order q) e) [
      | inl b ↦ inl (canonical_encode_order_injective p q h k b)
      | inr c ↦ inr (
          leaf_collision (canonical_encode_order p ∷ []) (canonical_encode_order q ∷ [])
            (canonical_encode_order-IsBytes p hn, tt) (canonical_encode_order-IsBytes q kn, tt) c)
    ]

-- What is committed: the snapshot with its policy, or the absence of either.
abbrev pub published :
    Option ReferencePriceSnapshot → Option ReferencePricePolicy → Option OracleSnapshotPreimage
published (some snapshot) (some policy) = some (record { snapshot = snapshot; policy = policy })
published (some snapshot) none = none
published none policy = none

abbrev pub Fitting : Option OracleSnapshotPreimage → Type 0
Fitting none = Unit
Fitting (some p) = IsWordSnapshot p

abbrev pub published_bytes : Option OracleSnapshotPreimage → List ℕ
published_bytes none = absent_oracle_marker
published_bytes (some p) = canonical_encode_oracle_snapshot p

published_commitment :
    (snapshot : Option ReferencePriceSnapshot) (policy : Option ReferencePricePolicy)
    → compute_oracle_snapshot_commitment snapshot policy
      ≡ commit_raw_bytes (published_bytes (published snapshot policy))
unfolding compute_oracle_snapshot_commitment
published_commitment (some snapshot) (some policy) = refl
published_commitment (some snapshot) none = refl
published_commitment none policy = refl

-- The marker of absence is no encoding, which has the version where the marker has an underscore.
absent_differs :
    (p : OracleSnapshotPreimage) → ¬ (absent_oracle_marker ≡ canonical_encode_oracle_snapshot p)
absent_differs p e =
    let (rest, versioned) = oracle_versioned p in
    let fifth : b'_' ≡ 1 = head-eq_of_cons-eq (
      tail-eq_of_cons-eq
        (tail-eq_of_cons-eq (tail-eq_of_cons-eq (tail-eq_of_cons-eq (e ∙ versioned))))) in
    omega (arith, fifth)

published_bytes_injective :
    (p q : Option OracleSnapshotPreimage)
    → Fitting p
    → Fitting q
    → published_bytes p ≡ published_bytes q
    → p ≡ q
published_bytes_injective none none h k e = refl
published_bytes_injective none (some q) h k e = absurd (absent_differs q e)
published_bytes_injective (some p) none h k e = absurd (absent_differs p (sym e))
published_bytes_injective (some p) (some q) h k e =
    ap {A = OracleSnapshotPreimage} {B = Option OracleSnapshotPreimage} some
      (canonical_encode_oracle_snapshot_injective p q h k e)

published_bytes-IsBytes : (p : Option OracleSnapshotPreimage) → IsBytes (published_bytes p)
unfolding canonical_encode_oracle_snapshot
published_bytes-IsBytes none = (
  omega arith,
  (
    omega arith,
    (
      omega arith,
      (
        omega arith,
        (
          omega arith,
          (
            omega arith,
            (
              omega arith,
              (
                omega arith,
                (
                  omega arith,
                  (omega arith, (omega arith, (omega arith, (omega arith, (omega arith, tt))))),
                ),
              ),
            ),
          ),
        ),
      ),
    ),
  ),
)
published_bytes-IsBytes (some p) =
    let start = oracle_snapshot_tag ++ encoding_version_v1 ∷ [] in
    let tagged : IsBytes start =
      (omega arith, (omega arith, (omega arith, (omega arith, (omega arith, tt))))) in
    let buf_1 = append_le32 start p.snapshot.oracle_id in
    let buf_2 = append_le64 buf_1 p.snapshot.instrument_id in
    let buf_3 = append_le64 buf_2 p.snapshot.reference_price in
    let buf_4 = append_le64 buf_3 p.snapshot.timestamp_nanos in
    let buf_5 = append_le64 buf_4 p.snapshot.sequence in
    let buf_6 = append_le64 buf_5 p.policy.max_staleness_nanos in
    append_le64-IsBytes buf_6 p.policy.max_deviation_ticks (
      append_le64-IsBytes buf_5 p.policy.max_staleness_nanos (
        append_le64-IsBytes buf_4 p.snapshot.sequence (
          append_le64-IsBytes buf_3 p.snapshot.timestamp_nanos (
            append_le64-IsBytes buf_2 p.snapshot.reference_price (
              append_le64-IsBytes buf_1 p.snapshot.instrument_id
                (append_le32-IsBytes start p.snapshot.oracle_id tagged))))))

-- Two published references whose numbers fit their types, with the same commitment, are the same
-- snapshot under the same policy, or both absent, or the byte strings committed for them differ and
-- collide.
pub compute_oracle_snapshot_commitment_binding :
    (snapshot snapshot' : Option ReferencePriceSnapshot)
    (policy policy' : Option ReferencePricePolicy)
    → Fitting (published snapshot policy)
    → Fitting (published snapshot' policy')
    → compute_oracle_snapshot_commitment snapshot policy
      ≡ compute_oracle_snapshot_commitment snapshot' policy'
    → (published snapshot policy ≡ published snapshot' policy')
      ⊎ LeafCollision
          (published_bytes (published snapshot policy) ∷ [])
          (published_bytes (published snapshot' policy') ∷ [])
compute_oracle_snapshot_commitment_binding snapshot snapshot' policy policy' h k e =
    elim (commit_raw_bytes_binding (published_bytes (published snapshot policy))
      (published_bytes (published snapshot' policy'))
      (sym (published_commitment snapshot policy) ∙ e ∙ published_commitment snapshot' policy')) [
        | inl b ↦ inl (
            published_bytes_injective (published snapshot policy) (published snapshot' policy') h k
              b)
        | inr c ↦ inr (
            leaf_collision (published_bytes (published snapshot policy) ∷ [])
              (published_bytes (published snapshot' policy') ∷ [])
              (published_bytes-IsBytes (published snapshot policy), tt)
              (published_bytes-IsBytes (published snapshot' policy'), tt) c)
      ]
