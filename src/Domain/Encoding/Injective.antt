-- ===== src/Domain/Encoding/Injective.antt =====
-- cpp/include/faircross/domain/encoding.hpp: the encodings, field after field, and what they tell.
use mathlib.Core.Bool.{false≢true}
use mathlib.Core.List.{append_assoc, append-nil, head-eq_of_cons-eq, tail-eq_of_cons-eq}
use fair_cross.Prelude.{
  ℕ, ◌<◌, ◌≡◌, refl, sym, ap, ◌∙◌, true, ◌||◌, if◌then◌else◌, List, [], ◌∷◌, ◌++◌, arith,
}
use fair_cross.Domain.Words.{u64_mod, u128_mod}
use fair_cross.Domain.Order.{Side, buy, sell, invalid, SaltedOrderPreimage, is_buy, is_sell}
use fair_cross.Domain.Encoding.Bytes.{
  little_endian, append_le32-little_endian, append_le64-little_endian, append_le128-little_endian,
  word_read, long_read, half_read,
}
use fair_cross.Domain.Encoding.{
  SaltedAccountPreimage, OracleSnapshotPreimage, canonical_encode_order, canonical_encode_account,
  canonical_encode_oracle_snapshot, order_tag, account_tag, oracle_snapshot_tag,
  encoding_version_v1,
}

-- A preimage of an order of words, with a proper side.
pub record IsWordPreimage (p : SaltedOrderPreimage) : Type 0 where
  pub proper_side : (is_buy p.order.side || is_sell p.order.side) ≡ true
  pub id_fits : p.order.id < u64_mod
  pub account_fits : p.order.account < u64_mod
  pub instrument_fits : p.order.instrument < u64_mod
  pub price_fits : p.order.price < u64_mod
  pub qty_fits : p.order.qty < u64_mod
  pub seq_fits : p.order.seq < u64_mod

abbrev side_code : Side → ℕ
side_code side = if is_buy side then 0 else 1

-- The encoding of an order, field after field.
order_bytes :
    (p : SaltedOrderPreimage)
    → canonical_encode_order p
      ≡ (order_tag ++ encoding_version_v1 ∷ [])
        ++ little_endian 8 p.order.id (
            little_endian 8 p.order.account (
              little_endian 8 p.order.instrument (
                side_code p.order.side
                ∷ little_endian 8 p.order.price
                    (little_endian 8 p.order.qty (little_endian 8 p.order.seq p.nonce)))))
unfolding canonical_encode_order
order_bytes p = simp (append_le64-little_endian, append_assoc)

account_bytes :
    (p : SaltedAccountPreimage)
    → canonical_encode_account p
      ≡ (account_tag ++ encoding_version_v1 ∷ [])
        ++ little_endian 8 p.account_id (
            little_endian 16 p.cash
              (little_endian 8 p.instrument (little_endian 8 p.inventory p.salt)))
unfolding canonical_encode_account
account_bytes p = simp (append_le64-little_endian, append_le128-little_endian)

oracle_bytes :
    (p : OracleSnapshotPreimage)
    → canonical_encode_oracle_snapshot p ++ []
      ≡ (oracle_snapshot_tag ++ encoding_version_v1 ∷ [])
        ++ little_endian 4 p.snapshot.oracle_id (
            little_endian 8 p.snapshot.instrument_id (
              little_endian 8 p.snapshot.reference_price (
                little_endian 8 p.snapshot.timestamp_nanos (
                  little_endian 8 p.snapshot.sequence (
                    little_endian 8 p.policy.max_staleness_nanos
                      (little_endian 8 p.policy.max_deviation_ticks []))))))
unfolding canonical_encode_oracle_snapshot
oracle_bytes p = simp (append_le64-little_endian, append_le32-little_endian)

-- The encoding starts with its tag and its version.
pub oracle_versioned :
    (p : OracleSnapshotPreimage)
    → (rest : List ℕ) × (canonical_encode_oracle_snapshot p
        ≡ (oracle_snapshot_tag ++ encoding_version_v1 ∷ []) ++ rest)
oracle_versioned p = (_, sym (append-nil (canonical_encode_oracle_snapshot p)) ∙ oracle_bytes p)

-- Two byte strings of the same first five bytes.
pub after_tag :
    (a b c d v : ℕ) (xs ys : List ℕ)
    → (a ∷ b ∷ c ∷ d ∷ v ∷ []) ++ xs ≡ (a ∷ b ∷ c ∷ d ∷ v ∷ []) ++ ys
    → xs ≡ ys
after_tag a b c d v xs ys e =
    tail-eq_of_cons-eq
      (tail-eq_of_cons-eq (tail-eq_of_cons-eq (tail-eq_of_cons-eq (tail-eq_of_cons-eq e))))

side_read :
    (s t : Side)
    → (is_buy s || is_sell s) ≡ true
    → (is_buy t || is_sell t) ≡ true
    → side_code s ≡ side_code t
    → s ≡ t
side_read buy buy h k e = refl
side_read buy sell h k e = absurd (omega arith)
side_read buy (invalid n) h k e = absurd (false≢true k)
side_read sell buy h k e = absurd (omega arith)
side_read sell sell h k e = refl
side_read sell (invalid n) h k e = absurd (false≢true k)
side_read (invalid m) t h k e = absurd (false≢true h)

-- Two salted orders of 64-bit fields and proper sides that have the same encoding are the same.
pub canonical_encode_order_injective :
    (p q : SaltedOrderPreimage)
    → IsWordPreimage p
    → IsWordPreimage q
    → canonical_encode_order p ≡ canonical_encode_order q
    → p ≡ q
canonical_encode_order_injective p q h k e =
    let e0 = after_tag b'F' b'C' b'O' b'R' 1 _ _ (sym (order_bytes p) ∙ e ∙ order_bytes q) in
    let (id, e1) = word_read _ _ _ _ h.id_fits k.id_fits e0 in
    let (account, e2) = word_read _ _ _ _ h.account_fits k.account_fits e1 in
    let (instrument, e3) = word_read _ _ _ _ h.instrument_fits k.instrument_fits e2 in
    let side =
      side_read p.order.side q.order.side h.proper_side k.proper_side (head-eq_of_cons-eq e3) in
    let (price, e4) = word_read _ _ _ _ h.price_fits k.price_fits (tail-eq_of_cons-eq e3) in
    let (qty, e5) = word_read _ _ _ _ h.qty_fits k.qty_fits e4 in
    let (seq, nonce) = word_read _ _ _ _ h.seq_fits k.seq_fits e5 in
    λ i. record {
      order = record {
        id = id i;
        account = account i;
        instrument = instrument i;
        side = side i;
        price = price i;
        qty = qty i;
        seq = seq i;
      };
      nonce = nonce i;
    }

pub record IsWordAccount (p : SaltedAccountPreimage) : Type 0 where
  pub id_fits : p.account_id < u64_mod
  pub cash_fits : p.cash < u128_mod
  pub instrument_fits : p.instrument < u64_mod
  pub inventory_fits : p.inventory < u64_mod

-- Two salted accounts whose numbers fit their types and that have the same encoding are the same.
pub canonical_encode_account_injective :
    (p q : SaltedAccountPreimage)
    → IsWordAccount p
    → IsWordAccount q
    → canonical_encode_account p ≡ canonical_encode_account q
    → p ≡ q
canonical_encode_account_injective p q h k e =
    let e0 = after_tag b'F' b'C' b'A' b'C' 1 _ _ (sym (account_bytes p) ∙ e ∙ account_bytes q) in
    let (id, e1) = word_read _ _ _ _ h.id_fits k.id_fits e0 in
    let (cash, e2) = long_read _ _ _ _ h.cash_fits k.cash_fits e1 in
    let (instrument, e3) = word_read _ _ _ _ h.instrument_fits k.instrument_fits e2 in
    let (inventory, salt) = word_read _ _ _ _ h.inventory_fits k.inventory_fits e3 in
    λ i. record {
      account_id = id i;
      cash = cash i;
      instrument = instrument i;
      inventory = inventory i;
      salt = salt i;
    }

pub record IsWordSnapshot (p : OracleSnapshotPreimage) : Type 0 where
  pub oracle_fits : p.snapshot.oracle_id < 4294967296
  pub instrument_fits : p.snapshot.instrument_id < u64_mod
  pub price_fits : p.snapshot.reference_price < u64_mod
  pub timestamp_fits : p.snapshot.timestamp_nanos < u64_mod
  pub sequence_fits : p.snapshot.sequence < u64_mod
  pub staleness_fits : p.policy.max_staleness_nanos < u64_mod
  pub deviation_fits : p.policy.max_deviation_ticks < u64_mod

-- Two snapshots with their policies whose numbers fit their types and that have the same encoding are
-- the same.
pub canonical_encode_oracle_snapshot_injective :
    (p q : OracleSnapshotPreimage)
    → IsWordSnapshot p
    → IsWordSnapshot q
    → canonical_encode_oracle_snapshot p ≡ canonical_encode_oracle_snapshot q
    → p ≡ q
canonical_encode_oracle_snapshot_injective p q h k e =
    let padded = ap {A = List ℕ} {B = List ℕ} (λ b. b ++ []) e in
    let e0 = after_tag b'F' b'C' b'O' b'S' 1 _ _ (sym (oracle_bytes p) ∙ padded ∙ oracle_bytes q) in
    let (oracle, e1) = half_read _ _ _ _ h.oracle_fits k.oracle_fits e0 in
    let (instrument, e2) = word_read _ _ _ _ h.instrument_fits k.instrument_fits e1 in
    let (price, e3) = word_read _ _ _ _ h.price_fits k.price_fits e2 in
    let (timestamp, e4) = word_read _ _ _ _ h.timestamp_fits k.timestamp_fits e3 in
    let (sequence, e5) = word_read _ _ _ _ h.sequence_fits k.sequence_fits e4 in
    let (staleness, e6) = word_read _ _ _ _ h.staleness_fits k.staleness_fits e5 in
    let (deviation, e7) = word_read _ _ _ _ h.deviation_fits k.deviation_fits e6 in
    λ i. record {
      snapshot = record {
        oracle_id = oracle i;
        instrument_id = instrument i;
        reference_price = price i;
        timestamp_nanos = timestamp i;
        sequence = sequence i;
      };
      policy = record { max_staleness_nanos = staleness i; max_deviation_ticks = deviation i };
    }
