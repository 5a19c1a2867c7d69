-- ===== src/Engine/OracleValidation.antt =====
-- cpp/include/faircross/engine/oracle_validation.hpp: the reference price of a batch against the
-- policy that governs it.
use fair_cross.Prelude.{ℕ, ◌+◌, ◌≤◌, ◌≡◌, ◌↔◌, ◌==◌, Option, none, some, arith}
use fair_cross.Domain.Error.{
  Result, ok, Ok, ok_value, guard, ◌>>◌, IsOk, domain_error, instrument_mismatch,
}
use fair_cross.Domain.Words.{Price, InstrumentId}
use fair_cross.Domain.Oracle.{
  ReferencePriceSnapshot, ReferencePricePolicy, validate_freshness, validate_collar,
}

-- The collar applies to a clearing price only where there is one.
unfoldable pub collar_where_priced :
    ReferencePricePolicy → ReferencePriceSnapshot → Option Price → Result Ok
collar_where_priced policy snapshot none = ok ok_value
collar_where_priced policy snapshot (some price) = validate_collar policy price snapshot

unfoldable pub validate_reference_price_snapshot :
    ReferencePricePolicy → ReferencePriceSnapshot → InstrumentId → ℕ → Option Price → Result Ok
unfolding collar_where_priced
validate_reference_price_snapshot policy snapshot expected cutoff clearing_price = do
  guard (snapshot.instrument_id == expected) (
      domain_error instrument_mismatch
        "OracleValidationError: snapshot instrument does not match batch")
  validate_freshness policy snapshot cutoff
  collar_where_priced policy snapshot clearing_price

-- The wrapper that takes the instrument of the snapshot itself.
unfoldable pub validate_oracle_reference :
    ReferencePriceSnapshot → ReferencePricePolicy → ℕ → Option Price → Result Ok
unfolding validate_reference_price_snapshot
validate_oracle_reference snapshot policy cutoff clearing_price =
    validate_reference_price_snapshot policy snapshot snapshot.instrument_id cutoff clearing_price

-- A price no more than the allowed deviation away from the reference, where there is a price.
abbrev pub InCollar : ReferencePricePolicy → ReferencePriceSnapshot → Option Price → Type 0
InCollar policy snapshot none = Unit
InCollar policy snapshot (some price) =
    (price ≤ snapshot.reference_price + policy.max_deviation_ticks)
    × (snapshot.reference_price ≤ price + policy.max_deviation_ticks)

-- A snapshot is accepted exactly if it is of the expected instrument, is not from after the cutoff,
-- is not older than the policy allows, and the clearing price, where there is one, lies within the
-- allowed deviation on both sides of its reference price.
pub validate_reference_iff :
    (policy : ReferencePricePolicy) (snapshot : ReferencePriceSnapshot) (expected : InstrumentId)
    (cutoff : ℕ) (price : Option Price)
    → IsOk (validate_reference_price_snapshot policy snapshot expected cutoff price) ↔ (
        (snapshot.instrument_id ≡ expected)
        × (snapshot.timestamp_nanos ≤ cutoff)
        × (cutoff ≤ snapshot.timestamp_nanos + policy.max_staleness_nanos)
        × InCollar policy snapshot price)
unfolding validate_reference_price_snapshot validate_freshness validate_collar
validate_reference_iff policy snapshot expected cutoff none =
    ((λ h. ground arith), (λ h. ground arith))
validate_reference_iff policy snapshot expected cutoff (some p) =
    ((λ h. ground arith), (λ h. ground arith))
