-- ===== src/Domain/Oracle.antt =====
-- cpp/include/faircross/domain/oracle.hpp: a reference price and the policy that governs it.
use fair_cross.Prelude.{ℕ, ◌-◌, ltb, leb, if◌then◌else◌}
use fair_cross.Domain.Error.{Result, Ok, ok, err, ok_value, failed_with}
use fair_cross.Domain.Words.{InstrumentId, Price}

pub record ReferencePriceSnapshot : Type 0 where
  pub oracle_id : ℕ
  pub instrument_id : InstrumentId
  pub reference_price : Price
  pub timestamp_nanos : ℕ
  pub sequence : ℕ

pub record ReferencePricePolicy : Type 0 where
  pub max_staleness_nanos : ℕ
  pub max_deviation_ticks : ℕ

unfoldable pub validate_freshness : ReferencePricePolicy → ReferencePriceSnapshot → ℕ → Result Ok
validate_freshness policy snapshot batch_cutoff_nanos =
    if ltb batch_cutoff_nanos snapshot.timestamp_nanos
    then err (failed_with "FutureOracleSnapshot")
    else if ltb policy.max_staleness_nanos (batch_cutoff_nanos - snapshot.timestamp_nanos)
    then err (failed_with "StaleOracleSnapshot")
    else ok ok_value

unfoldable pub validate_collar : ReferencePricePolicy → Price → ReferencePriceSnapshot → Result Ok
validate_collar policy clearing_price snapshot =
    let p_ref = snapshot.reference_price in
    let diff =
      (if leb p_ref clearing_price then clearing_price - p_ref else p_ref - clearing_price) in
    if ltb policy.max_deviation_ticks diff
    then err (failed_with "PriceCollarBreach")
    else ok ok_value
