-- ===== src/Proof/Constraints/Oracle.antt =====
-- cpp/src/proof/constraints/oracle.cpp: the age of the reference price and the collar around it.
use fair_cross.Prelude.{ℕ, ◌-◌, ltb, if◌then◌else◌, [], ◌∷◌, Option, none, some}
use fair_cross.Domain.Error.{Result, ok, ◌>>◌}
use fair_cross.Domain.Words.{InstrumentId, Price}
use fair_cross.Domain.Oracle.{ReferencePriceSnapshot, ReferencePricePolicy}
use fair_cross.Engine.OracleValidation.{validate_reference_price_snapshot}
use fair_cross.Proof.R1cs.{
  Synthesis, from_var, from_constant, add_term, minus_one, next_var, push_witnesses, require_equal,
}
use fair_cross.Proof.Constraints.CompleteInput.{headed}

-- `a > b ? a - b : 0`.
abbrev pub difference : ℕ → ℕ → ℕ
difference a b = if ltb b a then a - b else 0

-- The constraints on a snapshot that passed.
unfoldable pub constrain_snapshot :
    ℕ → Price → ReferencePricePolicy → ReferencePriceSnapshot → Synthesis → Synthesis
unfolding push_witnesses
constrain_snapshot batch_timestamp_nanos cp_val policy snap s =
    let p_oracle_val = snap.reference_price in
    let age = difference batch_timestamp_nanos snap.timestamp_nanos in
    let s1 =
      push_witnesses
        (batch_timestamp_nanos ∷ snap.timestamp_nanos ∷ cp_val ∷ p_oracle_val ∷ age ∷ []) s in
    let s2 =
      require_equal (add_term (from_var (next_var s 0)) (next_var s 1) minus_one)
        (from_var (next_var s 4)) "oracle_timestamp_delta" s1 in
    let s3 = push_witnesses (difference policy.max_staleness_nanos age ∷ []) s2 in
    let s4 =
      require_equal (add_term (from_constant policy.max_staleness_nanos) (next_var s 4) minus_one)
        (from_var (next_var s2 0)) "oracle_freshness_slack" s3 in
    let diff = (if ltb p_oracle_val cp_val then cp_val - p_oracle_val else p_oracle_val - cp_val) in
    let s5 = push_witnesses (diff ∷ difference policy.max_deviation_ticks diff ∷ []) s4 in
    require_equal (add_term (from_constant policy.max_deviation_ticks) (next_var s4 0) minus_one)
      (from_var (next_var s4 1)) "oracle_collar_slack" s5

unfoldable pub synthesize_oracle_freshness_constraints :
    InstrumentId
    → ℕ
    → Price
    → ReferencePricePolicy
    → Option ReferencePriceSnapshot
    → Synthesis
    → Result Synthesis
unfolding constrain_snapshot
synthesize_oracle_freshness_constraints instrument batch_timestamp_nanos clearing_price policy none
      s =
    ok s
synthesize_oracle_freshness_constraints instrument batch_timestamp_nanos clearing_price policy
      (some snap) s =
    headed "oracle_policy_validation: " (
      validate_reference_price_snapshot policy snap instrument batch_timestamp_nanos
        (some clearing_price))
    >> ok (constrain_snapshot batch_timestamp_nanos clearing_price policy snap s)
