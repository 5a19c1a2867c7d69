-- ===== src/Proof/Prover/Counted.antt =====
-- The system of a proof has a constraint.
use fair_cross.Prelude.{
  ℕ, ◌≡◌, ◌≢◌, ◌<◌, ap, subst, arith, List, [], ◌∷◌, Option, none, some, length, length-append,
  String,
}
use fair_cross.Domain.Error.{ok, converted, >>=-eq-ok, converted-eq-ok, ok-injective}
use fair_cross.Commitments.Merkle.{MerkleTree}
use fair_cross.Domain.Words.{InstrumentId, Price}
use fair_cross.Domain.Ledger.{Ledger}
use fair_cross.Domain.Fill.{Fill}
use fair_cross.Domain.Oracle.{ReferencePriceSnapshot, ReferencePricePolicy}
use fair_cross.Engine.OracleValidation.{validate_reference_price_snapshot}
use fair_cross.Engine.Accounting.{CompleteInputAccounting}
use fair_cross.Proof.R1cs.{
  ConstraintSystem, Synthesis, LinearCombination, subtracted, from_var, one, enforce_equal,
}
use fair_cross.Proof.Constraints.CompleteInput.{headed}
use fair_cross.Proof.Constraints.Conservation.{
  Totals, no_totals, constrain_totals, constrain_accounts, synthesize_conservation_constraints,
}
use fair_cross.Proof.Constraints.Oracle.{
  constrain_snapshot, synthesize_oracle_freshness_constraints,
}
use fair_cross.Proof.Statement.{BatchProofPublicInputs, BatchProofWitness}
use fair_cross.Proof.Constraints.CompleteInput.{synthesize_complete_input_accounting_constraints}
use fair_cross.Proof.Constraints.Clearing.{
  synthesize_clearing_optimality_constraints, synthesize_allocation_constraints,
}
use fair_cross.Proof.Constraints.FillBounds.{synthesize_fill_bounds_constraints}
use fair_cross.Proof.Prover.{where_priced, where_policed, published_price, fresh, synthesize_all}

-- A synthesis with some constraint in it.
abbrev pub HasConstraint : Synthesis → Type 0
HasConstraint s = 0 < length s.system.constraints

enforce_equal-some :
    (lc1 lc2 : LinearCombination) (label : String) (cs : ConstraintSystem)
    → 0 < length (enforce_equal lc1 lc2 label cs).constraints
unfolding enforce_equal
enforce_equal-some lc1 lc2 label cs = omega (
  arith,
  length-append cs.constraints
      (record { a = subtracted lc1 lc2; b = from_var one; c = []; label = label } ∷ []),
)

constrain_totals-HasConstraint :
    (to_string : ℕ → String) (t : Totals × Synthesis) → HasConstraint (constrain_totals to_string t)
constrain_totals-HasConstraint to_string (totals, s) = enforce_equal-some _ _ _ _

constrain_snapshot-HasConstraint :
    (now : ℕ) (price : Price) (policy : ReferencePricePolicy) (snap : ReferencePriceSnapshot)
    (s : Synthesis)
    → HasConstraint (constrain_snapshot now price policy snap s)
unfolding constrain_snapshot
constrain_snapshot-HasConstraint now price policy snap s = enforce_equal-some _ _ _ _

conservation-HasConstraint :
    (to_string : ℕ → String) (pre post : Ledger) (fills : List Fill) (instrument : InstrumentId)
    (s : Synthesis) {s' : Synthesis}
    → synthesize_conservation_constraints to_string pre post fills instrument s ≡ ok s'
    → HasConstraint s'
unfolding synthesize_conservation_constraints
conservation-HasConstraint to_string pre post fills instrument s h =
    subst HasConstraint (ok-injective h) (
      constrain_totals-HasConstraint to_string
        (constrain_accounts to_string instrument post fills pre no_totals s))

oracle-HasConstraint :
    (instrument : InstrumentId) (now : ℕ) (price : Price) (policy : ReferencePricePolicy)
    (snapshot : Option ReferencePriceSnapshot) (s : Synthesis) {s' : Synthesis}
    → HasConstraint s
    → synthesize_oracle_freshness_constraints instrument now price policy snapshot s ≡ ok s'
    → HasConstraint s'
unfolding synthesize_oracle_freshness_constraints
oracle-HasConstraint instrument now price policy none s some_already h =
    subst HasConstraint (ok-injective h) some_already
oracle-HasConstraint instrument now price policy (some snap) s some_already h =
    let (_, _, e) =
      >>=-eq-ok
        (headed "oracle_policy_validation: "
          (validate_reference_price_snapshot policy snap instrument now (some price)))
        _ h in
    subst HasConstraint (ok-injective e) (constrain_snapshot-HasConstraint now price policy snap s)

-- What stands under two conditions keeps what it keeps where both hold.
where-HasConstraint :
    (price : Option Price) (snapshot : Option ReferencePriceSnapshot)
    (policy : Option ReferencePricePolicy) (instrument : InstrumentId) (now : ℕ) (s : Synthesis)
    {s' : Synthesis}
    → HasConstraint s
    → where_priced price
        (λ p.
          where_policed snapshot policy
            (λ policy. synthesize_oracle_freshness_constraints instrument now p policy snapshot))
        s
      ≡ ok s'
    → HasConstraint s'
where-HasConstraint none snapshot policy instrument now s some_already h =
    subst HasConstraint (ok-injective h) some_already
where-HasConstraint (some p) none policy instrument now s some_already h =
    subst HasConstraint (ok-injective h) some_already
where-HasConstraint (some p) (some snap) none instrument now s some_already h =
    subst HasConstraint (ok-injective h) some_already
where-HasConstraint (some p) (some snap) (some q) instrument now s some_already h =
    oracle-HasConstraint instrument now p q (some snap) s some_already h

-- The last two subrelations leave the system of the whole with some constraint.
pub synthesize_all-some :
    (to_string : ℕ → String) (public_inputs : BatchProofPublicInputs) (witness : BatchProofWitness)
    (merkle_tree : MerkleTree) (accounting : CompleteInputAccounting) {system : ConstraintSystem}
    {scalars : List ℕ}
    → synthesize_all to_string public_inputs witness merkle_tree accounting ≡ ok (system, scalars)
    → length system.constraints ≢ 0
unfolding synthesize_all
synthesize_all-some to_string public_inputs witness merkle_tree accounting {system} h =
    let price = published_price public_inputs.clearing_price in
    let batch = witness.batch in
    let (s2, _, e2) =
      >>=-eq-ok (converted (synthesize_complete_input_accounting_constraints _ _ _ _ _ _ _)) _ h in
    let (s3, _, e3) =
      >>=-eq-ok (converted (synthesize_clearing_optimality_constraints _ _ _ _ _)) _ e2 in
    let (s4, _, e4) =
      >>=-eq-ok
        (converted (
          where_priced price
            (λ p.
              synthesize_allocation_constraints to_string batch p public_inputs.cleared_volume
                witness.allocation)
            (fresh s3.1)))
        _ e3 in
    let (s5, _, e5) =
      >>=-eq-ok
        (converted (
          where_priced price
            (λ p. synthesize_fill_bounds_constraints to_string p batch.orders witness.fills)
            (fresh s4)))
        _ e4 in
    let (s6, a6, e6) =
      >>=-eq-ok (converted (synthesize_conservation_constraints _ _ _ _ _ _)) _ e5 in
    let (s7, a7, e7) =
      >>=-eq-ok
        (converted (
          where_priced price
            (λ p. where_policed witness.oracle_snapshot witness.oracle_policy (λ policy.
              synthesize_oracle_freshness_constraints batch.instrument witness.batch_cutoff_nanos p
                policy witness.oracle_snapshot))
            (fresh s6)))
        _ e6 in
    let first = conservation-HasConstraint _ _ _ _ _ _ (converted-eq-ok _ a6) in
    let last = where-HasConstraint _ _ _ _ _ (fresh s6) first (converted-eq-ok _ a7) in
    let same : s7.system ≡ system = ap (λ r. r.0) (ok-injective e7) in
    let some_left : 0 < length system.constraints =
      subst (λ cs. 0 < length cs.constraints) same last in
    omega arith
