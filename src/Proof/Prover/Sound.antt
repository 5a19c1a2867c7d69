-- ===== src/Proof/Prover/Sound.antt =====
-- What the prover has checked when it returns a proof.
use fair_cross.Prelude.{ℕ, ◌≡◌, ◌∙◌, ap, List, [], ◌++◌, map, length, String, All}
use fair_cross.Domain.Error.{>>=-known, eq-ok-IsOk, Ok, ok, IsOk, guard, >>=-eq-ok, guard-eq-ok}
use fair_cross.Engine.Checker.{order_map}
use fair_cross.Engine.Transition.{BatchExecutionResult, execute_batch}
use fair_cross.Engine.Checker.Sound.{SameHoldings, verify_transition_sound}
use fair_cross.Engine.Accounting.{CompleteInputAccounting}
use fair_cross.Engine.Accounting.Sound.{IsAccounted, verify_complete_input_accounting_sound}
use fair_cross.Commitments.Merkle.{new_tree, same_bytes}
use fair_cross.Commitments.Merkle.Binding.{same_bytes-eq}
use fair_cross.Commitments.Payloads.{commit_order, compute_oracle_snapshot_commitment}
use fair_cross.Commitments.LedgerRoot.{compute_ledger_root}
use fair_cross.Proof.R1cs.{ConstraintSystem, is_satisfied}
use fair_cross.Proof.Statement.{BatchProofPublicInputs, BatchProofWitness, BatchProof}
use fair_cross.Proof.Constraints.CompleteInput.{headed}
use fair_cross.Proof.Prover.{
  bind_inputs, published_price, check_invariants, synthesize_all, public_scalars, prove,
  certificate_prefix, certificate_suffix,
}
use fair_cross.Proof.Prover.Bound.{headed-eq-ok, IsBound, bind_inputs-eq-ok}

module _ (to_string : ℕ → String) where
  -- What the checks against the engine say of a witness and of the account of its leaves.
  pub record IsChecked (public_inputs : BatchProofPublicInputs) (witness : BatchProofWitness)
      (accounting : CompleteInputAccounting) : Type 0 where
    pub executed : BatchExecutionResult
    pub executes : execute_batch witness.pre_state witness.batch ≡ ok executed
    pub price :
        executed.clearing_outcome.clearing_price ≡ published_price public_inputs.clearing_price
    pub volume : executed.clearing_outcome.executable_volume ≡ public_inputs.cleared_volume
    pub allocation : executed.allocation ≡ witness.allocation
    pub fills : executed.fills ≡ witness.fills
    pub accounts : length witness.post_state ≡ length executed.post_state
    pub holdings : SameHoldings witness.batch.instrument executed.post_state witness.post_state
    pub accounted :
        All
          (IsAccounted
            (map commit_order witness.preimages)
            (order_map witness.batch.orders [])
            witness.allocation)
          accounting.records
    pub total : accounting.total_committed ≡ length witness.batch.orders
    pub pre_root :
        public_inputs.pre_state_root
        ≡ compute_ledger_root witness.pre_state witness.batch.instrument
    pub post_root :
        public_inputs.post_state_root
        ≡ compute_ledger_root witness.post_state witness.batch.instrument
    pub oracle :
        public_inputs.oracle_snapshot_hash
        ≡ compute_oracle_snapshot_commitment witness.oracle_snapshot witness.oracle_policy

  check_invariants-eq-ok :
      (public_inputs : BatchProofPublicInputs) (witness : BatchProofWitness)
      (accounting : CompleteInputAccounting) {u : Ok}
      → check_invariants to_string public_inputs witness
          (new_tree (map commit_order witness.preimages))
          accounting
        ≡ ok u
      → IsChecked public_inputs witness accounting
  unfolding check_invariants
  check_invariants-eq-ok public_inputs witness accounting h =
      let (_, a1, e1) = >>=-eq-ok (headed _ _) _ h in
      let (_, a2, e2) = >>=-eq-ok (headed _ _) _ e1 in
      let (_, g3, e3) = >>=-eq-ok (guard (same_bytes public_inputs.pre_state_root _) _) _ e2 in
      let (_, g4, e4) = >>=-eq-ok (guard (same_bytes public_inputs.post_state_root _) _) _ e3 in
      let (executed, executes, outcome, allocation, fills, accounts, holdings) =
        verify_transition_sound to_string witness.pre_state witness.batch _
          (eq-ok-IsOk _ (headed-eq-ok _ _ a1)) in
      let (sizes, total, leaves, places, ids, accounted) =
        verify_complete_input_accounting_sound witness.batch (map commit_order witness.preimages)
          accounting witness.allocation (eq-ok-IsOk _ (headed-eq-ok _ _ a2)) in
      record {
        executed = executed;
        executes = executes;
        price = ap (λ o. o.clearing_price) outcome;
        volume = ap (λ o. o.executable_volume) outcome;
        allocation = allocation;
        fills = fills;
        accounts = accounts;
        holdings = holdings;
        accounted = accounted;
        total = total;
        pre_root = same_bytes-eq _ _ (guard-eq-ok _ _ g3);
        post_root = same_bytes-eq _ _ (guard-eq-ok _ _ g4);
        oracle = same_bytes-eq _ _ (guard-eq-ok _ _ e4);
      }

  -- The constraints of a proof: they are satisfied, and the certificate counts them.
  pub record IsSatisfied (decimal : ℕ → List ℕ) (public_inputs : BatchProofPublicInputs)
      (witness : BatchProofWitness) (accounting : CompleteInputAccounting) (proof : BatchProof)
      : Type 0 where
    pub system : ConstraintSystem
    pub scalars : List ℕ
    pub synthesized :
        synthesize_all to_string public_inputs witness
          (new_tree (map commit_order witness.preimages))
          accounting
        ≡ ok (system, scalars)
    pub satisfied : IsOk (
        is_satisfied system
          (public_scalars public_inputs witness (new_tree (map commit_order witness.preimages)))
          scalars)
    pub returned : proof ≡ record {
      proof_version = 1;
      public_inputs = public_inputs;
      proof_bytes =
          certificate_prefix ++ (decimal (length system.constraints) ++ certificate_suffix);
    }

  -- A proof is returned only for a witness that is bound to the public inputs, and whose execution,
  -- account, state roots and oracle commitment are those the engine computes from its batch and its
  -- state; and the constraints built from them are satisfied.
  pub prove_sound :
      (decimal : ℕ → List ℕ) (public_inputs : BatchProofPublicInputs) (witness : BatchProofWitness)
      {proof : BatchProof}
      → prove to_string decimal public_inputs witness ≡ ok proof
      → (accounting : CompleteInputAccounting) × IsBound public_inputs witness accounting
        × IsChecked public_inputs witness accounting
        × IsSatisfied decimal public_inputs witness accounting proof
  unfolding prove
  prove_sound decimal public_inputs witness h =
      let (bound, a1, _) = >>=-eq-ok (bind_inputs public_inputs witness) _ h in
      let (accounting, same, is_bound) = bind_inputs-eq-ok public_inputs witness a1 in
      let merkle_tree = new_tree (map commit_order witness.preimages) in
      let e2 =
        >>=-known (bind_inputs public_inputs witness) _ (merkle_tree, accounting) (a1 ∙ ap ok same)
          h in
      let (_, a3, e3) =
        >>=-eq-ok (check_invariants to_string public_inputs witness merkle_tree accounting) _ e2 in
      let (synthesis, a4, e4) =
        >>=-eq-ok (synthesize_all to_string public_inputs witness merkle_tree accounting) _ e3 in
      let (_, a5, e5) = >>=-eq-ok (headed _ (is_satisfied synthesis.0 _ synthesis.1)) _ e4 in
      (
        accounting,
        is_bound,
        check_invariants-eq-ok public_inputs witness accounting a3,
        record {
          system = synthesis.0;
          scalars = synthesis.1;
          synthesized = a4;
          satisfied = eq-ok-IsOk _ (headed-eq-ok _ _ a5);
          returned = cc;
        },
      )
