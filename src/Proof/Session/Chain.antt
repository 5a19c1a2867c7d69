-- ===== src/Proof/Session/Chain.antt =====
-- A session goes on from state to state.
use fair_cross.Prelude.{
  ℕ, suc, ◌+◌, ◌%◌, ◌≡◌, ◌≤◌, ◌<◌, ◌∙◌, ap, refl, sym, subst, arith, not, ltb, ◌==◌, List, [], ◌∷◌,
  length, String,
}
use fair_cross.Domain.Error.{
  ok, guard, converted, >>=-eq-ok, guard-eq-ok, converted-eq-ok, ok-injective,
}
use fair_cross.Domain.Words.{add64, u64_mod}
use fair_cross.Commitments.Merkle.{same_bytes}
use fair_cross.Commitments.Merkle.Binding.{same_bytes-eq}
use fair_cross.Proof.Statement.{BatchProof}
use fair_cross.Proof.Constraints.CompleteInput.{headed}
use fair_cross.Proof.Prover.{prove}
use fair_cross.Proof.Prover.Bound.{headed-eq-ok}
use fair_cross.Proof.Session.{
  RunningState, RecursiveStep, SessionProof, next_history, fold_step, step_error, prove_steps,
  prove_session,
}

-- The state after a step.
abbrev pub state_after : RecursiveStep → RunningState → RunningState
state_after step state = record {
  ledger_root = step.public_inputs.post_state_root;
  history_accumulator = next_history state.history_accumulator step.public_inputs;
  batch_id = step.witness.batch.batch_id;
  timestamp_nanos = step.timestamp_nanos;
  instrument_id = state.instrument_id;
}

module _ (to_string : ℕ → String) (decimal : ℕ → List ℕ) where
  -- A step that goes on from a state: the next batch, of the same instrument, not earlier, from the
  -- ledger where the state is, with its proof.
  pub record Follows (state : RunningState) (step : RecursiveStep) (proof : BatchProof)
      : Type 0 where
    pub next_batch : step.witness.batch.batch_id ≡ add64 state.batch_id 1
    pub same_instrument : step.witness.batch.instrument ≡ state.instrument_id
    pub not_earlier : state.timestamp_nanos ≤ step.timestamp_nanos
    pub from_root : step.public_inputs.pre_state_root ≡ state.ledger_root
    pub proved : prove to_string decimal step.public_inputs step.witness ≡ ok proof

  -- The sessions from a state to a state, with the proofs of their steps.
  pub data IsSession
      : RunningState → List RecursiveStep → List BatchProof → RunningState → Type 0 where
    no_steps : {s : RunningState} → IsSession s [] [] s
    one_step :
        {s t : RunningState} {step : RecursiveStep} {steps : List RecursiveStep}
        {proof : BatchProof} {proofs : List BatchProof}
        → Follows s step proof
        → IsSession (state_after step s) steps proofs t
        → IsSession s (step ∷ steps) (proof ∷ proofs) t

  fold_step-eq-ok :
      (step : RecursiveStep) (state : RunningState) {next : RunningState}
      → fold_step to_string decimal step.public_inputs step.witness step.timestamp_nanos state
        ≡ ok next
      → (proof : BatchProof) × Follows state step proof × (next ≡ state_after step state)
  unfolding fold_step
  fold_step-eq-ok step state h =
      let (_, g1, e1) =
        >>=-eq-ok (guard (step.witness.batch.batch_id == add64 state.batch_id 1) _) _ h in
      let (_, g2, e2) =
        >>=-eq-ok (guard (step.witness.batch.instrument == state.instrument_id) _) _ e1 in
      let (_, g3, e3) =
        >>=-eq-ok (guard (not (ltb step.timestamp_nanos state.timestamp_nanos)) _) _ e2 in
      let (_, g4, e4) =
        >>=-eq-ok (guard (same_bytes step.public_inputs.pre_state_root state.ledger_root) _) _ e3 in
      let (proof, a5, e5) =
        >>=-eq-ok (converted (prove to_string decimal step.public_inputs step.witness)) _ e4 in
      (
        proof,
        record {
          next_batch = ground (arith, guard-eq-ok _ _ g1);
          same_instrument = ground (arith, guard-eq-ok _ _ g2);
          not_earlier = ground (arith, guard-eq-ok _ _ g3);
          from_root = same_bytes-eq _ _ (guard-eq-ok _ _ g4);
          proved = converted-eq-ok _ a5;
        },
        sym (ok-injective e5),
      )

  prove_steps-IsSession :
      (idx : ℕ) (steps : List RecursiveStep) (state : RunningState)
      {last : RunningState × List BatchProof}
      → prove_steps to_string decimal idx steps state ≡ ok last
      → IsSession state steps last.1 last.0
  unfolding prove_steps
  prove_steps-IsSession idx [] state h =
      subst (λ last. IsSession state [] last.1 last.0) (ok-injective h) no_steps
  prove_steps-IsSession idx (step ∷ steps) state h =
      let (next, a1, e1) =
        >>=-eq-ok
          (headed (step_error to_string decimal idx "_fold: ") (
            fold_step to_string decimal step.public_inputs step.witness step.timestamp_nanos state))
          _ h in
      let (proof, a2, e2) =
        >>=-eq-ok
          (headed (step_error to_string decimal idx "_prove: ")
            (prove to_string decimal step.public_inputs step.witness))
          _ e1 in
      let (last, a3, e3) = >>=-eq-ok (prove_steps to_string decimal (suc idx) steps next) _ e2 in
      let (proof', follows, same) = fold_step-eq-ok step state (headed-eq-ok _ _ a1) in
      let rest = prove_steps-IsSession (suc idx) steps next a3 in
      let one : proof' ≡ proof = ok-injective (sym follows.proved ∙ headed-eq-ok _ _ a2) in
      subst (λ last. IsSession state (step ∷ steps) last.1 last.0) (ok-injective e3)
        (one_step (subst (Follows state step) one follows)
          (subst (λ s. IsSession s steps last.1 last.0) same rest))

  -- Along a session the batches count up, time does not go back, and the instrument stays.
  IsSession-counts :
      {s t : RunningState} {steps : List RecursiveStep} {proofs : List BatchProof}
      → s.batch_id < u64_mod
      → IsSession s steps proofs t
      → (t.batch_id ≡ (s.batch_id + length steps) % u64_mod)
        × (s.timestamp_nanos ≤ t.timestamp_nanos)
        × (t.instrument_id ≡ s.instrument_id)
        × (length proofs ≡ length steps)
  unfolding add64
  IsSession-counts fits no_steps = (omega arith, omega arith, refl, refl)
  IsSession-counts {s} fits (one_step {step = step} follows rest) =
      let next_fits : step.witness.batch.batch_id < u64_mod = omega (arith, follows.next_batch) in
      let (batch, time, instrument, count) = IsSession-counts next_fits rest in
      (
        omega (arith, batch, follows.next_batch),
        omega (arith, time, follows.not_earlier),
        instrument,
        ap suc count,
      )

  -- A session that is proved from a state with a 64-bit batch id has at least one step; every step
  -- follows the state before it, with the proof that the session holds of it, and the last state is the
  -- published one. Its batch id is as many after the first as there are steps, modulo 2 ^ 64, its time
  -- is not earlier, and its instrument is the same; the session has one proof for each step.
  pub prove_session-IsSession :
      (initial_state : RunningState) (steps : List RecursiveStep) {proof : SessionProof}
      → initial_state.batch_id < u64_mod
      → prove_session to_string decimal initial_state steps ≡ ok proof
      → let final = proof.public_inputs.final_state in
        (0 < length steps)
        × (proof.public_inputs.initial_state ≡ initial_state)
        × IsSession initial_state steps proof.step_proofs final
        × (proof.session_version ≡ 1)
        × (proof.num_batches ≡ length steps)
        × (length proof.step_proofs ≡ length steps)
        × (final.batch_id ≡ (initial_state.batch_id + length steps) % u64_mod)
        × (initial_state.timestamp_nanos ≤ final.timestamp_nanos)
        × (final.instrument_id ≡ initial_state.instrument_id)
  unfolding prove_session
  prove_session-IsSession initial_state steps {proof} fits h =
      let (_, g1, e1) = >>=-eq-ok (guard (not (length steps == 0)) _) _ h in
      let (last, a2, e2) = >>=-eq-ok (prove_steps to_string decimal 0 steps initial_state) _ e1 in
      let returned = ok-injective e2 in
      let session : IsSession initial_state steps proof.step_proofs
          proof.public_inputs.final_state =
        subst (λ p. IsSession initial_state steps p.step_proofs p.public_inputs.final_state)
          returned (prove_steps-IsSession 0 steps initial_state a2) in
      let (batch, time, instrument, count) = IsSession-counts fits session in
      (
        ground (arith, guard-eq-ok _ _ g1),
        sym (ap (λ p. p.public_inputs.initial_state) returned),
        session,
        sym (ap (λ p. p.session_version) returned),
        sym (ap (λ p. p.num_batches) returned),
        count,
        batch,
        time,
        instrument,
      )
