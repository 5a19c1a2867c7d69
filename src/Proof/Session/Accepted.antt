-- ===== src/Proof/Session/Accepted.antt =====
-- The session verifier accepts what the session prover returns.
use fair_cross.Prelude.{
  ℕ, suc, ◌≡◌, ◌<◌, ◌∙◌, refl, sym, subst, arith, true, not, ◌&&◌, ◌==◌, List, ◌∷◌, map, Option,
  length, String, All, ap,
}
use fair_cross.Prelude.OrdMap.{==_self}
use fair_cross.Domain.Error.{ok_value, ok}
use fair_cross.Domain.Words.{u64_mod}
use fair_cross.Commitments.Merkle.Inclusion.{same_bytes_self}
use fair_cross.Proof.Statement.{BatchProof}
use fair_cross.Proof.Verifier.{verify_proof}
use fair_cross.Proof.Prover.Accepted.{ReadsBack, constraint_count, verify_proof-prove}
use fair_cross.Proof.Prover.Sound.{prove_sound}
use fair_cross.Proof.Session.{
  RunningState, RecursiveStep, SessionProof, next_history, same_state, replay_steps, prove_session,
  verify_session,
}
use fair_cross.Proof.Session.Chain.{IsSession, no_steps, one_step, Follows, prove_session-IsSession}

same_state_self : (s : RunningState) → same_state s s ≡ true
same_state_self s =
    rw
      (
        same_bytes_self s.ledger_root,
        same_bytes_self s.history_accumulator,
        ==_self s.batch_id,
        ==_self s.timestamp_nanos,
        ==_self s.instrument_id,
      )
      refl

-- The constraints of a step are at most as many as a size counts.
abbrev pub CountFits : (ℕ → String) → RecursiveStep → Type 0
CountFits to_string step = constraint_count to_string step.public_inputs step.witness < u64_mod

-- The proofs of a session are of the public inputs of its steps.
pub IsSession-inputs :
    (to_string : ℕ → String) (decimal : ℕ → List ℕ) {s t : RunningState}
    {steps : List RecursiveStep} {proofs : List BatchProof}
    → IsSession to_string decimal s steps proofs t
    → map (λ p. p.public_inputs) proofs ≡ map (λ s. s.public_inputs) steps
IsSession-inputs to_string decimal no_steps = refl
IsSession-inputs to_string decimal (one_step {step = step} follows rest) =
    let (accounting, bound, checked, satisfied) =
      prove_sound to_string decimal step.public_inputs step.witness follows.proved in
    let same = ap (λ p. p.public_inputs) satisfied.returned in
    λ i. same i ∷ IsSession-inputs to_string decimal rest i

module _ (to_string : ℕ → String) (decimal : ℕ → List ℕ) (from_chars : List ℕ → Option (ℕ × ℕ))
    (io : ReadsBack decimal from_chars) where
  -- One round of the replay, on a step that follows.
  replay_one :
      (idx : ℕ) (s : RunningState) (step : RecursiveStep) (proof : BatchProof)
      (proofs : List BatchProof)
      → CountFits to_string step
      → Follows to_string decimal s step proof
      → replay_steps to_string from_chars idx
          (proof ∷ proofs)
          (s.ledger_root, s.history_accumulator)
        ≡ replay_steps to_string from_chars (suc idx) proofs (
          step.public_inputs.post_state_root,
          next_history s.history_accumulator step.public_inputs,
        )
  unfolding replay_steps
  replay_one idx s step proof proofs counted follows =
      let (same, accepted) =
        verify_proof-prove decimal from_chars io to_string step.public_inputs step.witness counted
          follows.proved in
      let accepted_as =
        subst (λ p. verify_proof from_chars p proof ≡ ok ok_value) (sym same) accepted in
      rw (accepted_as, same, follows.from_root, same_bytes_self s.ledger_root) refl

  replay_steps-IsSession :
      {s t : RunningState} {steps : List RecursiveStep} {proofs : List BatchProof}
      → IsSession to_string decimal s steps proofs t
      → All (CountFits to_string) steps
      → (idx : ℕ)
      → replay_steps to_string from_chars idx proofs (s.ledger_root, s.history_accumulator)
        ≡ ok (t.ledger_root, t.history_accumulator)
  unfolding replay_steps
  replay_steps-IsSession no_steps counts idx = refl
  replay_steps-IsSession {s} (one_step {step = step} {proof = proof} {proofs = proofs} follows rest)
        counts idx =
      replay_one idx s step proof proofs counts.0 follows
      ∙ replay_steps-IsSession rest counts.1 (suc idx)

  -- Where the digits of numbers of 64 bits are read back, and the first batch id and the number of
  -- constraints of each step fit 64 bits, what `prove_session` returns `verify_session` accepts, against
  -- the public inputs that it publishes.
  pub verify_session-prove_session :
      (initial_state : RunningState) (steps : List RecursiveStep) {proof : SessionProof}
      → initial_state.batch_id < u64_mod
      → All (CountFits to_string) steps
      → prove_session to_string decimal initial_state steps ≡ ok proof
      → verify_session to_string from_chars proof.public_inputs proof ≡ ok ok_value
  unfolding verify_session
  verify_session-prove_session initial_state steps {proof} fits counts h =
      let (some_steps, first, session, version, batches, count, _, _, _) =
        prove_session-IsSession to_string decimal initial_state steps fits h in
      let from_first =
        subst
          (λ s.
            IsSession to_string decimal s steps proof.step_proofs proof.public_inputs.final_state)
          (sym first) session in
      let counted : (length proof.step_proofs == proof.num_batches
            && not (length proof.step_proofs == 0))
          ≡ true =
        ground (arith, batches, count, some_steps) in
      rw
        (
          version,
          same_state_self proof.public_inputs.initial_state,
          same_state_self proof.public_inputs.final_state,
          counted,
          replay_steps-IsSession from_first counts 0,
          same_bytes_self proof.public_inputs.final_state.ledger_root,
          same_bytes_self proof.public_inputs.final_state.history_accumulator,
        )
        refl
