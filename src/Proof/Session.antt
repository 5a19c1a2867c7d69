-- ===== src/Proof/Session.antt =====
-- cpp/include/faircross/proof/recursive and cpp/src/proof/recursive: sessions of batches, each from the
-- state where the one before ended. The parameters are those of the proofs of batches.
pub mod Chain
pub mod Accepted
pub mod Binding
use Prim.Native.String.{◌++◌ as concat}
use fair_cross.Prelude.{
  ℕ, zero, suc, ◌+◌, ◌/◌, ◌%◌, Bool, not, ◌&&◌, ltb, leb, ◌==◌, if◌then◌else◌, List, [], ◌∷◌, ◌++◌,
  Option, length, String,
}
use fair_cross.Domain.Error.{
  Result, Ok, ok_value, ok, ◌>>=◌, ◌>>◌, guard, converted, domain_error, instrument_mismatch,
  failed_with,
}
use fair_cross.Domain.Words.{BatchId, InstrumentId, add64}
use fair_cross.Domain.Encoding.{append_le64}
use fair_cross.Commitments.Sha256.{Commitment, commit_raw_bytes}
use fair_cross.Commitments.Merkle.{same_bytes}
use fair_cross.Domain.Account.{zero_salt}
use fair_cross.Proof.Statement.{BatchProofPublicInputs, BatchProofWitness, BatchProof}
use fair_cross.Proof.Constraints.CompleteInput.{headed}
use fair_cross.Proof.Prover.{prove}
use fair_cross.Proof.Verifier.{verify_proof}

pub record RunningState : Type 0 where
  pub ledger_root : Commitment
  pub history_accumulator : Commitment
  pub batch_id : BatchId
  pub timestamp_nanos : ℕ
  pub instrument_id : InstrumentId

-- `RunningState::genesis`; `Commitment::zero()` is 32 zero bytes.
abbrev pub genesis : Commitment → InstrumentId → RunningState
genesis initial_ledger_root instrument_id = record {
  ledger_root = initial_ledger_root;
  history_accumulator = zero_salt;
  batch_id = 0;
  timestamp_nanos = 0;
  instrument_id = instrument_id;
}

-- `H_k = Hash(H_{k-1} || header_hash || cp || vol)`.
unfoldable pub next_history : Commitment → BatchProofPublicInputs → Commitment
next_history history inputs = commit_raw_bytes (
    append_le64 (append_le64 (history ++ inputs.batch_header_hash) inputs.clearing_price)
      inputs.cleared_volume)

pub record RecursiveStep : Type 0 where
  pub public_inputs : BatchProofPublicInputs
  pub witness : BatchProofWitness
  pub timestamp_nanos : ℕ

pub record SessionProofPublicInputs : Type 0 where
  pub initial_state : RunningState
  pub final_state : RunningState

pub record SessionProof : Type 0 where
  pub session_version : ℕ
  pub num_batches : ℕ
  pub public_inputs : SessionProofPublicInputs
  pub step_proofs : List BatchProof
  pub proof_certificate : List ℕ

-- Lower-case hexadecimal, two digits for each byte.
abbrev hex_digit : ℕ → ℕ
hex_digit d = if ltb d 10 then 48 + d else 87 + d

unfoldable pub to_hex : Commitment → List ℕ
to_hex [] = []
to_hex (b ∷ bytes) = hex_digit (b / 16) ∷ hex_digit (b % 16) ∷ to_hex bytes

abbrev pub session_prefix : List ℕ
session_prefix =
    b'F' ∷ b'C' ∷ b'-' ∷ b'S' ∷ b'E' ∷ b'S' ∷ b'S' ∷ b'I' ∷ b'O' ∷ b'N' ∷ b'-' ∷ b'P' ∷ b'R' ∷ b'O'
    ∷ b'O' ∷ b'F' ∷ b'-' ∷ b'V' ∷ b'1' ∷ b':' ∷ b'b' ∷ b'a' ∷ b't' ∷ b'c' ∷ b'h' ∷ b'e' ∷ b's'
    ∷ b'=' ∷ []

abbrev pub history_mark : List ℕ
history_mark =
    b':' ∷ b'h' ∷ b'i' ∷ b's' ∷ b't' ∷ b'o' ∷ b'r' ∷ b'y' ∷ b'_' ∷ b'a' ∷ b'c' ∷ b'c' ∷ b'=' ∷ []

abbrev pub final_mark : List ℕ
final_mark =
    b':' ∷ b'f' ∷ b'i' ∷ b'n' ∷ b'a' ∷ b'l' ∷ b'_' ∷ b'b' ∷ b'a' ∷ b't' ∷ b'c' ∷ b'h' ∷ b'=' ∷ []

module _ (to_string : ℕ → String) (decimal : ℕ → List ℕ) where
  unfoldable pub fold_step :
      BatchProofPublicInputs → BatchProofWitness → ℕ → RunningState → Result RunningState
  unfolding next_history
  fold_step public_inputs witness step_timestamp_nanos state = do
    guard (witness.batch.batch_id == add64 state.batch_id 1)
        (failed_with "BatchSequenceContinuityFailed")
    guard (witness.batch.instrument == state.instrument_id)
        (domain_error instrument_mismatch "InstrumentContinuityFailed")
    guard (not (ltb step_timestamp_nanos state.timestamp_nanos))
        (failed_with "TimestampMonotonicityFailed")
    guard (same_bytes public_inputs.pre_state_root state.ledger_root)
        (failed_with "pre_state_root_continuity")
    proof ← converted (prove to_string decimal public_inputs witness)
    ok (record {
      ledger_root = public_inputs.post_state_root;
      history_accumulator = next_history state.history_accumulator public_inputs;
      batch_id = witness.batch.batch_id;
      timestamp_nanos = step_timestamp_nanos;
      instrument_id = state.instrument_id;
    })

  abbrev pub step_error : ℕ → String → String
  step_error idx what = concat "step_" (concat (to_string idx) what)

  -- The loop over the steps: the last state and the proofs.
  unfoldable pub prove_steps :
      ℕ → List RecursiveStep → RunningState → Result (RunningState × List BatchProof)
  unfolding fold_step
  prove_steps idx [] state = ok (state, [])
  prove_steps idx (step ∷ steps) state = do
    state ←
        headed (step_error idx "_fold: ")
          (fold_step step.public_inputs step.witness step.timestamp_nanos state)
    proof ←
        headed (step_error idx "_prove: ") (prove to_string decimal step.public_inputs step.witness)
    (final, proofs) ← prove_steps (suc idx) steps state
    ok (final, proof ∷ proofs)

  unfoldable pub prove_session : RunningState → List RecursiveStep → Result SessionProof
  unfolding prove_steps to_hex
  prove_session initial_state steps = do
    guard (not (length steps == 0)) (failed_with "InvalidWitness: cannot prove empty session")
    (final, proofs) ← prove_steps 0 steps initial_state
    ok (record {
      session_version = 1;
      num_batches = length steps;
      public_inputs = record { initial_state = initial_state; final_state = final };
      step_proofs = proofs;
      proof_certificate =
          session_prefix
          ++ (decimal (length steps)
              ++ (history_mark
                  ++ (to_hex final.history_accumulator ++ (final_mark ++ decimal final.batch_id))));
    })

-- `==` of running states.
abbrev pub same_state : RunningState → RunningState → Bool
same_state a b =
    same_bytes a.ledger_root b.ledger_root
    && same_bytes a.history_accumulator b.history_accumulator
    && a.batch_id == b.batch_id
    && a.timestamp_nanos == b.timestamp_nanos
    && a.instrument_id == b.instrument_id

module _ (to_string : ℕ → String) (from_chars : List ℕ → Option (ℕ × ℕ)) where
  -- The loop of `verify_session`: the last root and history.
  unfoldable pub replay_steps :
      ℕ → List BatchProof → Commitment × Commitment → Result (Commitment × Commitment)
  unfolding next_history
  replay_steps idx [] (last_root, history) = ok (last_root, history)
  replay_steps idx (proof ∷ proofs) (last_root, history) = do
    headed (concat "step_" (concat (to_string idx) "_verify: "))
        (verify_proof from_chars proof.public_inputs proof)
    guard (same_bytes proof.public_inputs.pre_state_root last_root)
        (failed_with (concat "step_" (concat (to_string idx) "_pre_state_continuity")))
    replay_steps (suc idx) proofs
        (proof.public_inputs.post_state_root, next_history history proof.public_inputs)

  unfoldable pub verify_session : SessionProofPublicInputs → SessionProof → Result Ok
  unfolding replay_steps
  verify_session expected proof = do
    guard (proof.session_version == 1)
        (failed_with (concat "UnsupportedProofVersion: " (to_string proof.session_version)))
    guard
        (same_state proof.public_inputs.initial_state expected.initial_state
          && same_state proof.public_inputs.final_state expected.final_state)
        (failed_with "PublicInputMismatch: session_public_inputs")
    guard (length proof.step_proofs == proof.num_batches && not (length proof.step_proofs == 0))
        (failed_with "InvalidProofArtifact: step proofs count mismatch")
    (last_root, history) ←
        replay_steps 0 proof.step_proofs
          (expected.initial_state.ledger_root, expected.initial_state.history_accumulator)
    guard (same_bytes last_root expected.final_state.ledger_root)
        (failed_with "PublicInputMismatch: final_ledger_root")
    guard (same_bytes history expected.final_state.history_accumulator)
        (failed_with "PublicInputMismatch: final_history_accumulator")
