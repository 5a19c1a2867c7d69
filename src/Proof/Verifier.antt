-- ===== src/Proof/Verifier.antt =====
-- cpp/src/proof/verifier.cpp: the check of the certificate of a proof. `from_chars` gives the number read
-- and how much of the text that took, or nothing.
use fair_cross.Prelude.{
  ℕ, ◌+◌, ◌-◌, Bool, false, not, ◌&&◌, ltb, leb, ◌==◌, List, take, drop, Option, none, some, length,
}
use fair_cross.Domain.Error.{Result, Ok, ◌>>◌, guard, failed_with}
use fair_cross.Commitments.Merkle.{same_bytes}
use fair_cross.Proof.Statement.{BatchProofPublicInputs, BatchProof}
use fair_cross.Proof.Prover.{certificate_prefix, certificate_suffix}

-- `==` of the public inputs.
abbrev pub same_inputs : BatchProofPublicInputs → BatchProofPublicInputs → Bool
same_inputs p q =
    same_bytes p.pre_state_root q.pre_state_root
    && same_bytes p.post_state_root q.post_state_root
    && same_bytes p.batch_header_hash q.batch_header_hash
    && same_bytes p.oracle_snapshot_hash q.oracle_snapshot_hash
    && p.clearing_price == q.clearing_price
    && p.cleared_volume == q.cleared_volume

abbrev pub starts_with : List ℕ → List ℕ → Bool
starts_with text front = same_bytes (take (length front) text) front

abbrev pub ends_with : List ℕ → List ℕ → Bool
ends_with text back =
    leb (length back) (length text) && same_bytes (drop (length text - length back) text) back

-- Whether the text was read to its end, as a number that is not 0.
abbrev pub is_count : List ℕ → Option (ℕ × ℕ) → Bool
is_count text none = false
is_count text (some (value, taken)) = taken == length text && not (value == 0)

module _ (from_chars : List ℕ → Option (ℕ × ℕ)) where
  -- `SingleBatchVerifier::verify`.
  unfoldable pub verify_proof : BatchProofPublicInputs → BatchProof → Result Ok
  verify_proof expected proof = do
    guard (proof.proof_version == 1) (failed_with "Unsupported proof version")
    guard (same_inputs expected proof.public_inputs) (failed_with "PublicInputMismatch")
    let text = proof.proof_bytes
    let fixed = length certificate_prefix + length certificate_suffix
    guard
        (starts_with text certificate_prefix
          && ends_with text certificate_suffix
          && ltb fixed (length text))
        (failed_with "InvalidTransparentCertificate")
    let count_text = take (length text - fixed) (drop (length certificate_prefix) text)
    guard (is_count count_text (from_chars count_text))
        (failed_with "InvalidTransparentCertificate")
