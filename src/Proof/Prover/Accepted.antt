-- ===== src/Proof/Prover/Accepted.antt =====
-- cpp/src/proof/verifier.cpp: the verifier accepts what the prover returns.
use mathlib.Core.List.{append_assoc}
use fair_cross.Prelude.{
  ℕ, ◌+◌, ◌-◌, ◌∙◌, ◌≡◌, ◌≢◌, ◌<◌, ap, refl, sym, subst, arith, true, ltb, leb, List, ◌++◌, take,
  drop, Option, some, length, length-append, take-append, drop-append, String,
}
use fair_cross.Prelude.OrdMap.{==_self}
use fair_cross.Domain.Error.{ok_value, ok, err, Result, >>=-eq-ok, ok-injective}
use fair_cross.Commitments.Merkle.Inclusion.{same_bytes_self}
use fair_cross.Proof.Statement.{BatchProofPublicInputs, BatchProofWitness, BatchProof}
use fair_cross.Engine.Accounting.{CompleteInputAccounting}
use fair_cross.Commitments.Merkle.{MerkleTree}
use fair_cross.Proof.R1cs.{ConstraintSystem, is_satisfied}
use fair_cross.Proof.Constraints.CompleteInput.{headed}
use fair_cross.Domain.Words.{u64_mod}
use fair_cross.Proof.Prover.{
  bind_inputs, check_invariants, synthesize_all, prove, certificate_prefix, certificate_suffix,
}
use fair_cross.Proof.Verifier.{starts_with, ends_with, is_count, same_inputs, verify_proof}
use fair_cross.Proof.Prover.Counted.{synthesize_all-some}

same_inputs_self : (p : BatchProofPublicInputs) → same_inputs p p ≡ true
same_inputs_self p =
    rw
      (
        same_bytes_self p.pre_state_root,
        same_bytes_self p.post_state_root,
        same_bytes_self p.batch_header_hash,
        same_bytes_self p.oracle_snapshot_hash,
        ==_self p.clearing_price,
        ==_self p.cleared_volume,
      )
      refl

starts_with-append : (front rest : List ℕ) → starts_with (front ++ rest) front ≡ true
starts_with-append front rest = rw (take-append front rest, same_bytes_self front) refl

-- The length of a text of three parts, and the middle one taken out of it.
length_between :
    (front middle back : List ℕ)
    → length (front ++ (middle ++ back)) ≡ length front + (length middle + length back)
length_between front middle back =
    omega (arith, length-append front (middle ++ back), length-append middle back)

taken_between :
    (front middle back : List ℕ)
    → take
        (length (front ++ (middle ++ back)) - (length front + length back))
        (drop (length front) (front ++ (middle ++ back)))
      ≡ middle
taken_between front middle back =
    let size : length (front ++ (middle ++ back)) - (length front + length back) ≡ length middle =
      omega (arith, length_between front middle back) in
    rw (size, drop-append front (middle ++ back)) (take-append middle back)

ends_with-append : (front back : List ℕ) → ends_with (front ++ back) back ≡ true
ends_with-append front back =
    let size : length (front ++ back) - length back ≡ length front =
      omega (arith, length-append front back) in
    let fits : leb (length back) (length (front ++ back)) ≡ true =
      ground (arith, length-append front back) in
    rw (fits, size, drop-append front back, same_bytes_self back) refl

-- What is relied on of the streams and of `std::from_chars`: the digits of a number of 64 bits are some
-- bytes, which are read back to it, whole.
pub record ReadsBack (decimal : ℕ → List ℕ) (from_chars : List ℕ → Option (ℕ × ℕ)) : Type 0 where
  pub some_digits : (n : ℕ) → n < u64_mod → 0 < length (decimal n)
  pub reads : (n : ℕ) → n < u64_mod → from_chars (decimal n) ≡ some (n, length (decimal n))

module _ (to_string : ℕ → String) (public_inputs : BatchProofPublicInputs)
    (witness : BatchProofWitness) where
  abbrev count_of : Result (ConstraintSystem × List ℕ) → ℕ
  count_of (ok synthesis) = length synthesis.0.constraints
  count_of (err e) = 0

  abbrev count_from : Result (MerkleTree × CompleteInputAccounting) → ℕ
  count_from (ok bound) = count_of (synthesize_all to_string public_inputs witness bound.0 bound.1)
  count_from (err e) = 0

  -- How many constraints `prove` builds, none where it fails before.
  abbrev pub constraint_count : ℕ
  constraint_count = count_from (bind_inputs public_inputs witness)

  -- It is the number in the certificate.
  prove-constraint_count :
      (decimal : ℕ → List ℕ) {proof : BatchProof}
      → prove to_string decimal public_inputs witness ≡ ok proof
      → (constraint_count ≢ 0)
        × (proof ≡ record {
          proof_version = 1;
          public_inputs = public_inputs;
          proof_bytes = certificate_prefix ++ (decimal constraint_count ++ certificate_suffix);
        })
  unfolding prove
  prove-constraint_count decimal {proof} h =
      let (bound, a1, e1) = >>=-eq-ok (bind_inputs public_inputs witness) _ h in
      let (_, a2, e2) =
        >>=-eq-ok (check_invariants to_string public_inputs witness bound.0 bound.1) _ e1 in
      let (synthesis, a3, e3) =
        >>=-eq-ok (synthesize_all to_string public_inputs witness bound.0 bound.1) _ e2 in
      let (_, a4, e4) = >>=-eq-ok (headed _ (is_satisfied synthesis.0 _ synthesis.1)) _ e3 in
      let counted : constraint_count ≡ length synthesis.0.constraints =
        ap count_from a1 ∙ ap count_of a3 in
      let some_left =
        synthesize_all-some to_string public_inputs witness bound.0 bound.1 {scalars = synthesis.1}
          a3 in
      subst
        (λ n.
          (n ≢ 0)
          × (proof ≡ record {
            proof_version = 1;
            public_inputs = public_inputs;
            proof_bytes = certificate_prefix ++ (decimal n ++ certificate_suffix);
          }))
        (sym counted) (some_left, sym (ok-injective e4))

module _ (decimal : ℕ → List ℕ) (from_chars : List ℕ → Option (ℕ × ℕ))
    (io : ReadsBack decimal from_chars) where
  certificate_accepted :
      (public_inputs : BatchProofPublicInputs) (count : ℕ)
      → count ≢ 0
      → count < u64_mod
      → verify_proof from_chars public_inputs (record {
        proof_version = 1;
        public_inputs = public_inputs;
        proof_bytes = certificate_prefix ++ (decimal count ++ certificate_suffix);
      })
        ≡ ok ok_value
  unfolding verify_proof
  certificate_accepted public_inputs count some_count fits =
      let digits = decimal count in
      let text = certificate_prefix ++ (digits ++ certificate_suffix) in
      let starts = starts_with-append certificate_prefix (digits ++ certificate_suffix) in
      let ends : ends_with text certificate_suffix ≡ true =
        subst (λ t. ends_with t certificate_suffix ≡ true)
          (append_assoc certificate_prefix digits certificate_suffix)
          (ends_with-append (certificate_prefix ++ digits) certificate_suffix) in
      let longer : ltb (length certificate_prefix + length certificate_suffix) (length text)
          ≡ true =
        ground (
          arith,
          length_between certificate_prefix digits certificate_suffix,
          io.some_digits count fits,
        ) in
      let middle = taken_between certificate_prefix digits certificate_suffix in
      let counted : is_count digits (from_chars digits) ≡ true =
        rw (io.reads count fits, ==_self (length digits)) (ground arith) in
      rw (same_inputs_self public_inputs, starts, ends, longer, middle, counted) refl

  -- What the prover returns is accepted by the verifier, against the public inputs it is of; the number
  -- of its constraints fits 64 bits.
  pub verify_proof-prove :
      (to_string : ℕ → String) (public_inputs : BatchProofPublicInputs)
      (witness : BatchProofWitness) {proof : BatchProof}
      → constraint_count to_string public_inputs witness < u64_mod
      → prove to_string decimal public_inputs witness ≡ ok proof
      → (proof.public_inputs ≡ public_inputs)
        × (verify_proof from_chars public_inputs proof ≡ ok ok_value)
  verify_proof-prove to_string public_inputs witness fits h =
      let (some_left, returned) =
        prove-constraint_count to_string public_inputs witness decimal h in
      (
        ap (λ p. p.public_inputs) returned,
        subst (λ p. verify_proof from_chars public_inputs p ≡ ok ok_value) (sym returned)
            (certificate_accepted public_inputs (constraint_count to_string public_inputs witness)
              some_left fits),
      )
