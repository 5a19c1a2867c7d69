-- ===== src/Proof/Session/Binding.antt =====
-- cpp/src/proof/recursive/verifier.cpp: what an accepted session is bound to.
use mathlib.Core.List.{append-nil, head-eq_of_cons-eq, tail-eq_of_cons-eq}
use fair_cross.Prelude.{
  ℕ, suc, ◌≡◌, ◌<◌, ◌∙◌, ◌⊎◌, inl, inr, ap, refl, sym, subst, arith, not, ◌&&◌, ◌==◌, List, [], ◌∷◌,
  ◌++◌, map, Option, length, length-append, String, All,
}
use fair_cross.Domain.Error.{
  ok_value, ok, guard, IsOk, IsOk-eq-ok, >>=-eq-ok, guard-eq-ok, ok-injective,
}
use fair_cross.Domain.Words.{u64_mod}
use fair_cross.Domain.Encoding.{append_le64}
use fair_cross.Domain.Encoding.Bytes.{little_endian, append_le64-little_endian, word_read}
use fair_cross.Commitments.Sha256.{Commitment}
use fair_cross.Commitments.Bytes.{
  IsBytes, IsDigest, IsBytes-append, append_le64-IsBytes, commit_raw_bytes-IsDigest,
}
use fair_cross.Commitments.Collision.{LeafCollision, LeafClash, leaf_collision, in_fronts, in_rests}
use fair_cross.Commitments.Merkle.{same_bytes}
use fair_cross.Commitments.Merkle.Binding.{same_bytes-eq}
use fair_cross.Commitments.Payloads.Binding.{commit_raw_bytes_binding}
use fair_cross.Proof.Statement.{BatchProofPublicInputs, BatchProof}
use fair_cross.Proof.Constraints.CompleteInput.{headed}
use fair_cross.Proof.Verifier.{verify_proof}
use fair_cross.Proof.Prover.Bound.{headed-eq-ok}
use fair_cross.Proof.Session.{
  SessionProof, SessionProofPublicInputs, next_history, same_state, replay_steps, verify_session,
}

-- Two texts that are equal and end on parts of one length have the same fronts and the same ends.
split_at_end :
    (xs ys us vs : List ℕ) → length us ≡ length vs → xs ++ us ≡ ys ++ vs → (xs ≡ ys) × (us ≡ vs)
split_at_end [] [] us vs sizes h = (refl, h)
split_at_end [] (y ∷ ys) us vs sizes h =
    let size : length us ≡ suc (length (ys ++ vs)) = ap length h in
    absurd (omega (arith, length-append ys vs))
split_at_end (x ∷ xs) [] us vs sizes h =
    let size : suc (length (xs ++ us)) ≡ length vs = ap length h in
    absurd (omega (arith, length-append xs us))
split_at_end (x ∷ xs) (y ∷ ys) us vs sizes h =
    let (front, back) = split_at_end xs ys us vs sizes (tail-eq_of_cons-eq h) in
    (λ i. head-eq_of_cons-eq h i ∷ front i, back)

-- What the history keeps of a batch.
abbrev pub recorded : BatchProofPublicInputs → Commitment × (ℕ × ℕ)
recorded inputs = (inputs.batch_header_hash, (inputs.clearing_price, inputs.cleared_volume))

pub record IsWordInputs (inputs : BatchProofPublicInputs) : Type 0 where
  pub header_digest : IsDigest inputs.batch_header_hash
  pub price_fits : inputs.clearing_price < u64_mod
  pub volume_fits : inputs.cleared_volume < u64_mod

-- What is hashed for the history after a batch.
abbrev pub history_payload : Commitment → BatchProofPublicInputs → List ℕ
history_payload history inputs =
    append_le64 (append_le64 (history ++ inputs.batch_header_hash) inputs.clearing_price)
      inputs.cleared_volume

-- Two histories that go on to the same one are the same, and so is what they record.
next_history_binding :
    (h k : Commitment) (p q : BatchProofPublicInputs)
    → IsWordInputs p
    → IsWordInputs q
    → next_history h p ≡ next_history k q
    → ((h ≡ k) × (recorded p ≡ recorded q))
      ⊎ LeafClash (history_payload h p ∷ []) (history_payload k q ∷ [])
unfolding next_history
next_history_binding h k p q fits_p fits_q e = elim (commit_raw_bytes_binding _ _ e) [
  | inl same ↦ inl (read same)
  | inr c ↦ inr c
]
  where
    bytes :
        (front : List ℕ) (price volume : ℕ)
        → append_le64 (append_le64 front price) volume
          ≡ front ++ little_endian 8 price (little_endian 8 volume [])
    bytes front price volume =
        sym (append-nil (append_le64 (append_le64 front price) volume))
        ∙ append_le64-little_endian (append_le64 front price) volume []
        ∙ append_le64-little_endian front price (little_endian 8 volume [])

    read : history_payload h p ≡ history_payload k q → (h ≡ k) × (recorded p ≡ recorded q)
    read same =
        let (fronts, ends) =
          split_at_end (h ++ p.batch_header_hash) (k ++ q.batch_header_hash) _ _ refl
            (sym (bytes _ _ _) ∙ same ∙ bytes _ _ _) in
        let (histories, headers) =
          split_at_end h k _ _ (fits_p.header_digest.size ∙ sym fits_q.header_digest.size) fronts in
        let (price, rest) = word_read _ _ _ _ fits_p.price_fits fits_q.price_fits ends in
        let (volume, _) = word_read _ _ _ _ fits_p.volume_fits fits_q.volume_fits rest in
        (histories, λ i. (headers i, (price i, volume i)))

-- The history over some proofs, from a history before them.
abbrev pub history_along : List BatchProof → Commitment → Commitment
history_along [] history = history
history_along (proof ∷ proofs) history =
    history_along proofs (next_history history proof.public_inputs)

-- What is hashed for it.
abbrev pub payloads_along : List BatchProof → Commitment → List (List ℕ)
payloads_along [] history = []
payloads_along (proof ∷ proofs) history =
    history_payload history proof.public_inputs
    ∷ payloads_along proofs (next_history history proof.public_inputs)

abbrev pub all_recorded : List BatchProof → List (Commitment × (ℕ × ℕ))
all_recorded proofs = map (λ p. recorded p.public_inputs) proofs

history_along_binding :
    (ps qs : List BatchProof) (h k : Commitment)
    → length ps ≡ length qs
    → All IsWordInputs (map (λ p. p.public_inputs) ps)
    → All IsWordInputs (map (λ p. p.public_inputs) qs)
    → history_along ps h ≡ history_along qs k
    → ((h ≡ k) × (all_recorded ps ≡ all_recorded qs))
      ⊎ LeafClash (payloads_along ps h) (payloads_along qs k)
history_along_binding [] [] h k sizes fits_p fits_q e = inl (e, refl)
history_along_binding [] (q ∷ qs) h k sizes fits_p fits_q e = absurd (omega arith)
history_along_binding (p ∷ ps) [] h k sizes fits_p fits_q e = absurd (omega arith)
history_along_binding (p ∷ ps) (q ∷ qs) h k sizes fits_p fits_q e =
    let h' = next_history h p.public_inputs in
    let k' = next_history k q.public_inputs in
    let x = history_payload h p.public_inputs in
    let y = history_payload k q.public_inputs in
    elim (history_along_binding ps qs h' k' (omega arith) fits_p.1 fits_q.1 e) [
      | inl (histories, rest) ↦
          elim (next_history_binding h k p.public_inputs q.public_inputs fits_p.0 fits_q.0
            histories) [
              | inl (before, first) ↦ inl (before, λ i. first i ∷ rest i)
              | inr c ↦
                  inr (in_fronts (x ∷ []) (payloads_along ps h') (y ∷ []) (payloads_along qs k') c)
            ]
      | inr c ↦ inr (in_rests (x ∷ []) (payloads_along ps h') (y ∷ []) (payloads_along qs k') c)
    ]

payloads_along-IsBytes :
    (ps : List BatchProof) (h : Commitment)
    → All IsWordInputs (map (λ p. p.public_inputs) ps)
    → IsBytes h
    → All IsBytes (payloads_along ps h)
unfolding next_history
payloads_along-IsBytes [] h fits k = tt
payloads_along-IsBytes (p ∷ ps) h fits k =
    let inputs = p.public_inputs in
    (
      append_le64-IsBytes (append_le64 (h ++ inputs.batch_header_hash) inputs.clearing_price)
          inputs.cleared_volume
          (append_le64-IsBytes (h ++ inputs.batch_header_hash) inputs.clearing_price
            (IsBytes-append h inputs.batch_header_hash k fits.0.header_digest.bytes)),
      payloads_along-IsBytes ps (next_history h inputs) fits.1
          (commit_raw_bytes-IsDigest (history_payload h inputs)).bytes,
    )

-- Proofs that lead from a root to a root, each from where the one before ended.
abbrev pub IsLinked : Commitment → List BatchProof → Commitment → Type 0
IsLinked first [] last = first ≡ last
IsLinked first (proof ∷ proofs) last =
    (proof.public_inputs.pre_state_root ≡ first)
    × IsLinked proof.public_inputs.post_state_root proofs last

module _ (to_string : ℕ → String) (from_chars : List ℕ → Option (ℕ × ℕ)) where
  replay_steps-eq-ok :
      (idx : ℕ) (proofs : List BatchProof) (start : Commitment × Commitment)
      {last : Commitment × Commitment}
      → replay_steps to_string from_chars idx proofs start ≡ ok last
      → All (λ p. verify_proof from_chars p.public_inputs p ≡ ok ok_value) proofs
        × IsLinked start.0 proofs last.0
        × (last.1 ≡ history_along proofs start.1)
  unfolding replay_steps
  replay_steps-eq-ok idx [] start h =
      (tt, ap (λ s. s.0) (ok-injective h), sym (ap (λ s. s.1) (ok-injective h)))
  replay_steps-eq-ok idx (proof ∷ proofs) start h =
      let (_, a1, e1) =
        >>=-eq-ok (headed _ (verify_proof from_chars proof.public_inputs proof)) _ h in
      let (_, g2, e2) =
        >>=-eq-ok (guard (same_bytes proof.public_inputs.pre_state_root start.0) _) _ e1 in
      let (all, linked, history) = replay_steps-eq-ok (suc idx) proofs _ e2 in
      ((headed-eq-ok _ _ a1, all), (same_bytes-eq _ _ (guard-eq-ok _ _ g2), linked), history)

  -- A session that is accepted has at least one step; each of its proofs is accepted, they lead from the
  -- root of the first state to that of the last, and their history from that of the first state is that
  -- of the last.
  pub verify_session_sound :
      (expected : SessionProofPublicInputs) (proof : SessionProof)
      → IsOk (verify_session to_string from_chars expected proof)
      → (0 < length proof.step_proofs)
        × (length proof.step_proofs ≡ proof.num_batches)
        × All (λ p. verify_proof from_chars p.public_inputs p ≡ ok ok_value) proof.step_proofs
        × IsLinked expected.initial_state.ledger_root proof.step_proofs
            expected.final_state.ledger_root
        × (expected.final_state.history_accumulator
            ≡ history_along proof.step_proofs expected.initial_state.history_accumulator)
  unfolding verify_session
  verify_session_sound expected proof h =
      let (_, e) = IsOk-eq-ok _ h in
      let (_, g1, e1) = >>=-eq-ok (guard (proof.session_version == 1) _) _ e in
      let (_, g2, e2) =
        >>=-eq-ok
          (guard
            (same_state proof.public_inputs.initial_state expected.initial_state
              && same_state proof.public_inputs.final_state expected.final_state)
            _)
          _ e1 in
      let (_, g3, e3) =
        >>=-eq-ok
          (guard
            (length proof.step_proofs == proof.num_batches && not (length proof.step_proofs == 0))
            _)
          _ e2 in
      let (last, a4, e4) =
        >>=-eq-ok
          (replay_steps to_string from_chars 0 proof.step_proofs
            (expected.initial_state.ledger_root, expected.initial_state.history_accumulator))
          _ e3 in
      let (_, g5, e5) =
        >>=-eq-ok (guard (same_bytes last.0 expected.final_state.ledger_root) _) _ e4 in
      let (all, linked, history) = replay_steps-eq-ok 0 proof.step_proofs _ a4 in
      let counted = guard-eq-ok _ _ g3 in
      (
        ground arith,
        ground arith,
        all,
        subst (λ r. IsLinked expected.initial_state.ledger_root proof.step_proofs r)
            (same_bytes-eq _ _ (guard-eq-ok _ _ g5)) linked,
        sym (same_bytes-eq _ _ (guard-eq-ok _ _ e5)) ∙ history,
      )

  -- Two sessions of as many steps that are accepted against the same public inputs record the same
  -- batches, prices and volumes, in order, or two different byte strings hashed for their histories
  -- collide; the first history is of bytes, the headers of the steps are digests of 32 bytes, and their
  -- numbers fit their types.
  pub verify_session_binding :
      (expected : SessionProofPublicInputs) (a b : SessionProof)
      → IsOk (verify_session to_string from_chars expected a)
      → IsOk (verify_session to_string from_chars expected b)
      → a.num_batches ≡ b.num_batches
      → All IsWordInputs (map (λ p. p.public_inputs) a.step_proofs)
      → All IsWordInputs (map (λ p. p.public_inputs) b.step_proofs)
      → IsBytes expected.initial_state.history_accumulator
      → (all_recorded a.step_proofs ≡ all_recorded b.step_proofs)
        ⊎ LeafCollision
            (payloads_along a.step_proofs expected.initial_state.history_accumulator)
            (payloads_along b.step_proofs expected.initial_state.history_accumulator)
  verify_session_binding expected a b accepted_a accepted_b sizes fits_a fits_b starts =
      let before = expected.initial_state.history_accumulator in
      let (_, count_a, _, _, history_a) = verify_session_sound expected a accepted_a in
      let (_, count_b, _, _, history_b) = verify_session_sound expected b accepted_b in
      elim (history_along_binding a.step_proofs b.step_proofs _ _ (count_a ∙ sizes ∙ sym count_b)
        fits_a fits_b (sym history_a ∙ history_b)) [
          | inl (_, same) ↦ inl same
          | inr c ↦ inr (
              leaf_collision (payloads_along a.step_proofs before)
                (payloads_along b.step_proofs before)
                (payloads_along-IsBytes a.step_proofs before fits_a starts)
                (payloads_along-IsBytes b.step_proofs before fits_b starts) c)
        ]
