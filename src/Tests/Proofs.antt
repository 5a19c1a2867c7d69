-- ===== src/Tests/Proofs.antt =====
-- The proof of a batch of two crossing orders, and a session of it.
use fair_cross.Prelude.{
  ℕ, zero, suc, ◌+◌, ◌-◌, ◌≡◌, List, [], ◌∷◌, map, length, replicate, Option, some, none, All,
  String, refl,
}
use fair_cross.Domain.Error.{ok, ok_value, IsOk, IsOk-eq-ok}
use fair_cross.Domain.Order.{Order, SaltedOrderPreimage, buy, sell}
use fair_cross.Prelude.OrdMap.{lookup, insert, erase}
use fair_cross.Engine.Checker.{order_map}
use fair_cross.Engine.Auction.{determine_clearing_outcome}
use fair_cross.Engine.Allocation.{allocate_batch}
use fair_cross.Engine.Fills.{generate_canonical_fills}
use fair_cross.Engine.Transition.{apply_fills}
use fair_cross.Proof.R1cs.{is_satisfied}
use fair_cross.Proof.Constraints.OrderValidity.{synthesize_order_validity_constraints}
use fair_cross.Proof.Constraints.CompleteInput.{synthesize_complete_input_accounting_constraints}
use fair_cross.Proof.Constraints.Clearing.{
  synthesize_clearing_optimality_constraints, synthesize_allocation_constraints,
}
use fair_cross.Proof.Constraints.FillBounds.{synthesize_fill_bounds_constraints}
use fair_cross.Proof.Constraints.Conservation.{synthesize_conservation_constraints}
use fair_cross.Proof.Constraints.Oracle.{synthesize_oracle_freshness_constraints}
use fair_cross.Domain.Ledger.{Ledger}
use fair_cross.Domain.Fill.{Fill}
use fair_cross.Engine.Batch.{Batch}
use fair_cross.Engine.Allocation.{BatchAllocation, allocation_of}
use fair_cross.Engine.Accounting.{build_complete_input_accounting}
use fair_cross.Commitments.Sha256.{Commitment}
use fair_cross.Commitments.Merkle.{new_tree}
use fair_cross.Commitments.Payloads.{
  canonical_encode, commit_order, compute_batch_commitment, compute_oracle_snapshot_commitment,
}
use fair_cross.Commitments.LedgerRoot.{compute_ledger_root}
use fair_cross.Proof.Statement.{BatchProofPublicInputs, BatchProofWitness, BatchProof}
use fair_cross.Prelude.{◌↔◌}
use fair_cross.Proof.R1cs.{new_system, is_satisfied}
use fair_cross.Proof.Constraints.OrderValidity.{synthesize_order_validity_constraints}
use fair_cross.Proof.Constraints.OrderValidity.Exact.{
  IsWordOrder, InPlace, synthesize_order_validity_iff,
}
use fair_cross.Proof.Prover.{prove, header_of}
use fair_cross.Prelude.{ltb, true, ◌<◌, ◌≤◌, ◌%◌, ◌⊎◌, arith, sym, subst}
use fair_cross.Commitments.Sha256.Padding.{length-replicate}
use fair_cross.Domain.Words.{u64_mod, add64}
use fair_cross.Engine.Accounting.{CompleteInputAccounting}
use fair_cross.Commitments.Merkle.Inclusion.{same_bytes_self}
use fair_cross.Tests.Commitments.{repeated-IsBytes}
use fair_cross.Commitments.Bytes.{IsBytes, commit_raw_bytes-IsDigest}
use fair_cross.Commitments.Collision.{LeafCollision}
use fair_cross.Proof.Verifier.{verify_proof}
use fair_cross.Proof.Prover.Bound.{IsBound}
use fair_cross.Proof.Prover.Sound.{IsChecked, IsSatisfied, prove_sound}
use fair_cross.Proof.Prover.Accepted.{ReadsBack, constraint_count}
use fair_cross.Proof.Session.{
  RunningState, RecursiveStep, SessionProof, genesis, fold_step, prove_session, verify_session,
}
use fair_cross.Proof.Session.Chain.{IsSession, prove_session-IsSession}
use fair_cross.Proof.Session.Accepted.{IsSession-inputs, CountFits, verify_session-prove_session}
use fair_cross.Proof.Session.Binding.{
  payloads_along, IsLinked, history_along, all_recorded, IsWordInputs, verify_session_sound,
  verify_session_binding,
}
use fair_cross.Tests.{limit_order, account, executed_fill}
use fair_cross.Tests.Checker.{unary}

abbrev trade : Batch
trade = record {
  batch_id = 1;
  instrument = 7;
  orders = limit_order 0 1 buy 102 10 ∷ limit_order 1 2 sell 98 6 ∷ [];
}

abbrev before : Ledger
before = (1, account 1 5000 1) ∷ (2, account 2 0 20) ∷ []

abbrev after : Ledger
after = (1, account 1 4400 7) ∷ (2, account 2 600 14) ∷ []

abbrev trade_preimages : List SaltedOrderPreimage
trade_preimages = map (λ o. record { order = o; nonce = replicate 32 9 }) trade.orders

abbrev trade_allocation : BatchAllocation
trade_allocation = record {
  clearing_price = some 100;
  target_volume = 6;
  total_buy_allocated = 6;
  total_sell_allocated = 6;
  allocations =
      allocation_of (limit_order 0 1 buy 102 10) 6
      ∷ allocation_of (limit_order 1 2 sell 98 6) 6
      ∷ [];
}

abbrev trade_witness : BatchProofWitness
trade_witness = record {
  pre_state = before;
  post_state = after;
  batch = trade;
  preimages = trade_preimages;
  allocation = trade_allocation;
  fills = executed_fill 0 0 1 buy 6 ∷ executed_fill 1 1 2 sell 6 ∷ [];
  accounting = (build_complete_input_accounting trade trade_preimages trade_allocation).1;
  oracle_snapshot = some (record {
    oracle_id = 1;
    instrument_id = 7;
    reference_price = 101;
    timestamp_nanos = 990;
    sequence = 4;
  });
  oracle_policy = some (record { max_staleness_nanos = 50; max_deviation_ticks = 5 });
  batch_cutoff_nanos = 1000;
}

abbrev trade_inputs : BatchProofPublicInputs
trade_inputs = record {
  pre_state_root = compute_ledger_root before 7;
  post_state_root = compute_ledger_root after 7;
  batch_header_hash =
      compute_batch_commitment
        (header_of trade_witness (new_tree (map commit_order trade_preimages)));
  oracle_snapshot_hash =
      compute_oracle_snapshot_commitment trade_witness.oracle_snapshot trade_witness.oracle_policy;
  clearing_price = 100;
  cleared_volume = 6;
}

-- Digits that are read back: one more mark than the number.
abbrev marks : ℕ → List ℕ
marks n = replicate (suc n) 49

abbrev count_marks : List ℕ → Option (ℕ × ℕ)
count_marks text = some (length text - 1, length text)

trade_run :
    IsOk (prove unary marks trade_inputs trade_witness)
    × (ltb (constraint_count unary trade_inputs trade_witness) u64_mod ≡ true)
unfolding fair_cross.Commitments.LedgerRoot.compute_ledger_root
    fair_cross.Commitments.Sha256.transform fair_cross.Commitments.Sha256.commit_raw_bytes
    fair_cross.Commitments.Sha256.combine_nodes fair_cross.Commitments.Merkle.verify
    fair_cross.Commitments.Merkle.new_tree fair_cross.Commitments.Merkle.root
    fair_cross.Commitments.Merkle.generate_proof
    fair_cross.Commitments.Payloads.compute_batch_commitment
    fair_cross.Commitments.Payloads.compute_oracle_snapshot_commitment
    fair_cross.Domain.Account.inventory_of fair_cross.Domain.Account.credit_cash
    fair_cross.Domain.Account.debit_cash fair_cross.Domain.Account.credit_inventory
    fair_cross.Domain.Account.debit_inventory fair_cross.Domain.Oracle.validate_freshness
    fair_cross.Domain.Oracle.validate_collar fair_cross.Domain.Qty.create
    fair_cross.Domain.Qty.is_zero fair_cross.Domain.Qty.checked_add
    fair_cross.Domain.Qty.checked_sub fair_cross.Domain.Ledger.get_or_create_account
    fair_cross.Domain.Ledger.get_account fair_cross.Domain.Ledger.total_cash
    fair_cross.Domain.Ledger.total_inventory_of fair_cross.Domain.Words.add64
    fair_cross.Domain.Words.sub64 fair_cross.Domain.Words.mul128 fair_cross.Domain.Fill.create
    fair_cross.Domain.Encoding.canonical_encode_order
    fair_cross.Domain.Encoding.canonical_encode_account
    fair_cross.Domain.Encoding.canonical_encode_oracle_snapshot
    fair_cross.Domain.Money.from_price_qty fair_cross.Domain.Money.checked_add
    fair_cross.Domain.Money.checked_sub fair_cross.Domain.Price.create
    fair_cross.Domain.Price.checked_add fair_cross.Domain.Price.checked_sub
    fair_cross.Prelude.OrdMap.lookup fair_cross.Prelude.OrdMap.insert
    fair_cross.Prelude.OrdMap.erase fair_cross.Engine.Partition.classify_order
    fair_cross.Engine.Checker.ClearingOutcome-discrete fair_cross.Engine.Checker.Side-discrete
    fair_cross.Engine.Checker.OrderAllocation-discrete
    fair_cross.Engine.Checker.BatchAllocation-discrete fair_cross.Engine.Checker.Fill-discrete
    fair_cross.Engine.Checker.fills-discrete fair_cross.Engine.Checker.verify_transition
    fair_cross.Engine.Accounting.DispositionKind-discrete
    fair_cross.Engine.Accounting.OrderDisposition-discrete
    fair_cross.Engine.Accounting.build_complete_input_accounting
    fair_cross.Engine.Accounting.insert_new fair_cross.Engine.Accounting.check_record
    fair_cross.Engine.Accounting.verify_complete_input_accounting
    fair_cross.Engine.Auction.demand_from_orders fair_cross.Engine.Auction.supply_from_orders
    fair_cross.Engine.Auction.candidate_prices_from_orders fair_cross.Engine.Auction.bucket_order
    fair_cross.Engine.Auction.determine_clearing_outcome fair_cross.Engine.Allocation.allocate_batch
    fair_cross.Engine.Fills.generate_canonical_fills fair_cross.Proof.R1cs.enforce_equal
    fair_cross.Proof.R1cs.is_satisfied fair_cross.Proof.Prover.Order-discrete
    fair_cross.Proof.Prover.prove fair_cross.Proof.Constraints.Oracle.constrain_snapshot
    fair_cross.Proof.Constraints.Oracle.synthesize_oracle_freshness_constraints
    fair_cross.Proof.Constraints.OrderValidity.synthesize_order_validity_constraints
    fair_cross.Proof.Constraints.Clearing.synthesize_clearing_optimality_constraints
    fair_cross.Proof.Constraints.Clearing.constrain_class
    fair_cross.Proof.Constraints.Clearing.synthesize_allocation_constraints
    fair_cross.Proof.Constraints.FillBounds.synthesize_fill_bounds_constraints
    fair_cross.Proof.Constraints.Conservation.synthesize_conservation_constraints
    fair_cross.Proof.Constraints.CompleteInput.alloc_of
    fair_cross.Proof.Constraints.CompleteInput.expected_disposition
    fair_cross.Proof.Constraints.CompleteInput.synthesize_merkle_inclusion_constraint_with_root_var
    fair_cross.Proof.Constraints.CompleteInput.constrain_record
    fair_cross.Proof.Constraints.CompleteInput.constrain_records
    fair_cross.Proof.Constraints.CompleteInput.synthesize_complete_input_accounting_constraints
    fair_cross.Prelude.sort native.Mathlib.Decide.ℕ_discrete
    fair_cross.Commitments.Payloads.commit_order fair_cross.Engine.Transition.totals_agree
    fair_cross.Engine.Transition.apply_batch_transition
    fair_cross.Engine.OracleValidation.validate_reference_price_snapshot
trade_run = (tt, refl)

trade_made : (proof : BatchProof) × (prove unary marks trade_inputs trade_witness ≡ ok proof)
trade_made = IsOk-eq-ok (prove unary marks trade_inputs trade_witness) trade_run.0

abbrev trade_proof : BatchProof
trade_proof = trade_made.0

prove_sound_example :
    (accounting : CompleteInputAccounting) × IsBound trade_inputs trade_witness accounting
    × IsChecked unary trade_inputs trade_witness accounting
    × IsSatisfied unary marks trade_inputs trade_witness accounting trade_proof
prove_sound_example = prove_sound unary marks trade_inputs trade_witness trade_made.1

marks-ReadsBack : ReadsBack marks count_marks
marks-ReadsBack = record {
  some_digits = λ n fits. omega arith;
  reads = λ n fits.
      let count = length-replicate (suc n) 49 in
      let less : length (marks n) - 1 ≡ n = omega arith in rw less refl;
}

-- The session of the trade alone.
abbrev session_start : RunningState
session_start = genesis (compute_ledger_root before 7) 7

abbrev session_steps : List RecursiveStep
session_steps =
    record { public_inputs = trade_inputs; witness = trade_witness; timestamp_nanos = 1000 } ∷ []

session_proved : IsOk (prove_session unary marks session_start session_steps)
unfolding prove_session fold_step add64
session_proved = rw (trade_made.1, same_bytes_self (compute_ledger_root before 7)) tt

session_made :
    (proof : SessionProof) × (prove_session unary marks session_start session_steps ≡ ok proof)
session_made = IsOk-eq-ok (prove_session unary marks session_start session_steps) session_proved

abbrev session : SessionProof
session = session_made.0

prove_session-IsSession_example :
    (0 < length session_steps)
    × (session.public_inputs.initial_state ≡ session_start)
    × IsSession unary marks session_start session_steps session.step_proofs
        session.public_inputs.final_state
    × (session.session_version ≡ 1)
    × (session.num_batches ≡ length session_steps)
    × (length session.step_proofs ≡ length session_steps)
    × (session.public_inputs.final_state.batch_id
        ≡ (session_start.batch_id + length session_steps) % u64_mod)
    × (session_start.timestamp_nanos ≤ session.public_inputs.final_state.timestamp_nanos)
    × (session.public_inputs.final_state.instrument_id ≡ session_start.instrument_id)
prove_session-IsSession_example =
    prove_session-IsSession unary marks session_start session_steps (omega arith) session_made.1

session_counts : All (CountFits unary) session_steps
session_counts = (ground (arith, trade_run.1), tt)

verify_session-prove_session_example :
    verify_session unary count_marks session.public_inputs session ≡ ok ok_value
verify_session-prove_session_example =
    verify_session-prove_session unary marks count_marks marks-ReadsBack session_start session_steps
      (omega arith) session_counts session_made.1

session_accepted : IsOk (verify_session unary count_marks session.public_inputs session)
session_accepted = rw verify_session-prove_session_example tt

verify_session_sound_example :
    (0 < length session.step_proofs)
    × (length session.step_proofs ≡ session.num_batches)
    × All (λ p. verify_proof count_marks p.public_inputs p ≡ ok ok_value) session.step_proofs
    × IsLinked session.public_inputs.initial_state.ledger_root session.step_proofs
        session.public_inputs.final_state.ledger_root
    × (session.public_inputs.final_state.history_accumulator
        ≡ history_along session.step_proofs session.public_inputs.initial_state.history_accumulator)
verify_session_sound_example =
    verify_session_sound unary count_marks session.public_inputs session session_accepted

trade_inputs-IsWordInputs : IsWordInputs trade_inputs
unfolding compute_batch_commitment
trade_inputs-IsWordInputs = record {
  header_digest =
      commit_raw_bytes-IsDigest
        (canonical_encode (header_of trade_witness (new_tree (map commit_order trade_preimages))));
  price_fits = omega arith;
  volume_fits = omega arith;
}

session_fits : All IsWordInputs (map (λ p. p.public_inputs) session.step_proofs)
session_fits =
    subst (All IsWordInputs) (sym (IsSession-inputs unary marks prove_session-IsSession_example.2))
      (trade_inputs-IsWordInputs, tt)

history_at_start-IsBytes : IsBytes session.public_inputs.initial_state.history_accumulator
history_at_start-IsBytes =
    subst (λ (s : RunningState). IsBytes s.history_accumulator)
      (sym prove_session-IsSession_example.1) zeros
  where
    zeros : IsBytes session_start.history_accumulator
    zeros = repeated-IsBytes 32 0 (omega arith)

verify_session_binding_example :
    (all_recorded session.step_proofs ≡ all_recorded session.step_proofs)
    ⊎ LeafCollision
        (payloads_along session.step_proofs session.public_inputs.initial_state.history_accumulator)
        (payloads_along session.step_proofs session.public_inputs.initial_state.history_accumulator)
verify_session_binding_example =
    verify_session_binding unary count_marks session.public_inputs session session session_accepted
      session_accepted refl session_fits session_fits history_at_start-IsBytes

-- Prices and quantities of 0, at their places.
abbrev free_orders : List Order
free_orders = limit_order 0 1 buy 0 5 ∷ limit_order 1 2 sell 98 0 ∷ []

free_orders-fit : All IsWordOrder free_orders
free_orders-fit = (
  record {
    instrument_fits = omega arith;
    price_fits = omega arith;
    qty_fits = omega arith;
    seq_fits = omega arith;
  },
  (
    record {
      instrument_fits = omega arith;
      price_fits = omega arith;
      qty_fits = omega arith;
      seq_fits = omega arith;
    },
    tt,
  ),
)

synthesize_order_validity_iff_example :
    let s =
      (synthesize_order_validity_constraints unary 7 free_orders
        (record { system = new_system; scalars = [] })).1 in
    (is_satisfied s.system [] s.scalars ≡ ok ok_value) ↔ InPlace 7 0 free_orders
synthesize_order_validity_iff_example =
    synthesize_order_validity_iff unary 7 (omega arith) [] free_orders free_orders-fit (omega arith)
