-- ===== src/Adversary/Honest.antt =====
-- The operator that changes nothing.
use fair_cross.Prelude.{
  ℕ, ◌≡◌, ◌∙◌, ap, refl, sym, subst, Bool-cases, inl, inr, if◌then◌else◌, List, [], ◌∷◌, map, some,
  String,
}
use fair_cross.Prelude.OrdMap.{insert}
use fair_cross.Domain.Error.{
  Result, ok_value, ok, IsOk, converted, ◌>>=◌, >>=-eq-ok, converted-eq-ok, guard, ok-injective,
}
use fair_cross.Domain.Order.{SaltedOrderPreimage, is_buy}
use fair_cross.Domain.Account.{
  AccountState, credit_cash, debit_cash, credit_inventory, debit_inventory,
}
use fair_cross.Domain.Ledger.{Ledger, total_cash, get_or_create_account}
use fair_cross.Domain.Fill.{Fill}
use fair_cross.Engine.Batch.{Batch, new_batch}
use fair_cross.Engine.Auction.{ClearingOutcome, determine_clearing_outcome}
use fair_cross.Engine.Auction.Clearing.{IsClearable}
use fair_cross.Engine.Allocation.{BatchAllocation, allocate_batch}
use fair_cross.Engine.Allocation.InTheMoney.{Distinct}
use fair_cross.Engine.Fills.{generate_canonical_fills}
use fair_cross.Engine.Transition.{
  BatchExecutionResult, settle, apply_fill, apply_fills, apply_batch_transition, execute_batch,
  totals_agree, assets_conserved, touched,
}
use fair_cross.Engine.Transition.Execution.{IsFunded}
use fair_cross.Engine.Checker.{verify_transition}
use fair_cross.Engine.Checker.Sound.{SameHoldings, verify_transition_sound}
use fair_cross.Engine.Checker.Complete.{verify_transition_complete}
use fair_cross.Adversary.{
  AdversarialExecution, no_mutation, freeze_post_state, kept, post_fills, execute,
}

kept_ok :
    (acc : AccountState) (m : Result AccountState) {after : AccountState}
    → m ≡ ok after
    → kept acc m ≡ after
kept_ok acc m h = rw h refl

kept_twice :
    (acc : AccountState) (first : Result AccountState) (second : AccountState → Result AccountState)
    {after : AccountState}
    → (converted first >>= λ a. converted (second a)) ≡ ok after
    → kept (kept acc first) (second (kept acc first)) ≡ after
kept_twice acc first second h =
    let (middle, a, b) = >>=-eq-ok (converted first) _ h in
    rw (converted-eq-ok first a)
      (kept_ok middle (second middle) (converted-eq-ok (second middle) b))

-- The account after a settlement that ignores errors.
abbrev posted : Fill → AccountState → AccountState
posted fill acc =
    let paid = kept acc (debit_cash fill.consideration acc) in
    let bought = kept paid (credit_inventory fill.instrument_id fill.fill_qty paid) in
    let delivered = kept acc (debit_inventory fill.instrument_id fill.fill_qty acc) in
    let sold = kept delivered (credit_cash fill.consideration delivered) in
    if is_buy fill.side then bought else sold

-- It is the account after a settlement that meets no error.
settle-posted :
    (fill : Fill) (acc : AccountState) {after : AccountState}
    → settle fill acc ≡ ok after
    → posted fill acc ≡ after
unfolding settle
settle-posted fill acc {after} h = elim (Bool-cases (is_buy fill.side)) [
  | inl e ↦
      let bought : settle fill acc ≡ (
          converted (debit_cash fill.consideration acc) >>= λ a.
          converted (credit_inventory fill.instrument_id fill.fill_qty a)) =
        rw e refl in
      rw e (kept_twice acc _ (credit_inventory fill.instrument_id fill.fill_qty) (sym bought ∙ h))
  | inr e ↦
      let sold : settle fill acc ≡ (
          converted (debit_inventory fill.instrument_id fill.fill_qty acc) >>= λ a.
          converted (credit_cash fill.consideration a)) =
        rw e refl in
      rw e (kept_twice acc _ (credit_cash fill.consideration) (sym sold ∙ h))
]

post_fills-apply_fills :
    (fills : List Fill) (l : Ledger) {after : Ledger}
    → apply_fills fills l ≡ ok after
    → post_fills fills l ≡ after
unfolding apply_fills apply_fill post_fills
post_fills-apply_fills [] l h = ok-injective h
post_fills-apply_fills (fill ∷ fills) l h =
    let (next, a1, e1) = >>=-eq-ok (apply_fill fill l) _ h in
    let opened = get_or_create_account fill.account_id l in
    let (settled, a2, e2) = >>=-eq-ok (settle fill opened.0) _ a1 in
    let stored : insert fill.account_id (posted fill opened.0) opened.1 ≡ next =
      ap (λ a. insert fill.account_id a opened.1) (settle-posted fill opened.0 a2)
      ∙ ok-injective e2 in
    ap (post_fills fills) stored ∙ post_fills-apply_fills fills next e1

-- From stages that succeed, the operator that changes nothing publishes what they give.
execute-stages :
    (pre : Ledger) (b : Batch) (preimages : List SaltedOrderPreimage) (outcome : ClearingOutcome)
    (allocation : BatchAllocation) (fills : List Fill) (post : Ledger)
    → new_batch b.batch_id b.instrument (map (λ p. p.order) preimages) ≡ b
    → determine_clearing_outcome b ≡ ok outcome
    → allocate_batch b outcome.clearing_price outcome.executable_volume ≡ ok allocation
    → generate_canonical_fills b allocation ≡ ok fills
    → post_fills fills pre ≡ post
    → (exec : AdversarialExecution) × (execute no_mutation pre b preimages ≡ some exec)
      × (exec.batch ≡ b)
      × (exec.execution_result ≡ record {
        clearing_outcome = outcome;
        allocation = allocation;
        fills = fills;
        post_state = post;
      })
unfolding execute
execute-stages pre b preimages outcome allocation fills post same d a f p =
    rw (same, d, a, f, p) (_, refl, refl, refl)

-- So does the one that freezes the ledger, but for the ledger after.
execute-frozen :
    (pre : Ledger) (b : Batch) (preimages : List SaltedOrderPreimage) (outcome : ClearingOutcome)
    (allocation : BatchAllocation) (fills : List Fill)
    → new_batch b.batch_id b.instrument (map (λ p. p.order) preimages) ≡ b
    → determine_clearing_outcome b ≡ ok outcome
    → allocate_batch b outcome.clearing_price outcome.executable_volume ≡ ok allocation
    → generate_canonical_fills b allocation ≡ ok fills
    → (exec : AdversarialExecution) × (execute freeze_post_state pre b preimages ≡ some exec)
      × (exec.batch ≡ b)
      × (exec.execution_result ≡ record {
        clearing_outcome = outcome;
        allocation = allocation;
        fills = fills;
        post_state = pre;
      })
unfolding execute
execute-frozen pre b preimages outcome allocation fills same d a f =
    rw (same, d, a, f) (_, refl, refl, refl)

apply_batch_transition-settled :
    (pre : Ledger) (fills : List Fill) {post : Ledger}
    → apply_batch_transition pre fills ≡ ok post
    → apply_fills fills pre ≡ ok post
unfolding apply_batch_transition
apply_batch_transition-settled pre fills h =
    let (settled, a1, e1) = >>=-eq-ok (apply_fills fills pre) _ h in
    let (_, _, e2) =
      >>=-eq-ok (guard (totals_agree (total_cash pre) (total_cash settled)) _) _ e1 in
    let (_, _, e3) = >>=-eq-ok (guard (assets_conserved (touched fills []) pre settled) _) _ e2 in
    a1 ∙ e3

-- The stages of an execution that succeeds, with the settlement that ignores errors.
execute_batch-stages :
    (pre : Ledger) (b : Batch) (r : BatchExecutionResult)
    → execute_batch pre b ≡ ok r
    → (determine_clearing_outcome b ≡ ok r.clearing_outcome)
      × (allocate_batch b r.clearing_outcome.clearing_price r.clearing_outcome.executable_volume
          ≡ ok r.allocation)
      × (generate_canonical_fills b r.allocation ≡ ok r.fills)
      × (post_fills r.fills pre ≡ r.post_state)
unfolding execute_batch
execute_batch-stages pre b r h =
    let (outcome, a1, e1) = >>=-eq-ok (converted (determine_clearing_outcome b)) _ h in
    let (allocation, a2, e2) =
      >>=-eq-ok (converted (allocate_batch b outcome.clearing_price outcome.executable_volume)) _
        e1 in
    let (fills, a3, e3) = >>=-eq-ok (converted (generate_canonical_fills b allocation)) _ e2 in
    let (post, a4, e4) = >>=-eq-ok (converted (apply_batch_transition pre fills)) _ e3 in
    subst
      (λ r.
        (determine_clearing_outcome b ≡ ok r.clearing_outcome)
        × (allocate_batch b r.clearing_outcome.clearing_price r.clearing_outcome.executable_volume
            ≡ ok r.allocation)
        × (generate_canonical_fills b r.allocation ≡ ok r.fills)
        × (post_fills r.fills pre ≡ r.post_state))
      (ok-injective e4)
      (
        converted-eq-ok _ a1,
        converted-eq-ok _ a2,
        converted-eq-ok _ a3,
        post_fills-apply_fills fills pre
            (apply_batch_transition-settled pre fills (converted-eq-ok _ a4)),
      )

module _ (to_string : ℕ → String) (pre : Ledger) (b : Batch) (preimages : List SaltedOrderPreimage)
    (r : BatchExecutionResult) where
  -- Where the batch is that of the preimages, its orders are clearable and have different ids, the ledger
  -- is funded and the batch executes, the operator that changes nothing publishes what `execute_batch`
  -- computes, on the same batch, and the checker accepts it.
  pub execute_honest_accepted :
      Distinct b.orders
      → IsClearable b.orders
      → IsFunded pre b
      → new_batch b.batch_id b.instrument (map (λ p. p.order) preimages) ≡ b
      → execute_batch pre b ≡ ok r
      → (exec : AdversarialExecution) × (execute no_mutation pre b preimages ≡ some exec)
        × (exec.batch ≡ b)
        × (exec.execution_result ≡ r)
        × (verify_transition to_string pre exec.batch exec.execution_result ≡ ok ok_value)
  execute_honest_accepted distinct clearable funded same e =
      let (d, a, f, p) = execute_batch-stages pre b r e in
      let (exec, ran, batch, result) =
        execute-stages pre b preimages r.clearing_outcome r.allocation r.fills r.post_state same d a
          f p in
      let accepted = verify_transition_complete to_string pre b r distinct clearable funded e in
      (
        exec,
        ran,
        batch,
        result,
        ap (λ b. verify_transition to_string pre b exec.execution_result) batch
            ∙ ap (verify_transition to_string pre b) result
            ∙ accepted,
      )

  -- Where the batch is that of the preimages and executes, and moves some cash or some of the instrument,
  -- the operator that freezes the ledger runs, and the checker refuses what it publishes.
  pub execute_frozen_refused :
      new_batch b.batch_id b.instrument (map (λ p. p.order) preimages) ≡ b
      → execute_batch pre b ≡ ok r
      → ¬ SameHoldings b.instrument r.post_state pre
      → (exec : AdversarialExecution) × (execute freeze_post_state pre b preimages ≡ some exec)
        × (¬ IsOk (verify_transition to_string pre exec.batch exec.execution_result))
  execute_frozen_refused same e moves =
      let (d, a, f, p) = execute_batch-stages pre b r e in
      let (exec, ran, batch, result) =
        execute-frozen pre b preimages r.clearing_outcome r.allocation r.fills same d a f in
      (
        exec,
        ran,
        λ h.
            let moved =
              subst (λ b. IsOk (verify_transition to_string pre b exec.execution_result)) batch h in
            let (r', e', _, _, _, _, holdings) =
              verify_transition_sound to_string pre b _
                (subst (λ x. IsOk (verify_transition to_string pre b x)) result moved) in
            let one_result : r' ≡ r = ok-injective (sym e' ∙ e) in
            moves (subst (λ r. SameHoldings b.instrument r.post_state pre) one_result holdings),
      )
