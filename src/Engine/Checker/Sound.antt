-- ===== src/Engine/Checker/Sound.antt =====
-- What the checker's acceptance says.
use fair_cross.Prelude.{
  ℕ, ◌≡◌, ◌∙◌, ap, refl, true, false, ◌==◌, List, [], ◌∷◌, Option, none, some, String, length, All,
  arith,
}
use fair_cross.Domain.Error.{
  Ok, ok, IsOk, IsOk-eq-ok, guard, or_fail, >>=-eq-ok, guard-eq-ok, or_fail-eq-ok,
}
use fair_cross.Domain.Words.{InstrumentId, AccountId}
use fair_cross.Domain.Account.{AccountState, inventory_of}
use fair_cross.Domain.Ledger.{Ledger, get_account, total_cash, total_inventory_of}
use fair_cross.Engine.Batch.{Batch}
use fair_cross.Engine.Transition.{
  BatchExecutionResult, execute_batch, totals_agree, apply_batch_transition,
}
use fair_cross.Engine.Checker.{
  is_same, order_map, check_fills, check_account, check_accounts, verify_transition,
  ClearingOutcome-discrete, BatchAllocation-discrete, fills-discrete,
}
use fair_cross.Domain.Fill.{Fill}
use fair_cross.Engine.Auction.{ClearingOutcome, determine_clearing_outcome}
use fair_cross.Engine.Allocation.{BatchAllocation, allocate_batch}
use fair_cross.Engine.Fills.{generate_canonical_fills}

pub is_same-eq {ℓ} : {A : Type ℓ} (d : Discrete A) (a b : A) → is_same d a b ≡ true → a ≡ b
is_same-eq d a b h =
    elim (d a b) as (λ r. elim r [ yes e ↦ true | no e ↦ false ] ≡ true → a ≡ b) [
      | yes e ↦ λ q. e
      | no e ↦ λ q. cc
    ]
      h

-- Each account of the first ledger is in the second one, with the same cash and the same holding of
-- the instrument.
abbrev pub SameHoldings : InstrumentId → Ledger → Ledger → Type 0
SameHoldings inst expected post =
    All
      (λ e.
        (acc : AccountState) × (get_account e.0 post ≡ some acc)
        × (acc.cash ≡ e.1.cash)
        × (inventory_of inst acc ≡ inventory_of inst e.1))
      expected

-- The stages of an execution, put together.
executed :
    (pre : Ledger) (b : Batch) (outcome : ClearingOutcome) (alloc : BatchAllocation)
    (fills : List Fill) (post : Ledger)
    → determine_clearing_outcome b ≡ ok outcome
    → allocate_batch b outcome.clearing_price outcome.executable_volume ≡ ok alloc
    → generate_canonical_fills b alloc ≡ ok fills
    → apply_batch_transition pre fills ≡ ok post
    → execute_batch pre b
      ≡ ok (record {
        clearing_outcome = outcome;
        allocation = alloc;
        fills = fills;
        post_state = post;
      })
unfolding execute_batch
executed pre b outcome alloc fills post p q r t = rw (p, q, r, t) refl

module _ (to_string : ℕ → String) where
  check_account-eq-ok :
      (inst : InstrumentId) (id : AccountId) (expected : AccountState)
      (actual : Option AccountState) {u : Ok}
      → check_account to_string inst id expected actual ≡ ok u
      → (acc : AccountState) × (actual ≡ some acc)
        × (acc.cash ≡ expected.cash)
        × (inventory_of inst acc ≡ inventory_of inst expected)
  unfolding check_account
  check_account-eq-ok inst id expected none e = cc
  check_account-eq-ok inst id expected (some acc) e = (acc, refl, ground arith, ground arith)

  check_accounts-SameHoldings :
      (inst : InstrumentId) (expected post : Ledger) {u : Ok}
      → check_accounts to_string inst expected post ≡ ok u
      → SameHoldings inst expected post
  unfolding check_accounts
  check_accounts-SameHoldings inst [] post e = tt
  check_accounts-SameHoldings inst ((id, acc) ∷ expected) post e =
      let (u, one, rest) =
        >>=-eq-ok (check_account to_string inst id acc (get_account id post)) _ e in
      (
        check_account-eq-ok inst id acc (get_account id post) one,
        check_accounts-SameHoldings inst expected post rest,
      )

  -- A proposed execution that the checker accepts is what `execute_batch` computes: it succeeds, with
  -- the same outcome, the same allocation and the same fills; and its ledger has as many accounts as
  -- the proposed one, which holds each of them with the same cash and the same holding of the
  -- batch's instrument.
  pub verify_transition_sound :
      (pre : Ledger) (b : Batch) (proposed : BatchExecutionResult)
      → IsOk (verify_transition to_string pre b proposed)
      → (r : BatchExecutionResult) × (execute_batch pre b ≡ ok r)
        × (r.clearing_outcome ≡ proposed.clearing_outcome)
        × (r.allocation ≡ proposed.allocation)
        × (r.fills ≡ proposed.fills)
        × (length proposed.post_state ≡ length r.post_state)
        × SameHoldings b.instrument r.post_state proposed.post_state
  unfolding verify_transition
  verify_transition_sound pre b proposed h =
      let (u, e) = IsOk-eq-ok _ h in
      let (outcome, a1, e1) = >>=-eq-ok (or_fail (determine_clearing_outcome b) _) _ e in
      let (_, g1, e2) =
        >>=-eq-ok (guard (is_same ClearingOutcome-discrete outcome proposed.clearing_outcome) _) _
          e1 in
      let (alloc, a2, e3) =
        >>=-eq-ok (or_fail (allocate_batch b outcome.clearing_price outcome.executable_volume) _) _
          e2 in
      let (_, g2, e4) =
        >>=-eq-ok (guard (is_same BatchAllocation-discrete alloc proposed.allocation) _) _ e3 in
      let (fills, a3, e5) = >>=-eq-ok (or_fail (generate_canonical_fills b alloc) _) _ e4 in
      let (_, g3, e6) = >>=-eq-ok (guard (is_same fills-discrete fills proposed.fills) _) _ e5 in
      let (totals, a4, e7) =
        >>=-eq-ok (check_fills (order_map b.orders []) proposed.fills (0, 0)) _ e6 in
      let (_, g4, e8) = >>=-eq-ok (guard (totals.0 == totals.1) _) _ e7 in
      let (_, g5, e9) =
        >>=-eq-ok (guard (totals_agree (total_cash pre) (total_cash proposed.post_state)) _) _ e8 in
      let (_, g6, e10) =
        >>=-eq-ok
          (guard
            (totals_agree (total_inventory_of b.instrument pre)
              (total_inventory_of b.instrument proposed.post_state))
            _)
          _ e9 in
      let (post, a5, e11) =
        >>=-eq-ok (or_fail (apply_batch_transition pre proposed.fills) _) _ e10 in
      let (_, g7, e12) = >>=-eq-ok (guard (length proposed.post_state == length post) _) _ e11 in
      let same_fills = is_same-eq fills-discrete _ _ (guard-eq-ok _ _ g3) in
      (
        record { clearing_outcome = outcome; allocation = alloc; fills = fills; post_state = post },
        executed pre b outcome alloc fills post (or_fail-eq-ok _ _ a1) (or_fail-eq-ok _ _ a2)
            (or_fail-eq-ok _ _ a3)
            (ap (apply_batch_transition pre) same_fills ∙ or_fail-eq-ok _ _ a5),
        is_same-eq ClearingOutcome-discrete _ _ (guard-eq-ok _ _ g1),
        is_same-eq BatchAllocation-discrete _ _ (guard-eq-ok _ _ g2),
        same_fills,
        ground (arith, guard-eq-ok _ _ g7),
        check_accounts-SameHoldings b.instrument post proposed.post_state e12,
      )
