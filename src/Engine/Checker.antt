-- ===== src/Engine/Checker.antt =====
-- cpp/include/faircross/engine/checker.hpp and cpp/src/engine/checker.cpp: the independent check of a
-- proposed execution. `std::to_string` is a parameter, since it is the standard library's; it shows
-- in the text of errors only.
pub mod Sound
pub mod Complete
use Prim.Native.String.{◌++◌ as concat}
use native.Mathlib.Decide.{ℕ_discrete}
use fair_cross.Prelude.{
  ℕ, Bool, true, false, not, ◌&&◌, ltb, ◌==◌, if◌then◌else◌, List, [], ◌∷◌, Option, none, some,
  String, length,
}
use fair_cross.Prelude.OrdMap.{OrdMap, lookup, insert}
use fair_cross.Domain.Error.{
  Result, Ok, ok_value, ok, err, ◌>>=◌, ◌>>◌, guard, converted, or_fail, failed_with,
}
use fair_cross.Domain.Words.{AccountId, InstrumentId, Qty}
use fair_cross.Domain.Order.{Order, Side, is_buy}
use fair_cross.Domain.Qty
use fair_cross.Domain.Money
use fair_cross.Domain.Account.{AccountState, inventory_of}
use fair_cross.Domain.Ledger.{Ledger, get_account, total_cash, total_inventory_of}
use fair_cross.Domain.Fill.{Fill}
use fair_cross.Engine.Batch.{Batch}
use fair_cross.Engine.Auction.{ClearingOutcome, determine_clearing_outcome}
use fair_cross.Engine.Allocation.{OrderAllocation, BatchAllocation, allocate_batch}
use fair_cross.Engine.Fills.{generate_canonical_fills}
use fair_cross.Engine.Transition.{BatchExecutionResult, totals_agree, apply_batch_transition}

-- The compared types have decidable equality, for which the default comparisons stand.
unfoldable pub ClearingOutcome-discrete : Discrete ClearingOutcome
ClearingOutcome-discrete = hlevel ℕ_discrete

unfoldable pub Side-discrete : Discrete Side
Side-discrete = hlevel ℕ_discrete

unfoldable pub OrderAllocation-discrete : Discrete OrderAllocation
OrderAllocation-discrete = hlevel (ℕ_discrete, Side-discrete)

unfoldable pub BatchAllocation-discrete : Discrete BatchAllocation
BatchAllocation-discrete = hlevel (ℕ_discrete, OrderAllocation-discrete)

unfoldable pub Fill-discrete : Discrete Fill
Fill-discrete = hlevel (ℕ_discrete, Side-discrete)

unfoldable pub fills-discrete : Discrete (List Fill)
fills-discrete = hlevel Fill-discrete

-- `a == b` by the decision.
abbrev pub is_same {ℓ} : {A : Type ℓ} → Discrete A → A → A → Bool
is_same d a b = elim (d a b) [ yes e ↦ true | no e ↦ false ]

-- `order_map`.
unfoldable pub order_map : List Order → OrdMap Order → OrdMap Order
order_map [] m = m
order_map (o ∷ orders) m = order_map orders (insert o.id o m)

abbrev found_order : Option Order → Result Order
found_order none = err (failed_with "AccountStateMismatch: fill references order not in batch")
found_order (some o) = ok o

abbrev is_exact : Result ℕ → ℕ → Bool
is_exact (ok expected) consideration = consideration == expected
is_exact (err e) consideration = false

-- One round of the loop over the fills: the two totals afterwards.
unfoldable pub check_fill : OrdMap Order → Fill → ℕ × ℕ → Result (ℕ × ℕ)
check_fill m fill (total_buy_qty, total_sell_qty) =
    let bought = λ (order : Order). (do
      guard (not (ltb order.price fill.execution_price))
          (failed_with "LimitPriceViolation: buy fill above limit")
      total ← converted (Qty.checked_add total_buy_qty fill.fill_qty)
      ok (total, total_sell_qty)) in
    let sold = λ (order : Order). (do
      guard (not (ltb fill.execution_price order.price))
          (failed_with "LimitPriceViolation: sell fill below limit")
      total ← converted (Qty.checked_add total_sell_qty fill.fill_qty)
      ok (total_buy_qty, total)) in
    do
      order ← found_order (lookup fill.order_id m)
      guard (not (ltb order.qty fill.fill_qty)) (failed_with "Overfill: fill_qty > order_qty")
      totals ← (if is_buy fill.side then bought order else sold order)
      guard (is_exact (Money.from_price_qty fill.execution_price fill.fill_qty) fill.consideration)
          (failed_with "IncorrectConsideration")
      ok totals

unfoldable pub check_fills : OrdMap Order → List Fill → ℕ × ℕ → Result (ℕ × ℕ)
unfolding check_fill
check_fills m [] totals = ok totals
check_fills m (fill ∷ fills) totals = do
  totals ← check_fill m fill totals
  check_fills m fills totals

module _ (to_string : ℕ → String) where
  account_error : AccountId → String → Result Ok
  account_error id what =
      err (failed_with (concat "AccountStateMismatch: account " (concat (to_string id) what)))

  -- The checks of one account of the reconstruction against the proposed post-state.
  unfoldable pub check_account :
      InstrumentId → AccountId → AccountState → Option AccountState → Result Ok
  unfolding account_error
  check_account inst id expected none = account_error id " missing from proposed post-state"
  check_account inst id expected (some actual) =
      if not (actual.cash == expected.cash)
      then account_error id " cash does not match pre-state updated by its fills"
      else if not (inventory_of inst actual == inventory_of inst expected)
      then account_error id " inventory does not match pre-state updated by its fills"
      else ok ok_value

  unfoldable pub check_accounts : InstrumentId → Ledger → Ledger → Result Ok
  unfolding check_account
  check_accounts inst [] post = ok ok_value
  check_accounts inst ((id, expected) ∷ accounts) post = do
    check_account inst id expected (get_account id post)
    check_accounts inst accounts post

  unfoldable pub verify_transition : Ledger → Batch → BatchExecutionResult → Result Ok
  unfolding order_map check_fills check_accounts
  verify_transition pre_state batch proposed = do
    expected_outcome ←
        or_fail (determine_clearing_outcome batch)
          (failed_with "NonDeterministicClearing: failed to compute outcome")
    guard (is_same ClearingOutcome-discrete expected_outcome proposed.clearing_outcome)
        (failed_with "NonDeterministicClearing: outcome mismatch")
    expected_alloc ←
        or_fail
          (allocate_batch batch expected_outcome.clearing_price expected_outcome.executable_volume)
          (failed_with "AllocationRuleMismatch: failed to compute allocation")
    guard (is_same BatchAllocation-discrete expected_alloc proposed.allocation)
        (failed_with "AllocationRuleMismatch: canonical allocation mismatch")
    expected_fills ←
        or_fail (generate_canonical_fills batch expected_alloc)
          (failed_with "AllocationRuleMismatch: failed to generate canonical fills")
    guard (is_same fills-discrete expected_fills proposed.fills)
        (failed_with "AllocationRuleMismatch: canonical fills mismatch")
    (total_buy_qty, total_sell_qty) ← check_fills (order_map batch.orders []) proposed.fills (0, 0)
    guard (total_buy_qty == total_sell_qty) (failed_with "VolumeConservation: buy != sell")
    guard (totals_agree (total_cash pre_state) (total_cash proposed.post_state))
        (failed_with "CashConservation: pre_cash != post_cash")
    guard
        (totals_agree (total_inventory_of batch.instrument pre_state)
          (total_inventory_of batch.instrument proposed.post_state))
        (failed_with "AssetConservation: pre_inv != post_inv")
    expected_post ←
        or_fail (apply_batch_transition pre_state proposed.fills)
          (failed_with "AccountStateMismatch: proposed fills do not apply cleanly to the pre-state")
    guard (length proposed.post_state == length expected_post)
        (failed_with "AccountStateMismatch: post-state account set differs from the reconstruction")
    check_accounts batch.instrument expected_post proposed.post_state
