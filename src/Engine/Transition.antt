-- ===== src/Engine/Transition.antt =====
-- cpp/include/faircross/engine/transition.hpp and cpp/src/engine/transition.cpp: the settlement of
-- fills on a ledger, and the execution of a batch.
pub mod Movements
pub mod Conservation
pub mod Balance
pub mod Execution
use fair_cross.Prelude.{ℕ, Bool, true, false, not, ◌&&◌, ◌||◌, ◌==◌, if◌then◌else◌, List, [], ◌∷◌}
use fair_cross.Prelude.OrdMap.{OrdMap, insert}
use fair_cross.Domain.Error.{
  Result, ok, err, Ok, ok_value, ◌>>=◌, ◌>>◌, converted, guard, failed_with,
}
use fair_cross.Domain.Words.{InstrumentId}
use fair_cross.Domain.Order.{is_buy}
use fair_cross.Domain.Account.{
  AccountState, credit_cash, debit_cash, credit_inventory, debit_inventory,
}
use fair_cross.Domain.Ledger.{Ledger, get_or_create_account, total_cash, total_inventory_of}
use fair_cross.Domain.Fill.{Fill}
use fair_cross.Engine.Batch.{Batch}
use fair_cross.Engine.Auction.{ClearingOutcome, determine_clearing_outcome}
use fair_cross.Engine.Allocation.{BatchAllocation, allocate_batch}
use fair_cross.Engine.Fills.{generate_canonical_fills}

pub record BatchExecutionResult : Type 0 where
  pub clearing_outcome : ClearingOutcome
  pub allocation : BatchAllocation
  pub fills : List Fill
  pub post_state : Ledger

-- A buyer spends cash and receives inventory; a seller delivers inventory and receives cash.
unfoldable pub settle : Fill → AccountState → Result AccountState
settle fill acc =
    let bought = (do
      acc ← converted (debit_cash fill.consideration acc)
      converted (credit_inventory fill.instrument_id fill.fill_qty acc)) in
    let sold = (do
      acc ← converted (debit_inventory fill.instrument_id fill.fill_qty acc)
      converted (credit_cash fill.consideration acc)) in
    if is_buy fill.side then bought else sold

-- One round of the loop: the account is created if it is missing, and is settled in place.
unfoldable pub apply_fill : Fill → Ledger → Result Ledger
unfolding settle
apply_fill fill l = do
  let (acc, l') = get_or_create_account fill.account_id l
  acc' ← settle fill acc
  ok (insert fill.account_id acc' l')

unfoldable pub apply_fills : List Fill → Ledger → Result Ledger
unfolding apply_fill
apply_fills [] l = ok l
apply_fills (fill ∷ fills) l = do l ← apply_fill fill l; apply_fills fills l

-- Two totals that are both there and agree.
unfoldable pub totals_agree : Result ℕ → Result ℕ → Bool
totals_agree (ok a) (ok b) = a == b
totals_agree (ok a) (err f) = false
totals_agree (err e) b = false

-- `touched`: the set of the instruments of the fills.
unfoldable pub touched : List Fill → OrdMap Ok → OrdMap Ok
touched [] s = s
touched (fill ∷ fills) s = touched fills (insert fill.instrument_id ok_value s)

unfoldable pub assets_conserved : OrdMap Ok → Ledger → Ledger → Bool
assets_conserved [] pre post = true
assets_conserved ((inst, _) ∷ insts) pre post =
    totals_agree (total_inventory_of inst pre) (total_inventory_of inst post)
    && assets_conserved insts pre post

unfoldable pub apply_batch_transition : Ledger → List Fill → Result Ledger
unfolding apply_fills totals_agree touched assets_conserved
apply_batch_transition pre_state fills = do
  post_state ← apply_fills fills pre_state
  guard (totals_agree (total_cash pre_state) (total_cash post_state))
      (failed_with "InvariantViolation: cash_conservation")
  guard (assets_conserved (touched fills []) pre_state post_state)
      (failed_with "InvariantViolation: asset_conservation")
  ok post_state

unfoldable pub execute_batch : Ledger → Batch → Result BatchExecutionResult
unfolding apply_batch_transition
execute_batch pre_state batch = do
  outcome ← converted (determine_clearing_outcome batch)
  allocation ← converted (allocate_batch batch outcome.clearing_price outcome.executable_volume)
  fills ← converted (generate_canonical_fills batch allocation)
  post_state ← converted (apply_batch_transition pre_state fills)
  ok (record {
    clearing_outcome = outcome;
    allocation = allocation;
    fills = fills;
    post_state = post_state;
  })
