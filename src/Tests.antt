-- ===== src/Tests.antt =====
-- Runs of the model on concrete batches and ledgers, and the theorems at such inputs.
mod Accounting
mod Adversary
mod Checker
mod Commitments
mod MarketData
mod Proofs
mod Simulator
use fair_cross.Prelude.{
  ℕ, ◌+◌, ◌*◌, ◌/◌, ◌≤◌, ◌<◌, ◌≡◌, ◌↔◌, ◌⊎◌, refl, Bool, true, false, ltb, ◌==◌, if◌then◌else◌,
  List, [], ◌∷◌, map, Option, none, some, keep, last_or, sum_by, All, DistinctBy, IsSortedBy, Perm,
  arith,
}
use fair_cross.Prelude.OrdMap.{lookup, insert, erase, sum_values}
use fair_cross.Domain.Error.{ok, IsOk}
use fair_cross.Domain.Words.{
  u64_mod, u128_mod, AccountId, InstrumentId, add64, sub64, mul128, to_u64,
}
use fair_cross.Domain.Order.{Order, Side, buy, sell}
use fair_cross.Domain.Qty
use fair_cross.Domain.Money
use fair_cross.Domain.Money.{from_price_qty, from_price_qty_exact}
use fair_cross.Domain.Account.{
  AccountState, zero_salt, inventory_of, debit_inventory, credit_inventory, credit_cash, debit_cash,
}
use fair_cross.Domain.Ledger.{Ledger, get_or_create_account, total_cash, total_inventory_of}
use fair_cross.Domain.Ledger.Laws.{IsValidLedger, cash_sum, inventory_sum}
use fair_cross.Domain.Fill.{Fill}
use fair_cross.Domain.Fill as FillRecord
use fair_cross.Engine.Batch.{Batch, new_batch, earlier, create}
use fair_cross.Engine.Batch.Laws.{IsValidOrder, IsValidBatch, create_iff, create-IsValidBatch}
use fair_cross.Engine.Partition.{classify_order}
use fair_cross.Engine.Auction.{
  ClearingOutcome, candidate_prices_from_orders, unique, determine_clearing_outcome,
  compute_volume_maximizers_from_orders, maximizers_of, demand_from_orders, supply_from_orders,
  midpoint,
}
use fair_cross.Engine.Auction.Totals.{demand, supply, Fits, HasSide, from_orders_exact}
use fair_cross.Engine.Auction.Reference.{volume, evaluation, compute_exact}
use fair_cross.Engine.Auction.Clearing.{
  IsClearable, Clears, determine_optimal, determine_tie_rule, midpoint_exact,
}
use fair_cross.Engine.Allocation.{BatchAllocation, OrderAllocation, allocation_of, allocate_batch}
use fair_cross.Engine.Allocation.InTheMoney.{Distinct}
use fair_cross.Engine.Fills.{fills_from, generate_canonical_fills}
use fair_cross.Engine.Fills.Laws.{
  IsCanonicalFill, bought_qty, sold_qty, bought_alloc, sold_alloc, fills_from_exact,
}
use fair_cross.Engine.Transition.{
  BatchExecutionResult, apply_fills, apply_batch_transition, execute_batch,
}
use fair_cross.Engine.Transition.Movements.{IsWordFill, cash_movement, inventory_movement}
use fair_cross.Engine.Transition.Conservation.{apply_fills_moved, MovedBy}
use fair_cross.Engine.Transition.Balance.{apply_batch_transition_passes}
use fair_cross.Engine.Transition.Execution.{
  IsFunded, IsExecuted, planned_fills, planned_fills_balance, execute_batch_succeeds,
  execute_batch-IsExecuted,
}
use fair_cross.Domain.Oracle.{ReferencePriceSnapshot, ReferencePricePolicy}
use fair_cross.Engine.OracleValidation.{
  validate_reference_price_snapshot, validate_reference_iff, InCollar,
}

abbrev pub limit_order : ℕ → ℕ → Side → ℕ → ℕ → Order
limit_order id account side price qty = record {
  id = id;
  account = account;
  instrument = 7;
  side = side;
  price = price;
  qty = qty;
  seq = id;
}

-- At 100 the buyers want 19 and the sellers offer 12; two buyers at the money share what is left.
abbrev book : List Order
book =
    limit_order 1 1 buy 102 10
    ∷ limit_order 2 2 sell 98 6
    ∷ limit_order 3 1 buy 100 5
    ∷ limit_order 4 2 sell 100 6
    ∷ limit_order 5 3 buy 100 4
    ∷ []

abbrev pub demo : Batch
demo = record { batch_id = 1; instrument = 7; orders = book }

abbrev pub account : ℕ → ℕ → ℕ → AccountState
account id cash lots = record {
  id = id;
  cash = cash;
  inventory = (7, lots) ∷ [];
  commitment_salt = zero_salt;
}

abbrev pub ledger : Ledger
ledger = (1, account 1 5000 1) ∷ (2, account 2 0 20) ∷ (3, account 3 100 2) ∷ []

clears_at_100 :
    determine_clearing_outcome demo
    ≡ ok (record { clearing_price = some 100; executable_volume = 12 })
unfolding determine_clearing_outcome add64 sub64 candidate_prices_from_orders
    fair_cross.Prelude.sort fair_cross.Engine.Auction.bucket_order fair_cross.Domain.Qty.checked_add
    fair_cross.Domain.Qty.is_zero fair_cross.Domain.Price.create
clears_at_100 = refl

book-HasSide : All HasSide book
book-HasSide = (refl, (refl, (refl, (refl, (refl, tt)))))

book-Fits : Fits book
book-Fits = omega arith

pub book-Distinct : Distinct book
book-Distinct = omega arith

pub demo-IsClearable : IsClearable book
demo-IsClearable = record { sides = book-HasSide; fits = book-Fits; prices = omega arith }

midpoint_exact_example : midpoint 100 103 ≡ (100 + 103) / 2
midpoint_exact_example = midpoint_exact 100 103 (omega arith) (omega arith)

compute_exact_example :
    compute_volume_maximizers_from_orders book
    ≡ ok (maximizers_of (map (evaluation book) (candidate_prices_from_orders book)))
compute_exact_example = compute_exact book book-HasSide book-Fits

determine_optimal_example :
    (out : ClearingOutcome) × (determine_clearing_outcome demo ≡ ok out)
    × Clears book out.clearing_price out.executable_volume
determine_optimal_example = determine_optimal demo demo-IsClearable

winners : keep (λ c. volume book c == 12) (candidate_prices_from_orders book) ≡ 100 ∷ []
unfolding candidate_prices_from_orders fair_cross.Prelude.sort
winners = refl

determine_tie_rule_example : some 100 ≡ some ((100 + last_or [] 100) / 2)
determine_tie_rule_example =
    determine_tie_rule demo 100 [] demo-IsClearable
      (record { clearing_price = some 100; executable_volume = 12 }) clears_at_100 (omega arith)
      winners

-- Two orders in the wrong sequence, which `create` sorts.
abbrev unsorted : List Order
unsorted = limit_order 2 2 sell 98 6 ∷ limit_order 1 1 buy 102 10 ∷ []

abbrev sorted_batch : Batch
sorted_batch = record {
  batch_id = 1;
  instrument = 7;
  orders = limit_order 1 1 buy 102 10 ∷ limit_order 2 2 sell 98 6 ∷ [];
}

created : create 1 7 unsorted ≡ ok sorted_batch
unfolding create fair_cross.Domain.Qty.is_zero new_batch fair_cross.Prelude.sort earlier
created = refl

create_iff_example :
    IsOk (create 1 7 unsorted) ↔ (All (IsValidOrder 7) unsorted × DistinctBy (λ o. o.id) unsorted)
create_iff_example = create_iff 1 7 unsorted

create-IsValidBatch_example : (sorted_batch ≡ new_batch 1 7 unsorted) × IsValidBatch sorted_batch
create-IsValidBatch_example = create-IsValidBatch 1 7 unsorted created

abbrev allocations : List OrderAllocation
allocations =
    allocation_of (limit_order 1 1 buy 102 10) 6 ∷ allocation_of (limit_order 2 2 sell 98 6) 6 ∷ []

fills_from_exact_example :
    (fills : List Fill) × (fills_from 100 7 0 allocations ≡ ok fills)
    × All (IsCanonicalFill 100 7) fills
    × (bought_qty fills ≡ bought_alloc allocations)
    × (sold_qty fills ≡ sold_alloc allocations)
fills_from_exact_example = fills_from_exact 100 7 0 allocations (omega arith) (omega arith)

pub ledger-IsValidLedger : IsValidLedger ledger
ledger-IsValidLedger = record { ordered = omega arith; inventories = omega arith }

pub ledger-IsFunded : IsFunded ledger demo
unfolding inventory_of lookup
ledger-IsFunded = record {
  valid = ledger-IsValidLedger;
  cash_fits = omega arith;
  inventory_fits = omega arith;
}

abbrev pub executed_fill : ℕ → ℕ → ℕ → Side → ℕ → Fill
executed_fill fill_id order_id account_id side qty = record {
  fill_id = fill_id;
  order_id = order_id;
  account_id = account_id;
  instrument_id = 7;
  side = side;
  execution_price = 100;
  fill_qty = qty;
  consideration = 100 * qty;
}

abbrev demo_fills : List Fill
demo_fills =
    executed_fill 0 1 1 buy 10
    ∷ executed_fill 1 2 2 sell 6
    ∷ executed_fill 2 3 1 buy 1
    ∷ executed_fill 3 4 2 sell 6
    ∷ executed_fill 4 5 3 buy 1
    ∷ []

abbrev demo_post : Ledger
demo_post = (1, account 1 3900 12) ∷ (2, account 2 1200 8) ∷ (3, account 3 0 3) ∷ []

abbrev demo_allocation : BatchAllocation
demo_allocation = record {
  clearing_price = some 100;
  target_volume = 12;
  total_buy_allocated = 12;
  total_sell_allocated = 12;
  allocations =
      allocation_of (limit_order 1 1 buy 102 10) 10
      ∷ allocation_of (limit_order 2 2 sell 98 6) 6
      ∷ allocation_of (limit_order 3 1 buy 100 5) 1
      ∷ allocation_of (limit_order 4 2 sell 100 6) 6
      ∷ allocation_of (limit_order 5 3 buy 100 4) 1
      ∷ [];
}

abbrev pub demo_result : BatchExecutionResult
demo_result = record {
  clearing_outcome = record { clearing_price = some 100; executable_volume = 12 };
  allocation = demo_allocation;
  fills = demo_fills;
  post_state = demo_post;
}

settled_demo : apply_fills demo_fills ledger ≡ ok demo_post
unfolding apply_fills debit_cash Money.checked_sub get_or_create_account lookup credit_inventory
    Qty.checked_add inventory_of debit_inventory Qty.checked_sub insert credit_cash
    Money.checked_add Qty.is_zero
settled_demo = refl

allocated_demo : allocate_batch demo (some 100) 12 ≡ ok demo_allocation
unfolding allocate_batch Qty.is_zero classify_order Qty.checked_add add64 lookup insert sub64
    fair_cross.Prelude.sort erase to_u64 mul128
allocated_demo = refl

generated_demo : generate_canonical_fills demo demo_allocation ≡ ok demo_fills
unfolding generate_canonical_fills Qty.is_zero FillRecord.create from_price_qty add64
generated_demo = refl

planned_demo : planned_fills demo ≡ ok demo_fills
unfolding planned_fills
planned_demo = rw (clears_at_100, allocated_demo, generated_demo) refl

planned_fills_balance_example :
    (fills : List Fill) × (planned_fills demo ≡ ok fills) × (bought_qty fills ≡ sold_qty fills)
planned_fills_balance_example = planned_fills_balance demo book-Distinct demo-IsClearable

demo_canonical : All (IsCanonicalFill 100 7) demo_fills
demo_canonical = (
  canonical 0 1 1 buy 10 (omega arith) (omega arith),
  (
    canonical 1 2 2 sell 6 (omega arith) (omega arith),
    (
      canonical 2 3 1 buy 1 (omega arith) (omega arith),
      (
        canonical 3 4 2 sell 6 (omega arith) (omega arith),
        (canonical 4 5 3 buy 1 (omega arith) (omega arith), tt),
      ),
    ),
  ),
)
  where
    canonical :
        (fill_id order_id account_id : ℕ) (side : Side) (qty : ℕ)
        → 0 < qty
        → qty < u64_mod
        → IsCanonicalFill 100 7 (executed_fill fill_id order_id account_id side qty)
    canonical fill_id order_id account_id side qty pos fits = record {
      price = refl;
      instrument = refl;
      exact = refl;
      qty_fits = fits;
      qty_positive = pos;
    }

demo-IsWordFill : All IsWordFill demo_fills
demo-IsWordFill = (
  word (omega arith) (omega arith),
  (
    word (omega arith) (omega arith),
    (
      word (omega arith) (omega arith),
      (word (omega arith) (omega arith), (word (omega arith) (omega arith), tt)),
    ),
  ),
)
  where
    word : {f : Fill} → f.fill_qty < u64_mod → f.consideration < u128_mod → IsWordFill f
    word q c = record { qty_fits = q; consideration_fits = c }

apply_batch_transition_passes_example :
    (apply_batch_transition ledger demo_fills ≡ ok demo_post)
    × (cash_sum demo_post ≡ cash_sum ledger)
    × (inventory_sum 7 demo_post ≡ inventory_sum 7 ledger)
    × IsValidLedger demo_post
apply_batch_transition_passes_example =
    apply_batch_transition_passes 100 7 ledger demo_post demo_fills (omega arith) demo_canonical
      refl ledger-IsValidLedger ledger-IsFunded.cash_fits ledger-IsFunded.inventory_fits
      settled_demo

execute_batch_succeeds_example :
    (r : BatchExecutionResult) × (execute_batch ledger demo ≡ ok r)
    × (r.post_state ≡ demo_post)
    × (r.fills ≡ demo_fills)
    × IsExecuted ledger demo r
execute_batch_succeeds_example =
    execute_batch_succeeds ledger demo book-Distinct demo-IsClearable ledger-IsFunded demo_fills
      demo_post planned_demo settled_demo

pub executed_demo : execute_batch ledger demo ≡ ok demo_result
unfolding execute_batch apply_batch_transition total_cash Money.checked_add insert
    total_inventory_of Qty.checked_add inventory_of lookup
executed_demo = rw (clears_at_100, allocated_demo, generated_demo, settled_demo) refl

execute_batch-IsExecuted_example : IsExecuted ledger demo demo_result
execute_batch-IsExecuted_example =
    execute_batch-IsExecuted ledger demo book-Distinct demo-IsClearable ledger-IsFunded demo_result
      executed_demo

apply_fills_moved_example :
    MovedBy cash_movement demo_fills ledger demo_post
    × ((inst : InstrumentId) → MovedBy (inventory_movement inst) demo_fills ledger demo_post)
    × IsValidLedger demo_post
apply_fills_moved_example =
    apply_fills_moved demo_fills ledger demo_post demo-IsWordFill ledger-IsValidLedger settled_demo

abbrev pub snapshot : ReferencePriceSnapshot
snapshot = record {
  oracle_id = 1;
  instrument_id = 7;
  reference_price = 98;
  timestamp_nanos = 1000;
  sequence = 1;
}

abbrev pub policy : ReferencePricePolicy
policy = record { max_staleness_nanos = 500; max_deviation_ticks = 5 }

validate_reference_iff_example :
    IsOk (validate_reference_price_snapshot policy snapshot 7 1200 (some 100)) ↔ (
      (snapshot.instrument_id ≡ 7)
      × (snapshot.timestamp_nanos ≤ 1200)
      × (1200 ≤ snapshot.timestamp_nanos + policy.max_staleness_nanos)
      × InCollar policy snapshot (some 100))
validate_reference_iff_example = validate_reference_iff policy snapshot 7 1200 (some 100)
