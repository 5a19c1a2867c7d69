-- ===== src/Adversary.antt =====
-- cpp/include/faircross/adversary/mutator.hpp and cpp/src/adversary/mutator.cpp: an operator that runs a
-- batch and changes one thing.
pub mod Matrix
pub mod Honest
use fair_cross.Prelude.{
  ℕ, zero, suc, ◌+◌, ◌-◌, ◌%◌, Bool, true, false, ◌||◌, ltb, leb, ◌==◌, if◌then◌else◌, List, [],
  ◌∷◌, ◌++◌, map, Option, none, some, length,
}
use fair_cross.Domain.Error.{Result, ok, err, unwrap}
use fair_cross.Domain.Words.{
  Price, Qty, Money, OrderId, AccountId, InstrumentId, BatchId, add64, sub64, u64_mod,
}
use fair_cross.Domain.Money.{from_price_qty}
use fair_cross.Domain.Order.{Order, SaltedOrderPreimage, is_buy}
use fair_cross.Prelude.OrdMap.{insert}
use fair_cross.Domain.Account.{
  AccountState, credit_cash, debit_cash, credit_inventory, debit_inventory,
}
use fair_cross.Domain.Ledger.{Ledger, get_or_create_account}
use fair_cross.Domain.Fill.{Fill}
use fair_cross.Domain.Oracle.{ReferencePriceSnapshot, ReferencePricePolicy}
use fair_cross.Engine.Batch.{Batch, new_batch}
use fair_cross.Engine.Auction.{ClearingOutcome, determine_clearing_outcome}
use fair_cross.Engine.Allocation.{OrderAllocation, BatchAllocation, allocate_batch}
use fair_cross.Engine.Fills.{generate_canonical_fills}
use fair_cross.Engine.Transition.{BatchExecutionResult}
use fair_cross.Engine.Accounting.{
  OrderAccountingRecord, CompleteInputAccounting, build_complete_input_accounting,
}
use fair_cross.Commitments.Sha256.{Commitment}
use fair_cross.Commitments.Merkle.{MerkleTree, new_tree, root}
use fair_cross.Commitments.Payloads.{BatchHeader, compute_batch_commitment}

-- The type of a mutation, with the fields that it reads. A number of ticks is the bit pattern of a
-- signed 64-bit number.
pub data AdversarialMutation : Type 0 where
  no_mutation : AdversarialMutation
  manipulate_clearing_price : ℕ → AdversarialMutation
  censor_order : ℕ → AdversarialMutation
  inject_unauthorized_order : Order → List ℕ → AdversarialMutation
  manipulate_allocation : OrderId → Qty → AdversarialMutation
  violate_limit_price : OrderId → Price → AdversarialMutation
  freeze_post_state : AdversarialMutation
  inflate_post_state_cash : AccountId → Money → AdversarialMutation
  inflate_post_state_inventory : AccountId → InstrumentId → Qty → AdversarialMutation
  spoof_commitment_leaf : ℕ → Commitment → AdversarialMutation
  replay_batch_header : BatchId → AdversarialMutation
  stale_oracle_snapshot : ℕ → AdversarialMutation

pub record AdversarialExecution : Type 0 where
  pub batch : Batch
  pub execution_result : BatchExecutionResult
  pub merkle_tree : MerkleTree
  pub accounting : CompleteInputAccounting
  pub batch_header : BatchHeader
  pub batch_commitment : Commitment
  pub oracle_snapshot : Option ReferencePriceSnapshot
  pub oracle_policy : Option ReferencePricePolicy

-- A throw ends the run.
infixl 5 ◌>>=◌
abbrev pub ◌>>=◌ {ℓ κ} : {A : Type ℓ} {B : Type κ} → Option A → (A → Option B) → Option B
none >>= next = none
some a >>= next = next a

abbrev pub erase_at {ℓ} : {A : Type ℓ} → ℕ → List A → List A
erase_at i [] = []
erase_at zero (x ∷ xs) = xs
erase_at (suc i) (x ∷ xs) = x ∷ erase_at i xs

abbrev pub set_at {ℓ} : {A : Type ℓ} → ℕ → A → List A → List A
set_at i a [] = []
set_at zero a (x ∷ xs) = a ∷ xs
set_at (suc i) a (x ∷ xs) = x ∷ set_at i a xs

unfoldable pub mutate_intake :
    AdversarialMutation → List SaltedOrderPreimage → List SaltedOrderPreimage
mutate_intake (censor_order leaf_index) preimages = erase_at leaf_index preimages
mutate_intake (inject_unauthorized_order order salt) preimages =
    preimages ++ record { order = order; nonce = salt } ∷ []
mutate_intake _ preimages = preimages

-- A price moved by a signed number of ticks, and 1 where that is below.
unfoldable pub moved_price : ℕ → Price → Price
unfolding add64
moved_price offset_ticks price =
    let raw = add64 price offset_ticks in if raw == 0 || leb 9223372036854775808 raw then 1 else raw

abbrev moved : ℕ → Option Price → Option Price
moved offset_ticks none = none
moved offset_ticks (some price) = some (moved_price offset_ticks price)

unfoldable pub mutate_outcome : AdversarialMutation → ClearingOutcome → ClearingOutcome
unfolding moved_price
mutate_outcome (manipulate_clearing_price offset_ticks) outcome = record outcome {
  clearing_price = moved offset_ticks outcome.clearing_price;
}
mutate_outcome _ outcome = outcome

unfoldable pub mutate_allocation : AdversarialMutation → BatchAllocation → BatchAllocation
mutate_allocation (manipulate_allocation target forged_qty) allocation = record allocation {
  allocations =
      map (λ a. if a.order_id == target then record a { allocated_qty = forged_qty } else a)
        allocation.allocations;
}
mutate_allocation _ allocation = allocation

-- The loop over the fills of the target, whose consideration may not fit.
unfoldable pub forge_fills : OrderId → Price → List Fill → Option (List Fill)
unfolding unwrap
forge_fills target bogus_price [] = some []
forge_fills target bogus_price (f ∷ fills) = do
  f ←
      (if f.order_id == target
        then (do
          consideration ← unwrap (from_price_qty bogus_price f.fill_qty)
          some (record f { execution_price = bogus_price; consideration = consideration }))
        else some f)
  fills ← forge_fills target bogus_price fills
  some (f ∷ fills)

unfoldable pub mutate_fills : AdversarialMutation → List Fill → Option (List Fill)
unfolding forge_fills
mutate_fills (violate_limit_price target bogus_price) fills = forge_fills target bogus_price fills
mutate_fills _ fills = some fills

-- What an account is after an operation whose error nobody reads.
abbrev pub kept : AccountState → Result AccountState → AccountState
kept acc (ok after) = after
kept acc (err e) = acc

-- The loop of the settlement that ignores errors.
unfoldable pub post_fills : List Fill → Ledger → Ledger
post_fills [] l = l
post_fills (fill ∷ fills) l =
    let (acc, l') = get_or_create_account fill.account_id l in
    let paid = kept acc (debit_cash fill.consideration acc) in
    let bought = kept paid (credit_inventory fill.instrument_id fill.fill_qty paid) in
    let delivered = kept acc (debit_inventory fill.instrument_id fill.fill_qty acc) in
    let sold = kept delivered (credit_cash fill.consideration delivered) in
    post_fills fills (insert fill.account_id (if is_buy fill.side then bought else sold) l')

unfoldable pub mutate_post_state : AdversarialMutation → Ledger → Ledger → Ledger
mutate_post_state freeze_post_state pre_state post_state = pre_state
mutate_post_state (inflate_post_state_cash beneficiary extra_cash) pre_state post_state =
    let (acc, l) = get_or_create_account beneficiary post_state in
    insert beneficiary (kept acc (credit_cash extra_cash acc)) l
mutate_post_state (inflate_post_state_inventory beneficiary instrument extra_qty) pre_state
      post_state =
    let (acc, l) = get_or_create_account beneficiary post_state in
    insert beneficiary (kept acc (credit_inventory instrument extra_qty acc)) l
mutate_post_state _ pre_state post_state = post_state

-- The record at a place, with another commitment.
abbrev pub recommit_at : ℕ → Commitment → List OrderAccountingRecord → List OrderAccountingRecord
recommit_at i fake [] = []
recommit_at zero fake (r ∷ records) = record r { commitment = fake } ∷ records
recommit_at (suc i) fake (r ∷ records) = r ∷ recommit_at i fake records

unfoldable pub mutate_leaves :
    AdversarialMutation
    → MerkleTree × CompleteInputAccounting
    → MerkleTree × CompleteInputAccounting
mutate_leaves (spoof_commitment_leaf leaf_index fake) (merkle_tree, accounting) =
    if ltb leaf_index (length merkle_tree.leaves)
    then (
      new_tree (set_at leaf_index fake merkle_tree.leaves),
      record accounting { records = recommit_at leaf_index fake accounting.records },
    )
    else (merkle_tree, accounting)
mutate_leaves _ published = published

abbrev pub header_batch_id : AdversarialMutation → BatchId → BatchId
header_batch_id (replay_batch_header fake_batch_id) batch_id = fake_batch_id
header_batch_id _ batch_id = batch_id

abbrev pub cutoff_nanos : ℕ
cutoff_nanos = 1700000000000000000

abbrev pub max_staleness : ℕ
max_staleness = 1000000000

unfoldable pub snapshot_time : AdversarialMutation → ℕ
unfolding sub64
snapshot_time (stale_oracle_snapshot staleness_offset_nanos) =
    sub64 (sub64 cutoff_nanos max_staleness) staleness_offset_nanos
snapshot_time _ = sub64 cutoff_nanos 500000000

abbrev price_or_100 : Option Price → Price
price_or_100 none = 100
price_or_100 (some price) = price

-- `AdversarialOperator::execute`; nothing where `value()` throws.
unfoldable pub execute :
    AdversarialMutation → Ledger → Batch → List SaltedOrderPreimage → Option AdversarialExecution
unfolding mutate_intake unwrap mutate_outcome mutate_allocation mutate_fills post_fills
    mutate_post_state mutate_leaves snapshot_time
execute mutation pre_state batch preimages = do
  let working_preimages = mutate_intake mutation preimages
  let working_batch =
      new_batch batch.batch_id batch.instrument (map (λ p. p.order) working_preimages)
  honest_outcome ← unwrap (determine_clearing_outcome working_batch)
  let outcome = mutate_outcome mutation honest_outcome
  honest_allocation ←
      unwrap (allocate_batch working_batch outcome.clearing_price outcome.executable_volume)
  let allocation = mutate_allocation mutation honest_allocation
  honest_fills ← unwrap (generate_canonical_fills working_batch allocation)
  fills ← mutate_fills mutation honest_fills
  let post_state = mutate_post_state mutation pre_state (post_fills fills pre_state)
  let (merkle_tree, accounting) =
      mutate_leaves mutation
        (build_complete_input_accounting working_batch working_preimages allocation)
  let header : BatchHeader = record {
    semantic_version = 1;
    batch_id = header_batch_id mutation working_batch.batch_id;
    instrument_id = working_batch.instrument;
    cutoff_timestamp = 1700000000;
    order_count = length working_batch.orders % 4294967296;
    orders_merkle_root = root merkle_tree;
  }
  some (record {
    batch = working_batch;
    execution_result = record {
      clearing_outcome = outcome;
      allocation = allocation;
      fills = fills;
      post_state = post_state;
    };
    merkle_tree = merkle_tree;
    accounting = accounting;
    batch_header = header;
    batch_commitment = compute_batch_commitment header;
    oracle_snapshot = some (record {
      oracle_id = 1;
      instrument_id = working_batch.instrument;
      reference_price = price_or_100 outcome.clearing_price;
      timestamp_nanos = snapshot_time mutation;
      sequence = 1;
    });
    oracle_policy = some (record { max_staleness_nanos = max_staleness; max_deviation_ticks = 10 });
  })
