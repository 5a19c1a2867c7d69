-- ===== src/Adversary/Matrix.antt =====
-- cpp/src/adversary/matrix.cpp: a table of attacks, each run and audited.
use Prim.Native.String.{◌++◌ as concat}
use fair_cross.Prelude.{
  ℕ, ◌+◌, Bool, true, false, not, ◌&&◌, if◌then◌else◌, List, [], ◌∷◌, map, Option, none, some,
  replicate, length, String,
}
use fair_cross.Domain.Error.{Result, Ok, ok_value, ok, err, is_ok, error_message}
use fair_cross.Domain.Words.{OrderId, AccountId, BatchId, InstrumentId}
use fair_cross.Domain.Order.{Order, SaltedOrderPreimage}
use fair_cross.Domain.Ledger.{Ledger}
use fair_cross.Engine.Batch.{Batch}
use fair_cross.Engine.Checker.{verify_transition}
use fair_cross.Engine.Accounting.{verify_complete_input_accounting}
use fair_cross.Engine.OracleValidation.{validate_oracle_reference}
use fair_cross.Commitments.Sha256.{Commitment}
use fair_cross.Commitments.Merkle.{MerkleTree, new_tree}
use fair_cross.Commitments.Payloads.{commit_order}
use fair_cross.Adversary.{
  AdversarialMutation, AdversarialExecution, no_mutation, manipulate_clearing_price, censor_order,
  manipulate_allocation, violate_limit_price, freeze_post_state, inflate_post_state_cash,
  inflate_post_state_inventory, spoof_commitment_leaf, stale_oracle_snapshot, cutoff_nanos, execute,
  ◌>>=◌,
}

pub record AttackEvaluationResult : Type 0 where
  pub attack_name : String
  pub description : String
  pub is_honest_control : Bool
  pub passed_verification : Bool
  pub rejection_reason : Option String
  pub expected_behavior_met : Bool

pub record AttackMatrixReport : Type 0 where
  pub batch_id : BatchId
  pub instrument_id : InstrumentId
  pub total_evaluated : ℕ
  pub total_attacks_rejected : ℕ
  pub all_invariants_held : Bool
  pub results : List AttackEvaluationResult

pub record TestCase : Type 0 where
  pub name : String
  pub desc : String
  pub mutation : AdversarialMutation
  pub expect_pass : Bool

abbrev target_of : List Order → OrderId × AccountId
target_of [] = (1, 1)
target_of (order ∷ orders) = (order.id, order.account)

-- The bytes of `Commitment::from_bytes({0xEE})`.
abbrev fake_leaf : Commitment
fake_leaf = 238 ∷ replicate 31 0

abbrev attack : String → String → AdversarialMutation → TestCase
attack name desc mutation = record {
  name = name;
  desc = desc;
  mutation = mutation;
  expect_pass = false;
}

-- `test_cases`; -5 is a bit pattern.
unfoldable pub test_cases : OrderId → AccountId → InstrumentId → List TestCase
test_cases target_order_id target_account_id inst =
    record {
      name = "honest_baseline";
      desc = "Honest operator execution following published deterministic rules";
      mutation = no_mutation;
      expect_pass = true;
    }
    ∷ attack "omitted_order_censorship"
        "Operator silently drops eligible Order 0 from batch clearing" (censor_order 0)
    ∷ attack "clearing_price_inflation" "Operator artificially shifts clearing price by +5 ticks"
        (manipulate_clearing_price 5)
    ∷ attack "clearing_price_deflation" "Operator artificially shifts clearing price by -5 ticks"
        (manipulate_clearing_price 18446744073709551611)
    ∷ attack "overfill_attack" "Operator allocates 99,999 lots to target order"
        (manipulate_allocation target_order_id 99999)
    ∷ attack "preferential_allocation"
        "Operator manipulates allocation distribution to favor cartel member"
        (manipulate_allocation target_order_id 1)
    ∷ attack "limit_price_violation" "Operator executes order at non-compliant price"
        (violate_limit_price target_order_id 99999)
    ∷ attack "frozen_post_state_attack"
        "Operator publishes real fills but reports a post-state in which no balance moved"
        freeze_post_state
    ∷ attack "cash_creation_attack" "Operator mints $10,000 cash out of thin air"
        (inflate_post_state_cash target_account_id 10000)
    ∷ attack "inventory_creation_attack" "Operator mints 50 asset lots out of thin air"
        (inflate_post_state_inventory target_account_id inst 50)
    ∷ attack "commitment_leaf_spoofing" "Operator replaces Merkle leaf with spoofed digest"
        (spoof_commitment_leaf 0 fake_leaf)
    ∷ attack "stale_oracle_reference" "Operator clears batch with stale reference snapshot"
        (stale_oracle_snapshot 1)
    ∷ []

abbrev audit_oracle : AdversarialExecution → Result Ok
audit_oracle exec = elim exec.oracle_policy [
  | none ↦ ok ok_value
  | some policy ↦ elim exec.oracle_snapshot [
    | none ↦ ok ok_value
    | some snapshot ↦
        validate_oracle_reference snapshot policy cutoff_nanos
          exec.execution_result.clearing_outcome.clearing_price
  ]
]

-- The reason of the first audit that fails.
abbrev rejection : Result Ok → Result Ok → Result Ok → Option String
rejection (err e) acct oracle = some (concat "InvariantViolation: " (error_message e))
rejection (ok u) (err e) oracle = some (concat "AccountingError: " (error_message e))
rejection (ok u) (ok v) (err e) = some (concat "OracleValidationError: " (error_message e))
rejection (ok u) (ok v) (ok w) = none

-- `==` of `bool`.
abbrev same_bool : Bool → Bool → Bool
same_bool true b = b
same_bool false b = not b

unfoldable pub count_rejected : List AttackEvaluationResult → ℕ
count_rejected [] = 0
count_rejected (r ∷ results) = (if r.passed_verification then 0 else 1) + count_rejected results

unfoldable pub all_met : List AttackEvaluationResult → Bool
all_met [] = true
all_met (r ∷ results) = r.expected_behavior_met && all_met results

module _ (to_string : ℕ → String) where
  -- One round of the loop, on a run that does not throw.
  unfoldable pub audit :
      Ledger → Batch → MerkleTree → TestCase → AdversarialExecution → AttackEvaluationResult
  unfolding is_ok error_message
  audit pre_state batch original_merkle_tree tc exec =
      let trans_res = verify_transition to_string pre_state exec.batch exec.execution_result in
      let acct_res =
        verify_complete_input_accounting batch original_merkle_tree exec.accounting
          exec.execution_result.allocation in
      let oracle_res = audit_oracle exec in
      let passed = is_ok trans_res && is_ok acct_res && is_ok oracle_res in
      record {
        attack_name = tc.name;
        description = tc.desc;
        is_honest_control = tc.expect_pass;
        passed_verification = passed;
        rejection_reason = rejection trans_res acct_res oracle_res;
        expected_behavior_met = same_bool passed tc.expect_pass;
      }

  -- The loop over the cases; nothing where a run throws.
  unfoldable pub evaluate_cases :
      Ledger
      → Batch
      → List SaltedOrderPreimage
      → MerkleTree
      → List TestCase
      → Option (List AttackEvaluationResult)
  unfolding audit
  evaluate_cases pre_state batch preimages original_merkle_tree [] = some []
  evaluate_cases pre_state batch preimages original_merkle_tree (tc ∷ cases) = do
    exec ← execute tc.mutation pre_state batch preimages
    results ← evaluate_cases pre_state batch preimages original_merkle_tree cases
    some (audit pre_state batch original_merkle_tree tc exec ∷ results)

  unfoldable pub run_attack_matrix :
      Ledger → Batch → List SaltedOrderPreimage → Option AttackMatrixReport
  unfolding test_cases evaluate_cases count_rejected all_met
  run_attack_matrix pre_state batch preimages = do
    let (target_order_id, target_account_id) = target_of batch.orders
    results ←
        evaluate_cases pre_state batch preimages (new_tree (map commit_order preimages))
          (test_cases target_order_id target_account_id batch.instrument)
    some (record {
      batch_id = batch.batch_id;
      instrument_id = batch.instrument;
      total_evaluated = length results;
      total_attacks_rejected = count_rejected results;
      all_invariants_held = all_met results;
      results = results;
    })
