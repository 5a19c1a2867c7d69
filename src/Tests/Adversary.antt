-- ===== src/Tests/Adversary.antt =====
-- The honest operator and the one that freezes the ledger, on the batch that the other tests execute.
use fair_cross.Prelude.{◌≡◌, refl, ap, List, map, replicate, some, arith}
use fair_cross.Domain.Error.{ok_value, ok, IsOk}
use fair_cross.Domain.Order.{SaltedOrderPreimage}
use fair_cross.Engine.Batch.{new_batch}
use fair_cross.Engine.Checker.{verify_transition}
use fair_cross.Engine.Checker.Sound.{SameHoldings}
use fair_cross.Adversary.{AdversarialExecution, no_mutation, freeze_post_state, execute}
use fair_cross.Adversary.Honest.{execute_honest_accepted, execute_frozen_refused}
use fair_cross.Tests.{
  account, demo, ledger, book-Distinct, demo-IsClearable, ledger-IsFunded, demo_result,
  executed_demo,
}
use fair_cross.Tests.Checker.{unary}

abbrev demo_preimages : List SaltedOrderPreimage
demo_preimages = map (λ o. record { order = o; nonce = replicate 32 9 }) demo.orders

demo_sorted : new_batch demo.batch_id demo.instrument (map (λ p. p.order) demo_preimages) ≡ demo
unfolding new_batch fair_cross.Prelude.sort fair_cross.Engine.Batch.earlier
demo_sorted = refl

execute_honest_accepted_example :
    (exec : AdversarialExecution) × (execute no_mutation ledger demo demo_preimages ≡ some exec)
    × (exec.batch ≡ demo)
    × (exec.execution_result ≡ demo_result)
    × (verify_transition unary ledger exec.batch exec.execution_result ≡ ok ok_value)
execute_honest_accepted_example =
    execute_honest_accepted unary ledger demo demo_preimages demo_result book-Distinct
      demo-IsClearable ledger-IsFunded demo_sorted executed_demo

-- The first buyer pays.
demo_moves : ¬ SameHoldings demo.instrument demo_result.post_state ledger
unfolding fair_cross.Domain.Ledger.get_account fair_cross.Prelude.OrdMap.lookup
demo_moves h =
    let (acc, found, cash, _) = h.0 in
    let same : account 1 5000 1 ≡ acc = cc in
    let before : 5000 ≡ acc.cash = ap (λ a. a.cash) same in omega arith

execute_frozen_refused_example :
    (exec : AdversarialExecution) × (execute freeze_post_state ledger demo demo_preimages
      ≡ some exec)
    × (¬ IsOk (verify_transition unary ledger exec.batch exec.execution_result))
execute_frozen_refused_example =
    execute_frozen_refused unary ledger demo demo_preimages demo_result demo_sorted executed_demo
      demo_moves
