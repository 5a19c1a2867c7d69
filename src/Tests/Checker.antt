-- ===== src/Tests/Checker.antt =====
-- The checker's theorems on the batch that the other tests execute.
use Prim.Native.String.{◌++◌ as concat}
use fair_cross.Prelude.{ℕ, zero, suc, ◌≡◌, length, String}
use fair_cross.Domain.Error.{ok, ok_value, IsOk}
use fair_cross.Engine.Transition.{BatchExecutionResult, execute_batch}
use fair_cross.Engine.Checker.{verify_transition}
use fair_cross.Engine.Checker.Sound.{SameHoldings, verify_transition_sound}
use fair_cross.Engine.Checker.Complete.{verify_transition_complete}
use fair_cross.Tests.{
  demo, ledger, book-Distinct, demo-IsClearable, ledger-IsFunded, demo_result, executed_demo,
}

-- Numbers written in unary.
abbrev pub unary : ℕ → String
unary zero = ""
unary (suc n) = concat "1" (unary n)

verify_transition_complete_example : verify_transition unary ledger demo demo_result ≡ ok ok_value
verify_transition_complete_example =
    verify_transition_complete unary ledger demo demo_result book-Distinct demo-IsClearable
      ledger-IsFunded executed_demo

demo_accepted : IsOk (verify_transition unary ledger demo demo_result)
demo_accepted = rw verify_transition_complete_example tt

verify_transition_sound_example :
    (r : BatchExecutionResult) × (execute_batch ledger demo ≡ ok r)
    × (r.clearing_outcome ≡ demo_result.clearing_outcome)
    × (r.allocation ≡ demo_result.allocation)
    × (r.fills ≡ demo_result.fills)
    × (length demo_result.post_state ≡ length r.post_state)
    × SameHoldings demo.instrument r.post_state demo_result.post_state
verify_transition_sound_example =
    verify_transition_sound unary ledger demo demo_result demo_accepted
