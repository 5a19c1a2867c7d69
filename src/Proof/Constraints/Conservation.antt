-- ===== src/Proof/Constraints/Conservation.antt =====
-- cpp/src/proof/constraints/conservation.cpp: the transition of each account, and the totals.
use Prim.Native.String.{◌++◌ as concat}
use fair_cross.Prelude.{ℕ, ◌==◌, if◌then◌else◌, List, [], ◌∷◌, Option, none, some, String}
use fair_cross.Domain.Error.{Result, ok}
use fair_cross.Domain.Words.{AccountId, InstrumentId, to_u64}
use fair_cross.Domain.Order.{is_buy}
use fair_cross.Domain.Account.{AccountState, inventory_of}
use fair_cross.Domain.Ledger.{Ledger, get_account}
use fair_cross.Domain.Fill.{Fill}
use fair_cross.Proof.R1cs.{
  LinearCombination, Synthesis, from_var, add_term, minus_one, next_var, push_witnesses,
  require_equal,
}

-- Cash and holding of an account, 0 where it is missing. The cash is cut to 64 bits.
abbrev pub cash_word : Option AccountState → ℕ
cash_word none = 0
cash_word (some acc) = to_u64 acc.cash

abbrev pub holding : InstrumentId → Option AccountState → ℕ
holding inst none = 0
holding inst (some acc) = inventory_of inst acc

pub record Expected : Type 0 where
  pub post_cash : LinearCombination
  pub post_inv : LinearCombination

-- The loop over the fills of an account.
unfoldable pub constrain_movements :
    AccountId → List Fill → Expected → Synthesis → Expected × Synthesis
unfolding push_witnesses to_u64
constrain_movements acc_id [] expected s = (expected, s)
constrain_movements acc_id (fill ∷ fills) expected s =
    let bought : Expected = record {
      post_cash = add_term expected.post_cash (next_var s 0) minus_one;
      post_inv = add_term expected.post_inv (next_var s 1) 1;
    } in
    let sold : Expected = record {
      post_cash = add_term expected.post_cash (next_var s 0) 1;
      post_inv = add_term expected.post_inv (next_var s 1) minus_one;
    } in
    let own = fill.account_id == acc_id in
    constrain_movements acc_id fills
      (if own then (if is_buy fill.side then bought else sold) else expected)
      (if own then push_witnesses (to_u64 fill.consideration ∷ fill.fill_qty ∷ []) s else s)

-- The four totals.
pub record Totals : Type 0 where
  pub pre_cash : LinearCombination
  pub post_cash : LinearCombination
  pub pre_inv : LinearCombination
  pub post_inv : LinearCombination

abbrev pub no_totals : Totals
no_totals = record { pre_cash = []; post_cash = []; pre_inv = []; post_inv = [] }

module _ (to_string : ℕ → String) where
  -- The constraints of one account, after its movements.
  abbrev constrain_transitions :
      AccountId → LinearCombination → LinearCombination → Expected × Synthesis → Synthesis
  constrain_transitions acc_id post_cash post_inv (expected, s) =
      require_equal post_inv expected.post_inv
        (concat "account_" (concat (to_string acc_id) "_inv_transition"))
        (require_equal post_cash expected.post_cash
          (concat "account_" (concat (to_string acc_id) "_cash_transition")) s)

  unfoldable pub constrain_account :
      InstrumentId → Ledger → List Fill → AccountId → AccountState → Synthesis → Synthesis
  unfolding push_witnesses constrain_movements to_u64
  constrain_account instrument post_state fills acc_id acc s =
      let post_acc = get_account acc_id post_state in
      let s1 =
        push_witnesses
          (to_u64 acc.cash
            ∷ cash_word post_acc
            ∷ inventory_of instrument acc
            ∷ holding instrument post_acc
            ∷ [])
          s in
      constrain_transitions acc_id (from_var (next_var s 1)) (from_var (next_var s 3)) (
        constrain_movements acc_id fills
          (record { post_cash = from_var (next_var s 0); post_inv = from_var (next_var s 2) }) s1)

  -- The loop over the accounts of the pre-state.
  unfoldable pub constrain_accounts :
      InstrumentId → Ledger → List Fill → Ledger → Totals → Synthesis → Totals × Synthesis
  unfolding constrain_account
  constrain_accounts instrument post_state fills [] totals s = (totals, s)
  constrain_accounts instrument post_state fills ((acc_id, acc) ∷ accounts) totals s =
      constrain_accounts instrument post_state fills accounts
        (record {
          pre_cash = add_term totals.pre_cash (next_var s 0) 1;
          post_cash = add_term totals.post_cash (next_var s 1) 1;
          pre_inv = add_term totals.pre_inv (next_var s 2) 1;
          post_inv = add_term totals.post_inv (next_var s 3) 1;
        })
        (constrain_account instrument post_state fills acc_id acc s)

  abbrev pub constrain_totals : Totals × Synthesis → Synthesis
  constrain_totals (totals, s) =
      require_equal totals.pre_inv totals.post_inv "global_asset_conservation"
        (require_equal totals.pre_cash totals.post_cash "global_cash_conservation" s)

  unfoldable pub synthesize_conservation_constraints :
      Ledger → Ledger → List Fill → InstrumentId → Synthesis → Result Synthesis
  unfolding constrain_accounts
  synthesize_conservation_constraints pre_state post_state fills instrument s =
      ok (constrain_totals (constrain_accounts instrument post_state fills pre_state no_totals s))
