-- ===== src/Domain/Ledger.antt =====
-- cpp/include/faircross/domain/account.hpp: class `Ledger`, the accounts by their id.
pub mod Laws
use fair_cross.Prelude.{Bool, true, false, ◌&&◌, [], ◌∷◌, Option, none, some}
use fair_cross.Prelude.OrdMap.{OrdMap, lookup, insert}
use fair_cross.Domain.Error.{Result, ok, ◌>>=◌}
use fair_cross.Domain.Words.{AccountId, InstrumentId, Money, Qty}
use fair_cross.Domain.Qty
use fair_cross.Domain.Money
use fair_cross.Domain.Account.{AccountState, new_account, inventory_of, is_blinded}

-- `accounts_`.
abbrev pub Ledger : Type 0
Ledger = OrdMap AccountState

-- `get_or_create_account`: the account, and the ledger that holds it.
unfoldable pub get_or_create_account : AccountId → Ledger → AccountState × Ledger
get_or_create_account id l = elim (lookup id l) [
  | none ↦ (new_account id 0, insert id (new_account id 0) l)
  | some acc ↦ (acc, l)
]

unfoldable pub get_account : AccountId → Ledger → Option AccountState
get_account id l = lookup id l

unfoldable pub insert_account : AccountState → Ledger → Ledger
insert_account acc l = insert acc.id acc l

every_blinded : Ledger → Bool
every_blinded [] = true
every_blinded ((k, acc) ∷ l) = is_blinded acc && every_blinded l

unfoldable pub is_fully_blinded : Ledger → Bool
unfolding every_blinded
is_fully_blinded [] = false
is_fully_blinded (e ∷ l) = every_blinded (e ∷ l)

-- The loop of `total_cash`, from a running sum.
unfoldable pub cash_from : Money → Ledger → Result Money
cash_from sum [] = ok sum
cash_from sum ((k, acc) ∷ l) = do sum ← Money.checked_add sum acc.cash; cash_from sum l

unfoldable pub total_cash : Ledger → Result Money
unfolding cash_from
total_cash l = cash_from 0 l

-- The loop of `total_inventory_of`.
unfoldable pub inventory_from : InstrumentId → Qty → Ledger → Result Qty
inventory_from inst sum [] = ok sum
inventory_from inst sum ((k, acc) ∷ l) = do
  sum ← Qty.checked_add sum (inventory_of inst acc)
  inventory_from inst sum l

unfoldable pub total_inventory_of : InstrumentId → Ledger → Result Qty
unfolding inventory_from
total_inventory_of inst l = inventory_from inst 0 l
