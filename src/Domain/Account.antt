-- ===== src/Domain/Account.antt =====
-- cpp/include/faircross/domain/account.hpp: class `AccountState`. A method that changes the account
-- returns the new account; one that fails returns the error, and the account is as it was.
pub mod Laws
use fair_cross.Prelude.{
  ℕ, Bool, true, not, ◌&&◌, ◌==◌, if◌then◌else◌, List, [], ◌∷◌, Option, none, some,
}
use fair_cross.Prelude.OrdMap.{OrdMap, lookup, insert, erase}
use fair_cross.Domain.Error.{Result, ok, ◌>>=◌, converted, or_fail, insufficient}
use fair_cross.Domain.Words.{AccountId, InstrumentId, Money, Qty}
use fair_cross.Domain.Qty
use fair_cross.Domain.Money

-- `commitment_salt` is the list of the 32 bytes.
pub record AccountState : Type 0 where
  pub id : AccountId
  pub cash : Money
  pub inventory : OrdMap Qty
  pub commitment_salt : List ℕ

-- The bytes of an array that is not set.
abbrev pub zero_salt : List ℕ
zero_salt =
    0 ∷ 0 ∷ 0 ∷ 0 ∷ 0 ∷ 0 ∷ 0 ∷ 0 ∷ 0 ∷ 0 ∷ 0 ∷ 0 ∷ 0 ∷ 0 ∷ 0 ∷ 0 ∷ 0 ∷ 0 ∷ 0 ∷ 0 ∷ 0 ∷ 0 ∷ 0 ∷ 0
    ∷ 0 ∷ 0 ∷ 0 ∷ 0 ∷ 0 ∷ 0 ∷ 0 ∷ 0 ∷ []

-- The constructor `AccountState(id, initial_cash)`.
unfoldable pub new_account : AccountId → Money → AccountState
new_account id initial_cash = record {
  id = id;
  cash = initial_cash;
  inventory = [];
  commitment_salt = zero_salt;
}

unfoldable pub set_commitment_salt : List ℕ → AccountState → AccountState
set_commitment_salt salt acc = record acc { commitment_salt = salt }

all_zero : List ℕ → Bool
all_zero [] = true
all_zero (b ∷ bs) = b == 0 && all_zero bs

-- The salt differs from the array of 32 zero bytes.
unfoldable pub is_blinded : AccountState → Bool
unfolding all_zero
is_blinded acc = not (all_zero acc.commitment_salt)

abbrev pub qty_or_zero : Option Qty → Qty
qty_or_zero none = 0
qty_or_zero (some q) = q

unfoldable pub inventory_of : InstrumentId → AccountState → Qty
inventory_of inst acc = qty_or_zero (lookup inst acc.inventory)

unfoldable pub credit_cash : Money → AccountState → Result AccountState
credit_cash amount acc = do
  cash ← converted (Money.checked_add acc.cash amount)
  ok (record acc { cash = cash })

unfoldable pub debit_cash : Money → AccountState → Result AccountState
debit_cash amount acc = do
  cash ← or_fail (Money.checked_sub acc.cash amount) (insufficient "Cash")
  ok (record acc { cash = cash })

unfoldable pub credit_inventory : InstrumentId → Qty → AccountState → Result AccountState
credit_inventory inst amount acc = do
  held ← converted (Qty.checked_add (inventory_of inst acc) amount)
  ok (record acc { inventory = insert inst held acc.inventory })

-- The write of `debit_inventory`: an entry that falls to zero is erased.
unfoldable pub store_debit : InstrumentId → Qty → AccountState → AccountState
store_debit inst held acc =
    if Qty.is_zero held
    then record acc { inventory = erase inst acc.inventory }
    else record acc { inventory = insert inst held acc.inventory }

unfoldable pub debit_inventory : InstrumentId → Qty → AccountState → Result AccountState
unfolding store_debit
debit_inventory inst amount acc = do
  held ← or_fail (Qty.checked_sub (inventory_of inst acc) amount) (insufficient "Inventory")
  ok (store_debit inst held acc)
