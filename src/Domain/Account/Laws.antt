-- ===== src/Domain/Account/Laws.antt =====
-- What the account operations change, and what they leave alone.
use fair_cross.Prelude.{◌+◌, ◌-◌, ◌≤◌, ◌<◌, ◌≡◌, ◌==◌, if◌then◌else◌, arith}
use fair_cross.Prelude.OrdMap.{
  IsOrdered, lookup-insert, lookup-erase_ne, lookup-erase_self, insert-IsOrdered, erase-IsOrdered,
}
use fair_cross.Domain.Error.{ok}
use fair_cross.Domain.Words.{InstrumentId, Money, Qty, u64_mod, u128_mod}
use fair_cross.Domain.Qty
use fair_cross.Domain.Money
use fair_cross.Domain.Account.{
  AccountState, inventory_of, credit_cash, debit_cash, credit_inventory, store_debit,
  debit_inventory,
}

abbrev pub HasOrderedInventory : AccountState → Type 0
HasOrderedInventory acc = IsOrdered acc.inventory

-- A credit adds the amount to the cash and changes nothing else.
pub credit_cash-eq-ok :
    (amount : Money) (acc : AccountState) {acc' : AccountState}
    → amount < u128_mod
    → credit_cash amount acc ≡ ok acc'
    → acc' ≡ record acc { cash = acc.cash + amount }
unfolding credit_cash Money.checked_add
credit_cash-eq-ok amount acc h e = ground arith

-- A debit takes the amount from the cash, which covers it, and changes nothing else.
pub debit_cash-eq-ok :
    (amount : Money) (acc : AccountState) {acc' : AccountState}
    → debit_cash amount acc ≡ ok acc'
    → (amount ≤ acc.cash) × (acc' ≡ record acc { cash = acc.cash - amount })
unfolding debit_cash Money.checked_sub
debit_cash-eq-ok amount acc e = ground arith

-- The amount at one instrument.
abbrev pub at_instrument : InstrumentId → InstrumentId → Qty → Qty
at_instrument inst i amount = if i == inst then amount else 0

pub credit_inventory-eq-ok :
    (inst : InstrumentId) (amount : Qty) (acc : AccountState) {acc' : AccountState}
    (i : InstrumentId)
    → amount < u64_mod
    → HasOrderedInventory acc
    → credit_inventory inst amount acc ≡ ok acc'
    → (inventory_of i acc' ≡ inventory_of i acc + at_instrument inst i amount)
      × (acc'.cash ≡ acc.cash)
      × HasOrderedInventory acc'
unfolding credit_inventory inventory_of Qty.checked_add
credit_inventory-eq-ok inst amount acc i h o e = ground (
  arith,
  lookup-insert i inst (inventory_of inst acc + amount) acc.inventory,
  insert-IsOrdered inst (inventory_of inst acc + amount) acc.inventory o,
)

pub store_debit_lem :
    (inst : InstrumentId) (held : Qty) (acc : AccountState) (i : InstrumentId)
    → HasOrderedInventory acc
    → (inventory_of i (store_debit inst held acc)
        ≡ (if i == inst then held else inventory_of i acc))
      × ((store_debit inst held acc).cash ≡ acc.cash)
      × HasOrderedInventory (store_debit inst held acc)
unfolding store_debit inventory_of Qty.is_zero
store_debit_lem inst held acc i o = ground (
  arith,
  lookup-insert i inst held acc.inventory,
  insert-IsOrdered inst held acc.inventory o,
  lookup-erase_ne i inst acc.inventory,
  lookup-erase_self inst acc.inventory o,
  erase-IsOrdered inst acc.inventory o,
)

pub debit_inventory-eq-ok :
    (inst : InstrumentId) (amount : Qty) (acc : AccountState) {acc' : AccountState}
    (i : InstrumentId)
    → HasOrderedInventory acc
    → debit_inventory inst amount acc ≡ ok acc'
    → (amount ≤ inventory_of inst acc)
      × (inventory_of i acc' + at_instrument inst i amount ≡ inventory_of i acc)
      × (acc'.cash ≡ acc.cash)
      × HasOrderedInventory acc'
unfolding debit_inventory Qty.checked_sub
debit_inventory-eq-ok inst amount acc i o e =
    ground (arith, store_debit_lem inst (inventory_of inst acc - amount) acc i o)
