-- ===== src/Domain/Ledger/Laws.antt =====
-- The totals of a ledger are the exact sums over its accounts, where these fit the machine width.
use fair_cross.Prelude.{ℕ, ◌+◌, ◌<◌, ◌≡◌, [], ◌∷◌, All, arith}
use fair_cross.Prelude.OrdMap.{IsOrdered, sum_values}
use fair_cross.Domain.Error.{ok}
use fair_cross.Domain.Words.{InstrumentId, Money, Qty, u64_mod, u128_mod}
use fair_cross.Domain.Qty
use fair_cross.Domain.Money
use fair_cross.Domain.Account.{inventory_of}
use fair_cross.Domain.Account.Laws.{HasOrderedInventory}
use fair_cross.Domain.Ledger.{Ledger, cash_from, total_cash, inventory_from, total_inventory_of}

-- The exact total of the cash, and of the inventory of an instrument.
abbrev pub cash_sum : Ledger → ℕ
cash_sum l = sum_values (λ acc. acc.cash) l

abbrev pub inventory_sum : InstrumentId → Ledger → ℕ
inventory_sum i l = sum_values (inventory_of i) l

-- The keys of the accounts and of their inventories ascend, as a `std::map` keeps them.
pub record IsValidLedger (l : Ledger) : Type 0 where
  pub ordered : IsOrdered l
  pub inventories : All (λ e. HasOrderedInventory e.1) l

cash_from_fits :
    (acc : Money) (l : Ledger)
    → acc + cash_sum l < u128_mod
    → cash_from acc l ≡ ok (acc + cash_sum l)
unfolding cash_from
cash_from_fits acc [] h = let e : acc ≡ acc + 0 = omega arith in rw (← e)
cash_from_fits acc ((k, a) ∷ l) h =
    ground (arith, Money.checked_add_fits acc a.cash, cash_from_fits (acc + a.cash) l)

pub total_cash_exact : (l : Ledger) → cash_sum l < u128_mod → total_cash l ≡ ok (cash_sum l)
unfolding total_cash
total_cash_exact l h = ground (arith, cash_from_fits 0 l)

inventory_from_fits :
    (i : InstrumentId) (acc : Qty) (l : Ledger)
    → acc + inventory_sum i l < u64_mod
    → inventory_from i acc l ≡ ok (acc + inventory_sum i l)
unfolding inventory_from
inventory_from_fits i acc [] h = let e : acc ≡ acc + 0 = omega arith in rw (← e)
inventory_from_fits i acc ((k, a) ∷ l) h = ground (
  arith,
  Qty.checked_add_fits acc (inventory_of i a),
  inventory_from_fits i (acc + inventory_of i a) l,
)

pub total_inventory_exact :
    (i : InstrumentId) (l : Ledger)
    → inventory_sum i l < u64_mod
    → total_inventory_of i l ≡ ok (inventory_sum i l)
unfolding total_inventory_of
total_inventory_exact i l h = ground (arith, inventory_from_fits i 0 l)
