-- ===== src/Engine/Transition/Movements.antt =====
-- What the fills move: cash from buyers to sellers, and inventory the other way.
use fair_cross.Prelude.{ℕ, ◌+◌, ◌<◌, ◌≡◌, refl, if◌then◌else◌, arith, inl, inr, Bool-cases}
use fair_cross.Prelude.OrdMap.{lookup}
use fair_cross.Domain.Error.{ok, ◌>>=◌, converted, converted-eq-ok, >>=-eq-ok}
use fair_cross.Domain.Words.{InstrumentId, AccountId, u64_mod, u128_mod}
use fair_cross.Domain.Order.{is_buy}
use fair_cross.Domain.Account.{
  AccountState, new_account, inventory_of, credit_cash, debit_cash, credit_inventory,
  debit_inventory,
}
use fair_cross.Domain.Account.Laws.{
  HasOrderedInventory, at_instrument, credit_cash-eq-ok, debit_cash-eq-ok, credit_inventory-eq-ok,
  debit_inventory-eq-ok,
}
use fair_cross.Domain.Fill.{Fill}
use fair_cross.Engine.Transition.{settle}

-- The fields of a fill fit their types.
pub record IsWordFill (f : Fill) : Type 0 where
  pub qty_fits : f.fill_qty < u64_mod
  pub consideration_fits : f.consideration < u128_mod

-- An amount that an account holds, and what a fill takes from it and adds to it.
pub record Movement : Type 0 where
  pub amount : AccountState → ℕ
  pub outflow : Fill → ℕ
  pub inflow : Fill → ℕ

abbrev pub cash_movement : Movement
cash_movement = record {
  amount = λ acc. acc.cash;
  outflow = λ f. if is_buy f.side then f.consideration else 0;
  inflow = λ f. if is_buy f.side then 0 else f.consideration;
}

abbrev pub inventory_movement : InstrumentId → Movement
inventory_movement i = record {
  amount = inventory_of i;
  outflow = λ f. if is_buy f.side then 0 else at_instrument f.instrument_id i f.fill_qty;
  inflow = λ f. if is_buy f.side then at_instrument f.instrument_id i f.fill_qty else 0;
}

-- A new account holds nothing, and a settlement moves exactly what the fill says.
pub record IsMovement (m : Movement) : Type 0 where
  pub none_at_first : (id : AccountId) → m.amount (new_account id 0) ≡ 0
  pub settled :
      (f : Fill) (acc acc' : AccountState)
      → IsWordFill f
      → HasOrderedInventory acc
      → settle f acc ≡ ok acc'
      → m.amount acc' + m.outflow f ≡ m.amount acc + m.inflow f

bought :
    (f : Fill) (acc acc' : AccountState) (i : InstrumentId)
    → IsWordFill f
    → HasOrderedInventory acc
    → (converted (debit_cash f.consideration acc) >>= λ a.
        converted (credit_inventory f.instrument_id f.fill_qty a))
      ≡ ok acc'
    → (acc'.cash + f.consideration ≡ acc.cash)
      × (inventory_of i acc' ≡ inventory_of i acc + at_instrument f.instrument_id i f.fill_qty)
      × HasOrderedInventory acc'
unfolding inventory_of
bought f acc acc' i w o e =
    let (a, paid, rest) = >>=-eq-ok (converted (debit_cash f.consideration acc)) _ e in
    let (covers, same) = debit_cash-eq-ok f.consideration acc (converted-eq-ok _ paid) in
    let ordered : HasOrderedInventory a = rw same o in
    let (got, kept, ordered') =
      credit_inventory-eq-ok f.instrument_id f.fill_qty a i w.qty_fits ordered
        (converted-eq-ok _ rest) in
    (ground arith, ground arith, ordered')

sold :
    (f : Fill) (acc acc' : AccountState) (i : InstrumentId)
    → IsWordFill f
    → HasOrderedInventory acc
    → (converted (debit_inventory f.instrument_id f.fill_qty acc) >>= λ a.
        converted (credit_cash f.consideration a))
      ≡ ok acc'
    → (acc'.cash ≡ acc.cash + f.consideration)
      × (inventory_of i acc' + at_instrument f.instrument_id i f.fill_qty ≡ inventory_of i acc)
      × HasOrderedInventory acc'
unfolding inventory_of
sold f acc acc' i w o e =
    let (a, delivered, rest) =
      >>=-eq-ok (converted (debit_inventory f.instrument_id f.fill_qty acc)) _ e in
    let (covers, gave, kept, ordered) =
      debit_inventory-eq-ok f.instrument_id f.fill_qty acc i o (converted-eq-ok _ delivered) in
    let same = credit_cash-eq-ok f.consideration a w.consideration_fits (converted-eq-ok _ rest) in
    (ground arith, ground arith, rw same ordered)

-- A settlement debits and credits the cash by the consideration and the inventory by the quantity.
pub settle-eq-ok :
    (f : Fill) (acc acc' : AccountState) (i : InstrumentId)
    → IsWordFill f
    → HasOrderedInventory acc
    → settle f acc ≡ ok acc'
    → (acc'.cash + cash_movement.outflow f ≡ acc.cash + cash_movement.inflow f)
      × (inventory_of i acc' + (inventory_movement i).outflow f
          ≡ inventory_of i acc + (inventory_movement i).inflow f)
      × HasOrderedInventory acc'
unfolding settle
settle-eq-ok f acc acc' i w o e = elim (Bool-cases (is_buy f.side)) [
  | inl b ↦
      let r = bought f acc acc' i w o (rw b at e) in
      rw b (omega (arith, r.0), omega (arith, r.1), r.2)
  | inr b ↦
      let r = sold f acc acc' i w o (rw b at e) in
      rw b (omega (arith, r.0), omega (arith, r.1), r.2)
]

pub cash-IsMovement : IsMovement cash_movement
unfolding new_account
cash-IsMovement = record {
  none_at_first = λ id. refl;
  settled = λ f acc acc' w o e. (settle-eq-ok f acc acc' 0 w o e).0;
}

pub inventory-IsMovement : (i : InstrumentId) → IsMovement (inventory_movement i)
unfolding new_account inventory_of lookup
inventory-IsMovement i = record {
  none_at_first = λ id. refl;
  settled = λ f acc acc' w o e. (settle-eq-ok f acc acc' i w o e).1;
}
