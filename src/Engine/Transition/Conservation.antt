-- ===== src/Engine/Transition/Conservation.antt =====
-- The fills conserve cash and inventory, in total and account by account.
use fair_cross.Prelude.{
  ℕ, ◌+◌, ◌≡◌, refl, ◌==◌, if◌then◌else◌, List, [], ◌∷◌, none, some, sum_by, All, arith, inl, inr,
  Bool-cases, Option-cases,
}
use fair_cross.Prelude.OrdMap.{
  lookup, insert, lookup-insert, insert-IsOrdered, sum_values, sum_values-insert, value_or_zero,
  All-insert, All-lookup,
}
use fair_cross.Domain.Error.{ok, ◌>>=◌, >>=-eq-ok}
use fair_cross.Domain.Words.{AccountId, InstrumentId}
use fair_cross.Domain.Account.{AccountState, new_account}
use fair_cross.Domain.Account.Laws.{HasOrderedInventory}
use fair_cross.Domain.Ledger.{Ledger, get_or_create_account}
use fair_cross.Domain.Ledger.Laws.{IsValidLedger}
use fair_cross.Domain.Fill.{Fill}
use fair_cross.Engine.Transition.{settle, apply_fill, apply_fills}
use fair_cross.Engine.Transition.Movements.{
  IsWordFill, Movement, IsMovement, settle-eq-ok, cash_movement, cash-IsMovement,
  inventory_movement, inventory-IsMovement,
}

-- What a fill moves at one account.
abbrev pub outflow_at : Movement → AccountId → Fill → ℕ
outflow_at m k f = if k == f.account_id then m.outflow f else 0

abbrev pub inflow_at : Movement → AccountId → Fill → ℕ
inflow_at m k f = if k == f.account_id then m.inflow f else 0

-- The amount of an account, zero for one that the ledger does not hold.
abbrev pub held : Movement → AccountId → Ledger → ℕ
held m k l = value_or_zero m.amount (lookup k l)

-- A fill changes the total and each account by what it moves, and keeps the ledger valid.
abbrev pub Moved : Movement → Fill → Ledger → Ledger → Type 0
Moved m f l l' =
    (sum_values m.amount l' + m.outflow f ≡ sum_values m.amount l + m.inflow f)
    × ((k : AccountId) → held m k l' + outflow_at m k f ≡ held m k l + inflow_at m k f)
    × IsValidLedger l'

module _ (m : Movement) (im : IsMovement m) (f : Fill) (w : IsWordFill f) where
  -- The account of the fill is in the ledger.
  settled_in_place :
      (l : Ledger) (acc acc' : AccountState)
      → IsValidLedger l
      → lookup f.account_id l ≡ some acc
      → settle f acc ≡ ok acc'
      → Moved m f l (insert f.account_id acc' l)
  settled_in_place l acc acc' v e s =
      let o : HasOrderedInventory acc =
        All-lookup HasOrderedInventory f.account_id l v.inventories e in
      let moved = im.settled f acc acc' w o s in
      (
        ground (arith, sum_values-insert m.amount f.account_id acc' l v.ordered, moved, e),
        (λ k. elim (Bool-cases (k == f.account_id)) [
          | inl q ↦ ground (arith, lookup-insert k f.account_id acc' l, moved, e)
          | inr q ↦ ground (arith, lookup-insert k f.account_id acc' l)
        ]),
        record {
          ordered = insert-IsOrdered f.account_id acc' l v.ordered;
          inventories =
              All-insert (λ e. HasOrderedInventory e.1) f.account_id acc' l
                (settle-eq-ok f acc acc' 0 w o s).2 v.inventories;
        },
      )

  -- The creation of the account moves nothing.
  created :
      (l : Ledger)
      → IsValidLedger l
      → lookup f.account_id l ≡ none
      → (let l' = insert f.account_id (new_account f.account_id 0) l in
          (sum_values m.amount l' ≡ sum_values m.amount l)
          × ((k : AccountId) → held m k l' ≡ held m k l)
          × IsValidLedger l')
  created l v e =
      let zero_amount = im.none_at_first f.account_id in
      (
        ground (
          arith,
          sum_values-insert m.amount f.account_id (new_account f.account_id 0) l v.ordered,
          zero_amount,
          e,
        ),
        (λ k. elim (Bool-cases (k == f.account_id)) [
          | inl q ↦
              ground
                (arith, lookup-insert k f.account_id (new_account f.account_id 0) l, zero_amount, e)
          | inr q ↦ ground (arith, lookup-insert k f.account_id (new_account f.account_id 0) l)
        ]),
        record {
          ordered = insert-IsOrdered f.account_id (new_account f.account_id 0) l v.ordered;
          inventories =
              All-insert (λ e. HasOrderedInventory e.1) f.account_id (new_account f.account_id 0) l
                (unfold new_account in tt) v.inventories;
        },
      )

  -- The settlement of the account that `get_or_create_account` gives, and the write.
  settle_and_write :
      (l l₁ l' : Ledger) (acc : AccountState)
      → IsValidLedger l₁
      → lookup f.account_id l₁ ≡ some acc
      → (settle f acc >>= λ acc'. ok (insert f.account_id acc' l)) ≡ ok l'
      → l ≡ l₁
      → Moved m f l₁ l'
  settle_and_write l l₁ l' acc v q e same =
      let (acc', s, written) = >>=-eq-ok (settle f acc) _ e in
      let final : l' ≡ insert f.account_id acc' l₁ = cc in
      rw final (settled_in_place l₁ acc acc' v q s)

  apply_fill-Moved : (l l' : Ledger) → IsValidLedger l → apply_fill f l ≡ ok l' → Moved m f l l'
  unfolding apply_fill get_or_create_account
  apply_fill-Moved l l' v e = elim (Option-cases (lookup f.account_id l)) [
    | inl q ↦
        let l₁ = insert f.account_id (new_account f.account_id 0) l in
        let (same_sum, same_held, v₁) = created l v q in
        let r =
          settle_and_write l₁ l₁ l' (new_account f.account_id 0) v₁
            (ground (arith, lookup-insert f.account_id f.account_id (new_account f.account_id 0) l))
            (rw (q, get_or_create_account) at e) refl in
        (omega (arith, r.0, same_sum), (λ k. omega (arith, r.1 k, same_held k)), r.2)
    | inr (acc, q) ↦ settle_and_write l l l' acc v q (rw (q, get_or_create_account) at e) refl
  ]

module _ (m : Movement) (im : IsMovement m) where
  -- One fill after the other, for one movement.
  pub apply_movement :
      (fills : List Fill) (l l' : Ledger)
      → All IsWordFill fills
      → IsValidLedger l
      → apply_fills fills l ≡ ok l'
      → (sum_values m.amount l' + sum_by m.outflow fills
          ≡ sum_values m.amount l + sum_by m.inflow fills)
        × ((k : AccountId)
            → held m k l' + sum_by (outflow_at m k) fills
              ≡ held m k l + sum_by (inflow_at m k) fills)
        × IsValidLedger l'
  unfolding apply_fills
  apply_movement [] l l' w v e = let same : l' ≡ l = cc in rw same (refl, (λ k. refl), v)
  apply_movement (f ∷ fills) l l' w v e =
      let (l₁, one, rest) = >>=-eq-ok (apply_fill f l) _ e in
      let (sum₁, held₁, v₁) = apply_fill-Moved m im f w.0 l l₁ v one in
      let (sum₂, held₂, v₂) = apply_movement fills l₁ l' w.1 v₁ rest in
      (omega arith, (λ k. omega (arith, held₁ k, held₂ k)), v₂)

-- Between two ledgers, the total of a movement's amount and the amount of each account change by
-- exactly what some fills move of it.
abbrev pub MovedBy : Movement → List Fill → Ledger → Ledger → Type 0
MovedBy m fills l l' =
    (sum_values m.amount l' + sum_by m.outflow fills
      ≡ sum_values m.amount l + sum_by m.inflow fills)
    × ((k : AccountId)
        → held m k l' + sum_by (outflow_at m k) fills ≡ held m k l + sum_by (inflow_at m k) fills)

-- After any list of word-sized fills that applies to a valid ledger, cash in total and the cash of each
-- account have changed by exactly what the fills pay, so have the holdings of each instrument by what
-- they deliver, and the ledger is valid.
pub apply_fills_moved :
    (fills : List Fill) (l l' : Ledger)
    → All IsWordFill fills
    → IsValidLedger l
    → apply_fills fills l ≡ ok l'
    → MovedBy cash_movement fills l l'
      × ((inst : InstrumentId) → MovedBy (inventory_movement inst) fills l l')
      × IsValidLedger l'
apply_fills_moved fills l l' w v e =
    let (cash, paid, valid) = apply_movement cash_movement cash-IsMovement fills l l' w v e in
    (
      (cash, paid),
      (λ inst.
          let (lots, delivered, _) =
            apply_movement (inventory_movement inst) (inventory-IsMovement inst) fills l l' w v e in
          (lots, delivered)),
      valid,
    )
