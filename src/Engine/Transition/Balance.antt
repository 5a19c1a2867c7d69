-- ===== src/Engine/Transition/Balance.antt =====
-- Canonical fills that buy what they sell leave the totals alone, so the conservation guards of
-- `apply_batch_transition` never fire on them.
use fair_cross.Prelude.{
  ℕ, ◌*◌, ◌<◌, ◌≡◌, refl, ap, true, List, [], ◌∷◌, sum_by, All, All-map, arith,
}
use fair_cross.Prelude.OrdMap.{OrdMap, insert, All-insert}
use fair_cross.Domain.Error.{ok, Ok, ok_value}
use fair_cross.Domain.Words.{Price, InstrumentId, u64_mod, u128_mod, mul-lt-u128_mod}
use fair_cross.Domain.Ledger.{Ledger, total_inventory_of}
use fair_cross.Domain.Ledger.Laws.{
  IsValidLedger, cash_sum, inventory_sum, total_cash_exact, total_inventory_exact,
}
use fair_cross.Domain.Fill.{Fill}
use fair_cross.Engine.Fills.Laws.{IsCanonicalFill, bought_qty, sold_qty}
use fair_cross.Engine.Transition.{
  apply_fills, totals_agree, touched, assets_conserved, apply_batch_transition,
}
use fair_cross.Engine.Transition.Movements.{IsWordFill, cash_movement, inventory_movement}
use fair_cross.Engine.Transition.Conservation.{apply_fills_moved}

module _ (cp : Price) (inst : InstrumentId) where
  pub canonical-IsWordFill : (f : Fill) → cp < u64_mod → IsCanonicalFill cp inst f → IsWordFill f
  canonical-IsWordFill f cw c = record {
    qty_fits = c.qty_fits;
    consideration_fits = omega (arith, c.exact, mul-lt-u128_mod cp f.fill_qty cw c.qty_fits);
  }

  -- What the buyers pay, and what the sellers receive.
  cash_paid :
      (fills : List Fill)
      → All (IsCanonicalFill cp inst) fills
      → (sum_by cash_movement.outflow fills ≡ cp * bought_qty fills)
        × (sum_by cash_movement.inflow fills ≡ cp * sold_qty fills)
  cash_paid [] h = (omega arith, omega arith)
  cash_paid (f ∷ fills) h =
      let rest = cash_paid fills h.1 in
      let exact = h.0.exact in (ground (arith, rest.0, exact), ground (arith, rest.1, exact))

  lots_moved :
      (fills : List Fill)
      → All (IsCanonicalFill cp inst) fills
      → (sum_by (inventory_movement inst).inflow fills ≡ bought_qty fills)
        × (sum_by (inventory_movement inst).outflow fills ≡ sold_qty fills)
  lots_moved [] h = (refl, refl)
  lots_moved (f ∷ fills) h =
      let rest = lots_moved fills h.1 in
      let same = h.0.instrument in (ground (arith, rest.0, same), ground (arith, rest.1, same))

  touched_inst :
      (fills : List Fill) (s : OrdMap Ok)
      → All (IsCanonicalFill cp inst) fills
      → All (λ (e : ℕ × Ok). e.0 ≡ inst) s
      → All (λ (e : ℕ × Ok). e.0 ≡ inst) (touched fills s)
  unfolding touched
  touched_inst [] s c h = h
  touched_inst (f ∷ fills) s c h =
      touched_inst fills (insert f.instrument_id ok_value s) c.1
        (All-insert (λ (e : ℕ × Ok). e.0 ≡ inst) f.instrument_id ok_value s c.0.instrument h)

  conserved_inst :
      (s : OrdMap Ok) (pre post : Ledger)
      → totals_agree (total_inventory_of inst pre) (total_inventory_of inst post) ≡ true
      → All (λ (e : ℕ × Ok). e.0 ≡ inst) s
      → assets_conserved s pre post ≡ true
  unfolding assets_conserved
  conserved_inst [] pre post t h = refl
  conserved_inst ((i, u) ∷ s) pre post t h = rw (h.0, t) (conserved_inst s pre post t h.1)

  agree_same : (n : ℕ) → totals_agree (ok n) (ok n) ≡ true
  unfolding totals_agree
  agree_same n = ground arith

  -- Fills of one batch that buy exactly what they sell: on a valid ledger whose cash and whose holding
  -- of the instrument have machine totals, settlement keeps both totals, and `apply_batch_transition`
  -- returns whatever the fills lead to, since its conservation guards pass.
  pub apply_batch_transition_passes :
      (pre post : Ledger) (fills : List Fill)
      → cp < u64_mod
      → All (IsCanonicalFill cp inst) fills
      → bought_qty fills ≡ sold_qty fills
      → IsValidLedger pre
      → cash_sum pre < u128_mod
      → inventory_sum inst pre < u64_mod
      → apply_fills fills pre ≡ ok post
      → (apply_batch_transition pre fills ≡ ok post)
        × (cash_sum post ≡ cash_sum pre)
        × (inventory_sum inst post ≡ inventory_sum inst pre)
        × IsValidLedger post
  unfolding apply_batch_transition
  apply_batch_transition_passes pre post fills cw c balanced v cash inv e = (
    rw
        (
          e,
          total_cash_exact pre cash,
          total_cash_exact post (omega (arith, same_cash)),
          same_cash,
          agree_same (cash_sum pre),
        )
        (rw (conserved_inst (touched fills []) pre post assets (touched_inst fills [] c tt)) refl),
    same_cash,
    same_inv,
    (apply_fills_moved fills pre post words v e).2,
  )
    where
      words : All IsWordFill fills
      words = All-map {P = IsCanonicalFill cp inst} (λ f h. canonical-IsWordFill f cw h) fills c

      same_cash : cash_sum post ≡ cash_sum pre
      same_cash = omega (
        arith,
        (apply_fills_moved fills pre post words v e).0.0,
        cash_paid fills c,
        ap (λ (n : ℕ). cp * n) balanced,
      )

      same_inv : inventory_sum inst post ≡ inventory_sum inst pre
      same_inv =
          omega (arith, ((apply_fills_moved fills pre post words v e).1 inst).0, lots_moved fills c)

      assets : totals_agree (total_inventory_of inst pre) (total_inventory_of inst post) ≡ true
      assets =
          rw
            (
              total_inventory_exact inst pre inv,
              total_inventory_exact inst post (omega (arith, same_inv)),
              same_inv,
            )
            (agree_same (inventory_sum inst pre))
