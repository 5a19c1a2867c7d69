-- ===== src/Engine/Checker/Complete.antt =====
-- The checker accepts what `execute_batch` computes.
use mathlib.Core.Option.{some-injective}
use fair_cross.Prelude.{
  ℕ, ◌+◌, ◌<◌, ◌≤◌, ◌≡◌, ◌≢◌, ◌∙◌, ap, refl, true, false, ◌==◌, if◌then◌else◌, List, [], ◌∷◌,
  Option, none, some, String, length, All, All-map, All-zip, arith, inl, inr, Bool-cases,
}
use fair_cross.Prelude.OrdMap.{OrdMap, lookup, insert, IsOrdered, lookup-insert, All-Above}
use fair_cross.Domain.Error.{Result, ok_value, ok, converted, converted-eq-ok, >>=-eq-ok}
use fair_cross.Domain.Words.{Price, InstrumentId, u64_mod}
use fair_cross.Domain.Qty
use fair_cross.Domain.Money.{from_price_qty, from_price_qty_exact}
use fair_cross.Domain.Order.{Order, is_buy}
use fair_cross.Domain.Fill.{Fill}
use fair_cross.Domain.Ledger.{Ledger, get_account, total_cash, total_inventory_of}
use fair_cross.Domain.Ledger.Laws.{cash_sum, inventory_sum, total_cash_exact, total_inventory_exact}
use fair_cross.Engine.Auction.{ClearingOutcome, determine_clearing_outcome}
use fair_cross.Engine.Auction.Totals.{Fits, demand, demand-le-buying}
use fair_cross.Engine.Auction.Clearing.{IsClearable, Clears}
use fair_cross.Engine.Allocation.{BatchAllocation, allocate_batch}
use fair_cross.Engine.Fills.{generate_canonical_fills}
use fair_cross.Engine.Batch.{Batch}
use fair_cross.Engine.Allocation.InTheMoney.{Distinct}
use fair_cross.Engine.Fills.Laws.{IsCanonicalFill, bought_qty, sold_qty}
use fair_cross.Engine.Fills.Origins.{IsJustified, find_order}
use fair_cross.Engine.Transition.{
  BatchExecutionResult, execute_batch, totals_agree, apply_batch_transition,
}
use fair_cross.Engine.Transition.Execution.{IsFunded, execute_batch-IsExecuted}
use fair_cross.Engine.Checker.{
  is_same, order_map, check_fill, check_fills, check_account, check_accounts, verify_transition,
  ClearingOutcome-discrete, BatchAllocation-discrete, fills-discrete,
}

is_same_self {ℓ} : {A : Type ℓ} (d : Discrete A) (a : A) → is_same d a a ≡ true
is_same_self d a = elim (d a a) as (λ r. elim r [ yes e ↦ true | no e ↦ false ] ≡ true) [
  | yes e ↦ refl
  | no e ↦ absurd (e refl)
]

order_map_kept :
    (os : List Order) (m : OrdMap Order) (k : ℕ) {o : Order}
    → lookup k m ≡ some o
    → All (λ p. p.id ≢ k) os
    → lookup k (order_map os m) ≡ some o
unfolding order_map
order_map_kept [] m k e h = e
order_map_kept (p ∷ os) m k e h =
    order_map_kept os (insert p.id p m) k (ground (arith, lookup-insert k p.id p m, h.0)) h.1

-- The map finds what the list holds first, if the ids differ.
order_map-find_order :
    (os : List Order) (m : OrdMap Order) (k : ℕ) {o : Order}
    → Distinct os
    → find_order k os ≡ some o
    → lookup k (order_map os m) ≡ some o
unfolding order_map
order_map-find_order [] m k d e = cc
order_map-find_order (p ∷ os) m k {o} d e = elim (Bool-cases (k == p.id)) [
  | inl q ↦
      let same : k ≡ p.id = ground arith in
      let is_first : p ≡ o = some-injective p o (rw q at e) in
      order_map_kept os (insert p.id p m) k (ground (arith, lookup-insert k p.id p m)) (rw same d.0)
  | inr q ↦ order_map-find_order os (insert p.id p m) k d.1 (rw q at e)
]

-- The totals after one fill.
abbrev counted : Fill → ℕ × ℕ → ℕ × ℕ
counted f (tb, ts) = if is_buy f.side then (tb + f.fill_qty, ts) else (tb, ts + f.fill_qty)

module _ (cp : Price) (inst : InstrumentId) (os : List Order) (d : Distinct os)
    (w : cp < u64_mod) where
  check_fill_ok :
      (f : Fill) (tb ts : ℕ)
      → IsCanonicalFill cp inst f
      → IsJustified cp os f
      → tb + (if is_buy f.side then f.fill_qty else 0) < u64_mod
      → ts + (if is_buy f.side then 0 else f.fill_qty) < u64_mod
      → check_fill (order_map os []) f (tb, ts) ≡ ok (counted f (tb, ts))
  unfolding check_fill
  check_fill_ok f tb ts c j hb hs =
      let there = order_map-find_order os [] f.order_id d j.found in
      let exact : from_price_qty f.execution_price f.fill_qty ≡ ok f.consideration =
        ground (arith, from_price_qty_exact cp f.fill_qty w c.qty_fits, c) in
      elim (Bool-cases (is_buy f.side)) [
        | inl e ↦
            let limit : cp ≤ j.order.price = ground (arith, j) in
            rw (there, exact) (ground (arith, Qty.checked_add_fits tb f.fill_qty, j, c))
        | inr e ↦
            let limit : j.order.price ≤ cp = ground (arith, j) in
            rw (there, exact) (ground (arith, Qty.checked_add_fits ts f.fill_qty, j, c))
      ]

  check_fills_ok :
      (fills : List Fill) (tb ts : ℕ)
      → All (IsCanonicalFill cp inst) fills
      → All (IsJustified cp os) fills
      → tb + bought_qty fills < u64_mod
      → ts + sold_qty fills < u64_mod
      → check_fills (order_map os []) fills (tb, ts)
        ≡ ok (tb + bought_qty fills, ts + sold_qty fills)
  unfolding check_fills
  check_fills_ok [] tb ts c j hb hs = ground arith
  check_fills_ok (f ∷ fills) tb ts c j hb hs = ground (
    arith,
    check_fill_ok f tb ts c.0 j.0,
    check_fills_ok fills (tb + f.fill_qty) ts c.1 j.1,
    check_fills_ok fills tb (ts + f.fill_qty) c.1 j.1,
  )

-- The stages that a successful execution went through.
stages_passed :
    (pre : Ledger) (b : Batch) (r : BatchExecutionResult)
    → execute_batch pre b ≡ ok r
    → (determine_clearing_outcome b ≡ ok r.clearing_outcome)
      × (allocate_batch b r.clearing_outcome.clearing_price r.clearing_outcome.executable_volume
          ≡ ok r.allocation)
      × (generate_canonical_fills b r.allocation ≡ ok r.fills)
      × (apply_batch_transition pre r.fills ≡ ok r.post_state)
unfolding execute_batch
stages_passed pre b r e =
    let (outcome, p1, e1) = >>=-eq-ok (converted (determine_clearing_outcome b)) _ e in
    let (alloc, p2, e2) =
      >>=-eq-ok (converted (allocate_batch b outcome.clearing_price outcome.executable_volume)) _
        e1 in
    let (fills, p3, e3) = >>=-eq-ok (converted (generate_canonical_fills b alloc)) _ e2 in
    let (post, p4, e4) = >>=-eq-ok (converted (apply_batch_transition pre fills)) _ e3 in
    put_together outcome alloc fills post p1 p2 p3 p4 (cc e4)
  where
    put_together :
        (outcome : ClearingOutcome) (alloc : BatchAllocation) (fills : List Fill) (post : Ledger)
        → converted (determine_clearing_outcome b) ≡ ok outcome
        → converted (allocate_batch b outcome.clearing_price outcome.executable_volume) ≡ ok alloc
        → converted (generate_canonical_fills b alloc) ≡ ok fills
        → converted (apply_batch_transition pre fills) ≡ ok post
        → record {
          clearing_outcome = outcome;
          allocation = alloc;
          fills = fills;
          post_state = post;
        }
          ≡ r
        → (determine_clearing_outcome b ≡ ok r.clearing_outcome)
          × (allocate_batch b r.clearing_outcome.clearing_price r.clearing_outcome.executable_volume
              ≡ ok r.allocation)
          × (generate_canonical_fills b r.allocation ≡ ok r.fills)
          × (apply_batch_transition pre r.fills ≡ ok r.post_state)
    put_together outcome alloc fills post p1 p2 p3 p4 same =
        rw (← same)
          (converted-eq-ok _ p1, converted-eq-ok _ p2, converted-eq-ok _ p3, converted-eq-ok _ p4)

-- Every entry is found under its key.
lookup_entries : (l : Ledger) → IsOrdered l → All (λ e. get_account e.0 l ≡ some e.1) l
unfolding get_account lookup
lookup_entries [] o = tt
lookup_entries ((k, acc) ∷ l) o = (
  ground arith,
  All-map (λ e (above, h). ground (arith, h)) l
      (All-zip (λ e. k < e.0) (λ e. get_account e.0 l ≡ some e.1) l (All-Above k l o.0)
        (lookup_entries l o.1)),
)

agree_exact : (m n : Result ℕ) (a : ℕ) → m ≡ ok a → n ≡ ok a → totals_agree m n ≡ true
unfolding totals_agree
agree_exact m n a p q = rw (p, q) (ground arith)

clearing_in_range :
    (os : List Order) (p : Option Price) (v : ℕ) → Fits os → Clears os p v → v < u64_mod
clearing_in_range os none v f cl = omega (arith, cl.0)
clearing_in_range os (some cp) v f cl =
    let vd : v ≤ demand os cp = ground (arith, cl.2) in omega (arith, demand-le-buying os cp, f)

module _ (to_string : ℕ → String) where
  check_accounts_self :
      (inst : InstrumentId) (l post : Ledger)
      → All (λ e. get_account e.0 post ≡ some e.1) l
      → check_accounts to_string inst l post ≡ ok ok_value
  unfolding check_accounts check_account
  check_accounts_self inst [] post h = refl
  check_accounts_self inst ((k, acc) ∷ l) post h =
      rw h.0 (ground (arith, check_accounts_self inst l post h.1))

  -- On clearable orders with different ids and a funded ledger, the checker accepts whatever
  -- `execute_batch` returns.
  pub verify_transition_complete :
      (pre : Ledger) (b : Batch) (r : BatchExecutionResult)
      → Distinct b.orders
      → IsClearable b.orders
      → IsFunded pre b
      → execute_batch pre b ≡ ok r
      → verify_transition to_string pre b r ≡ ok ok_value
  unfolding verify_transition
  verify_transition_complete pre b r d c funded e =
      let x = execute_batch-IsExecuted pre b d c funded r e in
      let (p1, p2, p3, p4) = stages_passed pre b r e in
      let v = r.clearing_outcome.executable_volume in
      let fits : v < u64_mod =
        clearing_in_range b.orders r.clearing_outcome.clearing_price v c.fits x.outcome_clears in
      let fills_checked : check_fills (order_map b.orders []) r.fills (0, 0)
          ≡ ok (0 + bought_qty r.fills, 0 + sold_qty r.fills) =
        check_fills_ok x.price b.instrument b.orders d x.price_fits r.fills 0 0 x.fills_canonical
          x.fills_justified (omega (arith, x.all_bought)) (omega (arith, x.all_sold)) in
      let balanced : (0 + bought_qty r.fills == 0 + sold_qty r.fills) ≡ true =
        ground (arith, x.all_bought, x.all_sold) in
      let cash : totals_agree (total_cash pre) (total_cash r.post_state) ≡ true =
        agree_exact _ _ (cash_sum pre) (total_cash_exact pre funded.cash_fits) (
          total_cash_exact r.post_state (omega (arith, x.cash_kept, funded.cash_fits))
          ∙ ap ok x.cash_kept) in
      let held : totals_agree (total_inventory_of b.instrument pre)
            (total_inventory_of b.instrument r.post_state)
          ≡ true =
        agree_exact _ _ (inventory_sum b.instrument pre)
          (total_inventory_exact b.instrument pre funded.inventory_fits)
          (total_inventory_exact b.instrument r.post_state
              (omega (arith, x.inventory_kept, funded.inventory_fits))
            ∙ ap ok x.inventory_kept) in
      let size : (length r.post_state == length r.post_state) ≡ true = ground arith in
      let accounts =
        check_accounts_self b.instrument r.post_state r.post_state
          (lookup_entries r.post_state x.post_valid.ordered) in
      rw
        (
          p1,
          is_same_self ClearingOutcome-discrete r.clearing_outcome,
          p2,
          is_same_self BatchAllocation-discrete r.allocation,
          p3,
          is_same_self fills-discrete r.fills,
          fills_checked,
          balanced,
          cash,
          held,
          p4,
          size,
          accounts,
        )
        refl
