-- ===== src/Engine/Transition/Execution.antt =====
-- `execute_batch` from end to end.
use fair_cross.Prelude.{
  ℕ, ◌≤◌, ◌<◌, ◌≡◌, ◌∙◌, refl, sym, true, ◌||◌, if◌then◌else◌, List, [], ◌∷◌, map, Option, none,
  some, sum_by, All, arith, inl, inr, Bool-cases,
}
use fair_cross.Domain.Error.{Result, ok, converted, converted-eq-ok, ◌>>=◌, >>=-eq-ok}
use fair_cross.Domain.Words.{Price, u64_mod, u128_mod}
use fair_cross.Domain.Order.{Order, Side, buy, sell, invalid, is_buy, is_sell, same_side}
use fair_cross.Domain.Qty.{is_zero}
use fair_cross.Domain.Ledger.{Ledger}
use fair_cross.Domain.Ledger.Laws.{IsValidLedger, cash_sum, inventory_sum}
use fair_cross.Domain.Fill.{Fill}
use fair_cross.Engine.Batch.{Batch}
use fair_cross.Engine.Auction.{ClearingOutcome, determine_clearing_outcome}
use fair_cross.Engine.Auction.Totals.{HasSide, demand, supply, demand-le-buying}
use fair_cross.Engine.Auction.Clearing.{IsClearable, Clears, determine_optimal}
use fair_cross.Engine.Allocation.{
  OrderAllocation, BatchAllocation, allocation_of, allocate_batch, nothing_allocated,
}
use fair_cross.Engine.Allocation.InTheMoney.{Distinct}
use fair_cross.Engine.Allocation.Merging.{either_fill}
use fair_cross.Engine.Allocation.Whole.{batch_allocation, allocate_batch_rules}
use fair_cross.Engine.Fills.{generate_canonical_fills}
use fair_cross.Engine.Fills.Laws.{
  IsCanonicalFill, bought_qty, sold_qty, bought_alloc, sold_alloc, fills_from_exact,
}
use fair_cross.Engine.Fills.Origins.{IsJustified, IsJustified-fills_from, rules_grant}
use fair_cross.Engine.Transition.{
  BatchExecutionResult, apply_fills, apply_batch_transition, execute_batch,
}
use fair_cross.Engine.Transition.Balance.{apply_batch_transition_passes}

-- No allocation exceeds what is allocated on its side.
allocated_fit :
    (as' : List OrderAllocation)
    → bought_alloc as' < u64_mod
    → sold_alloc as' < u64_mod
    → All (λ a. a.allocated_qty < u64_mod) as'
allocated_fit [] h k = tt
allocated_fit (a ∷ as') h k = (
  elim (Bool-cases (is_buy a.side)) [ inl e ↦ ground arith | inr e ↦ ground arith ],
  allocated_fit as' (omega arith) (omega arith),
)

bought_total :
    (f g : Order → ℕ) (os : List Order)
    → bought_alloc (map (λ o. allocation_of o (either_fill f g o)) os)
      ≡ sum_by (λ o. if same_side o.side buy then f o else 0) os
bought_total f g [] = refl
bought_total f g (o ∷ os) = omega (arith, here o.side, bought_total f g os)
  where
    here :
        (s : Side)
        → (if is_buy s then (if is_buy s then f o else g o) else 0)
          ≡ (if same_side s buy then f o else 0)
    here buy = refl
    here sell = refl
    here (invalid n) = refl

sold_total :
    (f g : Order → ℕ) (os : List Order)
    → All HasSide os
    → sold_alloc (map (λ o. allocation_of o (either_fill f g o)) os)
      ≡ sum_by (λ o. if same_side o.side sell then g o else 0) os
sold_total f g [] h = refl
sold_total f g (o ∷ os) h = omega (arith, here o.side h.0, sold_total f g os h.1)
  where
    here :
        (s : Side)
        → (is_buy s || is_sell s) ≡ true
        → (if is_buy s then 0 else (if is_buy s then f o else g o))
          ≡ (if same_side s sell then g o else 0)
    here buy e = refl
    here sell e = refl
    here (invalid n) e = cc

-- The stages before the settlement: an outcome that clears the orders, its allocation, and fills that
-- buy and sell exactly its volume at its price.
pub record Stages (b : Batch) : Type 0 where
  pub outcome : ClearingOutcome
  pub allocation : BatchAllocation
  pub fills : List Fill
  pub cp : Price
  pub determined : determine_clearing_outcome b ≡ ok outcome
  pub clears : Clears b.orders outcome.clearing_price outcome.executable_volume
  pub is_allocated :
      allocate_batch b outcome.clearing_price outcome.executable_volume ≡ ok allocation
  pub generated : generate_canonical_fills b allocation ≡ ok fills
  pub cp_fits : cp < u64_mod
  pub canonical : All (IsCanonicalFill cp b.instrument) fills
  pub bought : bought_qty fills ≡ outcome.executable_volume
  pub sold : sold_qty fills ≡ outcome.executable_volume
  pub justified : All (IsJustified cp b.orders) fills

plan_of_outcome :
    (b : Batch) (p : Option Price) (v : ℕ)
    → Distinct b.orders
    → IsClearable b.orders
    → Clears b.orders p v
    → determine_clearing_outcome b ≡ ok (record { clearing_price = p; executable_volume = v })
    → Stages b
unfolding allocate_batch generate_canonical_fills is_zero
plan_of_outcome b none v d c cl e = record {
  outcome = record { clearing_price = none; executable_volume = v };
  allocation = nothing_allocated b;
  fills = [];
  cp = 0;
  determined = e;
  clears = cl;
  is_allocated = refl;
  generated = refl;
  cp_fits = omega arith;
  canonical = tt;
  bought = sym cl.0;
  sold = sym cl.0;
  justified = tt;
}
plan_of_outcome b (some cp) v d c cl e =
    let vd : v ≤ demand b.orders cp = ground (arith, cl.2) in
    let vs : v ≤ supply b.orders cp = ground (arith, cl.2) in
    let (f, g, allocated, rf, rg) = allocate_batch_rules b cp v d c.sides c.fits cl.0 vd vs in
    let as' = (batch_allocation cp v f g b.orders).allocations in
    let eb : bought_alloc as' ≡ v = bought_total f g b.orders ∙ rf.fills_total in
    let es : sold_alloc as' ≡ v = sold_total f g b.orders c.sides ∙ rg.fills_total in
    let vw : v < u64_mod = omega (arith, demand-le-buying b.orders cp, c.fits) in
    let (fills, made, canon, bq, sq) =
      fills_from_exact cp b.instrument 0 as' cl.1.1
        (allocated_fit as' (omega (arith, eb)) (omega (arith, es))) in
    record {
      outcome = record { clearing_price = some cp; executable_volume = v };
      allocation = batch_allocation cp v f g b.orders;
      fills = fills;
      cp = cp;
      determined = e;
      clears = cl;
      is_allocated = allocated;
      generated = ground (arith, made);
      cp_fits = cl.1.1;
      canonical = canon;
      bought = omega (arith, bq, eb);
      sold = omega (arith, sq, es);
      justified =
          IsJustified-fills_from cp b.instrument b.orders (either_fill f g) 0 b.orders
            {fills = fills} (rules_grant cp v f g b.orders d c.sides rf rg) made;
    }

pub stages : (b : Batch) → Distinct b.orders → IsClearable b.orders → Stages b
stages b d c =
    let (out, e, cl) = determine_optimal b c in
    plan_of_outcome b out.clearing_price out.executable_volume d c cl e

-- A valid ledger whose cash total, and whose total holding of the batch's instrument, fit their types.
pub record IsFunded (pre : Ledger) (b : Batch) : Type 0 where
  pub valid : IsValidLedger pre
  pub cash_fits : cash_sum pre < u128_mod
  pub inventory_fits : inventory_sum b.instrument pre < u64_mod

-- What the execution of a batch establishes: the outcome clears the orders; the fills buy and sell
-- exactly its volume, each at one price with the exact consideration, for an order of the batch within
-- its quantity and its limit; applying them to the ledger
-- before gives the ledger after, which is valid and holds the same total cash and the same total of the instrument.
pub record IsExecuted (pre : Ledger) (b : Batch) (r : BatchExecutionResult) : Type 0 where
  pub outcome_clears :
      Clears b.orders r.clearing_outcome.clearing_price r.clearing_outcome.executable_volume
  pub price : Price
  pub price_fits : price < u64_mod
  pub fills_canonical : All (IsCanonicalFill price b.instrument) r.fills
  pub fills_justified : All (IsJustified price b.orders) r.fills
  pub all_bought : bought_qty r.fills ≡ r.clearing_outcome.executable_volume
  pub all_sold : sold_qty r.fills ≡ r.clearing_outcome.executable_volume
  pub settled : apply_fills r.fills pre ≡ ok r.post_state
  pub cash_kept : cash_sum r.post_state ≡ cash_sum pre
  pub post_valid : IsValidLedger r.post_state
  pub inventory_kept : inventory_sum b.instrument r.post_state ≡ inventory_sum b.instrument pre

-- The stages of `execute_batch` before the settlement.
unfoldable pub planned_fills : Batch → Result (List Fill)
planned_fills b = do
  outcome ← determine_clearing_outcome b
  allocation ← allocate_batch b outcome.clearing_price outcome.executable_volume
  generate_canonical_fills b allocation

-- On orders with proper sides, positive 64-bit prices, different ids and sums that fit 64 bits, the
-- stages before the settlement succeed, and what their fills buy is what they sell.
pub planned_fills_balance :
    (b : Batch)
    → Distinct b.orders
    → IsClearable b.orders
    → (fills : List Fill) × (planned_fills b ≡ ok fills) × (bought_qty fills ≡ sold_qty fills)
unfolding planned_fills
planned_fills_balance b d c =
    let s = stages b d c in
    (s.fills, rw (s.determined, s.is_allocated, s.generated) refl, omega (arith, s.bought, s.sold))

module _ (pre : Ledger) (b : Batch) (d : Distinct b.orders) (c : IsClearable b.orders)
    (funded : IsFunded pre b) where
  -- On clearable orders with different ids and a funded ledger, if the planned fills apply to the
  -- ledger then the batch executes: to those fills, to the ledger that they give, and with all that
  -- `IsExecuted` says; no guard of the settlement stops it.
  pub execute_batch_succeeds :
      (fills : List Fill) (post : Ledger)
      → planned_fills b ≡ ok fills
      → apply_fills fills pre ≡ ok post
      → (r : BatchExecutionResult) × (execute_batch pre b ≡ ok r)
        × (r.post_state ≡ post)
        × (r.fills ≡ fills)
        × IsExecuted pre b r
  unfolding execute_batch planned_fills
  execute_batch_succeeds fills post p e =
      let s = stages b d c in
      let same : fills ≡ s.fills = ground (arith, s.determined, s.is_allocated, s.generated) in
      let applied : apply_fills s.fills pre ≡ ok post = rw (← same) e in
      let (passes, cash, inv, valid) =
        apply_batch_transition_passes s.cp b.instrument pre post s.fills s.cp_fits s.canonical
          (s.bought ∙ sym s.sold) funded.valid funded.cash_fits funded.inventory_fits applied in
      (
        record {
          clearing_outcome = s.outcome;
          allocation = s.allocation;
          fills = s.fills;
          post_state = post;
        },
        rw (s.determined, s.is_allocated, s.generated, passes) refl,
        refl,
        sym same,
        record {
          outcome_clears = s.clears;
          price = s.cp;
          price_fits = s.cp_fits;
          fills_canonical = s.canonical;
          fills_justified = s.justified;
          all_bought = s.bought;
          all_sold = s.sold;
          settled = applied;
          cash_kept = cash;
          post_valid = valid;
          inventory_kept = inv;
        },
      )

  applies :
      (s : Stages b) (r : BatchExecutionResult)
      → execute_batch pre b ≡ ok r
      → (post : Ledger) × (apply_fills s.fills pre ≡ ok post)
  unfolding execute_batch apply_batch_transition
  applies s r e =
      let (post, t, _) =
        >>=-eq-ok (converted (apply_batch_transition pre s.fills)) _
          (rw (s.determined, s.is_allocated, s.generated) at e) in
      let (post', a, _) = >>=-eq-ok (apply_fills s.fills pre) _ (converted-eq-ok _ t) in (post', a)

  -- On clearable orders with different ids and a funded ledger, every execution that succeeds has done
  -- all that `IsExecuted` says.
  pub execute_batch-IsExecuted :
      (r : BatchExecutionResult) → execute_batch pre b ≡ ok r → IsExecuted pre b r
  execute_batch-IsExecuted r e =
      let (post, applied) = applies (stages b d c) r e in
      let planned : planned_fills b ≡ ok (stages b d c).fills =
        unfold planned_fills in
        rw ((stages b d c).determined, (stages b d c).is_allocated, (stages b d c).generated)
          refl in
      let (r', e', _, _, executed) =
        execute_batch_succeeds (stages b d c).fills post planned applied in
      let same : r ≡ r' = cc in rw same executed
