-- ===== src/Engine/Fills/Origins.antt =====
-- Where fills come from: each belongs to an order of the batch, within its quantity and its limit.
use fair_cross.Prelude.{
  ℕ, ◌<◌, ◌≤◌, ◌≡◌, ◌≢◌, refl, ap, ◌∙◌, true, ◌==◌, if◌then◌else◌, List, [], ◌∷◌, map, Option, none,
  some, All, All-of_keep, All-zip, All-map, arith, inl, inr, Bool-cases,
}
use fair_cross.Domain.Error.{ok, converted, converted-eq-ok, >>=-eq-ok}
use fair_cross.Domain.Words.{Price, InstrumentId, add64}
use fair_cross.Domain.Order.{Order, Side, buy, sell, invalid, is_buy, same_side}
use fair_cross.Domain.Qty.{is_zero}
use fair_cross.Domain.Fill.{Fill}
use fair_cross.Domain.Fill as FillRecord
use fair_cross.Engine.Partition.{classify_order}
use fair_cross.Engine.Auction.Totals.{HasSide}
use fair_cross.Engine.Allocation.{allocation_of}
use fair_cross.Engine.Allocation.InTheMoney.{Distinct}
use fair_cross.Engine.Allocation.OneSide.{SideRules, in_class, is_otm}
use fair_cross.Engine.Allocation.Merging.{either_fill}
use fair_cross.Engine.Fills.{fills_from}

-- The first order with an id.
abbrev pub find_order : ℕ → List Order → Option Order
find_order k [] = none
find_order k (o ∷ os) = if k == o.id then some o else find_order k os

-- A buyer pays no more than the limit, a seller receives no less.
abbrev pub WithinLimit : Price → Order → Type 0
WithinLimit cp o = if is_buy o.side then cp ≤ o.price else o.price ≤ cp

-- The fill belongs to an order, on its side, for no more than its quantity, at a price within its
-- limit.
pub record IsJustified (cp : Price) (os : List Order) (f : Fill) : Type 0 where
  pub order : Order
  pub found : find_order f.order_id os ≡ some order
  pub same_account : f.account_id ≡ order.account
  pub side_kept : f.side ≡ order.side
  pub within_qty : f.fill_qty ≤ order.qty
  pub within_limit : WithinLimit cp order

-- What an order may get.
abbrev pub Grants : Price → List Order → (Order → ℕ) → Order → Type 0
Grants cp os fill o =
    (find_order o.id os ≡ some o) × (fill o ≤ o.qty) × (0 < fill o → WithinLimit cp o)

created :
    (cp : Price) (inst : InstrumentId) (fill_id qty : ℕ) (o : Order) (f : Fill)
    → FillRecord.create fill_id o.id o.account inst o.side cp qty ≡ ok f
    → (f.order_id ≡ o.id) × (f.account_id ≡ o.account) × (f.side ≡ o.side) × (f.fill_qty ≡ qty)
unfolding FillRecord.create
created cp inst fill_id qty o f e = ground arith

justified :
    (cp : Price) (all : List Order) (fill : Order → ℕ) (fill_id : ℕ) (inst : InstrumentId)
    (o : Order) (f : Fill)
    → Grants cp all fill o
    → 0 < fill o
    → FillRecord.create fill_id o.id o.account inst o.side cp (fill o) ≡ ok f
    → IsJustified cp all f
justified cp all fill fill_id inst o f (found, bounded, limit) pos e =
    let (id, account, side, qty) = created cp inst fill_id (fill o) o f e in
    record {
      order = o;
      found = ap (λ k. find_order k all) id ∙ found;
      same_account = account;
      side_kept = side;
      within_qty = omega (arith, qty);
      within_limit = limit pos;
    }

pub IsJustified-fills_from :
    (cp : Price) (inst : InstrumentId) (all : List Order) (fill : Order → ℕ) (fill_id : ℕ)
    (os : List Order) {fills : List Fill}
    → All (Grants cp all fill) os
    → fills_from cp inst fill_id (map (λ o. allocation_of o (fill o)) os) ≡ ok fills
    → All (IsJustified cp all) fills
unfolding fills_from
IsJustified-fills_from cp inst all fill fill_id [] {fills} h e =
    let same : fills ≡ [] = cc in rw same tt
IsJustified-fills_from cp inst all fill fill_id (o ∷ os) {fills} h e =
    elim (Bool-cases (is_zero (fill o))) [
      | inl z ↦ IsJustified-fills_from cp inst all fill fill_id os h.1 (rw (z, fills_from) at e)
      | inr p ↦
          let (f, made, more) =
            >>=-eq-ok (converted (FillRecord.create fill_id o.id o.account inst o.side cp (fill o)))
              _ (rw (p, fills_from) at e) in
          let (rest, others, joined) =
            >>=-eq-ok
              (fills_from cp inst (add64 fill_id 1) (map (λ o. allocation_of o (fill o)) os)) _
              more in
          let some_here : 0 < fill o = unfold is_zero in ground arith in
          let same : fills ≡ f ∷ rest = cc in
          rw same (
            justified cp all fill fill_id inst o f h.0 some_here (converted-eq-ok _ made),
            IsJustified-fills_from cp inst all fill (add64 fill_id 1) os h.1 others,
          )
    ]

find_order-Distinct :
    (all : List Order) → Distinct all → All (λ o. find_order o.id all ≡ some o) all
find_order-Distinct [] d = tt
find_order-Distinct (o ∷ os) d = (
  ground arith,
  All-map (λ p (q, e). ground arith) os
      (All-zip (λ p. p.id ≢ o.id) (λ p. find_order p.id os ≡ some p) os d.0
        (find_order-Distinct os d.1)),
)

-- What the rules of a side say of one order.
abbrev Bounds : Price → Side → (Order → ℕ) → Order → Type 0
Bounds cp side fill o =
    (same_side o.side side ≡ true → fill o ≤ o.qty)
    × (in_class is_otm cp side o ≡ true → fill o ≡ 0)

limits_kept :
    (cp : Price) (side : Side) (v : ℕ) (os : List Order) (fill : Order → ℕ)
    → SideRules cp side v os fill
    → All (Bounds cp side fill) os
limits_kept cp side v os fill r =
    All-zip _ _ os (All-of_keep (λ o. fill o ≤ o.qty) (λ o. same_side o.side side) os r.bounded)
      (All-of_keep (λ o. fill o ≡ 0) (in_class is_otm cp side) os r.otm_none)

granted :
    (cp : Price) (f g : Order → ℕ) (o : Order) (s : Side) {found : Type 0}
    → found
    → HasSide (record o { side = s })
    → Bounds cp buy f (record o { side = s }) × Bounds cp sell g (record o { side = s })
    → found
      × (either_fill f g (record o { side = s }) ≤ o.qty)
      × (0 < either_fill f g (record o { side = s }) → WithinLimit cp (record o { side = s }))
unfolding classify_order
granted cp f g o buy w h (b, c) = (w, b.0 refl, λ p. ground arith)
granted cp f g o sell w h (b, c) = (w, c.0 refl, λ p. ground arith)
granted cp f g o (invalid n) w h (b, c) = cc

-- The rules of the two sides grant each order no more than its quantity, and nothing beyond its limit.
pub rules_grant :
    (cp : Price) (v : ℕ) (f g : Order → ℕ) (os : List Order)
    → Distinct os
    → All HasSide os
    → SideRules cp buy v os f
    → SideRules cp sell v os g
    → All (Grants cp os (either_fill f g)) os
rules_grant cp v f g os d h rf rg =
    All-map (λ o (found, (proper, bounds)). granted cp f g o o.side found proper bounds) os
      (All-zip (λ o. find_order o.id os ≡ some o) _ os (find_order-Distinct os d)
        (All-zip HasSide _ os h (
          All-zip (Bounds cp buy f) (Bounds cp sell g) os (limits_kept cp buy v os f rf)
            (limits_kept cp sell v os g rg))))
