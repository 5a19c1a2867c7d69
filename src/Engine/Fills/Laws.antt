-- ===== src/Engine/Fills/Laws.antt =====
-- The canonical fills are always created, and carry exactly the allocated quantities.
use fair_cross.Prelude.{
  ℕ, ◌*◌, ◌<◌, ◌≡◌, refl, if◌then◌else◌, List, [], ◌∷◌, sum_by, All, arith, inl, inr, Bool-cases,
}
use fair_cross.Domain.Error.{ok}
use fair_cross.Domain.Words.{Price, InstrumentId, u64_mod, add64}
use fair_cross.Domain.Order.{is_buy}
use fair_cross.Domain.Qty.{is_zero}
use fair_cross.Domain.Money.{from_price_qty_exact}
use fair_cross.Domain.Fill.{Fill}
use fair_cross.Domain.Fill as FillRecord
use fair_cross.Engine.Allocation.{OrderAllocation}
use fair_cross.Engine.Fills.{fills_from}

abbrev pub bought_qty : List Fill → ℕ
bought_qty fills = sum_by (λ f. if is_buy f.side then f.fill_qty else 0) fills

abbrev pub sold_qty : List Fill → ℕ
sold_qty fills = sum_by (λ f. if is_buy f.side then 0 else f.fill_qty) fills

abbrev pub bought_alloc : List OrderAllocation → ℕ
bought_alloc as' = sum_by (λ a. if is_buy a.side then a.allocated_qty else 0) as'

abbrev pub sold_alloc : List OrderAllocation → ℕ
sold_alloc as' = sum_by (λ a. if is_buy a.side then 0 else a.allocated_qty) as'

-- A fill at the clearing price, with the exact consideration.
pub record IsCanonicalFill (cp : Price) (inst : InstrumentId) (f : Fill) : Type 0 where
  pub price : f.execution_price ≡ cp
  pub instrument : f.instrument_id ≡ inst
  pub exact : f.consideration ≡ cp * f.fill_qty
  pub qty_fits : f.fill_qty < u64_mod
  pub qty_positive : 0 < f.fill_qty

abbrev canonical_fill : Price → InstrumentId → ℕ → OrderAllocation → Fill
canonical_fill cp inst fill_id a = record {
  fill_id = fill_id;
  order_id = a.order_id;
  account_id = a.account;
  instrument_id = inst;
  side = a.side;
  execution_price = cp;
  fill_qty = a.allocated_qty;
  consideration = cp * a.allocated_qty;
}

create_exact :
    (cp : Price) (inst : InstrumentId) (fill_id : ℕ) (a : OrderAllocation)
    → cp < u64_mod
    → a.allocated_qty < u64_mod
    → FillRecord.create fill_id a.order_id a.account inst a.side cp a.allocated_qty
      ≡ ok (canonical_fill cp inst fill_id a)
unfolding FillRecord.create
create_exact cp inst fill_id a cw aw = rw (from_price_qty_exact cp a.allocated_qty cw aw)

-- With a 64-bit price and 64-bit allocations the fills are always created: each is at the clearing
-- price with the exact consideration, and what is bought and what is sold are as allocated.
pub fills_from_exact :
    (cp : Price) (inst : InstrumentId) (fill_id : ℕ) (as' : List OrderAllocation)
    → cp < u64_mod
    → All (λ a. a.allocated_qty < u64_mod) as'
    → (fills : List Fill) × (fills_from cp inst fill_id as' ≡ ok fills)
      × All (IsCanonicalFill cp inst) fills
      × (bought_qty fills ≡ bought_alloc as')
      × (sold_qty fills ≡ sold_alloc as')
unfolding fills_from
fills_from_exact cp inst fill_id [] cw aw = ([], refl, tt, refl, refl)
fills_from_exact cp inst fill_id (a ∷ as') cw aw = elim (Bool-cases (is_zero a.allocated_qty)) [
  | inl z ↦
      let (fills, e, c, b, s) = fills_from_exact cp inst fill_id as' cw aw.1 in
      let none_here : a.allocated_qty ≡ 0 = unfold is_zero in ground arith in
      (fills, rw z e, c, ground (arith), ground (arith))
  | inr p ↦
      let (fills, e, c, b, s) = fills_from_exact cp inst (add64 fill_id 1) as' cw aw.1 in
      let some_here : 0 < a.allocated_qty = unfold is_zero in ground arith in
      (
        canonical_fill cp inst fill_id a ∷ fills,
        rw (p, create_exact cp inst fill_id a cw aw.0, e) refl,
        (
          record {
            price = refl;
            instrument = refl;
            exact = refl;
            qty_fits = aw.0;
            qty_positive = some_here;
          },
          c,
        ),
        omega (arith, b),
        omega (arith, s),
      )
]
