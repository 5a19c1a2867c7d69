-- ===== src/Engine/Auction/Totals.antt =====
-- Exact demand and supply, and the loops of `demand_from_orders` and `supply_from_orders`.
use fair_cross.Prelude.{
  ℕ, ◌+◌, ◌≤◌, ◌<◌, ◌≡◌, Bool, true, not, ◌&&◌, ◌||◌, leb, if◌then◌else◌, List, [], ◌∷◌, sum_by,
  sum_by_mono, All-of, arith, Bool-cases, inl, inr,
}
use fair_cross.Domain.Error.{ok}
use fair_cross.Domain.Words.{Price, Qty, u64_mod}
use fair_cross.Domain.Order.{Order, Side, buy, sell, invalid, is_buy, is_sell}
use fair_cross.Domain.Qty.{checked_add_fits}
use fair_cross.Engine.Auction.{
  total_from, bids_at, offers_at, demand_from_orders, supply_from_orders,
}

-- The quantity of an order that passes the test.
abbrev pub weight : (Order → Bool) → Order → ℕ
weight t o = if t o then o.qty else 0

abbrev pub total : (Order → Bool) → List Order → ℕ
total t os = sum_by (weight t) os

-- The exact demand at a price: the buy quantity with a limit at or above it.
abbrev pub demand : List Order → Price → ℕ
demand os p = total (bids_at p) os

-- The exact supply at a price: the sell quantity with a limit at or below it.
abbrev pub supply : List Order → Price → ℕ
supply os p = total (offers_at p) os

abbrev pub buying : Order → Bool
buying o = is_buy o.side

abbrev pub not_buying : Order → Bool
not_buying o = not (is_buy o.side)

-- A proper side: `Buy` or `Sell`.
abbrev pub HasSide : Order → Type 0
HasSide o = (is_buy o.side || is_sell o.side) ≡ true

-- All buy quantities together fit 64 bits, and so do all other quantities.
abbrev pub Fits : List Order → Type 0
Fits os = (total buying os < u64_mod) × (total not_buying os < u64_mod)

total_from_fits :
    (t : Order → Bool) (acc : Qty) (os : List Order)
    → acc + total t os < u64_mod
    → total_from t acc os ≡ ok (acc + total t os)
unfolding total_from
total_from_fits t acc [] h = let e : acc ≡ acc + 0 = omega arith in rw (← e)
total_from_fits t acc (o ∷ os) h = elim (Bool-cases (t o)) [
  | inl e ↦ ground (arith, checked_add_fits acc o.qty, total_from_fits t (acc + o.qty) os)
  | inr e ↦ ground (arith, total_from_fits t acc os)
]

pub demand-le-buying : (os : List Order) (p : Price) → demand os p ≤ total buying os
demand-le-buying os p = sum_by_mono _ _ os (All-of (λ o. ground arith) os)

pub supply-le-not_buying : (os : List Order) (p : Price) → supply os p ≤ total not_buying os
supply-le-not_buying os p = sum_by_mono _ _ os (All-of (λ o. lemma o.side o) os)
  where
    lemma :
        (s : Side) (o : Order)
        → (if is_sell s && leb o.price p then o.qty else 0) ≤ (if not (is_buy s) then o.qty else 0)
    lemma buy o = omega arith
    lemma sell o = ground arith
    lemma (invalid n) o = omega arith

-- Where all quantities of a side fit 64 bits together, `demand_from_orders` gives the exact demand
-- and `supply_from_orders` the exact supply.
pub from_orders_exact :
    (os : List Order) (p : Price)
    → Fits os
    → (demand_from_orders os p ≡ ok (demand os p)) × (supply_from_orders os p ≡ ok (supply os p))
unfolding demand_from_orders supply_from_orders
from_orders_exact os p h = (
  ground (arith, total_from_fits (bids_at p) 0 os, demand-le-buying os p),
  ground (arith, total_from_fits (offers_at p) 0 os, supply-le-not_buying os p),
)

-- A higher price lowers no supply and raises no demand.
pub demand_antitone : (os : List Order) (p q : Price) → p ≤ q → demand os q ≤ demand os p
demand_antitone os p q h = sum_by_mono _ _ os (All-of (λ o. ground arith) os)

pub supply_monotone : (os : List Order) (p q : Price) → p ≤ q → supply os p ≤ supply os q
supply_monotone os p q h = sum_by_mono _ _ os (All-of (λ o. ground arith) os)
