-- ===== src/Engine/Auction/Running.antt =====
-- The two passes of running sums give the exact supply and demand at each candidate.
use fair_cross.Prelude.{
  ℕ, ◌+◌, ◌<◌, ◌≡◌, refl, Bool, true, not, ◌&&◌, ◌||◌, ltb, leb, ◌==◌, if◌then◌else◌, List, [], ◌∷◌,
  map, contains, All, All-map, arith,
}
use fair_cross.Domain.Error.{ok}
use fair_cross.Domain.Words.{Price}
use fair_cross.Domain.Order.{Order, Side, buy, sell, invalid, is_buy, is_sell}
use fair_cross.Domain.Qty.{checked_add_fits}
use fair_cross.Engine.Auction.{running_up, running_down, bids_at, offers_at}
use fair_cross.Engine.Auction.Totals.{
  weight, total, demand, supply, HasSide, Fits, demand-le-buying, supply-le-not_buying,
}
use fair_cross.Engine.Auction.Candidates.{IsAscending, above_head}
use fair_cross.Engine.Auction.Bucketing.{buys_at, sells_at}

-- The price is below the first of the candidates, or one of them.
abbrev Placed : List Price → Price → Type 0
Placed [] p = Unit
Placed (c ∷ cs) p = (ltb p c || contains p (c ∷ cs)) ≡ true

Placed-tail :
    (c : Price) (cs : List Price) (p : Price)
    → All (λ q. c < q) cs
    → Placed (c ∷ cs) p
    → Placed cs p
Placed-tail c [] p a h = tt
Placed-tail c (d ∷ cs) p a h = ground arith

-- No buy order lies above the last candidate.
abbrev sell_below : Price → Order → Bool
sell_below c o = is_sell o.side && ltb o.price c

-- The sell quantity before the first candidate.
abbrev supply_before : List Order → List Price → ℕ
supply_before os [] = 0
supply_before os (c ∷ cs) = total (sell_below c) os

sell_step :
    (s : Side) (o : Order) (c : Price)
    → (is_buy s || is_sell s) ≡ true
    → (if is_sell s && leb o.price c then o.qty else 0)
      ≡ (if is_sell s && ltb o.price c then o.qty else 0)
        + (if not (is_buy s) && o.price == c then o.qty else 0)
sell_step buy o c h = omega arith
sell_step sell o c h = ground arith
sell_step (invalid n) o c h = cc

-- The supply at a candidate is what lies below it and what lies at it.
supply_split :
    (os : List Order) (c : Price)
    → All HasSide os
    → supply os c ≡ total (sell_below c) os + total (sells_at c) os
supply_split [] c h = omega arith
supply_split (o ∷ os) c h = omega (arith, sell_step o.side o c h.0, supply_split os c h.1)

-- Between neighbouring candidates lies no order.
supply_next :
    (os : List Order) (c d : Price) (cs : List Price)
    → IsAscending (c ∷ d ∷ cs)
    → All (λ o. Placed (c ∷ d ∷ cs) o.price) os
    → total (sell_below d) os ≡ supply os c
supply_next [] c d cs a h = refl
supply_next (o ∷ os) c d cs a h = omega (arith, same, supply_next os c d cs a h.1)
  where
    same : weight (sell_below d) o ≡ weight (offers_at c) o
    same = ground (arith, h.0, a.0.0, above_head o.price d cs a.1.0)

pub running_up_from :
    (os : List Order) (cs : List Price)
    → All HasSide os
    → Fits os
    → IsAscending cs
    → All (λ o. Placed cs o.price) os
    → running_up (supply_before os cs) (map (λ c. total (sells_at c) os) cs)
      ≡ ok (map (supply os) cs)
unfolding running_up
running_up_from os [] hs fits a h = refl
running_up_from os (c ∷ []) hs fits a h = ground (
  arith,
  supply_split os c hs,
  supply-le-not_buying os c,
  checked_add_fits (total (sell_below c) os) (total (sells_at c) os),
)
running_up_from os (c ∷ d ∷ cs) hs fits a h = ground (
  arith,
  supply_split os c hs,
  supply-le-not_buying os c,
  checked_add_fits (total (sell_below c) os) (total (sells_at c) os),
  supply_next os c d cs a h,
  running_up_from os (d ∷ cs) hs fits a.1 (
      All-map {P = λ o. Placed (c ∷ d ∷ cs) o.price} (λ o p. Placed-tail c (d ∷ cs) o.price a.0 p)
        os h),
)

-- The demand at the first candidate, zero if there is none.
abbrev demand_after : List Order → List Price → ℕ
demand_after os [] = 0
demand_after os (c ∷ cs) = demand os c

demand_split :
    (os : List Order) (c : Price) (cs : List Price)
    → IsAscending (c ∷ cs)
    → All (λ o. Placed (c ∷ cs) o.price) os
    → demand os c ≡ demand_after os cs + total (buys_at c) os
demand_split [] c [] a h = omega arith
demand_split [] c (d ∷ cs) a h = omega arith
demand_split (o ∷ os) c [] a h = omega (arith, same, demand_split os c [] a h.1)
  where
    same : weight (bids_at c) o ≡ weight (buys_at c) o
    same = ground (arith, h.0)
demand_split (o ∷ os) c (d ∷ cs) a h = omega (arith, same, demand_split os c (d ∷ cs) a h.1)
  where
    same : weight (bids_at c) o ≡ weight (bids_at d) o + weight (buys_at c) o
    same = ground (arith, h.0, a.0.0, above_head o.price d cs a.1.0)

pub running_down_from :
    (os : List Order) (cs : List Price)
    → Fits os
    → IsAscending cs
    → All (λ o. Placed cs o.price) os
    → running_down (map (λ c. total (buys_at c) os) cs)
      ≡ ok (demand_after os cs, map (demand os) cs)
unfolding running_down
running_down_from os [] fits a h = refl
running_down_from os (c ∷ cs) fits a h = ground (
  arith,
  demand_split os c cs a h,
  demand-le-buying os c,
  checked_add_fits (demand_after os cs) (total (buys_at c) os),
  running_down_from os cs fits a.1
      (All-map {P = λ o. Placed (c ∷ cs) o.price} (λ o p. Placed-tail c cs o.price a.0 p) os h),
)

covered_Placed : (cs : List Price) (p : Price) → contains p cs ≡ true → Placed cs p
covered_Placed [] p h = tt
covered_Placed (c ∷ cs) p h = ground arith

nothing_below :
    (os : List Order) (c : Price) (cs : List Price)
    → IsAscending (c ∷ cs)
    → All (λ o. contains o.price (c ∷ cs) ≡ true) os
    → total (sell_below c) os ≡ 0
nothing_below [] c cs a h = refl
nothing_below (o ∷ os) c cs a h = omega (arith, none_here, nothing_below os c cs a h.1)
  where
    none_here : weight (sell_below c) o ≡ 0
    none_here = ground (arith, h.0, above_head o.price c cs a.0)

module _ (os : List Order) (cs : List Price) (fits : Fits os) (a : IsAscending cs)
    (cover : All (λ o. contains o.price cs ≡ true) os) where
  placed : All (λ o. Placed cs o.price) os
  placed = All-map {P = λ o. contains o.price cs ≡ true} (λ o. covered_Placed cs o.price) os cover

  -- The upward pass starts from zero.
  pub running_up_exact :
      All HasSide os → running_up 0 (map (λ c. total (sells_at c) os) cs) ≡ ok (map (supply os) cs)
  running_up_exact hs = ground (arith, before cs a cover, running_up_from os cs hs fits a placed)
    where
      before :
          (ds : List Price)
          → IsAscending ds
          → All (λ o. contains o.price ds ≡ true) os
          → supply_before os ds ≡ 0
      before [] b h = refl
      before (c ∷ ds) b h = nothing_below os c ds b h

  pub running_down_exact :
      running_down (map (λ c. total (buys_at c) os) cs)
      ≡ ok (demand_after os cs, map (demand os) cs)
  running_down_exact = running_down_from os cs fits a placed
