-- ===== src/Engine/Auction/Reference.antt =====
-- The bucketed computation against the plain one: each candidate evaluated by the exact demand and
-- supply at its price.
use fair_cross.Prelude.{ℕ, ◌≡◌, ltb, if◌then◌else◌, List, [], ◌∷◌, map, All, arith, refl}
use fair_cross.Domain.Error.{ok}
use fair_cross.Domain.Words.{Price}
use fair_cross.Domain.Order.{Order}
use fair_cross.Engine.Auction.{
  CandidateEvaluation, candidate_prices_from_orders, evaluate, maximizers_of,
  compute_volume_maximizers_from_orders,
}
use fair_cross.Engine.Auction.Totals.{demand, supply, HasSide, Fits}
use fair_cross.Engine.Auction.Candidates.{candidates-IsAscending, candidates_cover}
use fair_cross.Engine.Auction.Bucketing.{bucket_orders_exact}
use fair_cross.Engine.Auction.Running.{running_up_exact, running_down_exact}

-- The volume that can trade at a price: the smaller of demand and supply.
abbrev pub volume : List Order → Price → ℕ
volume os p = if ltb (demand os p) (supply os p) then demand os p else supply os p

-- A price evaluated by the exact demand and supply.
abbrev pub evaluation : List Order → Price → CandidateEvaluation
evaluation os p = record {
  price = p;
  demand = demand os p;
  supply = supply os p;
  executable_volume = volume os p;
}

evaluate_exact :
    (os : List Order) (cs : List Price)
    → evaluate cs (map (demand os) cs) (map (supply os) cs) ≡ map (evaluation os) cs
unfolding evaluate
evaluate_exact os [] = refl
evaluate_exact os (c ∷ cs) = cc (evaluate_exact os cs)

-- On orders with proper sides whose buy quantities fit 64 bits together, and whose sell quantities
-- do, the bucketed computation succeeds and gives the evaluation of every candidate price by its
-- exact demand and supply, with the largest volume and the prices that reach it.
pub compute_exact :
    (os : List Order)
    → All HasSide os
    → Fits os
    → compute_volume_maximizers_from_orders os
      ≡ ok (maximizers_of (map (evaluation os) (candidate_prices_from_orders os)))
unfolding compute_volume_maximizers_from_orders
compute_exact os hs fits = go (candidate_prices_from_orders os) refl
  where
    go :
        (cs : List Price)
        → candidate_prices_from_orders os ≡ cs
        → compute_volume_maximizers_from_orders os
          ≡ ok (maximizers_of (map (evaluation os) (candidate_prices_from_orders os)))
    go [] e = ground (arith)
    go (c ∷ cs) e = ground (
      arith,
      bucket_orders_exact (candidate_prices_from_orders os) os (candidates-IsAscending os)
          (candidates_cover os) fits,
      running_up_exact os (candidate_prices_from_orders os) fits (candidates-IsAscending os)
          (candidates_cover os) hs,
      running_down_exact os (candidate_prices_from_orders os) fits (candidates-IsAscending os)
          (candidates_cover os),
      evaluate_exact os (candidate_prices_from_orders os),
    )
