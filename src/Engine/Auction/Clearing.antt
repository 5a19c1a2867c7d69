-- ===== src/Engine/Auction/Clearing.antt =====
-- `determine_clearing_outcome`: the volume is the largest that any price allows, and the price is the
-- midpoint of the extreme candidates that reach it.
use fair_cross.Prelude.{
  ℕ, ◌+◌, ◌/◌, ◌≤◌, ◌<◌, ◌≡◌, inl, inr, refl, sym, subst, ◌∙◌, true, ◌==◌, List, [], ◌∷◌, map,
  Option, none, some, keep, contains, last_or, All, All-map, arith, Bool-cases,
}
use fair_cross.Domain.Error.{ok}
use fair_cross.Domain.Words.{Price, u64_mod, add64, sub64}
use fair_cross.Domain.Order.{Order}
use fair_cross.Domain.Price.{create}
use fair_cross.Domain.Qty.{is_zero}
use fair_cross.Engine.Batch.{Batch}
use fair_cross.Engine.Auction.{
  ClearingOutcome, candidate_prices_from_orders, max_from, maximizers_of, midpoint,
  resolve_clearing_price_tie, determine_clearing_outcome,
}
use fair_cross.Engine.Auction.Totals.{HasSide, Fits, demand_antitone, supply_monotone}
use fair_cross.Engine.Auction.Candidates.{
  IsAscending, All_at, candidates-IsAscending, candidates_cover, contains-candidates,
}
use fair_cross.Engine.Auction.Reference.{volume, evaluation, compute_exact}
use fair_cross.Engine.Auction.Optimal.{
  volume_bound, max_from_bound, max_from_attained, maximizing, All-keep, keep-IsAscending,
  keep_passes, keep_nonempty, All-last,
}

-- The midpoint of two 64-bit prices is the floor of their mean, also where their sum overflows.
pub midpoint_exact : (p q : Price) → p ≤ q → q < u64_mod → midpoint p q ≡ (p + q) / 2
unfolding midpoint add64 sub64
midpoint_exact p q h k = omega arith

-- A positive price that fits 64 bits.
abbrev pub IsPrice : Price → Type 0
IsPrice p = (0 < p) × (p < u64_mod)

All-contained :
    (P : Price → Type 0) (cs : List Price) → ((k : Price) → contains k cs ≡ true → P k) → All P cs
All-contained P [] h = tt
All-contained P (c ∷ cs) h = (h c (ground arith), All-contained P cs (λ k q. h k (ground arith)))

prices_of :
    (P : Price → Type 0) (os : List Order) → All (λ o. P o.price) os → All P (map (λ o. o.price) os)
prices_of P [] h = tt
prices_of P (o ∷ os) h = (h.0, prices_of P os h.1)

pub candidates-IsPrice :
    (os : List Order)
    → All (λ o. IsPrice o.price) os
    → All IsPrice (candidate_prices_from_orders os)
candidates-IsPrice os h = All-contained IsPrice _ λ k q.
    All_at IsPrice k (map (λ o. o.price) os) (prices_of IsPrice os h)
      (sym (contains-candidates k os) ∙ q)

-- What it means for a price and a volume to clear the orders.
abbrev pub Clears : List Order → Option Price → ℕ → Type 0
Clears os none v = (v ≡ 0) × ((p : Price) → volume os p ≡ 0)
Clears os (some cp) v = (0 < v) × IsPrice cp × (volume os cp ≡ v) × ((p : Price) → volume os p ≤ v)

module _ (os : List Order) (ps : All (λ o. IsPrice o.price) os) where
  abbrev cands : List Price
  cands = candidate_prices_from_orders os

  abbrev best : ℕ
  best = max_from 0 (map (evaluation os) cands)

  -- The candidates that reach the largest volume.
  abbrev pub winners : List Price
  winners = keep (λ c. volume os c == best) cands

  best_bound : (p : Price) → volume os p ≤ best
  best_bound p =
      volume_bound os p best cands (candidates-IsAscending os) (max_from_bound os 0 cands) (
        All-map {P = λ o. contains o.price cands ≡ true} (λ o q. ground arith) os
          (candidates_cover os))

  -- Between two prices that reach the best volume every price reaches it.
  best_between :
      (p q r : Price) → p ≤ q → q ≤ r → volume os p ≡ best → volume os r ≡ best → volume os q ≡ best
  best_between p q r h k e f =
      ground (arith, best_bound q, supply_monotone os p q h, demand_antitone os q r k)

  winners_clear :
      (w : Price) (ws : List Price)
      → winners ≡ w ∷ ws
      → 0 < best
      → (w ≤ last_or ws w)
        × IsPrice w
        × IsPrice (last_or ws w)
        × (volume os w ≡ best)
        × (volume os (last_or ws w) ≡ best)
  winners_clear w ws e pos =
      let asc =
        subst IsAscending e
          (keep-IsAscending (λ c. volume os c == best) cands (candidates-IsAscending os)) in
      let prices =
        subst (All IsPrice) e
          (All-keep IsPrice (λ c. volume os c == best) cands (candidates-IsPrice os ps)) in
      let reach = subst (All (λ c. volume os c ≡ best)) e (keep_passes os best cands) in
      (
        All-last (λ q. w ≤ q) w ws (omega arith)
            (All-map {P = λ q. w < q} (λ q h. omega arith) ws asc.0),
        prices.0,
        All-last IsPrice w ws prices.0 prices.1,
        reach.0,
        All-last (λ c. volume os c ≡ best) w ws reach.0 reach.1,
      )

  resolve_none :
      best ≡ 0 → resolve_clearing_price_tie (maximizers_of (map (evaluation os) cands)) ≡ none
  unfolding resolve_clearing_price_tie maximizers_of is_zero
  resolve_none e = go _ refl
    where
      go :
          (l : List Price)
          → (maximizers_of (map (evaluation os) cands)).maximizing_prices ≡ l
          → resolve_clearing_price_tie (maximizers_of (map (evaluation os) cands)) ≡ none
      go [] q = rw (q, resolve_clearing_price_tie)
      go (w ∷ ws) q = rw (q, resolve_clearing_price_tie, e)

  -- With a positive volume the price is the midpoint of the first and the last winner.
  resolve_midpoint :
      (w : Price) (ws : List Price)
      → winners ≡ w ∷ ws
      → 0 < best
      → resolve_clearing_price_tie (maximizers_of (map (evaluation os) cands))
        ≡ some ((w + last_or ws w) / 2)
  unfolding resolve_clearing_price_tie maximizers_of is_zero create
  resolve_midpoint w ws e pos =
      ground
        (arith, maximizing os best cands, winners_clear w ws e pos, midpoint_exact w (last_or ws w))

  resolve-Clears :
      Clears os (resolve_clearing_price_tie (maximizers_of (map (evaluation os) cands))) best
  resolve-Clears = elim (Bool-cases (best == 0)) [
    | inl e ↦
        let z : best ≡ 0 = ground arith in
        rw (resolve_none z) (z, λ p. omega (arith, best_bound p, z))
    | inr e ↦ go winners refl (ground arith)
  ]
    where
      go :
          (l : List Price)
          → winners ≡ l
          → 0 < best
          → Clears os (resolve_clearing_price_tie (maximizers_of (map (evaluation os) cands))) best
      go [] q pos =
          absurd (grind (arith, max_from_attained os 0 cands, keep_nonempty os best cands, q))
      go (w ∷ ws) q pos =
          let f = winners_clear w ws q pos in
          rw (resolve_midpoint w ws q pos) (
            pos,
            (omega (arith, f), omega (arith, f)),
            best_between w ((w + last_or ws w) / 2) (last_or ws w) (omega (arith, f))
                (omega (arith, f)) f.3 f.4,
            best_bound,
          )

-- Orders that the auction handles without overflow: proper sides, positive 64-bit prices, and
-- quantities that fit 64 bits together on each side.
pub record IsClearable (os : List Order) : Type 0 where
  pub sides : All HasSide os
  pub fits : Fits os
  pub prices : All (λ o. IsPrice o.price) os

-- On clearable orders the auction succeeds. It gives no price exactly when nothing can trade at any
-- price; otherwise its price is positive, the volume of the outcome is the smaller of demand and
-- supply at that price, and no price whatever allows a larger volume.
pub determine_optimal :
    (b : Batch)
    → IsClearable b.orders
    → (out : ClearingOutcome) × (determine_clearing_outcome b ≡ ok out)
      × Clears b.orders out.clearing_price out.executable_volume
unfolding determine_clearing_outcome maximizers_of
determine_optimal b c = (
  record {
    clearing_price =
        resolve_clearing_price_tie
          (maximizers_of (map (evaluation b.orders) (candidate_prices_from_orders b.orders)));
    executable_volume =
        max_from 0 (map (evaluation b.orders) (candidate_prices_from_orders b.orders));
  },
  rw (compute_exact b.orders c.sides c.fits),
  resolve-Clears b.orders c.prices,
)

-- The tie rule: if the best volume `v` is positive, the clearing price is the floor of the mean of
-- the first and the last candidate price at which demand and supply allow `v`.
pub determine_tie_rule :
    (b : Batch) (w : Price) (ws : List Price)
    → IsClearable b.orders
    → (out : ClearingOutcome) → determine_clearing_outcome b ≡ ok out
    → 0 < out.executable_volume
    → keep (λ c. volume b.orders c == out.executable_volume) (candidate_prices_from_orders b.orders)
      ≡ w ∷ ws
    → out.clearing_price ≡ some ((w + last_or ws w) / 2)
unfolding determine_clearing_outcome
determine_tie_rule b w ws c out e pos q =
    ground (
      arith,
      compute_exact b.orders c.sides c.fits,
      best_is,
      resolve_midpoint b.orders c.prices w ws,
    )
  where
    best_is :
        (maximizers_of
          (map (evaluation b.orders) (candidate_prices_from_orders b.orders))).max_volume
        ≡ max_from 0 (map (evaluation b.orders) (candidate_prices_from_orders b.orders))
    best_is = unfold maximizers_of in refl
