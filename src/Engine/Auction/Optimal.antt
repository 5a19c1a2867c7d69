-- ===== src/Engine/Auction/Optimal.antt =====
-- The clearing price is optimal over all prices, not only over the candidates.
use fair_cross.Prelude.{
  ℕ, ◌≤◌, ◌<◌, ◌≡◌, ◌≢◌, ◌⊎◌, inl, inr, refl, Bool, true, ◌&&◌, ◌||◌, ltb, leb, ◌==◌, if◌then◌else◌,
  List, [], ◌∷◌, map, keep, contains, last_or, All, All-map, arith, Bool-cases,
}
use fair_cross.Domain.Words.{Price, Qty}
use fair_cross.Domain.Order.{Order, is_buy}
use fair_cross.Engine.Auction.{CandidateEvaluation, max_from}
use fair_cross.Engine.Auction.Totals.{weight, demand, supply_monotone}
use fair_cross.Engine.Auction.Candidates.{IsAscending, above_head}
use fair_cross.Engine.Auction.Reference.{volume, evaluation}

-- No buy order is priced from `p` up to the candidate.
abbrev pub Beyond : Price → List Price → Order → Type 0
Beyond p cs o = (ltb o.price p || contains o.price cs) ≡ true

demand_at_next :
    (os : List Order) (p c : Price) (cs : List Price)
    → IsAscending (c ∷ cs)
    → p ≤ c
    → All (Beyond p (c ∷ cs)) os
    → demand os p ≤ demand os c
demand_at_next [] p c cs a h b = omega arith
demand_at_next (o ∷ os) p c cs a h b = omega (arith, here, demand_at_next os p c cs a h b.1)
  where
    here :
        weight (λ r. is_buy r.side && leb p r.price) o
        ≤ weight (λ r. is_buy r.side && leb c r.price) o
    here = ground (arith, b.0, above_head o.price c cs a.0)

no_demand : (os : List Order) (p : Price) → All (Beyond p []) os → demand os p ≡ 0
no_demand [] p b = refl
no_demand (o ∷ os) p b = omega (arith, here, no_demand os p b.1)
  where
    here : weight (λ r. is_buy r.side && leb p r.price) o ≡ 0
    here = ground (arith, b.0)

-- What bounds the volume at every candidate bounds it at every price.
pub volume_bound :
    (os : List Order) (p : Price) (v : ℕ) (cs : List Price)
    → IsAscending cs
    → All (λ c. volume os c ≤ v) cs
    → All (Beyond p cs) os
    → volume os p ≤ v
volume_bound os p v [] a h b = ground (arith, no_demand os p b)
volume_bound os p v (c ∷ cs) a h b = elim (Bool-cases (ltb c p)) [
  | inl e ↦
      volume_bound os p v cs a.1 h.1 (All-map {P = Beyond p (c ∷ cs)} (λ o q. ground arith) os b)
  | inr e ↦
      let above : p ≤ c = ground arith in
      ground (arith, demand_at_next os p c cs a above b, supply_monotone os p c above, h.0)
]

-- The running maximum bounds its start and every evaluation, and is one of them.
pub max_from-ge : (m : Qty) (es : List CandidateEvaluation) → m ≤ max_from m es
unfolding max_from
max_from-ge m [] = omega arith
max_from-ge m (e ∷ es) = ground (arith, max_from-ge m es, max_from-ge e.executable_volume es)

pub max_from_bound :
    (os : List Order) (m : Qty) (cs : List Price)
    → All (λ c. volume os c ≤ max_from m (map (evaluation os) cs)) cs
unfolding max_from
max_from_bound os m [] = tt
max_from_bound os m (c ∷ cs) = (
  ground (
    arith,
    max_from-ge m (map (evaluation os) cs),
    max_from-ge (volume os c) (map (evaluation os) cs),
  ),
  max_from_bound os (if ltb m (volume os c) then volume os c else m) cs,
)

pub max_from_attained :
    (os : List Order) (m : Qty) (cs : List Price)
    → (max_from m (map (evaluation os) cs) ≡ m)
      ⊎ (contains (max_from m (map (evaluation os) cs)) (map (volume os) cs) ≡ true)
unfolding max_from
max_from_attained os m [] = inl refl
max_from_attained os m (c ∷ cs) =
    ground (arith, max_from_attained os (if ltb m (volume os c) then volume os c else m) cs)

-- The maximizing prices are the candidates with the largest volume.
pub maximizing :
    (os : List Order) (v : ℕ) (cs : List Price)
    → map
        (λ (e : CandidateEvaluation). e.price)
        (keep (λ e. e.executable_volume == v) (map (evaluation os) cs))
      ≡ keep (λ c. volume os c == v) cs
maximizing os v [] = refl
maximizing os v (c ∷ cs) = ground (arith, maximizing os v cs)

pub All-keep :
    (P : Price → Type 0) (t : Price → Bool) (cs : List Price) → All P cs → All P (keep t cs)
All-keep P t [] h = tt
All-keep P t (c ∷ cs) h = ground (arith, All-keep P t cs h.1)

pub keep-IsAscending :
    (t : Price → Bool) (cs : List Price) → IsAscending cs → IsAscending (keep t cs)
keep-IsAscending t [] h = tt
keep-IsAscending t (c ∷ cs) h =
    ground (arith, keep-IsAscending t cs h.1, All-keep (λ q. c < q) t cs h.0)

pub keep_passes :
    (os : List Order) (v : ℕ) (cs : List Price)
    → All (λ c. volume os c ≡ v) (keep (λ c. volume os c == v) cs)
keep_passes os v [] = tt
keep_passes os v (c ∷ cs) = elim (Bool-cases (volume os c == v)) [
  | inl e ↦ rw e (ground arith, keep_passes os v cs)
  | inr e ↦ rw e (keep_passes os v cs)
]

pub keep_nonempty :
    (os : List Order) (v : ℕ) (cs : List Price)
    → contains v (map (volume os) cs) ≡ true
    → keep (λ c. volume os c == v) cs ≢ []
keep_nonempty os v [] h e = cc
keep_nonempty os v (c ∷ cs) h e = ground (arith, keep_nonempty os v cs)

pub All-last :
    (P : Price → Type 0) (p : Price) (ps : List Price) → P p → All P ps → P (last_or ps p)
All-last P p [] h k = h
All-last P p (q ∷ qs) h k = All-last P q qs k.0 k.1
