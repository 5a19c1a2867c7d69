-- ===== src/Engine/Auction/Candidates.antt =====
-- The candidate prices: strictly ascending, and exactly the prices of the orders.
use fair_cross.Prelude.{
  ℕ, ◌+◌, ◌<◌, ◌≡◌, refl, true, ◌||◌, ltb, ◌==◌, if◌then◌else◌, List, [], ◌∷◌, map, contains, All,
  All-map, sort, insert_sorted, IsSortedBy, sort-IsSortedBy, get_or, set, arith, inl, inr,
  Bool-cases,
}
use fair_cross.Domain.Words.{Price}
use fair_cross.Domain.Order.{Order}
use fair_cross.Engine.Auction.{
  unique_from, unique, candidate_prices_from_orders, lower_bound, found_at,
}

-- Each price is below all later ones.
abbrev pub IsAscending : List Price → Type 0
IsAscending [] = Unit
IsAscending (p ∷ ps) = All (λ q. p < q) ps × IsAscending ps

contains-insert_sorted :
    (k x : ℕ) (l : List ℕ) → contains k (insert_sorted ltb x l) ≡ (k == x) || contains k l
unfolding insert_sorted
contains-insert_sorted k x [] = refl
contains-insert_sorted k x (y ∷ ys) = ground (arith, contains-insert_sorted k x ys)

contains-sort : (k : ℕ) (l : List ℕ) → contains k (sort ltb l) ≡ contains k l
unfolding sort
contains-sort k [] = refl
contains-sort k (x ∷ xs) =
    ground (arith, contains-insert_sorted k x (sort ltb xs), contains-sort k xs)

contains-unique_from :
    (k p : ℕ) (l : List ℕ) → contains k (p ∷ unique_from p l) ≡ contains k (p ∷ l)
unfolding unique_from
contains-unique_from k p [] = refl
contains-unique_from k p (q ∷ qs) =
    ground (arith, contains-unique_from k p qs, contains-unique_from k q qs)

contains-unique : (k : ℕ) (l : List ℕ) → contains k (unique l) ≡ contains k l
unfolding unique
contains-unique k [] = refl
contains-unique k (p ∷ ps) = contains-unique_from k p ps

unique_from-IsAscending :
    (p : ℕ) (l : List ℕ) → IsSortedBy ltb (p ∷ l) → IsAscending (p ∷ unique_from p l)
unfolding unique_from
unique_from-IsAscending p [] h = (tt, tt)
unique_from-IsAscending p (q ∷ qs) h = elim (Bool-cases (p == q)) [
  | inl e ↦ rw e (unique_from-IsAscending p qs (h.0.1, h.1.1))
  | inr e ↦
      let rest = unique_from-IsAscending q qs h.1 in
      let less : p < q = ground arith in
      rw e ((less, All-map {P = λ r. q < r} (λ r k. omega arith) (unique_from q qs) rest.0), rest)
]

unique-IsAscending : (l : List ℕ) → IsSortedBy ltb l → IsAscending (unique l)
unfolding unique
unique-IsAscending [] h = tt
unique-IsAscending (p ∷ ps) h = unique_from-IsAscending p ps h

-- The candidates ascend strictly.
pub candidates-IsAscending : (os : List Order) → IsAscending (candidate_prices_from_orders os)
unfolding candidate_prices_from_orders
candidates-IsAscending os = unique-IsAscending _ (
    sort-IsSortedBy ltb (λ x y h. ground arith) (λ x y z h k. ground arith) (map (λ o. o.price) os))

contains_prices : (os : List Order) → All (λ o. contains o.price (map (λ o. o.price) os) ≡ true) os
contains_prices [] = tt
contains_prices (o ∷ os) = (
  ground arith,
  All-map {P = λ r. contains r.price (map (λ o. o.price) os) ≡ true} (λ r h. ground arith) os
      (contains_prices os),
)

-- A price is a candidate exactly if some order has it as its limit.
pub contains-candidates :
    (k : ℕ) (os : List Order)
    → contains k (candidate_prices_from_orders os) ≡ contains k (map (λ o. o.price) os)
unfolding candidate_prices_from_orders
contains-candidates k os = rw (contains-unique, contains-sort)

pub candidates_cover :
    (os : List Order) → All (λ o. contains o.price (candidate_prices_from_orders os) ≡ true) os
candidates_cover os =
    All-map {P = λ o. contains o.price (map (λ o. o.price) os) ≡ true}
      (λ o h. rw contains-candidates h) os (contains_prices os)

-- What is in a list has what all of it has.
pub All_at : (P : ℕ → Type 0) (k : ℕ) (l : List ℕ) → All P l → contains k l ≡ true → P k
All_at P k [] h c = cc
All_at P k (x ∷ xs) h c = elim (Bool-cases (k == x)) [
  | inl e ↦ let e' : k ≡ x = ground arith in rw e' h.0
  | inr e ↦ All_at P k xs h.1 (ground arith)
]

-- Behind an ascending head stand larger prices only.
pub above_head : (k c : ℕ) (cs : List ℕ) → All (λ q. c < q) cs → contains k cs ≡ true → c < k
above_head k c cs h e = All_at (λ q. c < q) k cs h e

module _ (p : Price) where
  -- `lower_bound` finds a price that is a candidate.
  pub found_at-lower_bound :
      (cs : List Price)
      → IsAscending cs
      → contains p cs ≡ true
      → found_at cs (lower_bound cs p) p ≡ true
  unfolding found_at lower_bound
  found_at-lower_bound [] a h = cc
  found_at-lower_bound (c ∷ cs) a h =
      ground (arith, found_at-lower_bound cs a.1, above_head p c cs a.0)

  pub get_or-lower_bound :
      (f : Price → ℕ) (cs : List Price)
      → IsAscending cs
      → contains p cs ≡ true
      → get_or (map f cs) (lower_bound cs p) 0 ≡ f p
  unfolding lower_bound
  get_or-lower_bound f [] a h = cc
  get_or-lower_bound f (c ∷ cs) a h =
      ground (arith, get_or-lower_bound f cs a.1, above_head p c cs a.0)

  map_beyond :
      (f : Price → ℕ) (q : ℕ) (cs : List Price)
      → All (λ c. p < c) cs
      → map f cs ≡ map (λ c. if c == p then f c + q else f c) cs
  map_beyond f q [] a = refl
  map_beyond f q (c ∷ cs) a = ground (arith, map_beyond f q cs a.1)

  -- A write to the bucket of `p` changes the value at `p`.
  pub set-lower_bound :
      (f : Price → ℕ) (q : ℕ) (cs : List Price)
      → IsAscending cs
      → contains p cs ≡ true
      → set (map f cs) (lower_bound cs p) (f p + q) ≡ map (λ c. if c == p then f c + q else f c) cs
  unfolding lower_bound
  set-lower_bound f q [] a h = cc
  set-lower_bound f q (c ∷ cs) a h =
      ground (arith, set-lower_bound f q cs a.1, above_head p c cs a.0, map_beyond f q cs)
