-- ===== src/Engine/Auction/Bucketing.antt =====
-- The loop over the orders fills the buckets with the exact quantity at each candidate.
use fair_cross.Prelude.{
  ℕ, ◌+◌, ◌<◌, ◌≡◌, refl, ◌∙◌, ap, Bool, true, not, ◌&&◌, ◌==◌, if◌then◌else◌, List, [], ◌∷◌, map,
  contains, replicate, length, sum_by_mono, All, All-of, arith, inl, inr, Bool-cases,
}
use fair_cross.Domain.Error.{ok}
use fair_cross.Domain.Words.{Price, u64_mod}
use fair_cross.Domain.Order.{Order, is_buy}
use fair_cross.Domain.Qty.{checked_add_fits}
use fair_cross.Engine.Auction.{Buckets, bucket_order, bucket_orders}
use fair_cross.Engine.Auction.Totals.{weight, total, buying, not_buying, Fits}
use fair_cross.Engine.Auction.Candidates.{
  IsAscending, found_at-lower_bound, get_or-lower_bound, set-lower_bound,
}

abbrev pub buys_at : Price → Order → Bool
buys_at c o = is_buy o.side && o.price == c

abbrev pub sells_at : Price → Order → Bool
sells_at c o = not (is_buy o.side) && o.price == c

abbrev pub filled : List Price → (Price → ℕ) → (Price → ℕ) → Buckets
filled cs f g = record { buys = map f cs; sells = map g cs }

-- The buckets have room for the quantities that are still to come.
abbrev Room : (Price → ℕ) → (Price → ℕ) → List Order → Type 0
Room f g os =
    (c : Price) → (f c + total (buys_at c) os < u64_mod) × (g c + total (sells_at c) os < u64_mod)

abbrev bump : (Price → ℕ) → (Price → Order → Bool) → Order → Price → ℕ
bump f t o c = f c + weight (t c) o

map-congr : (f g : Price → ℕ) (cs : List Price) → ((c : Price) → f c ≡ g c) → map f cs ≡ map g cs
map-congr f g [] h = refl
map-congr f g (c ∷ cs) h = cc (h c, map-congr f g cs h)

-- One order raises its own bucket.
bucket_order_lem :
    (cs : List Price) (o : Order) (f g : Price → ℕ) (os : List Order)
    → IsAscending cs
    → contains o.price cs ≡ true
    → Room f g (o ∷ os)
    → bucket_order cs o (filled cs f g) ≡ ok (filled cs (bump f buys_at o) (bump g sells_at o))
unfolding bucket_order
bucket_order_lem cs o f g os a c room = elim (Bool-cases (is_buy o.side)) [
  | inl side ↦ ground (
    arith,
    found_at-lower_bound o.price cs a c,
    get_or-lower_bound o.price f cs a c,
    set-lower_bound o.price f o.qty cs a c,
    room o.price,
    checked_add_fits (f o.price) o.qty,
    map-congr (λ c. if c == o.price then f c + o.qty else f c) (bump f buys_at o) cs
        (λ c. ground arith),
    map-congr g (bump g sells_at o) cs (λ c. ground arith),
  )
  | inr side ↦ ground (
    arith,
    found_at-lower_bound o.price cs a c,
    get_or-lower_bound o.price g cs a c,
    set-lower_bound o.price g o.qty cs a c,
    room o.price,
    checked_add_fits (g o.price) o.qty,
    map-congr (λ c. if c == o.price then g c + o.qty else g c) (bump g sells_at o) cs
        (λ c. ground arith),
    map-congr f (bump f buys_at o) cs (λ c. ground arith),
  )
]

bucket_orders_from :
    (cs : List Price) (os : List Order) (f g : Price → ℕ)
    → IsAscending cs
    → All (λ o. contains o.price cs ≡ true) os
    → Room f g os
    → bucket_orders cs os (filled cs f g)
      ≡ ok (filled cs (λ c. f c + total (buys_at c) os) (λ c. g c + total (sells_at c) os))
unfolding bucket_orders
bucket_orders_from cs [] f g a cover room = cc (
  map-congr f (λ c. f c + 0) cs (λ c. omega arith),
  map-congr g (λ c. g c + 0) cs (λ c. omega arith),
)
bucket_orders_from cs (o ∷ os) f g a cover room = rw (bucket_order_lem cs o f g os a cover.0 room) (
    bucket_orders_from cs os (bump f buys_at o) (bump g sells_at o) a cover.1
      (λ c. (omega (arith, (room c).0), omega (arith, (room c).1)))
    ∙ cc (
      map-congr (λ c. bump f buys_at o c + total (buys_at c) os)
          (λ c. f c + total (buys_at c) (o ∷ os)) cs (λ c. omega arith),
      map-congr (λ c. bump g sells_at o c + total (sells_at c) os)
          (λ c. g c + total (sells_at c) (o ∷ os)) cs (λ c. omega arith),
    ))

replicate-map : (cs : List Price) → replicate {A = ℕ} (length cs) 0 ≡ map (λ c. 0) cs
replicate-map [] = refl
replicate-map (c ∷ cs) = ap {B = List ℕ} (◌∷◌ 0) (replicate-map cs)

-- From empty buckets the loop reaches the exact quantities at the candidates.
pub bucket_orders_exact :
    (cs : List Price) (os : List Order)
    → IsAscending cs
    → All (λ o. contains o.price cs ≡ true) os
    → Fits os
    → bucket_orders cs os
        (record { buys = replicate (length cs) 0; sells = replicate (length cs) 0 })
      ≡ ok (filled cs (λ c. total (buys_at c) os) (λ c. total (sells_at c) os))
bucket_orders_exact cs os a cover fits = rw (replicate-map cs) (
    bucket_orders_from cs os (λ c. 0) (λ c. 0) a cover
      (λ c. (
        omega (
          arith,
          sum_by_mono (weight (buys_at c)) (weight buying) os (All-of (λ o. ground arith) os),
          fits.0,
        ),
        omega (
          arith,
          sum_by_mono (weight (sells_at c)) (weight not_buying) os (All-of (λ o. ground arith) os),
          fits.1,
        ),
      ))
    ∙ cc (
      map-congr (λ c. 0 + total (buys_at c) os) (λ c. total (buys_at c) os) cs (λ c. omega arith),
      map-congr (λ c. 0 + total (sells_at c) os) (λ c. total (sells_at c) os) cs (λ c. omega arith),
    ))
