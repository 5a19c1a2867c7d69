-- ===== src/MarketData/Book/Best.antt =====
-- The best prices of a consistent book.
use fair_cross.Prelude.{
  ◌≤◌, ◌<◌, ◌≡◌, Bool, true, false, [], ◌∷◌, Option, none, some, All, All-map, All-zip, arith, ◌==◌,
  inl, inr, Bool-cases,
}
use fair_cross.Prelude.OrdMap.{OrdMap, lookup, IsOrdered, sum_values}
use fair_cross.Domain.Words.{Price, Qty}
use fair_cross.MarketData.Book.{BookOrder, OrderBook, level_at, last_key, best_bid, best_ask}
use fair_cross.MarketData.Book.Tally.{IsTally, weight}
use fair_cross.MarketData.Book.Invariant.{IsConsistent, IsResting, on_bids, on_asks}

-- An order weighs no more than the sum at its price.
weight-le-sum :
    (t : BookOrder → Bool) (orders : OrdMap BookOrder)
    → All (λ e. weight t e.1.price e.1 ≤ sum_values (weight t e.1.price) orders) orders
weight-le-sum t [] = tt
weight-le-sum t (e ∷ orders) =
    (omega arith, All-map (λ f h. omega (arith, h)) orders (weight-le-sum t orders))

last_key_bound : (k : Price) (q : Qty) (m : OrdMap Qty) → IsOrdered ((k, q) ∷ m) → k ≤ last_key k m
last_key_bound k q [] o = omega arith
last_key_bound k q ((j, r) ∷ m) o = omega (arith, last_key_bound j r m o.1, o.0.0)

-- A price with a level lies between the first and the last key.
level_in_range :
    (p k : Price) (q : Qty) (m : OrdMap Qty)
    → IsOrdered ((k, q) ∷ m)
    → 0 < level_at p ((k, q) ∷ m)
    → (k ≤ p) × (p ≤ last_key k m)
unfolding lookup
level_in_range p k q [] o h = ground arith
level_in_range p k q ((j, r) ∷ m) o h = elim (Bool-cases (p == k)) [
  | inl e ↦ ground (arith, last_key_bound j r m o.1, o.0.0)
  | inr e ↦
      let rest : 0 < level_at p ((j, r) ∷ m) = rw e at h in
      omega (arith, level_in_range p j r m o.1 rest, o.0.0)
]

last_level :
    (k : Price) (q : Qty) (m : OrdMap Qty)
    → IsOrdered ((k, q) ∷ m)
    → All (λ e. 0 < e.1) ((k, q) ∷ m)
    → 0 < level_at (last_key k m) ((k, q) ∷ m)
unfolding lookup
last_level k q [] o h = ground arith
last_level k q ((j, r) ∷ m) o h =
    let above : k < last_key j m = omega (arith, last_key_bound j r m o.1, o.0.0) in
    let other : (last_key j m == k) ≡ false = ground arith in rw other (last_level j r m o.1 h.1)

-- Orders of a side lie at prices that have a level.
resting_levels :
    (t : BookOrder → Bool) (orders : OrdMap BookOrder) (m : OrdMap Qty)
    → IsTally t orders m
    → All (λ e. IsResting e.1) orders
    → All (λ e. t e.1 ≡ true → 0 < level_at e.1.price m) orders
resting_levels t orders m tally r =
    All-map (λ e (h, rest) q. ground (arith, tally.exact e.1.price, rest, h)) orders
      (All-zip (λ e. weight t e.1.price e.1 ≤ sum_values (weight t e.1.price) orders)
        (λ e. IsResting e.1) orders (weight-le-sum t orders) r)

-- Shares rest at the price, and no order of the side is at a price that is `better`; without a best
-- price no order of the side rests.
abbrev pub IsBest :
    (BookOrder → Bool) → (Price → Price → Type 0) → OrdMap BookOrder → Option Price → Type 0
IsBest t better orders none = All (λ e. t e.1 ≡ false) orders
IsBest t better orders (some p) =
    (0 < sum_values (weight t p) orders) × All (λ e. t e.1 ≡ true → ¬ better e.1.price p) orders

none_rest :
    (t : BookOrder → Bool) (better : Price → Price → Type 0) (orders : OrdMap BookOrder)
    → IsTally t orders []
    → All (λ e. IsResting e.1) orders
    → IsBest t better orders none
unfolding lookup
none_rest t better orders tally r =
    All-map (λ e h. elim (Bool-cases (t e.1)) [ inl q ↦ absurd (omega (arith, h q)) | inr q ↦ q ])
      orders (resting_levels t orders [] tally r)

module _ (b : OrderBook) (c : IsConsistent b) where
  best_bid_lem :
      (m : OrdMap Qty)
      → IsTally on_bids b.orders_by_ref m
      → IsBest on_bids (λ p q. q < p) b.orders_by_ref (best_bid (record b { bids_by_price = m }))
  unfolding best_bid
  best_bid_lem [] tally = none_rest on_bids (λ p q. q < p) b.orders_by_ref tally c.resting
  best_bid_lem ((k, q) ∷ m) tally = (
    omega (arith, last_level k q m tally.ordered tally.positive, tally.exact (last_key k m)),
    All-map (λ e h t l. omega (arith, (level_in_range e.1.price k q m tally.ordered (h t)).1))
        b.orders_by_ref (resting_levels on_bids b.orders_by_ref ((k, q) ∷ m) tally c.resting),
  )

  best_ask_lem :
      (m : OrdMap Qty)
      → IsTally on_asks b.orders_by_ref m
      → IsBest on_asks (λ p q. p < q) b.orders_by_ref (best_ask (record b { asks_by_price = m }))
  unfolding best_ask lookup
  best_ask_lem [] tally = none_rest on_asks (λ p q. p < q) b.orders_by_ref tally c.resting
  best_ask_lem ((k, q) ∷ m) tally = (
    ground (arith, tally.exact k, tally.positive.0),
    All-map (λ e h t l. omega (arith, (level_in_range e.1.price k q m tally.ordered (h t)).0))
        b.orders_by_ref (resting_levels on_asks b.orders_by_ref ((k, q) ∷ m) tally c.resting),
  )

  -- In a consistent book the best bid is a price at which shares of buyers rest and above which no
  -- buy order rests, the best ask one at which shares of sellers rest and below which no sell order
  -- rests; either is missing exactly when no order of its side rests.
  pub extreme_prices_exact :
      IsBest on_bids (λ p q. q < p) b.orders_by_ref (best_bid b)
      × IsBest on_asks (λ p q. p < q) b.orders_by_ref (best_ask b)
  extreme_prices_exact = (best_bid_lem b.bids_by_price c.bids, best_ask_lem b.asks_by_price c.asks)
