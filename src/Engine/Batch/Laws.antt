-- ===== src/Engine/Batch/Laws.antt =====
-- What `Batch::create` accepts, and the batch that it builds.
use fair_cross.Prelude.{
  ℕ, ◌<◌, ◌≡◌, ◌≢◌, ◌↔◌, true, false, ◌||◌, List, [], ◌∷◌, contains, All, All-map, DistinctBy, Perm,
  arith, sort-perm, sort-DistinctBy, sort-IsSortedBy, IsSortedBy, All-sort, All-zip, All-of, refl,
}
use fair_cross.Domain.Error.{ok, IsOk}
use fair_cross.Domain.Words.{BatchId, InstrumentId}
use fair_cross.Domain.Order.{Order, is_buy, is_sell}
use fair_cross.Domain.Qty.{is_zero}
use fair_cross.Engine.Batch.{Batch, earlier, new_batch, check_orders, create}

-- An order that a batch for the instrument may hold.
pub record IsValidOrder (instrument : InstrumentId) (o : Order) : Type 0 where
  pub same_instrument : o.instrument ≡ instrument
  pub proper_side : (is_buy o.side || is_sell o.side) ≡ true
  pub positive_price : 0 < o.price
  pub positive_qty : 0 < o.qty

-- What the loop accepts from a set of seen ids on.
abbrev Acceptable : InstrumentId → List ℕ → List Order → Type 0
Acceptable inst seen [] = Unit
Acceptable inst seen (o ∷ os) =
    IsValidOrder inst o × (contains o.id seen ≡ false) × Acceptable inst (o.id ∷ seen) os

check_orders-Acceptable :
    (inst : InstrumentId) (seen : List ℕ) (os : List Order)
    → IsOk (check_orders inst seen os)
    → Acceptable inst seen os
unfolding check_orders is_zero
check_orders-Acceptable inst seen [] h = tt
check_orders-Acceptable inst seen (o ∷ os) h =
    ground (arith, check_orders-Acceptable inst (o.id ∷ seen) os)

Acceptable-check_orders :
    (inst : InstrumentId) (seen : List ℕ) (os : List Order)
    → Acceptable inst seen os
    → IsOk (check_orders inst seen os)
unfolding check_orders is_zero
Acceptable-check_orders inst seen [] h = tt
Acceptable-check_orders inst seen (o ∷ os) h =
    ground (arith, Acceptable-check_orders inst (o.id ∷ seen) os h.2)

-- The ids differ from those seen before.
Acceptable-unseen :
    (inst : InstrumentId) (seen : List ℕ) (os : List Order)
    → Acceptable inst seen os
    → All (λ o. contains o.id seen ≡ false) os
Acceptable-unseen inst seen [] h = tt
Acceptable-unseen inst seen (o ∷ os) h = (
  h.1,
  All-map {P = λ p. contains p.id (o.id ∷ seen) ≡ false} (λ p q. ground arith) os
      (Acceptable-unseen inst (o.id ∷ seen) os h.2),
)

Acceptable-valid :
    (inst : InstrumentId) (seen : List ℕ) (os : List Order)
    → Acceptable inst seen os
    → All (IsValidOrder inst) os × DistinctBy (λ o. o.id) os
Acceptable-valid inst seen [] h = (tt, tt)
Acceptable-valid inst seen (o ∷ os) h =
    let rest = Acceptable-valid inst (o.id ∷ seen) os h.2 in
    (
      (h.0, rest.0),
      (
        All-map {P = λ p. contains p.id (o.id ∷ seen) ≡ false} (λ p q. ground arith) os
            (Acceptable-unseen inst (o.id ∷ seen) os h.2),
        rest.1,
      ),
    )

Acceptable-of_valid :
    (inst : InstrumentId) (seen : List ℕ) (os : List Order)
    → All (IsValidOrder inst) os
    → DistinctBy (λ o. o.id) os
    → All (λ o. contains o.id seen ≡ false) os
    → Acceptable inst seen os
Acceptable-of_valid inst seen [] v d h = tt
Acceptable-of_valid inst seen (o ∷ os) v d h = (
  v.0,
  h.0,
  Acceptable-of_valid inst (o.id ∷ seen) os v.1 d.1 (
      All-map {P = λ p. (p.id ≢ o.id) × (contains p.id seen ≡ false)} (λ p q. ground arith) os
        (All-zip (λ p. p.id ≢ o.id) (λ p. contains p.id seen ≡ false) os d.0 h.1)),
)

-- `create` succeeds exactly on orders of its instrument, each with a proper side, a positive price
-- and a positive quantity, whose ids are pairwise different.
pub create_iff :
    (batch_id : BatchId) (inst : InstrumentId) (os : List Order)
    → IsOk (create batch_id inst os) ↔ (All (IsValidOrder inst) os × DistinctBy (λ o. o.id) os)
unfolding create
create_iff batch_id inst os = (
  λ h. Acceptable-valid inst [] os (check_orders-Acceptable inst [] os (ground arith)),
  λ (v, d).
      let checked =
        Acceptable-check_orders inst [] os
          (Acceptable-of_valid inst [] os v d (All-of (λ o. refl) os)) in
      ground arith,
)

earlier_asym : (a b : Order) → earlier a b ≡ true → earlier b a ≡ false
unfolding earlier
earlier_asym a b h = ground arith

earlier_trans : (a b c : Order) → earlier b a ≡ false → earlier c b ≡ false → earlier c a ≡ false
unfolding earlier
earlier_trans a b c h k = ground arith

-- The orders of a batch are those that it was given, sorted by sequence number and then by id.
pub new_batch_sorted :
    (batch_id : BatchId) (inst : InstrumentId) (os : List Order)
    → let b = new_batch batch_id inst os in Perm b.orders os × IsSortedBy earlier b.orders
unfolding new_batch
new_batch_sorted batch_id inst os =
    (sort-perm earlier os, sort-IsSortedBy earlier earlier_asym earlier_trans os)

-- A batch as `create` returns it.
pub record IsValidBatch (b : Batch) : Type 0 where
  pub valid_orders : All (IsValidOrder b.instrument) b.orders
  pub distinct_ids : DistinctBy (λ o. o.id) b.orders
  pub in_order : IsSortedBy earlier b.orders

-- Every batch that `create` returns is valid: it keeps its given id and instrument, its orders are
-- valid, have different ids, and stand in canonical order.
pub create-IsValidBatch :
    (batch_id : BatchId) (inst : InstrumentId) (os : List Order) {b : Batch}
    → create batch_id inst os ≡ ok b
    → (b ≡ new_batch batch_id inst os) × IsValidBatch b
unfolding create new_batch
create-IsValidBatch batch_id inst os {b} h = (
  built,
  rw built (record {
    valid_orders = All-sort earlier (IsValidOrder inst) os accepted.0;
    distinct_ids = sort-DistinctBy earlier (λ o. o.id) os accepted.1;
    in_order = (new_batch_sorted batch_id inst os).1;
  }),
)
  where
    accepted : All (IsValidOrder inst) os × DistinctBy (λ o. o.id) os
    accepted = Acceptable-valid inst [] os (check_orders-Acceptable inst [] os (ground arith))

    built : b ≡ new_batch batch_id inst os
    built = ground arith
