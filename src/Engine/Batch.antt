-- ===== src/Engine/Batch.antt =====
-- cpp/include/faircross/engine/batch.hpp and cpp/src/engine/batch.cpp: the canonical batch and its
-- validation.
pub mod Laws
use fair_cross.Prelude.{
  ℕ, Bool, true, false, not, ◌||◌, ltb, ◌==◌, if◌then◌else◌, List, [], ◌∷◌, length, contains, sort,
}
use fair_cross.Domain.Error.{
  Result, ok, Ok, ok_value, guard, ◌>>=◌, ◌>>◌, Error, primitive_error, domain_error,
  instrument_mismatch, invalid_side, zero_value, duplicate_order_id,
}
use fair_cross.Domain.Words.{BatchId, InstrumentId}
use fair_cross.Domain.Order.{Order, is_buy, is_sell}
use fair_cross.Domain.Qty

pub record Batch : Type 0 where
  pub batch_id : BatchId
  pub instrument : InstrumentId
  pub orders : List Order

-- The comparator of the constructor: by sequence number, then by id.
unfoldable pub earlier : Order → Order → Bool
earlier a b = if not (a.seq == b.seq) then ltb a.seq b.seq else ltb a.id b.id

-- The constructor, which sorts the orders.
unfoldable pub new_batch : BatchId → InstrumentId → List Order → Batch
new_batch batch_id instrument orders = record {
  batch_id = batch_id;
  instrument = instrument;
  orders = sort earlier orders;
}

-- The loop of `create`; `seen` holds the ids so far.
unfoldable pub check_orders : InstrumentId → List ℕ → List Order → Result Ok
check_orders instrument seen [] = ok ok_value
check_orders instrument seen (order ∷ orders) = do
  guard (order.instrument == instrument)
      (domain_error instrument_mismatch "Instrument mismatch in batch")
  guard (is_buy order.side || is_sell order.side)
      (primitive_error invalid_side "Invalid side in batch")
  guard (not (order.price == 0)) (primitive_error zero_value "Price")
  guard (not (Qty.is_zero order.qty)) (primitive_error zero_value "Qty")
  guard (not (contains order.id seen))
      (domain_error duplicate_order_id "Duplicate OrderId in batch")
  check_orders instrument (order.id ∷ seen) orders

unfoldable pub create : BatchId → InstrumentId → List Order → Result Batch
unfolding check_orders
create batch_id instrument orders = do
  check_orders instrument [] orders
  ok (new_batch batch_id instrument orders)

unfoldable pub is_empty : Batch → Bool
is_empty b = length b.orders == 0

unfoldable pub len : Batch → ℕ
len b = length b.orders
