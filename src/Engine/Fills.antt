-- ===== src/Engine/Fills.antt =====
-- cpp/include/faircross/engine/fill.hpp and cpp/src/engine/fill.cpp: the fills of an allocation.
pub mod Laws
pub mod Origins
use fair_cross.Prelude.{ℕ, ◌||◌, ◌==◌, if◌then◌else◌, List, [], ◌∷◌, none, some}
use fair_cross.Domain.Error.{Result, ok, ◌>>=◌, converted}
use fair_cross.Domain.Words.{Price, InstrumentId, add64}
use fair_cross.Domain.Qty
use fair_cross.Domain.Fill.{Fill}
use fair_cross.Domain.Fill as FillRecord
use fair_cross.Engine.Batch.{Batch}
use fair_cross.Engine.Allocation.{OrderAllocation, BatchAllocation}

-- The loop over the allocations, from the next fill id.
unfoldable pub fills_from : Price → InstrumentId → ℕ → List OrderAllocation → Result (List Fill)
fills_from cp inst fill_id [] = ok []
fills_from cp inst fill_id (alloc ∷ allocs) =
    let skipped = fills_from cp inst fill_id allocs in
    let created = (do
      fill ← converted (
          FillRecord.create fill_id alloc.order_id alloc.account inst alloc.side cp
            alloc.allocated_qty)
      fills ← fills_from cp inst (add64 fill_id 1) allocs
      ok (fill ∷ fills)) in
    if Qty.is_zero alloc.allocated_qty then skipped else created

unfoldable pub generate_canonical_fills : Batch → BatchAllocation → Result (List Fill)
unfolding fills_from
generate_canonical_fills batch allocation = elim allocation.clearing_price [
  | none ↦ ok []
  | some cp ↦
      if Qty.is_zero allocation.target_volume
      then ok []
      else fills_from cp batch.instrument 0 allocation.allocations
]
