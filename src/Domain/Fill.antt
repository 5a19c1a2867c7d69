-- ===== src/Domain/Fill.antt =====
-- cpp/include/faircross/domain/fill.hpp: a fill, and its creation with the consideration.
use fair_cross.Prelude.{ℕ}
use fair_cross.Domain.Error.{Result, ok, ◌>>=◌, converted}
use fair_cross.Domain.Words.{OrderId, AccountId, InstrumentId, Price, Qty, Money}
use fair_cross.Domain.Money
use fair_cross.Domain.Order.{Side}

pub record Fill : Type 0 where
  pub fill_id : ℕ
  pub order_id : OrderId
  pub account_id : AccountId
  pub instrument_id : InstrumentId
  pub side : Side
  pub execution_price : Price
  pub fill_qty : Qty
  pub consideration : Money

-- `Fill::create`; `return cons_res.error_message();` keeps the message of the error only.
unfoldable pub create : ℕ → OrderId → AccountId → InstrumentId → Side → Price → Qty → Result Fill
create fill_id order_id account_id instrument_id side execution_price fill_qty = do
  consideration ← converted (Money.from_price_qty execution_price fill_qty)
  ok (record {
    fill_id = fill_id;
    order_id = order_id;
    account_id = account_id;
    instrument_id = instrument_id;
    side = side;
    execution_price = execution_price;
    fill_qty = fill_qty;
    consideration = consideration;
  })
