-- ===== src/MarketData/Messages.antt =====
-- cpp/include/faircross/marketdata/messages.hpp: the parsed ITCH messages. A `std::array` of a few
-- bytes is a record of them.
use fair_cross.Prelude.{ℕ, Bool, Option}
use fair_cross.Domain.Order.{Side}

pub record Bytes4 : Type 0 where
  pub b0 : ℕ
  pub b1 : ℕ
  pub b2 : ℕ
  pub b3 : ℕ

pub record Bytes8 : Type 0 where
  pub b0 : ℕ
  pub b1 : ℕ
  pub b2 : ℕ
  pub b3 : ℕ
  pub b4 : ℕ
  pub b5 : ℕ
  pub b6 : ℕ
  pub b7 : ℕ

pub record SystemEventMessage : Type 0 where
  pub stock_locate : ℕ
  pub tracking_number : ℕ
  pub timestamp_nanos : ℕ
  pub event_code : ℕ

pub record StockDirectoryMessage : Type 0 where
  pub stock_locate : ℕ
  pub tracking_number : ℕ
  pub timestamp_nanos : ℕ
  pub symbol : Bytes8
  pub round_lot_size : ℕ

pub record AddOrderMessage : Type 0 where
  pub stock_locate : ℕ
  pub tracking_number : ℕ
  pub timestamp_nanos : ℕ
  pub order_reference_number : ℕ
  pub side : Side
  pub shares : ℕ
  pub symbol : Bytes8
  pub price_ticks : ℕ
  pub attribution : Option Bytes4

pub record OrderExecutedMessage : Type 0 where
  pub stock_locate : ℕ
  pub tracking_number : ℕ
  pub timestamp_nanos : ℕ
  pub order_reference_number : ℕ
  pub executed_shares : ℕ
  pub match_number : ℕ

pub record OrderExecutedWithPriceMessage : Type 0 where
  pub stock_locate : ℕ
  pub tracking_number : ℕ
  pub timestamp_nanos : ℕ
  pub order_reference_number : ℕ
  pub executed_shares : ℕ
  pub match_number : ℕ
  pub printable : Bool
  pub execution_price_ticks : ℕ

pub record OrderCancelMessage : Type 0 where
  pub stock_locate : ℕ
  pub tracking_number : ℕ
  pub timestamp_nanos : ℕ
  pub order_reference_number : ℕ
  pub canceled_shares : ℕ

pub record OrderDeleteMessage : Type 0 where
  pub stock_locate : ℕ
  pub tracking_number : ℕ
  pub timestamp_nanos : ℕ
  pub order_reference_number : ℕ

pub record OrderReplaceMessage : Type 0 where
  pub stock_locate : ℕ
  pub tracking_number : ℕ
  pub timestamp_nanos : ℕ
  pub original_order_reference_number : ℕ
  pub new_order_reference_number : ℕ
  pub shares : ℕ
  pub price_ticks : ℕ

pub data ItchMessage : Type 0 where
  system_event : SystemEventMessage → ItchMessage
  stock_directory : StockDirectoryMessage → ItchMessage
  add_order_message : AddOrderMessage → ItchMessage
  order_executed : OrderExecutedMessage → ItchMessage
  order_executed_with_price : OrderExecutedWithPriceMessage → ItchMessage
  order_cancel : OrderCancelMessage → ItchMessage
  order_delete : OrderDeleteMessage → ItchMessage
  order_replace : OrderReplaceMessage → ItchMessage
