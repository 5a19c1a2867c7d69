-- ===== src/MarketData/Parser/Reads.antt =====
-- The reads give back the numbers that were written.
use fair_cross.Prelude.{
  ℕ, ◌<◌, ◌≡◌, refl, Bool, true, false, Option, length, ◌||◌, [], arith, some, none,
}
use fair_cross.Domain.Error.{ok}
use fair_cross.Domain.Order.{Side, buy, sell, invalid, is_buy, is_sell}
use fair_cross.MarketData.Messages.{
  Bytes4, AddOrderMessage, OrderExecutedWithPriceMessage, ItchMessage, system_event,
  stock_directory, add_order_message, order_executed, order_executed_with_price, order_cancel,
  order_delete, order_replace,
}
use fair_cross.MarketData.Parser.{read_u16_be, read_u32_be, read_u48_be, read_u64_be, parse_payload}
use fair_cross.MarketData.Parser.Wire.{big_endian, payload_of, FitsWire, HasHeader, IsU32, IsU64}

join16 : (v : ℕ) → v < 65536 → read_u16_be (big_endian 2 v []) 0 ≡ v
unfolding read_u16_be
join16 v h = omega arith

join32 : (v : ℕ) → v < 4294967296 → read_u32_be (big_endian 4 v []) 0 ≡ v
unfolding read_u32_be
join32 v h = omega arith

join48 : (v : ℕ) → v < 281474976710656 → read_u48_be (big_endian 6 v []) 0 ≡ v
unfolding read_u48_be
join48 v h = omega arith

join64 : (v : ℕ) → v < 18446744073709551616 → read_u64_be (big_endian 8 v []) 0 ≡ v
unfolding read_u64_be
join64 v h = omega arith

module _ (m : AddOrderMessage)
    (h : HasHeader m.stock_locate m.tracking_number m.timestamp_nanos
      × IsU64 m.order_reference_number
      × IsU32 m.shares
      × IsU32 m.price_ticks) where
  add_order_read :
      (side : Side) (attribution : Option Bytes4)
      → (is_buy side || is_sell side) ≡ true
      → parse_payload
          (payload_of (add_order_message (record m { side = side; attribution = attribution })))
        ≡ ok (add_order_message (record m { side = side; attribution = attribution }))
  unfolding parse_payload read_u16_be read_u48_be read_u32_be read_u64_be
  add_order_read buy none e =
      rw
        (
          join16 m.stock_locate h.0.0,
          join16 m.tracking_number h.0.1,
          join48 m.timestamp_nanos h.0.2,
          join64 m.order_reference_number h.1,
          join32 m.shares h.2,
          join32 m.price_ticks h.3,
        )
        refl
  add_order_read buy (some a) e =
      rw
        (
          join16 m.stock_locate h.0.0,
          join16 m.tracking_number h.0.1,
          join48 m.timestamp_nanos h.0.2,
          join64 m.order_reference_number h.1,
          join32 m.shares h.2,
          join32 m.price_ticks h.3,
        )
        refl
  add_order_read sell none e =
      rw
        (
          join16 m.stock_locate h.0.0,
          join16 m.tracking_number h.0.1,
          join48 m.timestamp_nanos h.0.2,
          join64 m.order_reference_number h.1,
          join32 m.shares h.2,
          join32 m.price_ticks h.3,
        )
        refl
  add_order_read sell (some a) e =
      rw
        (
          join16 m.stock_locate h.0.0,
          join16 m.tracking_number h.0.1,
          join48 m.timestamp_nanos h.0.2,
          join64 m.order_reference_number h.1,
          join32 m.shares h.2,
          join32 m.price_ticks h.3,
        )
        refl
  add_order_read (invalid n) a e = cc

priced_read :
    (m : OrderExecutedWithPriceMessage) (printable : Bool)
    → FitsWire (order_executed_with_price m)
    → parse_payload (payload_of (order_executed_with_price (record m { printable = printable })))
      ≡ ok (order_executed_with_price (record m { printable = printable }))
unfolding parse_payload read_u16_be read_u48_be read_u32_be read_u64_be
priced_read m true h =
    rw
      (
        join16 m.stock_locate h.0.0,
        join16 m.tracking_number h.0.1,
        join48 m.timestamp_nanos h.0.2,
        join64 m.order_reference_number h.1,
        join32 m.executed_shares h.2,
        join64 m.match_number h.3,
        join32 m.execution_price_ticks h.4,
      )
      refl
priced_read m false h =
    rw
      (
        join16 m.stock_locate h.0.0,
        join16 m.tracking_number h.0.1,
        join48 m.timestamp_nanos h.0.2,
        join64 m.order_reference_number h.1,
        join32 m.executed_shares h.2,
        join64 m.match_number h.3,
        join32 m.execution_price_ticks h.4,
      )
      refl

-- The parser reads every message back from its payload.
pub parse_payload-payload_of : (m : ItchMessage) → FitsWire m → parse_payload (payload_of m) ≡ ok m
unfolding parse_payload read_u16_be read_u48_be read_u32_be read_u64_be
parse_payload-payload_of (system_event m) h =
    rw (join16 m.stock_locate h.0, join16 m.tracking_number h.1, join48 m.timestamp_nanos h.2) refl
parse_payload-payload_of (stock_directory m) h =
    rw
      (
        join16 m.stock_locate h.0.0,
        join16 m.tracking_number h.0.1,
        join48 m.timestamp_nanos h.0.2,
        join32 m.round_lot_size h.1,
      )
      refl
parse_payload-payload_of (add_order_message m) h =
    add_order_read m (h.0, h.1, h.3, h.4) m.side m.attribution h.2
parse_payload-payload_of (order_executed m) h =
    rw
      (
        join16 m.stock_locate h.0.0,
        join16 m.tracking_number h.0.1,
        join48 m.timestamp_nanos h.0.2,
        join64 m.order_reference_number h.1,
        join32 m.executed_shares h.2,
        join64 m.match_number h.3,
      )
      refl
parse_payload-payload_of (order_executed_with_price m) h = priced_read m m.printable h
parse_payload-payload_of (order_cancel m) h =
    rw
      (
        join16 m.stock_locate h.0.0,
        join16 m.tracking_number h.0.1,
        join48 m.timestamp_nanos h.0.2,
        join64 m.order_reference_number h.1,
        join32 m.canceled_shares h.2,
      )
      refl
parse_payload-payload_of (order_delete m) h =
    rw
      (
        join16 m.stock_locate h.0.0,
        join16 m.tracking_number h.0.1,
        join48 m.timestamp_nanos h.0.2,
        join64 m.order_reference_number h.1,
      )
      refl
parse_payload-payload_of (order_replace m) h =
    rw
      (
        join16 m.stock_locate h.0.0,
        join16 m.tracking_number h.0.1,
        join48 m.timestamp_nanos h.0.2,
        join64 m.original_order_reference_number h.1,
        join64 m.new_order_reference_number h.2,
        join32 m.shares h.3,
        join32 m.price_ticks h.4,
      )
      refl

-- A payload is neither empty nor longer than its two bytes of length can say.
pub length-payload_of :
    (m : ItchMessage) → (0 < length (payload_of m)) × (length (payload_of m) < 65536)
length-payload_of (system_event m) = omega arith
length-payload_of (stock_directory m) = omega arith
length-payload_of (add_order_message m) = attributed m m.attribution
  where
    attributed :
        (m : AddOrderMessage) (a : Option Bytes4)
        → (0 < length (payload_of (add_order_message (record m { attribution = a }))))
          × (length (payload_of (add_order_message (record m { attribution = a }))) < 65536)
    attributed m none = omega arith
    attributed m (some a) = omega arith
length-payload_of (order_executed m) = omega arith
length-payload_of (order_executed_with_price m) = omega arith
length-payload_of (order_cancel m) = omega arith
length-payload_of (order_delete m) = omega arith
length-payload_of (order_replace m) = omega arith
