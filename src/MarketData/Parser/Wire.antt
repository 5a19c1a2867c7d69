-- ===== src/MarketData/Parser/Wire.antt =====
-- The wire format of ITCH messages, as an independent description of what the parser reads: numbers
-- are big-endian, and bytes that no field holds are zero.
use fair_cross.Prelude.{
  ℕ, zero, suc, ◌/◌, ◌%◌, ◌<◌, ◌≡◌, true, if◌then◌else◌, ◌||◌, List, [], ◌∷◌, ◌++◌, length,
  replicate, Option, none, some,
}
use fair_cross.Domain.Order.{Side, is_buy, is_sell}
use fair_cross.MarketData.Messages.{
  Bytes4, Bytes8, ItchMessage, system_event, stock_directory, add_order_message, order_executed,
  order_executed_with_price, order_cancel, order_delete, order_replace,
}

-- The lowest `k` bytes of a number, the highest of them first, before what follows.
abbrev pub big_endian : ℕ → ℕ → List ℕ → List ℕ
big_endian zero v after = after
big_endian (suc k) v after = big_endian k (v / 256) ((v % 256) ∷ after)

abbrev symbol_bytes : Bytes8 → List ℕ → List ℕ
symbol_bytes s after = s.b0 ∷ s.b1 ∷ s.b2 ∷ s.b3 ∷ s.b4 ∷ s.b5 ∷ s.b6 ∷ s.b7 ∷ after

abbrev attribution_tag : Option Bytes4 → ℕ
attribution_tag none = b'A'
attribution_tag (some a) = b'F'

abbrev attribution_bytes : Option Bytes4 → List ℕ
attribution_bytes none = []
attribution_bytes (some a) = a.b0 ∷ a.b1 ∷ a.b2 ∷ a.b3 ∷ []

abbrev side_tag : Side → ℕ
side_tag s = if is_buy s then b'B' else b'S'

-- Stock locate, tracking number and time, in which all messages agree.
abbrev header : ℕ → ℕ → ℕ → ℕ → List ℕ → List ℕ
header tag locate tracking time after =
    tag ∷ big_endian 2 locate (big_endian 2 tracking (big_endian 6 time after))

abbrev pub payload_of : ItchMessage → List ℕ
payload_of (system_event m) =
    header b'S' m.stock_locate m.tracking_number m.timestamp_nanos (m.event_code ∷ [])
payload_of (stock_directory m) =
    header b'R' m.stock_locate m.tracking_number m.timestamp_nanos
      (symbol_bytes m.symbol (0 ∷ 0 ∷ big_endian 4 m.round_lot_size (replicate 14 0)))
payload_of (add_order_message m) =
    header (attribution_tag m.attribution) m.stock_locate m.tracking_number m.timestamp_nanos (
      big_endian 8 m.order_reference_number (
        side_tag m.side
        ∷ big_endian 4 m.shares
            (symbol_bytes m.symbol (big_endian 4 m.price_ticks (attribution_bytes m.attribution)))))
payload_of (order_executed m) = header b'E' m.stock_locate m.tracking_number m.timestamp_nanos (
    big_endian 8 m.order_reference_number
      (big_endian 4 m.executed_shares (big_endian 8 m.match_number [])))
payload_of (order_executed_with_price m) =
    header b'C' m.stock_locate m.tracking_number m.timestamp_nanos (
      big_endian 8 m.order_reference_number (
        big_endian 4 m.executed_shares (
          big_endian 8 m.match_number
            ((if m.printable then b'Y' else b'N') ∷ big_endian 4 m.execution_price_ticks []))))
payload_of (order_cancel m) =
    header b'X' m.stock_locate m.tracking_number m.timestamp_nanos
      (big_endian 8 m.order_reference_number (big_endian 4 m.canceled_shares []))
payload_of (order_delete m) =
    header b'D' m.stock_locate m.tracking_number m.timestamp_nanos
      (big_endian 8 m.order_reference_number [])
payload_of (order_replace m) = header b'U' m.stock_locate m.tracking_number m.timestamp_nanos (
    big_endian 8 m.original_order_reference_number (
      big_endian 8 m.new_order_reference_number
        (big_endian 4 m.shares (big_endian 4 m.price_ticks []))))

-- A payload behind its length.
abbrev pub frame_of : ItchMessage → List ℕ
frame_of m = big_endian 2 (length (payload_of m)) (payload_of m)

abbrev pub stream_of : List ItchMessage → List ℕ
stream_of [] = []
stream_of (m ∷ messages) = frame_of m ++ stream_of messages

abbrev pub IsU16 : ℕ → Type 0
IsU16 v = v < 65536

abbrev pub IsU32 : ℕ → Type 0
IsU32 v = v < 4294967296

abbrev pub IsU48 : ℕ → Type 0
IsU48 v = v < 281474976710656

abbrev pub IsU64 : ℕ → Type 0
IsU64 v = v < 18446744073709551616

abbrev pub HasHeader : ℕ → ℕ → ℕ → Type 0
HasHeader locate tracking time = IsU16 locate × IsU16 tracking × IsU48 time

-- The fields fit their places on the wire, and the side is a proper one.
abbrev pub FitsWire : ItchMessage → Type 0
FitsWire (system_event m) = HasHeader m.stock_locate m.tracking_number m.timestamp_nanos
FitsWire (stock_directory m) =
    HasHeader m.stock_locate m.tracking_number m.timestamp_nanos × IsU32 m.round_lot_size
FitsWire (add_order_message m) =
    HasHeader m.stock_locate m.tracking_number m.timestamp_nanos
    × IsU64 m.order_reference_number
    × ((is_buy m.side || is_sell m.side) ≡ true)
    × IsU32 m.shares
    × IsU32 m.price_ticks
FitsWire (order_executed m) =
    HasHeader m.stock_locate m.tracking_number m.timestamp_nanos
    × IsU64 m.order_reference_number
    × IsU32 m.executed_shares
    × IsU64 m.match_number
FitsWire (order_executed_with_price m) =
    HasHeader m.stock_locate m.tracking_number m.timestamp_nanos
    × IsU64 m.order_reference_number
    × IsU32 m.executed_shares
    × IsU64 m.match_number
    × IsU32 m.execution_price_ticks
FitsWire (order_cancel m) =
    HasHeader m.stock_locate m.tracking_number m.timestamp_nanos
    × IsU64 m.order_reference_number
    × IsU32 m.canceled_shares
FitsWire (order_delete m) =
    HasHeader m.stock_locate m.tracking_number m.timestamp_nanos × IsU64 m.order_reference_number
FitsWire (order_replace m) =
    HasHeader m.stock_locate m.tracking_number m.timestamp_nanos
    × IsU64 m.original_order_reference_number
    × IsU64 m.new_order_reference_number
    × IsU32 m.shares
    × IsU32 m.price_ticks
