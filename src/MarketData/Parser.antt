-- ===== src/MarketData/Parser.antt =====
-- cpp/include/faircross/marketdata/parser.hpp and cpp/src/marketdata/parser.cpp: the parser of framed
-- ITCH messages. A span is the list of its bytes.
pub mod Wire
pub mod Reads
pub mod RoundTrip
use fair_cross.Prelude.{
  ℕ, zero, suc, ◌+◌, ◌*◌, ◌%◌, Bool, true, false, ltb, ◌==◌, if◌then◌else◌, not, ◌||◌, List, [],
  ◌∷◌, length, get_or, take, drop, Option, none, some,
}
use fair_cross.Domain.Error.{
  Result, ok, err, ◌>>=◌, ◌>>◌, guard, converted, failed_with, primitive_error, invalid_side,
}
use fair_cross.Domain.Words.{u64_mod}
use fair_cross.Domain.Order.{Side, buy, sell}
use fair_cross.MarketData.Messages.{
  Bytes4, Bytes8, ItchMessage, system_event, stock_directory, add_order_message, order_executed,
  order_executed_with_price, order_cancel, order_delete, order_replace,
}

-- The byte at an index. The lengths are checked before any byte is read.
abbrev byte_at : List ℕ → ℕ → ℕ
byte_at bytes i = get_or bytes i 0

-- `val = (val << 8) | bytes[i]` on 64 bits, `n` times. The shifted number ends in eight zero bits, so
-- that the or of it and a byte is their sum.
unfoldable pub shift_in : ℕ → ℕ → List ℕ → ℕ → ℕ
shift_in zero val bytes i = val
shift_in (suc n) val bytes i = shift_in n ((val * 256) % u64_mod + byte_at bytes i) bytes (i + 1)

unfoldable pub read_u48_be : List ℕ → ℕ → ℕ
unfolding shift_in
read_u48_be bytes i = shift_in 6 0 bytes i

unfoldable pub read_u16_be : List ℕ → ℕ → ℕ
read_u16_be bytes i = (byte_at bytes i * 256 + byte_at bytes (i + 1)) % 65536

unfoldable pub read_u32_be : List ℕ → ℕ → ℕ
read_u32_be bytes i =
    byte_at bytes i * 16777216
    + byte_at bytes (i + 1) * 65536
    + byte_at bytes (i + 2) * 256
    + byte_at bytes (i + 3)

unfoldable pub read_u64_be : List ℕ → ℕ → ℕ
unfolding shift_in
read_u64_be bytes i = shift_in 8 0 bytes i

-- `std::copy` of eight and of four bytes.
abbrev bytes8_at : List ℕ → ℕ → Bytes8
bytes8_at bytes i = record {
  b0 = byte_at bytes i;
  b1 = byte_at bytes (i + 1);
  b2 = byte_at bytes (i + 2);
  b3 = byte_at bytes (i + 3);
  b4 = byte_at bytes (i + 4);
  b5 = byte_at bytes (i + 5);
  b6 = byte_at bytes (i + 6);
  b7 = byte_at bytes (i + 7);
}

abbrev bytes4_at : List ℕ → ℕ → Bytes4
bytes4_at bytes i = record {
  b0 = byte_at bytes i;
  b1 = byte_at bytes (i + 1);
  b2 = byte_at bytes (i + 2);
  b3 = byte_at bytes (i + 3);
}

abbrev of_length : ℕ → List ℕ → Result (Unit {0})
of_length n bytes = guard (length bytes == n) (failed_with "InvalidMessageLength")

unfoldable pub parse_system_event : List ℕ → Result ItchMessage
parse_system_event bytes = do
  of_length 12 bytes
  ok (
      system_event (record {
        stock_locate = read_u16_be bytes 1;
        tracking_number = read_u16_be bytes 3;
        timestamp_nanos = read_u48_be bytes 5;
        event_code = byte_at bytes 11;
      }))

unfoldable pub parse_stock_directory : List ℕ → Result ItchMessage
parse_stock_directory bytes = do
  of_length 39 bytes
  ok (
      stock_directory (record {
        stock_locate = read_u16_be bytes 1;
        tracking_number = read_u16_be bytes 3;
        timestamp_nanos = read_u48_be bytes 5;
        symbol = bytes8_at bytes 11;
        round_lot_size = read_u32_be bytes 21;
      }))

-- The side byte of an addition; a byte that is neither is refused afterwards.
abbrev side_of : ℕ → Side
side_of b = if b == b'B' then buy else if b == b'S' then sell else buy

abbrev add_order_at : List ℕ → Option Bytes4 → ItchMessage
add_order_at bytes attribution = add_order_message (record {
  stock_locate = read_u16_be bytes 1;
  tracking_number = read_u16_be bytes 3;
  timestamp_nanos = read_u48_be bytes 5;
  order_reference_number = read_u64_be bytes 11;
  side = side_of (byte_at bytes 19);
  shares = read_u32_be bytes 20;
  symbol = bytes8_at bytes 24;
  price_ticks = read_u32_be bytes 32;
  attribution = attribution;
})

abbrev side_byte : List ℕ → Result (Unit {0})
side_byte bytes =
    guard (byte_at bytes 19 == b'B' || byte_at bytes 19 == b'S')
      (primitive_error invalid_side "Invalid side byte in ITCH Add")

unfoldable pub parse_add_order : List ℕ → Result ItchMessage
parse_add_order bytes = do of_length 36 bytes; side_byte bytes; ok (add_order_at bytes none)

unfoldable pub parse_add_order_attributed : List ℕ → Result ItchMessage
parse_add_order_attributed bytes = do
  of_length 40 bytes
  side_byte bytes
  ok (add_order_at bytes (some (bytes4_at bytes 36)))

unfoldable pub parse_order_executed : List ℕ → Result ItchMessage
parse_order_executed bytes = do
  of_length 31 bytes
  ok (
      order_executed (record {
        stock_locate = read_u16_be bytes 1;
        tracking_number = read_u16_be bytes 3;
        timestamp_nanos = read_u48_be bytes 5;
        order_reference_number = read_u64_be bytes 11;
        executed_shares = read_u32_be bytes 19;
        match_number = read_u64_be bytes 23;
      }))

unfoldable pub parse_order_executed_with_price : List ℕ → Result ItchMessage
parse_order_executed_with_price bytes = do
  of_length 36 bytes
  ok (
      order_executed_with_price (record {
        stock_locate = read_u16_be bytes 1;
        tracking_number = read_u16_be bytes 3;
        timestamp_nanos = read_u48_be bytes 5;
        order_reference_number = read_u64_be bytes 11;
        executed_shares = read_u32_be bytes 19;
        match_number = read_u64_be bytes 23;
        printable = byte_at bytes 31 == b'Y';
        execution_price_ticks = read_u32_be bytes 32;
      }))

unfoldable pub parse_order_cancel : List ℕ → Result ItchMessage
parse_order_cancel bytes = do
  of_length 23 bytes
  ok (
      order_cancel (record {
        stock_locate = read_u16_be bytes 1;
        tracking_number = read_u16_be bytes 3;
        timestamp_nanos = read_u48_be bytes 5;
        order_reference_number = read_u64_be bytes 11;
        canceled_shares = read_u32_be bytes 19;
      }))

unfoldable pub parse_order_delete : List ℕ → Result ItchMessage
parse_order_delete bytes = do
  of_length 19 bytes
  ok (
      order_delete (record {
        stock_locate = read_u16_be bytes 1;
        tracking_number = read_u16_be bytes 3;
        timestamp_nanos = read_u48_be bytes 5;
        order_reference_number = read_u64_be bytes 11;
      }))

unfoldable pub parse_order_replace : List ℕ → Result ItchMessage
parse_order_replace bytes = do
  of_length 35 bytes
  ok (
      order_replace (record {
        stock_locate = read_u16_be bytes 1;
        tracking_number = read_u16_be bytes 3;
        timestamp_nanos = read_u48_be bytes 5;
        original_order_reference_number = read_u64_be bytes 11;
        new_order_reference_number = read_u64_be bytes 19;
        shares = read_u32_be bytes 27;
        price_ticks = read_u32_be bytes 31;
      }))

-- The switch over the tag.
unfoldable pub parse_tagged : ℕ → List ℕ → Result ItchMessage
unfolding parse_system_event parse_stock_directory parse_add_order parse_add_order_attributed
    parse_order_executed parse_order_executed_with_price parse_order_cancel parse_order_delete
    parse_order_replace
parse_tagged tag bytes =
    if tag == b'S'
    then parse_system_event bytes
    else if tag == b'R'
    then parse_stock_directory bytes
    else if tag == b'A'
    then parse_add_order bytes
    else if tag == b'F'
    then parse_add_order_attributed bytes
    else if tag == b'E'
    then parse_order_executed bytes
    else if tag == b'C'
    then parse_order_executed_with_price bytes
    else if tag == b'X'
    then parse_order_cancel bytes
    else if tag == b'D'
    then parse_order_delete bytes
    else if tag == b'U'
    then parse_order_replace bytes
    else err (failed_with "UnknownMessageType")

unfoldable pub parse_payload : List ℕ → Result ItchMessage
unfolding parse_tagged
parse_payload [] = err (failed_with "UnexpectedEof")
parse_payload (tag ∷ bytes) = parse_tagged tag (tag ∷ bytes)

-- A frame: two bytes of length, and a payload. The message, and the bytes consumed.
unfoldable pub parse_message : List ℕ → Result (ItchMessage × ℕ)
unfolding read_u16_be parse_payload
parse_message slice =
    let frame = 2 + read_u16_be slice 0 in
    do
      guard (not (ltb (length slice) 3)) (failed_with "UnexpectedEof")
      guard (not (ltb (length slice) frame)) (failed_with "UnexpectedEof")
      msg ← converted (parse_payload (take (read_u16_be slice 0) (drop 2 slice)))
      ok (msg, frame)

-- A message before those that the rest of the stream gives.
abbrev pub prepended :
    ItchMessage → Option (Result (List ItchMessage)) → Option (Result (List ItchMessage))
prepended msg none = none
prepended msg (some (err e)) = some (err e)
prepended msg (some (ok messages)) = some (ok (msg ∷ messages))

-- The loop of `parse_stream`, one message for each unit of fuel; `none` means that the fuel ran out.
unfoldable pub parse_stream_loop : ℕ → List ℕ → Option (Result (List ItchMessage))
parse_stream_loop fuel [] = some (ok [])
parse_stream_loop zero (b ∷ remaining) = none
parse_stream_loop (suc fuel) (b ∷ remaining) = elim (parse_message (b ∷ remaining)) [
  | err e ↦ some (converted (err e))
  | ok (msg, consumed) ↦ prepended msg (parse_stream_loop fuel (drop consumed (b ∷ remaining)))
]

-- Each message consumes a byte at least, so the length of the stream is fuel enough.
unfoldable pub parse_stream : List ℕ → Option (Result (List ItchMessage))
unfolding parse_stream_loop
parse_stream stream = parse_stream_loop (length stream) stream
