-- ===== src/Tests/MarketData.antt =====
-- Runs of the order book, the parser and the replay on a short feed, and the theorems at such inputs.
use fair_cross.Prelude.{◌<◌, ◌≡◌, refl, List, [], ◌∷◌, none, some, All, arith}
use fair_cross.Prelude.OrdMap.{lookup, insert}
use fair_cross.Domain.Error.{Result, Ok, ok}
use fair_cross.Domain.Order.{buy, sell}
use fair_cross.Domain.Qty
use fair_cross.MarketData.Messages.{
  Bytes8, ItchMessage, add_order_message, order_executed, order_replace,
}
use fair_cross.MarketData.Book.{OrderBook, empty_book, add_order, best_bid, best_ask, apply_message}
use fair_cross.MarketData.Book.Invariant.{
  IsConsistent, on_bids, on_asks, empty_book-IsConsistent, apply_message-IsConsistent,
}
use fair_cross.MarketData.Book.Best.{IsBest, extreme_prices_exact}
use fair_cross.MarketData.Parser.{parse_stream}
use fair_cross.MarketData.Parser.Wire.{stream_of, FitsWire}
use fair_cross.MarketData.Parser.RoundTrip.{parse_stream-stream_of, parse_stream_total}
use fair_cross.MarketData.Replay.{ItchReplayEngine, replay_messages, replay_stream}
use fair_cross.MarketData.Replay.Laws.{replay_stream-parse_stream, replay_stream-IsConsistent}

abbrev symbol : Bytes8
symbol = record {
  b0 = b'F';
  b1 = b'A';
  b2 = b'I';
  b3 = b'R';
  b4 = b' ';
  b5 = b' ';
  b6 = b' ';
  b7 = b' ';
}

abbrev bid_added : ItchMessage
bid_added = add_order_message (record {
  stock_locate = 1;
  tracking_number = 0;
  timestamp_nanos = 1000;
  order_reference_number = 1;
  side = buy;
  shares = 10;
  symbol = symbol;
  price_ticks = 100;
  attribution = none;
})

abbrev ask_added : ItchMessage
ask_added = add_order_message (record {
  stock_locate = 1;
  tracking_number = 0;
  timestamp_nanos = 1001;
  order_reference_number = 2;
  side = sell;
  shares = 5;
  symbol = symbol;
  price_ticks = 103;
  attribution = none;
})

abbrev bid_executed : ItchMessage
bid_executed = order_executed (record {
  stock_locate = 1;
  tracking_number = 0;
  timestamp_nanos = 1002;
  order_reference_number = 1;
  executed_shares = 4;
  match_number = 900;
})

abbrev ask_replaced : ItchMessage
ask_replaced = order_replace (record {
  stock_locate = 1;
  tracking_number = 0;
  timestamp_nanos = 1003;
  original_order_reference_number = 2;
  new_order_reference_number = 3;
  shares = 6;
  price_ticks = 105;
})

abbrev feed : List ItchMessage
feed = bid_added ∷ ask_added ∷ bid_executed ∷ ask_replaced ∷ []

abbrev quoted : OrderBook
quoted = (apply_message ask_added (apply_message bid_added empty_book).0).0

quoted-IsConsistent : IsConsistent quoted
quoted-IsConsistent =
    apply_message-IsConsistent ask_added (apply_message bid_added empty_book).0
      (apply_message-IsConsistent bid_added empty_book empty_book-IsConsistent)

quoted_prices : (best_bid quoted ≡ some 100) × (best_ask quoted ≡ some 103)
unfolding best_bid best_ask apply_message add_order lookup insert Qty.is_zero Qty.checked_add
quoted_prices = (refl, refl)

apply_message-IsConsistent_example : IsConsistent (apply_message bid_executed quoted).0
apply_message-IsConsistent_example =
    apply_message-IsConsistent bid_executed quoted quoted-IsConsistent

extreme_prices_exact_example :
    IsBest on_bids (λ p q. q < p) quoted.orders_by_ref (best_bid quoted)
    × IsBest on_asks (λ p q. p < q) quoted.orders_by_ref (best_ask quoted)
extreme_prices_exact_example = extreme_prices_exact quoted quoted-IsConsistent

feed-FitsWire : All FitsWire feed
feed-FitsWire = (
  (omega arith, omega arith, refl, omega arith, omega arith),
  ((omega arith, omega arith, refl, omega arith, omega arith), (omega arith, (omega arith, tt))),
)

parse_stream-stream_of_example : parse_stream (stream_of feed) ≡ some (ok feed)
parse_stream-stream_of_example = parse_stream-stream_of feed feed-FitsWire

-- A frame of one byte, and a byte after it.
parse_stream_total_example :
    (r : Result (List ItchMessage)) × (parse_stream (0 ∷ 1 ∷ b'S' ∷ 7 ∷ []) ≡ some r)
parse_stream_total_example = parse_stream_total (0 ∷ 1 ∷ b'S' ∷ 7 ∷ [])

abbrev fresh : ItchReplayEngine
fresh = record { book = empty_book; bbo_history = [] }

replay_stream-parse_stream_example :
    replay_stream (stream_of feed) fresh ≡ some (replay_messages feed fresh)
replay_stream-parse_stream_example =
    replay_stream-parse_stream (stream_of feed) feed fresh parse_stream-stream_of_example

replay_stream-IsConsistent_example :
    (r : ItchReplayEngine × Result Ok) × (replay_stream (0 ∷ 1 ∷ b'S' ∷ 7 ∷ []) fresh ≡ some r)
    × IsConsistent r.0.book
replay_stream-IsConsistent_example =
    replay_stream-IsConsistent (0 ∷ 1 ∷ b'S' ∷ 7 ∷ []) fresh empty_book-IsConsistent
