-- ===== src/MarketData/Replay.antt =====
-- cpp/include/faircross/marketdata/{packet_source,replay,bridge}.hpp and cpp/src/marketdata/replay.cpp:
-- the in-memory packet source, the replay engine and the reference price taken from the book. A call
-- returns the changed object beside its result, since an error does not undo the change.
pub mod Laws
use fair_cross.Prelude.{
  ℕ, zero, suc, ◌+◌, ◌-◌, leb, ◌==◌, if◌then◌else◌, List, [], ◌∷◌, ◌++◌, length, drop, Option, none,
  some,
}
use fair_cross.Domain.Error.{
  Result, Ok, ok_value, ok, err, converted, failed_with, error_message, Error,
}
use fair_cross.Domain.Words.{Price, InstrumentId}
use fair_cross.Domain.Oracle.{ReferencePriceSnapshot}
use fair_cross.MarketData.Messages.{ItchMessage}
use fair_cross.MarketData.Book.{OrderBook, empty_book, best_bid, best_ask, mid_price, apply_message}
use fair_cross.MarketData.Parser.{parse_message}

pub record SlicePacketSource : Type 0 where
  pub buffer : List ℕ
  pub cursor : ℕ

unfoldable pub remaining : SlicePacketSource → ℕ
remaining s = if leb (length s.buffer) s.cursor then 0 else length s.buffer - s.cursor

abbrev pub advanced :
    SlicePacketSource → Result (ItchMessage × ℕ) → SlicePacketSource × Result (Option ItchMessage)
advanced s (err e) = (s, err (failed_with (error_message e)))
advanced s (ok (msg, consumed)) = (record s { cursor = s.cursor + consumed }, ok (some msg))

unfoldable pub next_message : SlicePacketSource → SlicePacketSource × Result (Option ItchMessage)
unfolding remaining
next_message s =
    if remaining s == 0 then (s, ok none) else advanced s (parse_message (drop s.cursor s.buffer))

pub record BboQuote : Type 0 where
  pub best_bid : Option Price
  pub best_ask : Option Price
  pub mid_price : Option Price
  pub timestamp_nanos : ℕ

pub record ItchReplayEngine : Type 0 where
  pub book : OrderBook
  pub bbo_history : List BboQuote

abbrev pub quote_of : OrderBook → BboQuote
quote_of b = record {
  best_bid = best_bid b;
  best_ask = best_ask b;
  mid_price = mid_price b;
  timestamp_nanos = b.last_timestamp_nanos;
}

abbrev pub stepped : ItchReplayEngine → OrderBook × Result Ok → ItchReplayEngine × Result BboQuote
stepped engine (book, err e) = (record engine { book = book }, err (failed_with (error_message e)))
stepped engine (book, ok _) = (
  record { book = book; bbo_history = engine.bbo_history ++ quote_of book ∷ [] },
  ok (quote_of book),
)

unfoldable pub step : ItchMessage → ItchReplayEngine → ItchReplayEngine × Result BboQuote
step msg engine = stepped engine (apply_message msg engine.book)

-- The rest of a replay, after one step.
abbrev pub and_then {ℓ} :
    {A : Type ℓ}
    → ItchReplayEngine × Result BboQuote
    → (ItchReplayEngine → Error → A)
    → (ItchReplayEngine → A)
    → A
and_then (engine, err e) failed next = failed engine e
and_then (engine, ok quote) failed next = next engine

unfoldable pub replay_messages : List ItchMessage → ItchReplayEngine → ItchReplayEngine × Result Ok
replay_messages [] engine = (engine, ok ok_value)
replay_messages (msg ∷ messages) engine =
    and_then (step msg engine) (λ engine' e. (engine', err (failed_with (error_message e))))
      (λ engine'. replay_messages messages engine')

-- What the loop of `replay_stream` does with what the source gave.
abbrev pub with_next :
    SlicePacketSource × Result (Option ItchMessage)
    → ItchReplayEngine
    → (SlicePacketSource → ItchReplayEngine → Option (ItchReplayEngine × Result Ok))
    → Option (ItchReplayEngine × Result Ok)
with_next (s, err e) engine rest = some (engine, err (failed_with (error_message e)))
with_next (s, ok none) engine rest = some (engine, ok ok_value)
with_next (s, ok (some msg)) engine rest =
    and_then (step msg engine) (λ engine' e. some (engine', err (failed_with (error_message e))))
      (λ engine'. rest s engine')

-- The loop, one round for each unit of fuel; `none` means that the fuel ran out.
unfoldable pub replay_stream_loop :
    ℕ → SlicePacketSource → ItchReplayEngine → Option (ItchReplayEngine × Result Ok)
replay_stream_loop zero source engine = none
replay_stream_loop (suc fuel) source engine =
    with_next (next_message source) engine (replay_stream_loop fuel)

-- Each round but the last consumes a byte at least.
unfoldable pub replay_stream : List ℕ → ItchReplayEngine → Option (ItchReplayEngine × Result Ok)
unfolding replay_stream_loop
replay_stream stream engine =
    replay_stream_loop (suc (length stream)) (record { buffer = stream; cursor = 0 }) engine

abbrev snapshot_at : ℕ → InstrumentId → ℕ → ℕ → Option Price → Option ReferencePriceSnapshot
snapshot_at oracle_id instrument_id timestamp_nanos sequence none = none
snapshot_at oracle_id instrument_id timestamp_nanos sequence (some mid) = some (record {
  oracle_id = oracle_id;
  instrument_id = instrument_id;
  reference_price = mid;
  timestamp_nanos = timestamp_nanos;
  sequence = sequence;
})

-- `OracleBridge::snapshot_from_book`.
unfoldable pub snapshot_from_book :
    OrderBook → ℕ → InstrumentId → ℕ → ℕ → Option ReferencePriceSnapshot
snapshot_from_book book oracle_id instrument_id timestamp_nanos sequence =
    snapshot_at oracle_id instrument_id timestamp_nanos sequence (mid_price book)

unfoldable pub current_reference_price_snapshot :
    ItchReplayEngine → ℕ → InstrumentId → ℕ → Option ReferencePriceSnapshot
unfolding snapshot_from_book
current_reference_price_snapshot engine oracle_id instrument_id sequence =
    snapshot_from_book engine.book oracle_id instrument_id engine.book.last_timestamp_nanos sequence
