-- ===== src/MarketData/Replay/Laws.antt =====
-- Replaying a stream: what it is equal to, that it ends, and that the book stays consistent.
use fair_cross.Prelude.{
  ℕ, zero, suc, ◌+◌, ◌<◌, ◌≡◌, ◌∙◌, refl, sym, ap, ◌/◌, ◌==◌, if◌then◌else◌, List, [], ◌∷◌, length,
  drop, length-drop, drop-drop, Option, none, some, arith, false,
}
use fair_cross.Domain.Error.{Result, Ok, ok_value, ok, err, failed_with, error_message, Error}
use fair_cross.Domain.Words.{Price, u64_mod, InstrumentId, add64, sub64}
use fair_cross.Domain.Price
use fair_cross.MarketData.Messages.{ItchMessage}
use fair_cross.MarketData.Book.{OrderBook, apply_message, best_bid, best_ask, mid_price}
use fair_cross.MarketData.Book.Invariant.{IsConsistent, apply_message-IsConsistent}
use fair_cross.MarketData.Parser.{parse_message, parse_stream_loop, parse_stream, prepended}
use fair_cross.MarketData.Parser.RoundTrip.{parse_message_consumed}
use fair_cross.MarketData.Replay.{
  SlicePacketSource, next_message, advanced, ItchReplayEngine, BboQuote, stepped, step, and_then,
  with_next, replay_messages, replay_stream_loop, replay_stream, current_reference_price_snapshot,
}

abbrev source_at : List ℕ → ℕ → SlicePacketSource
source_at buffer cursor = record { buffer = buffer; cursor = cursor }

-- What the source gives is what the parser reads at the cursor.
next_message_lem :
    (buffer : List ℕ) (cursor : ℕ)
    → next_message (source_at buffer cursor) ≡ (
        if length (drop cursor buffer) == 0
        then (source_at buffer cursor, ok none)
        else advanced (source_at buffer cursor) (parse_message (drop cursor buffer)))
unfolding next_message
next_message_lem buffer cursor = ground (arith, length-drop cursor buffer)

-- A step keeps the book consistent, also where the message is refused.
step-IsConsistent :
    (m : ItchMessage) (engine : ItchReplayEngine)
    → IsConsistent engine.book
    → IsConsistent (step m engine).0.book
unfolding step
step-IsConsistent m engine c =
    go (apply_message m engine.book) (apply_message-IsConsistent m engine.book c)
  where
    go : (r : OrderBook × Result Ok) → IsConsistent r.0 → IsConsistent (stepped engine r).0.book
    go (b, ok v) h = h
    go (b, err e) h = h

replay_messages-IsConsistent :
    (messages : List ItchMessage) (engine : ItchReplayEngine)
    → IsConsistent engine.book
    → IsConsistent (replay_messages messages engine).0.book
unfolding replay_messages
replay_messages-IsConsistent [] engine c = c
replay_messages-IsConsistent (m ∷ messages) engine c =
    go (replay_messages-IsConsistent messages) (step m engine) (step-IsConsistent m engine c)
  where
    go :
        ((engine : ItchReplayEngine)
          → IsConsistent engine.book
          → IsConsistent (replay_messages messages engine).0.book)
        → (r : ItchReplayEngine × Result BboQuote) → IsConsistent r.0.book
        → IsConsistent
            (and_then r
              (λ engine' e. (engine', err (failed_with (error_message e))))
              (λ engine'. replay_messages messages engine')).0.book
    go rest (engine', ok q) h = rest engine' h
    go rest (engine', err e) h = h

prepended-eq-ok :
    (m : ItchMessage) (o : Option (Result (List ItchMessage))) {messages : List ItchMessage}
    → prepended m o ≡ some (ok messages)
    → (rest : List ItchMessage) × (o ≡ some (ok rest)) × (messages ≡ m ∷ rest)
prepended-eq-ok m none e = cc
prepended-eq-ok m (some (ok rest)) e = (rest, refl, cc)
prepended-eq-ok m (some (err f)) e = cc

and_then-some {ℓ} :
    {A : Type ℓ} (r : ItchReplayEngine × Result BboQuote) (failed : ItchReplayEngine → Error → A)
    (next : ItchReplayEngine → Option A) (next' : ItchReplayEngine → A)
    → ((engine : ItchReplayEngine) → next engine ≡ some (next' engine))
    → and_then r (λ engine e. some (failed engine e)) next ≡ some (and_then r failed next')
and_then-some (engine, ok quote) failed next next' h = h engine
and_then-some (engine, err e) failed next next' h = refl

-- What follows one step of a replay ends, if the replay from the engine that the step leaves does.
ended :
    (s : ItchReplayEngine × Result BboQuote)
    (next : ItchReplayEngine → Option (ItchReplayEngine × Result Ok))
    → ((engine : ItchReplayEngine)
        → (r : ItchReplayEngine × Result Ok) × (next engine ≡ some r)
          × (IsConsistent engine.book → IsConsistent r.0.book))
    → (r : ItchReplayEngine × Result Ok) × (and_then s
          (λ engine e. some (engine, err (failed_with (error_message e))))
          next
        ≡ some r)
      × (IsConsistent s.0.book → IsConsistent r.0.book)
ended (engine, ok quote) next h = h engine
ended (engine, err e) next h = ((engine, err (failed_with (error_message e))), refl, (λ c. c))

module _ (buffer : List ℕ) where
  -- The last round of the replay, and a round with bytes left.
  round_last :
      (fuel cursor : ℕ) (engine : ItchReplayEngine)
      → drop cursor buffer ≡ []
      → replay_stream_loop (suc fuel) (source_at buffer cursor) engine ≡ some (engine, ok ok_value)
  unfolding replay_stream_loop
  round_last fuel cursor engine e = rw (next_message_lem buffer cursor, e) refl

  round :
      (fuel cursor b : ℕ) (bytes : List ℕ) (engine : ItchReplayEngine)
      → drop cursor buffer ≡ b ∷ bytes
      → replay_stream_loop (suc fuel) (source_at buffer cursor) engine
        ≡ with_next
            (advanced (source_at buffer cursor) (parse_message (b ∷ bytes)))
            engine
            (replay_stream_loop fuel)
  unfolding replay_stream_loop
  round fuel cursor b bytes engine e =
      let more : (suc (length bytes) == 0) ≡ false = ground arith in
      rw (next_message_lem buffer cursor, e, more) refl

  replay_parsed :
      (fuel cursor : ℕ) (bytes : List ℕ) (messages : List ItchMessage) (engine : ItchReplayEngine)
      → drop cursor buffer ≡ bytes
      → parse_stream_loop fuel bytes ≡ some (ok messages)
      → replay_stream_loop (suc fuel) (source_at buffer cursor) engine
        ≡ some (replay_messages messages engine)
  unfolding parse_stream_loop replay_messages
  replay_parsed fuel cursor [] messages engine e p =
      let same : messages ≡ [] = cc in rw (round_last fuel cursor engine e, same) refl
  replay_parsed zero cursor (b ∷ bytes) messages engine e p = cc
  replay_parsed (suc fuel) cursor (b ∷ bytes) messages engine e p =
      go
        (λ c rest engine'.
          replay_parsed fuel (cursor + c) (drop c (b ∷ bytes)) rest engine'
            (sym (drop-drop cursor c buffer) ∙ ap (drop c) e))
        (parse_message (b ∷ bytes)) refl
    where
      go :
          ((c : ℕ) (rest : List ItchMessage) (engine' : ItchReplayEngine)
            → parse_stream_loop fuel (drop c (b ∷ bytes)) ≡ some (ok rest)
            → replay_stream_loop (suc fuel) (source_at buffer (cursor + c)) engine'
              ≡ some (replay_messages rest engine'))
          → (r : Result (ItchMessage × ℕ)) → parse_message (b ∷ bytes) ≡ r
          → replay_stream_loop (suc (suc fuel)) (source_at buffer cursor) engine
            ≡ some (replay_messages messages engine)
      go next (err f) q = cc (rw (q, parse_stream_loop) at p)
      go next (ok (m, c)) q =
          let (rest, parsed, same) = prepended-eq-ok m _ (rw (q, parse_stream_loop) at p) in
          rw (round (suc fuel) cursor b bytes engine e, q, same)
            (and_then-some (step m engine) _ _ _ (λ engine'. next c rest engine' parsed))

  replay_ends :
      (fuel cursor : ℕ) (bytes : List ℕ) (engine : ItchReplayEngine)
      → drop cursor buffer ≡ bytes
      → length bytes < fuel
      → (r : ItchReplayEngine × Result Ok) × (replay_stream_loop fuel
            (source_at buffer cursor)
            engine
          ≡ some r)
        × (IsConsistent engine.book → IsConsistent r.0.book)
  replay_ends zero cursor bytes engine e h = absurd (omega arith)
  replay_ends (suc fuel) cursor [] engine e h =
      ((engine, ok ok_value), round_last fuel cursor engine e, (λ c. c))
  replay_ends (suc fuel) cursor (b ∷ bytes) engine e h =
      go (λ c. replay_ends fuel (cursor + c) (drop c (b ∷ bytes))) (parse_message (b ∷ bytes)) refl
    where
      go :
          ((c : ℕ) (engine' : ItchReplayEngine)
            → drop (cursor + c) buffer ≡ drop c (b ∷ bytes)
            → length (drop c (b ∷ bytes)) < fuel
            → (r : ItchReplayEngine × Result Ok) × (replay_stream_loop fuel
                  (source_at buffer (cursor + c))
                  engine'
                ≡ some r)
              × (IsConsistent engine'.book → IsConsistent r.0.book))
          → (p : Result (ItchMessage × ℕ)) → parse_message (b ∷ bytes) ≡ p
          → (r : ItchReplayEngine × Result Ok) × (replay_stream_loop
                (suc fuel)
                (source_at buffer cursor)
                engine
              ≡ some r)
            × (IsConsistent engine.book → IsConsistent r.0.book)
      go next (err f) q = (
        (engine, err (failed_with (error_message (failed_with (error_message f))))),
        rw (round fuel cursor b bytes engine e, q) refl,
        (λ c. c),
      )
      go next (ok (m, c)) q =
          let taken = parse_message_consumed (b ∷ bytes) q in
          let left : length (drop c (b ∷ bytes)) < fuel =
            omega (arith, length-drop c (b ∷ bytes), taken) in
          let (r, f, k) =
            ended (step m engine) (replay_stream_loop fuel (source_at buffer (cursor + c)))
              (λ engine'. next c engine' (sym (drop-drop cursor c buffer) ∙ ap (drop c) e) left) in
          (r, rw (round fuel cursor b bytes engine e, q) f, (λ i. k (step-IsConsistent m engine i)))

-- Where the whole stream parses, replaying it through the packet source is parsing it and replaying
-- its messages.
pub replay_stream-parse_stream :
    (stream : List ℕ) (messages : List ItchMessage) (engine : ItchReplayEngine)
    → parse_stream stream ≡ some (ok messages)
    → replay_stream stream engine ≡ some (replay_messages messages engine)
unfolding replay_stream parse_stream
replay_stream-parse_stream stream messages engine p =
    replay_parsed stream (length stream) 0 stream messages engine refl p

-- The replay of any bytes ends, whether they parse and apply or not, and it leaves a consistent book
-- consistent.
pub replay_stream-IsConsistent :
    (stream : List ℕ) (engine : ItchReplayEngine)
    → IsConsistent engine.book
    → (r : ItchReplayEngine × Result Ok) × (replay_stream stream engine ≡ some r)
      × IsConsistent r.0.book
unfolding replay_stream
replay_stream-IsConsistent stream engine c =
    let (r, e, k) = replay_ends stream (suc (length stream)) 0 stream engine refl (omega arith) in
    (r, e, k c)

-- Where both sides of the book have a best price, positive and of 64 bits, the reference price taken
-- from it exists: it is the floor of the mean of the two, in whichever order they stand, with the
-- time of the book and what the caller passed.
pub snapshot_midpoint :
    (engine : ItchReplayEngine) (oracle_id : ℕ) (inst : InstrumentId) (sequence : ℕ)
    (bid ask : Price)
    → best_bid engine.book ≡ some bid
    → best_ask engine.book ≡ some ask
    → (0 < bid) × (bid < u64_mod)
    → (0 < ask) × (ask < u64_mod)
    → current_reference_price_snapshot engine oracle_id inst sequence
      ≡ some (record {
        oracle_id = oracle_id;
        instrument_id = inst;
        reference_price = (bid + ask) / 2;
        timestamp_nanos = engine.book.last_timestamp_nanos;
        sequence = sequence;
      })
unfolding current_reference_price_snapshot mid_price add64 sub64 Price.create
snapshot_midpoint engine oracle_id inst sequence bid ask p q h k = ground arith
