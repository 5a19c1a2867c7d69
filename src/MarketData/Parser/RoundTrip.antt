-- ===== src/MarketData/Parser/RoundTrip.antt =====
-- Frames and streams are parsed back, and the parser's loop always has fuel enough.
use fair_cross.Prelude.{
  ℕ, zero, suc, ◌+◌, ◌*◌, ◌/◌, ◌%◌, ◌<◌, ◌≤◌, ◌≡◌, refl, List, [], ◌∷◌, ◌++◌, length, drop,
  length-append, length-drop, take-append, drop-append, Option, some, All, arith,
}
use fair_cross.Domain.Error.{Result, ok, err, converted}
use fair_cross.MarketData.Messages.{ItchMessage}
use fair_cross.MarketData.Parser.{
  parse_message, parse_stream_loop, parse_stream, read_u16_be, prepended,
}
use fair_cross.MarketData.Parser.Wire.{payload_of, frame_of, stream_of, FitsWire}
use fair_cross.MarketData.Parser.Reads.{parse_payload-payload_of, length-payload_of}

-- A frame is parsed back to its message, whatever follows it, and is consumed whole.
pub parse_message-frame_of :
    (m : ItchMessage) (rest : List ℕ)
    → FitsWire m
    → parse_message (frame_of m ++ rest) ≡ ok (m, length (frame_of m))
unfolding parse_message read_u16_be
parse_message-frame_of m rest h =
    let n = length (payload_of m) in
    let size : (n / 256 % 256 * 256 + n % 256) % 65536 ≡ n = omega (arith, length-payload_of m) in
    rw (size, take-append (payload_of m) rest, parse_payload-payload_of m h)
      (ground (arith, length-append (payload_of m) rest, length-payload_of m))

-- A message that is parsed consumes at least two bytes, and no more than there are.
pub parse_message_consumed :
    (slice : List ℕ) {m : ItchMessage} {consumed : ℕ}
    → parse_message slice ≡ ok (m, consumed)
    → (0 < consumed) × (consumed ≤ length slice)
unfolding parse_message
parse_message_consumed slice e = ground arith

stream_of_loop :
    (messages : List ItchMessage) (fuel : ℕ)
    → All FitsWire messages
    → length (stream_of messages) ≤ fuel
    → parse_stream_loop fuel (stream_of messages) ≡ some (ok messages)
unfolding parse_stream_loop
stream_of_loop [] fuel h enough = refl
stream_of_loop (m ∷ messages) zero h enough = absurd (omega arith)
stream_of_loop (m ∷ messages) (suc fuel) h enough =
    let rest = stream_of messages in
    let size = length-append (frame_of m) rest in
    rw
      (
        parse_message-frame_of m rest h.0,
        parse_stream_loop,
        drop-append (payload_of m) rest,
        stream_of_loop messages fuel h.1 (omega (arith, size)),
      )
      refl

-- The stream of the frames of messages is parsed back to these messages.
pub parse_stream-stream_of :
    (messages : List ItchMessage)
    → All FitsWire messages
    → parse_stream (stream_of messages) ≡ some (ok messages)
unfolding parse_stream
parse_stream-stream_of messages h =
    stream_of_loop messages (length (stream_of messages)) h (omega arith)

prepended_total :
    (m : ItchMessage) (o : Option (Result (List ItchMessage))) (r : Result (List ItchMessage))
    → o ≡ some r
    → (r' : Result (List ItchMessage)) × (prepended m o ≡ some r')
prepended_total m o (ok messages) e = (ok (m ∷ messages), rw e refl)
prepended_total m o (err f) e = (err f, rw e refl)

loop_total :
    (fuel : ℕ) (stream : List ℕ)
    → length stream ≤ fuel
    → (r : Result (List ItchMessage)) × (parse_stream_loop fuel stream ≡ some r)
unfolding parse_stream_loop
loop_total fuel [] h = (ok [], refl)
loop_total zero (b ∷ bytes) h = absurd (omega arith)
loop_total (suc fuel) (b ∷ bytes) h = go (loop_total fuel) (parse_message (b ∷ bytes)) refl
  where
    go :
        ((s : List ℕ)
          → length s ≤ fuel
          → (r : Result (List ItchMessage)) × (parse_stream_loop fuel s ≡ some r))
        → (p : Result (ItchMessage × ℕ)) → parse_message (b ∷ bytes) ≡ p
        → (r : Result (List ItchMessage)) × (parse_stream_loop (suc fuel) (b ∷ bytes) ≡ some r)
    go rest (err f) e = (converted (err f), rw (e, parse_stream_loop))
    go rest (ok (m, consumed)) e =
        let taken = parse_message_consumed (b ∷ bytes) e in
        let (r, f) =
          rest (drop consumed (b ∷ bytes))
            (omega (arith, length-drop consumed (b ∷ bytes), taken)) in
        let (r', f') = prepended_total m _ r f in (r', rw (e, parse_stream_loop) f')

-- On every stream of bytes the parser ends, with messages or an error.
pub parse_stream_total :
    (stream : List ℕ) → (r : Result (List ItchMessage)) × (parse_stream stream ≡ some r)
unfolding parse_stream
parse_stream_total stream = loop_total (length stream) stream (omega arith)
