-- ===== src/Client/Feeds.antt =====
-- What comes through a data channel of the server, messages and beacons, goes through the client's
-- `run_data_stream` to its program.
use psrt.Prelude.{
  ℕ, suc, ◌+◌, ◌-◌, ◌<◌, ◌≤◌, ◌≡◌, refl, ap, ◌∙◌, true, false, Option, none, some, ltb, max,
  Bool-cases, inl, inr, [], ◌∷◌, ◌++◌, append_assoc, arith, length, append-nil, All, List,
}
use psrt.Prelude.Bytes.{Bytes, has}
use psrt.Prelude.Utf8.{is_utf8}
use psrt.Wire.{op_nop}
use psrt.Fault.{ok}
use psrt.Exec.{◌>>=◌}
use psrt.Comm.{Arrivals, read}
use psrt.Comm.Delivery.{at_hand, at_hand-append, read_with_timeout-at_hand}
use psrt.Push.{packed_head}
use psrt.Server.{Session, Replicated}
use psrt.Connection.Sending.{Feed, fed, sent_bytes, handle_data_stream, handle_data_stream-all}
use psrt.Client.Message.{Message}
use psrt.Client.Data.{DataStream, react, data_round, run_data_stream}
use psrt.Client.Deliveries.{data_round-packed_head}

run_data_stream_step :
    (fuel : ℕ) (s s' : DataStream)
    → data_round s ≡ (ok tt, s')
    → run_data_stream (suc fuel) s ≡ run_data_stream fuel s'
unfolding run_data_stream
run_data_stream_step fuel s s' e = ground (arith, e)

-- A beacon makes a round of the client's loop that does nothing.
data_round-beacon :
    (bytes : Bytes) (later : Arrivals) (s : DataStream)
    → s.stream.input ≡ at_hand (op_nop ∷ bytes) later
    → data_round s ≡ (ok tt, record s { stream = record s.stream { input = at_hand bytes later } })
unfolding data_round react read ◌>>=◌
data_round-beacon bytes later s h =
    rw (read_with_timeout-at_hand (op_nop ∷ []) s.stream.timeout (at_hand bytes later) s.stream h)
      refl

-- A message that can be delivered: a UTF-8 topic without zero bytes, and both parts below 4 GiB.
abbrev pub CanDeliver : ℕ × Option Replicated → Type 0
CanDeliver (t, none) = Unit
CanDeliver (t, some c) =
    (has 0 c.topic ≡ false)
    × (is_utf8 c.topic ≡ true)
    × (length (c.topic ++ 0 ∷ c.message) < 4294967296)

abbrev pub messages : Feed → List Message
messages [] = []
messages ((t, none) ∷ feed) = messages feed
messages ((t, some c) ∷ feed) =
    record { priority = c.priority; topic = c.topic; body = c.message } ∷ messages feed

abbrev pub after_messages : Feed → Arrivals → DataStream → DataStream
after_messages feed later s = record s {
  stream = record s.stream { input = later };
  delivered = s.delivered ++ messages feed;
}

-- Rounds of the loop, at most one for each item of the feed, that hand the program its messages.
abbrev Runs : Feed → ℕ → Arrivals → DataStream → Type 0
Runs feed fuel later s =
    (n : ℕ) × (n ≤ length feed)
    × (run_data_stream (n + fuel) s ≡ run_data_stream fuel (after_messages feed later s))

run_data_stream-sent_bytes :
    (beacon_interval last now : ℕ) (feed : Feed) (fuel : ℕ) (later : Arrivals) (s : DataStream)
    → All CanDeliver feed
    → s.is_open ≡ true
    → s.stream.input ≡ at_hand (sent_bytes beacon_interval last now feed) later
    → Runs feed fuel later s
unfolding sent_bytes
run_data_stream-sent_bytes beacon_interval last now [] fuel later s h is_on e =
    let count : 0 + fuel ≡ fuel = omega arith in
    (
      0,
      omega arith,
      rw count (ap (run_data_stream fuel) (ground (arith, e, append-nil s.delivered))),
    )
run_data_stream-sent_bytes beacon_interval last now ((t, none) ∷ feed) fuel later s (h, hs) is_on
      e =
    elim (Bool-cases (ltb (max now t - last) beacon_interval)) [
      | inl early ↦
          let (n, small, runs) =
            run_data_stream-sent_bytes beacon_interval last (max now t) feed fuel later s hs is_on
              (rw (early, sent_bytes) at e) in
          (n, omega (arith, small), runs)
      | inr late ↦
          let bytes = sent_bytes beacon_interval (max now t) (max now t) feed in
          let s' : DataStream = record s {
            stream = record s.stream { input = at_hand bytes later };
          } in
          let (n, small, runs) =
            run_data_stream-sent_bytes beacon_interval (max now t) (max now t) feed fuel later s' hs
              is_on refl in
          let round = data_round-beacon bytes later s (rw (late, sent_bytes) at e) in
          let count : suc n + fuel ≡ suc (n + fuel) = omega arith in
          (
            suc n,
            omega (arith, small),
            rw count (run_data_stream_step (n + fuel) s s' round ∙ runs),
          )
    ]
run_data_stream-sent_bytes beacon_interval last now ((t, some c) ∷ feed) fuel later s
      ((clean, valid, short), hs) is_on e =
    let bytes = packed_head c.priority c.topic c.message ++ c.message in
    let more = sent_bytes beacon_interval (max now t) (max now t) feed in
    let s' = after_messages ((t, some c) ∷ []) (at_hand more later) s in
    let round =
      data_round-packed_head c.priority c.topic c.message (at_hand more later) s clean valid short
        is_on (e ∙ at_hand-append bytes more later) in
    let (n, small, runs) =
      run_data_stream-sent_bytes beacon_interval (max now t) (max now t) feed fuel later s' hs is_on
        refl in
    let count : suc n + fuel ≡ suc (n + fuel) = omega arith in
    (
      suc n,
      omega (arith, small),
      rw count (
          run_data_stream_step (n + fuel) s s' round
          ∙ runs
          ∙ ap (run_data_stream fuel) (
              ground
                (arith, append_assoc s.delivered (messages ((t, some c) ∷ [])) (messages feed)))),
    )

-- What a fresh data stream, whose peer takes what is written at once, sends for the messages and the
-- beacons of its channel, when it is there, makes the client hand its program these messages in this
-- order, in at most one round for each item of the channel, and go on with the bytes behind them, if the topic of
-- each message is UTF-8 without zero bytes and below 4 GiB with the message, and the program still
-- takes messages.
pub run_data_stream-handle_data_stream :
    {Map : Type 0} (timeout beacon_interval : ℕ) (feed : Feed) (sender : Session Map) (fuel : ℕ)
    (later : Arrivals) (s : DataStream)
    → sender.stream.takings ≡ []
    → sender.stream.output ≡ []
    → All CanDeliver feed
    → s.is_open ≡ true
    → s.stream.input
      ≡ at_hand (handle_data_stream timeout beacon_interval (fed feed) sender).1.stream.output later
    → (n : ℕ) × (n ≤ length feed)
      × (run_data_stream (n + fuel) s ≡ run_data_stream fuel (after_messages feed later s))
run_data_stream-handle_data_stream timeout beacon_interval feed sender fuel later s takes_all silent
      h is_on e =
    let now = sender.stream.now in
    let (ends, out) = handle_data_stream-all timeout beacon_interval feed sender takes_all in
    let bytes : (handle_data_stream timeout beacon_interval (fed feed) sender).1.stream.output
        ≡ sent_bytes beacon_interval now now feed =
      out ∙ ap (λ o. o ++ sent_bytes beacon_interval now now feed) silent in
    run_data_stream-sent_bytes beacon_interval now now feed fuel later s h is_on
      (e ∙ ap (λ b. at_hand b later) bytes)
