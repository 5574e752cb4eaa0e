-- ===== src/Connection/Sending.antt =====
-- src/server.rs: `handle_data_stream`, from the queue of a data channel to the socket.
use psrt.Prelude.{
  ℕ, ◌+◌, ◌-◌, ◌/◌, ◌^◌, ◌≡◌, refl, sym, ap, ◌∙◌, Option, none, some, List, [], ◌∷◌, ◌++◌,
  append-nil, append_assoc, arith, Bool-cases, inl, inr, ltb, ◌==◌, if◌then◌else◌, length, max,
}
use psrt.Prelude.Bytes.{Bytes}
use psrt.Wire.{op_nop, u32, u64}
use psrt.Fault.{Result, ok, err, is_eof}
use psrt.Exec.{Exec, pure, gets, change, ◌>>=◌, ◌>>◌}
use psrt.Comm.{reduce_timeout, write, write_with_timeout}
use psrt.PubSub.Store.{MessageFrame}
use psrt.Stats.{count_sent_bytes}
use psrt.Server.{Replicated, Session, on_stream, now_ns}
use psrt.Push.{packed_head, message_frame}
use psrt.Control.{first_byte}

-- The length of what is sent behind the frame.
abbrev pub body_length : Option Bytes → ℕ
body_length none = 0
body_length (some body) = length body

-- `((now_ns() - timestamp) / 1000) as u32`, on u64.
unfoldable pub latency_mks : ℕ → ℕ → ℕ
latency_mks now timestamp = u32 (u64 (now + 2 ^ 64 - timestamp) / 1000)

module _ {Map : Type 0} where
  abbrev pub send_body : ℕ → ℕ → Option Bytes → Exec (Session Map) (Unit {0})
  send_body timeout op_start none = pure tt
  send_body timeout op_start (some body) = do
    wait ← gets (λ s. reduce_timeout timeout op_start s.stream.now)
    on_stream (write_with_timeout body wait)

  -- A message that has a time stamp is counted.
  abbrev pub count_sent : MessageFrame → Session Map → Session Map
  count_sent message s = elim message.timestamp [
    | none ↦ s
    | some timestamp ↦ record s {
      counters =
          count_sent_bytes (u64 (length message.frame + body_length message.body))
            (latency_mks (now_ns s) timestamp) s.counters;
    }
  ]

  -- The frame and the body, both within one timeout.
  unfoldable pub send_message : ℕ → MessageFrame → Exec (Session Map) (Unit {0})
  unfolding latency_mks
  send_message timeout message = do
    op_start ← gets (λ s. s.stream.now)
    on_stream (write message.frame)
    send_body timeout op_start message.body
    change (λ s. (tt {0}, count_sent message s))

  -- `eof_is_ok!` on what a message's writes gave: the rest of the loop, or the end of it.
  abbrev pub unless_broken :
      Result (Unit {0})
      → Result (Unit {0}) × Session Map
      → Session Map
      → Result (Unit {0}) × Session Map
  unless_broken (ok u) rest s = rest
  unless_broken (err e) rest s = (if is_eof e then ok tt else err e, s)

  -- `rx.recv()`: the message is there at time `t`.
  abbrev pub receive : ℕ → Session Map → Session Map
  receive t s = record s { stream = record s.stream { now = max s.stream.now t } }

  -- The loop over the messages to come, each with its time, up to the close of the channel.
  -- `last_command` is the time of the last write.
  unfoldable pub send_queue : ℕ → ℕ → ℕ → List (ℕ × MessageFrame) → Exec (Session Map) (Unit {0})
  unfolding send_message
  send_queue timeout beacon_interval last_command [] s = (ok tt, s)
  send_queue timeout beacon_interval last_command ((t, message) ∷ queue) s =
      let s0 = receive t s in
      let skipped = send_queue timeout beacon_interval last_command queue s0 in
      let beacon = on_stream (write (op_nop ∷ [])) s0 in
      let after_beacon = send_queue timeout beacon_interval beacon.1.stream.now queue beacon.1 in
      let sent = send_message timeout message s0 in
      let after_sent = send_queue timeout beacon_interval sent.1.stream.now queue sent.1 in
      if first_byte message.frame == op_nop
      then (if ltb (s0.stream.now - last_command) beacon_interval
          then skipped
          else unless_broken beacon.0 after_beacon beacon.1)
      else unless_broken sent.0 after_sent sent.1

  unfoldable pub handle_data_stream :
      ℕ → ℕ → List (ℕ × MessageFrame) → Exec (Session Map) (Unit {0})
  unfolding send_queue
  handle_data_stream timeout beacon_interval queue s =
      send_queue timeout beacon_interval s.stream.now queue s

-- What comes through a data channel: pushed messages, and `none` for a beacon of the pinger, each
-- with the time when it is received.
abbrev pub Feed : Type 0
Feed = List (ℕ × Option Replicated)

abbrev pub fed_frame : Option Replicated → MessageFrame
fed_frame none = record { timestamp = none; frame = op_nop ∷ []; body = none }
fed_frame (some c) = message_frame c.priority c.topic c.message c.timestamp

abbrev pub fed : Feed → List (ℕ × MessageFrame)
fed [] = []
fed ((t, item) ∷ feed) = (t, fed_frame item) ∷ fed feed

-- The head and the message of each publication, and a zero byte for each beacon that comes when
-- nothing was sent for `beacon_interval`; `last` is when something was sent, and `now` the time.
unfoldable pub sent_bytes : ℕ → ℕ → ℕ → Feed → Bytes
sent_bytes beacon_interval last now [] = []
sent_bytes beacon_interval last now ((t, some c) ∷ feed) =
    (packed_head c.priority c.topic c.message ++ c.message)
    ++ sent_bytes beacon_interval (max now t) (max now t) feed
sent_bytes beacon_interval last now ((t, none) ∷ feed) =
    if ltb (max now t - last) beacon_interval
    then sent_bytes beacon_interval last (max now t) feed
    else op_nop ∷ sent_bytes beacon_interval (max now t) (max now t) feed

module _ {Map : Type 0} where
  send_message-all :
      (timeout : ℕ) (c : Replicated) (s : Session Map)
      → s.stream.takings ≡ []
      → ((send_message timeout (message_frame c.priority c.topic c.message c.timestamp) s).0
          ≡ ok tt)
        × ((send_message timeout
              (message_frame c.priority c.topic c.message c.timestamp)
              s).1.stream
            ≡ record s.stream {
              output = s.stream.output ++ (packed_head c.priority c.topic c.message ++ c.message);
            })
  unfolding send_message ◌>>=◌ on_stream write write_with_timeout
  send_message-all timeout c s h =
      ground (
        arith,
        h,
        append_assoc s.stream.output (packed_head c.priority c.topic c.message) c.message,
      )

  -- The beacon's byte, sent at once.
  send_beacon :
      (s : Session Map)
      → s.stream.takings ≡ []
      → on_stream (write (op_nop ∷ [])) s
        ≡ (ok tt, record s { stream = record s.stream { output = s.stream.output ++ op_nop ∷ [] } })
  unfolding on_stream write write_with_timeout
  send_beacon s h = ground (arith, h)

  -- The loop ends without an error, and sent what the feed tells.
  abbrev Sends : ℕ → ℕ → ℕ → Feed → Session Map → Type 0
  Sends timeout beacon_interval last feed s =
      ((send_queue timeout beacon_interval last (fed feed) s).0 ≡ ok tt)
      × ((send_queue timeout beacon_interval last (fed feed) s).1.stream.output
          ≡ s.stream.output ++ sent_bytes beacon_interval last s.stream.now feed)

  send_queue-all :
      (timeout beacon_interval last : ℕ) (feed : Feed) (s : Session Map)
      → s.stream.takings ≡ []
      → Sends timeout beacon_interval last feed s
  unfolding send_queue sent_bytes packed_head
  send_queue-all timeout beacon_interval last [] s h = (refl, sym (append-nil s.stream.output))
  send_queue-all timeout beacon_interval last ((t, none) ∷ feed) s h =
      let s0 = receive t s in
      let sent : Session Map = record s0 {
        stream = record s0.stream { output = s.stream.output ++ op_nop ∷ [] };
      } in
      let (ends, rest) = send_queue-all timeout beacon_interval s0.stream.now feed sent h in
      elim (Bool-cases (ltb (s0.stream.now - last) beacon_interval)) [
        | inl early ↦
            rw (early, send_queue, sent_bytes)
              (send_queue-all timeout beacon_interval last feed s0 h)
        | inr late ↦
            rw (late, send_queue, sent_bytes, send_beacon s0 h)
              (ends, rest ∙ append_assoc s.stream.output (op_nop ∷ []) _)
      ]
  send_queue-all timeout beacon_interval last ((t, some c) ∷ feed) s h =
      let s0 = receive t s in
      let sent = send_message timeout (message_frame c.priority c.topic c.message c.timestamp) s0 in
      let (fine, out) = send_message-all timeout c s0 h in
      let (ends, rest) =
        send_queue-all timeout beacon_interval sent.1.stream.now feed sent.1
          (ap (λ st. st.takings) out ∙ h) in
      (
        ground (arith, fine, ends),
        ground (
          arith,
          fine,
          rest,
          out,
          append_assoc s.stream.output (packed_head c.priority c.topic c.message ++ c.message)
              (sent_bytes beacon_interval s0.stream.now s0.stream.now feed),
        ),
      )

  -- A data stream whose peer takes what is written at once sends every pushed message of its channel,
  -- in the order of the channel, and one zero byte for each beacon of the pinger that comes when
  -- nothing was sent for the beacon interval, and no other byte; and it ends without an error when
  -- the channel closes.
  pub handle_data_stream-all :
      (timeout beacon_interval : ℕ) (feed : Feed) (s : Session Map)
      → s.stream.takings ≡ []
      → ((handle_data_stream timeout beacon_interval (fed feed) s).0 ≡ ok tt)
        × ((handle_data_stream timeout beacon_interval (fed feed) s).1.stream.output
            ≡ s.stream.output ++ sent_bytes beacon_interval s.stream.now s.stream.now feed)
  unfolding handle_data_stream
  handle_data_stream-all timeout beacon_interval feed s h =
      send_queue-all timeout beacon_interval s.stream.now feed s h
