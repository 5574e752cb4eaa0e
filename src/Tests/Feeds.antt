-- ===== src/Tests/Feeds.antt =====
-- Two messages and a beacon on the way from a queue to a client.
use psrt.Prelude.{ℕ, ◌+◌, ◌≤◌, ◌≡◌, refl, true, none, some, [], ◌∷◌, ◌++◌, arith}
use psrt.Prelude.Bytes.{Bytes, codes, has}
use psrt.Prelude.Utf8.{is_utf8}
use psrt.Wire.{op_nop, response_ok}
use psrt.Fault.{Error, ok}
use psrt.Push.{packed_head}
use psrt.Client.Consumes.{run_data_stream_total}
use psrt.Comm.{write, write_with_timeout}
use psrt.Comm.Delivery.{at_hand}
use psrt.PubSub.Store.{MessageFrame}
use psrt.Server.{Replicated, on_stream}
use psrt.Connection.Sending.{Feed, fed, sent_bytes, handle_data_stream, handle_data_stream-all}
use psrt.Client.Data.{DataStream, run_data_stream}
use psrt.Client.Feeds.{after_messages, run_data_stream-handle_data_stream}
use psrt.Tests.Sessions.{session_of, stream_of}

abbrev first : Replicated
first = record { priority = 7; topic = codes "a/b"; message = codes "hot"; timestamp = 5000 }

abbrev second : Replicated
second = record { priority = 9; topic = codes "c"; message = []; timestamp = 5100 }

-- A beacon long after the first message, and one soon after the second.
abbrev feed : Feed
feed = (110, some first) ∷ (170, none) ∷ (180, some second) ∷ (190, none) ∷ []

handle_data_stream-all_example :
    ((handle_data_stream 10 50 (fed feed) (session_of [])).0 ≡ ok tt)
    × ((handle_data_stream 10 50 (fed feed) (session_of [])).1.stream.output
        ≡ [] ++ sent_bytes 50 100 100 feed)
handle_data_stream-all_example = handle_data_stream-all 10 50 feed (session_of []) refl

abbrev head_and : Replicated → Bytes
head_and c = packed_head c.priority c.topic c.message ++ c.message

one_beacon : sent_bytes 50 100 100 feed ≡ head_and first ++ (op_nop ∷ (head_and second ++ []))
unfolding sent_bytes
one_beacon = refl

abbrev beacon : MessageFrame
beacon = record { timestamp = none; frame = op_nop ∷ []; body = none }

-- A beacon is left out if something was sent since half of the client's timeout.
beacon_is_rare :
    (handle_data_stream 10 50 ((140, beacon) ∷ (160, beacon) ∷ []) (session_of [])).1.stream.output
    ≡ op_nop ∷ []
unfolding handle_data_stream on_stream write write_with_timeout
beacon_is_rare = refl

abbrev waiting : DataStream
waiting = record {
  stream = stream_of (
      at_hand (handle_data_stream 10 50 (fed feed) (session_of [])).1.stream.output
        ((200, op_nop) ∷ []));
  delivered = [];
  is_open = true;
  commands = [];
}

run_data_stream-handle_data_stream_example :
    (n : ℕ) × (n ≤ 4)
    × (run_data_stream (n + 5) waiting
        ≡ run_data_stream 5 (after_messages feed ((200, op_nop) ∷ []) waiting))
unfolding has is_utf8
run_data_stream-handle_data_stream_example =
    run_data_stream-handle_data_stream 10 50 feed (session_of []) 5 ((200, op_nop) ∷ []) waiting
      refl refl ((refl, refl, omega arith), (tt, ((refl, refl, omega arith), (tt, tt)))) refl refl

-- Another data stream, with a beacon, an invalid byte and half a message.
abbrev noisy : DataStream
noisy = record waiting {
  stream = stream_of ((150, op_nop) ∷ (160, op_nop) ∷ (170, 77) ∷ (180, response_ok) ∷ []);
}

run_data_stream_total_example : (r : Error × DataStream) × (run_data_stream 5 noisy ≡ some r)
run_data_stream_total_example = run_data_stream_total 5 noisy (omega arith)
