-- ===== src/Client/Data.antt =====
-- `Client::run_data_stream`.
use psrt.Prelude.{ℕ, zero, suc, Bool, Option, none, some, List, [], ◌∷◌, ◌++◌, ◌==◌, if◌then◌else◌}
use psrt.Wire.{op_nop, response_ok}
use psrt.Fault.{Error, Result, ok, err, error_internal, error_invalid_data, text}
use psrt.Exec.{Exec, pure, raise, gets, change, ◌>>=◌, ◌>>◌}
use psrt.Comm.{Stream, reduce_timeout, read, read_with_timeout, read_frame_with_timeout}
use psrt.Client.Command.{ControlCommand, bye}
use psrt.Client.Message.{Message, from_buf}
use psrt.Control.{first_byte}

-- The data stream, the messages handed to the program, oldest first, whether it still takes them,
-- and the commands put into the control channel.
pub record DataStream : Type 0 where
  pub stream : Stream
  pub delivered : List Message
  pub is_open : Bool
  pub commands : List ControlCommand

abbrev pub on_data : {A : Type 0} → Exec Stream A → Exec DataStream A
on_data m s = let r = m s.stream in (r.0, record s { stream = r.1 })

-- `tx.send(v)`, and the error if the program dropped its end.
abbrev pub deliver : Result Message → Exec DataStream (Unit {0})
deliver (err e) s = (ok tt, s)
deliver (ok m) s =
    if s.is_open
    then (ok tt, record s { delivered = s.delivered ++ m ∷ [] })
    else (err (error_internal (text "Communication lost" ∷ [])), s)

-- The reads behind `RESPONSE_OK`: the priority and the frame.
unfoldable pub message_round : ℕ → Exec DataStream (Unit {0})
message_round op_start = do
  wait ← gets (λ s. reduce_timeout s.stream.timeout op_start s.stream.now)
  prio ← on_data (read_with_timeout 1 wait)
  wait_frame ← gets (λ s. reduce_timeout s.stream.timeout op_start s.stream.now)
  frame ← on_data (read_frame_with_timeout none wait_frame)
  deliver (from_buf frame (first_byte prio))

-- The `match` on the first byte.
unfoldable pub react : ℕ → ℕ → Exec DataStream (Unit {0})
unfolding message_round
react op_start head =
    if head == op_nop then pure tt else if head == response_ok then message_round op_start else (do
      change (λ s. (tt {0}, record s { commands = s.commands ++ bye ∷ [] }))
      raise (error_invalid_data (text "Invalid frame from the data channel" ∷ [])))

-- One round of the loop.
unfoldable pub data_round : Exec DataStream (Unit {0})
unfolding react
data_round = do
  op_start ← gets (λ s. s.stream.now)
  head ← on_data (read 1)
  react op_start (first_byte head)

-- The loop, which only an error ends; `none` if the rounds do not suffice.
unfoldable pub run_data_stream : ℕ → DataStream → Option (Error × DataStream)
unfolding data_round
run_data_stream zero s = none
run_data_stream (suc fuel) s =
    let r = data_round s in elim r.0 [ err e ↦ some (e, r.1) | ok _ ↦ run_data_stream fuel r.1 ]
