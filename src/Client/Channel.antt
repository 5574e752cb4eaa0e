-- ===== src/Client/Channel.antt =====
-- src/client.rs: `Client::run_control_stream`, from the commands of the program to its answers.
use psrt.Prelude.{
  ℕ, ◌-◌, Bool, true, false, ◌&&◌, Option, none, some, List, [], ◌∷◌, ◌++◌, ltb, ◌==◌,
  if◌then◌else◌, length, max,
}
use psrt.Prelude.Bytes.{Bytes}
use psrt.Prelude.Words.{le32, le64}
use psrt.Wire.{response_ok, response_ok_waiting, response_not_required, response_err_access, u32}
use psrt.Fault.{Error, Result, ok, err, error_access, error_io, text, hex, is_io}
use psrt.Exec.{Exec, pure, gets, change, ◌>>=◌, ◌>>◌}
use psrt.Comm.{Stream, reduce_timeout, read_with_timeout, write, write_with_timeout}
use psrt.Control.{first_byte}
use psrt.Client.Command.{
  ControlCommand, nop, subscribe, subscribe_bulk, unsubscribe, unsubscribe_bulk, publish,
  publish_repl, bye, as_bytes,
}

-- A command, and the channel that waits for its answer.
pub record Command : Type 0 where
  pub control_command : ControlCommand
  pub response_channel : Option ℕ

-- The stream, and the answers that were given, oldest first.
pub record ControlStream : Type 0 where
  pub stream : Stream
  pub answers : List (ℕ × Result (Unit {0}))

abbrev pub on_control : {A : Type 0} → Exec Stream A → Exec ControlStream A
on_control m s = let r = m s.stream in (r.0, record s { stream = r.1 })

-- `if let Some(ch) = cmd.response_channel`.
abbrev pub give : Option ℕ → Result (Unit {0}) → ControlStream → ControlStream
give none answer s = s
give (some ch) answer s = record s { answers = s.answers ++ (ch, answer) ∷ [] }

abbrev pub code_error : ℕ → Error
code_error code =
    if code == response_err_access
    then error_access (text "Operation access denied" ∷ [])
    else error_io (text "Server response error " ∷ hex code ∷ [])

-- `handle_err!`: only a refused access lets the loop go on.
abbrev pub handle_err : Option ℕ → ℕ → Exec ControlStream (Unit {0})
handle_err ch code s =
    let e = code_error code in (if is_io e then err e else ok tt, give ch (err e) s)

-- What a response code is to the command.
unfoldable pub settle : Option ℕ → ℕ → Exec ControlStream (Unit {0})
settle ch code s = if code == response_ok then (ok tt, give ch (ok tt) s) else handle_err ch code s

-- `reduce_timeout(timeout, op_start)` at this moment.
abbrev pub time_left : ℕ → ℕ → Exec ControlStream ℕ
time_left timeout op_start = gets (λ s. reduce_timeout timeout op_start s.stream.now)

abbrev pub response_code : ℕ → ℕ → Exec ControlStream ℕ
response_code timeout op_start = do
  wait ← time_left timeout op_start
  buf ← on_control (read_with_timeout 1 wait)
  pure (first_byte buf)

-- `process_reply!`.
abbrev pub process_reply : ℕ → ℕ → Option ℕ → Exec ControlStream (Unit {0})
process_reply timeout op_start ch = do code ← response_code timeout op_start; settle ch code

-- The priority, the time stamp and the length of a message to replicate.
abbrev pub repl_head : ℕ → ℕ → Bytes → Bytes
repl_head priority timestamp message = priority ∷ (le64 timestamp ++ le32 (u32 (length message)))

unfoldable pub replicate_message : ℕ → ℕ → Option ℕ → ℕ → ℕ → Bytes → Exec ControlStream (Unit {0})
unfolding settle le64 le32
replicate_message timeout op_start ch priority timestamp message = do
  wait ← time_left timeout op_start
  on_control (write_with_timeout (repl_head priority timestamp message) wait)
  wait_message ← time_left timeout op_start
  on_control (write_with_timeout message wait_message)
  process_reply timeout op_start ch

-- The answer to the first part of `PublishRepl`.
abbrev pub settle_repl : ℕ → ℕ → Option ℕ → ℕ → ℕ → Bytes → ℕ → Exec ControlStream (Unit {0})
settle_repl timeout op_start ch priority timestamp message code =
    if code == response_ok_waiting
    then replicate_message timeout op_start ch priority timestamp message
    else if code == response_not_required
    then change (λ s. (tt, give ch (ok tt) s))
    else handle_err ch code

-- The `match` on the command.
abbrev pub complete : ℕ → ℕ → Option ℕ → ControlCommand → Exec ControlStream (Unit {0})
complete timeout op_start ch (publish priority topic message) = do
  wait ← time_left timeout op_start
  on_control (write_with_timeout message wait)
  process_reply timeout op_start ch
complete timeout op_start ch (publish_repl priority topic message timestamp) = do
  code ← response_code timeout op_start
  settle_repl timeout op_start ch priority timestamp message code
complete timeout op_start ch nop = process_reply timeout op_start ch
complete timeout op_start ch bye = process_reply timeout op_start ch
complete timeout op_start ch (subscribe topic) = process_reply timeout op_start ch
complete timeout op_start ch (unsubscribe topic) = process_reply timeout op_start ch
complete timeout op_start ch (subscribe_bulk topics) = process_reply timeout op_start ch
complete timeout op_start ch (unsubscribe_bulk topics) = process_reply timeout op_start ch

-- One command, behind the test for a ping that is not due.
unfoldable pub perform : ℕ → Command → Exec ControlStream (Unit {0})
unfolding settle replicate_message as_bytes
perform timeout cmd = do
  op_start ← gets (λ s. s.stream.now)
  on_control (write (as_bytes cmd.control_command))
  complete timeout op_start cmd.response_channel cmd.control_command

abbrev pub is_nop : ControlCommand → Bool
is_nop nop = true
is_nop bye = false
is_nop (subscribe topic) = false
is_nop (unsubscribe topic) = false
is_nop (subscribe_bulk topics) = false
is_nop (unsubscribe_bulk topics) = false
is_nop (publish priority topic message) = false
is_nop (publish_repl priority topic message timestamp) = false

abbrev pub go_on :
    Result (Unit {0})
    → Result (Unit {0}) × ControlStream
    → ControlStream
    → Result (Unit {0}) × ControlStream
go_on (ok u) rest s = rest
go_on (err e) rest s = (err e, s)

-- `rx.recv()`: the command is there at time `t`.
abbrev pub receive : ℕ → ControlStream → ControlStream
receive t s = record s { stream = record s.stream { now = max s.stream.now t } }

-- The loop over the commands to come, each with its time, up to the close of the queue. `op_start`
-- is the time of the last command.
unfoldable pub command_loop : ℕ → ℕ → ℕ → List (ℕ × Command) → Exec ControlStream (Unit {0})
unfolding perform
command_loop beacon_interval timeout op_start [] s = (ok tt, s)
command_loop beacon_interval timeout op_start ((t, cmd) ∷ queue) s =
    let s0 = receive t s in
    let skipped = command_loop beacon_interval timeout op_start queue s0 in
    let done = perform timeout cmd s0 in
    let rest = command_loop beacon_interval timeout s0.stream.now queue done.1 in
    if is_nop cmd.control_command && ltb (s0.stream.now - op_start) beacon_interval
    then skipped
    else go_on done.0 rest done.1

unfoldable pub run_control_stream : ℕ → ℕ → List (ℕ × Command) → Exec ControlStream (Unit {0})
unfolding command_loop
run_control_stream beacon_interval timeout queue s =
    command_loop beacon_interval timeout s.stream.now queue s
