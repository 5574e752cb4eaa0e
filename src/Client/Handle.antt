-- ===== src/Client/Handle.antt =====
-- src/client.rs: the methods of `Client`, from the program's side of its channels.
use psrt.Prelude.{
  ℕ, ◌+◌, ◌≤◌, Bool, true, false, Option, none, List, [], ◌∷◌, ◌++◌, leb, if◌then◌else◌, arith,
}
use psrt.Prelude.Bytes.{Bytes}
use psrt.Fault.{Error, Result, err, error_internal, error_timeout, text}
use psrt.Exec.{Exec, change, ◌>>◌}
use psrt.Client.Command as Commands
use psrt.Client.Command.{ControlCommand}

-- What happens to the response channel of a command: an answer, or its end without one, each after
-- a time; or nothing.
pub data Answering : Type 0 where
  answers : ℕ → Result (Unit {0}) → Answering
  drops : ℕ → Answering
  keeps : Answering

-- What happens to a command that is put into the control channel: it is taken after a time, or the
-- channel is closed after a time.
pub data Turn : Type 0 where
  takes : ℕ → Answering → Turn
  closes : ℕ → Turn

-- The turns to come are the behaviour of the tasks; `taken` are the commands that got through.
pub record Client : Type 0 where
  pub data_channel : Option ℕ
  pub connected : Bool
  pub timeout : ℕ
  pub now : ℕ
  pub turns : List Turn
  pub taken : List ControlCommand
  pub aborted : Bool

-- `err_comm!` and what `time::timeout` gives.
abbrev pub err_comm : Error
err_comm = error_internal (text "Communication lost" ∷ [])

abbrev pub elapsed : Error
elapsed = error_timeout (text "deadline has elapsed" ∷ [])

abbrev pub after : ℕ → Client → Client
after d c = record c { now = c.now + d }

-- `time::timeout(timeout, rx).await?.unwrap_or_else(...)`.
abbrev pub await_answer : Answering → Exec Client (Unit {0})
await_answer (answers d r) c =
    if leb d c.timeout then (r, after d c) else (err elapsed, after c.timeout c)
await_answer (drops d) c =
    if leb d c.timeout then (err err_comm, after d c) else (err elapsed, after c.timeout c)
await_answer keeps c = (err elapsed, after c.timeout c)

abbrev pub put : ControlCommand → List Turn → Exec Client (Unit {0})
put cmd [] c = (err err_comm, c)
put cmd (closes d ∷ turns) c =
    if leb d c.timeout
    then (err err_comm, record (after d c) { turns = turns })
    else (err elapsed, record (after c.timeout c) { turns = turns })
put cmd (takes d answering ∷ turns) c =
    if leb d c.timeout
    then await_answer answering (record (after d c) { turns = turns; taken = c.taken ++ cmd ∷ [] })
    else (err elapsed, record (after c.timeout c) { turns = turns })

-- `exec_command!`.
unfoldable pub exec_command : ControlCommand → Exec Client (Unit {0})
exec_command cmd c = put cmd c.turns c

abbrev pub is_connected : Client → Bool
is_connected c = c.connected

abbrev pub take_data_channel : Client → Option ℕ × Client
take_data_channel c = (c.data_channel, record c { data_channel = none })

abbrev pub subscribe : Bytes → Exec Client (Unit {0})
subscribe topic = exec_command (Commands.subscribe topic)

abbrev pub unsubscribe : Bytes → Exec Client (Unit {0})
unsubscribe topic = exec_command (Commands.unsubscribe topic)

abbrev pub subscribe_bulk : List Bytes → Exec Client (Unit {0})
subscribe_bulk topics = exec_command (Commands.subscribe_bulk topics)

abbrev pub unsubscribe_bulk : List Bytes → Exec Client (Unit {0})
unsubscribe_bulk topics = exec_command (Commands.unsubscribe_bulk topics)

abbrev pub publish : ℕ → Bytes → Bytes → Exec Client (Unit {0})
publish priority topic message = exec_command (Commands.publish priority topic message)

abbrev pub publish_repl : ℕ → Bytes → Bytes → ℕ → Exec Client (Unit {0})
publish_repl priority topic message timestamp =
    exec_command (Commands.publish_repl priority topic message timestamp)

-- `shutdown`, which dropping the client runs too.
abbrev pub shutdown : Client → Client
shutdown c = record c { aborted = true }

unfoldable pub bye : Exec Client (Unit {0})
unfolding exec_command
bye = do
  exec_command Commands.bye
  change (λ c. (tt {0}, record c { connected = false }))
  change (λ c. (tt {0}, shutdown c))

await_answer_in_time : (a : Answering) (c : Client) → (await_answer a c).1.now ≤ c.now + c.timeout
await_answer_in_time (answers d r) c = ground arith
await_answer_in_time (drops d) c = ground arith
await_answer_in_time keeps c = omega arith

put_in_time :
    (cmd : ControlCommand) (turns : List Turn) (c : Client)
    → (put cmd turns c).1.now ≤ c.now + c.timeout + c.timeout
put_in_time cmd [] c = omega arith
put_in_time cmd (closes d ∷ turns) c = ground arith
put_in_time cmd (takes d a ∷ turns) c = ground (
  arith,
  await_answer_in_time a (record (after d c) { turns = turns; taken = c.taken ++ cmd ∷ [] }),
)

-- A call ends within twice the client's timeout, whatever the tasks of the client do.
pub exec_command_in_time :
    (cmd : ControlCommand) (c : Client) → (exec_command cmd c).1.now ≤ c.now + c.timeout + c.timeout
unfolding exec_command
exec_command_in_time cmd c = put_in_time cmd c.turns c
