-- ===== src/Tests/Commands.antt =====
-- Commands of a program, and the answers that it gets.
use psrt.Prelude.{ℕ, ◌≡◌, refl, none, some, List, [], ◌∷◌, ◌++◌, inl, inr}
use psrt.Prelude.Bytes.{codes}
use psrt.Wire.{response_ok, response_err_access}
use psrt.Fault.{ok}
use psrt.Exec.{◌>>=◌}
use psrt.Comm.{reduce_timeout, read_with_timeout, write, write_with_timeout}
use psrt.Comm.Delivery.{at_hand}
use psrt.Client.Command.{ControlCommand, nop, subscribe, publish}
use psrt.Client.Channel.{Command, ControlStream, run_control_stream}
use psrt.Client.Answers.{answered, expecting, run_control_stream-answers}
use psrt.Tests.Sessions.{stream_of}

-- The server will answer twice: done, and not allowed.
abbrev asking : ControlStream
asking = record {
  stream = stream_of (at_hand (response_ok ∷ response_err_access ∷ []) []);
  answers = [];
}

abbrev hot_command : ControlCommand
hot_command = publish 7 (codes "a/b") (codes "hot")

-- A ping that is not due stands between two commands.
abbrev program : List (ℕ × Command)
program =
    (101, record { control_command = hot_command; response_channel = some 4 })
    ∷ (102, record { control_command = nop; response_channel = none })
    ∷ (103, record { control_command = subscribe (codes "#"); response_channel = some 5 })
    ∷ []

program_ends : (run_control_stream 5 10 program asking).0 ≡ ok tt
unfolding run_control_stream ◌>>=◌ write write_with_timeout read_with_timeout reduce_timeout
program_ends = refl

run_control_stream-answers_example :
    answered (run_control_stream 5 10 program asking).1.answers ≡ [] ++ expecting program
run_control_stream-answers_example =
    run_control_stream-answers 5 10 program asking (inl refl, (inr refl, (inl refl, tt)))
      program_ends
