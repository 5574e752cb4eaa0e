-- ===== src/Tests/Terminals.antt =====
-- The command line client: the tables of `--top`, and the messages that are made up.
use psrt.Prelude.{◌≡◌, refl, true, ℕ, false, none, some, List, [], ◌∷◌, ◌++◌}
use psrt.Prelude.Bytes.{Bytes, codes, beq}
use psrt.Prelude.Split.{split_on}
use psrt.Client.Config.{seconds}
use psrt.Client.Message.{Message}
use psrt.Cli.{parse_topics, message_body, TopicStat, Event, start, on_message, run}
use mathlib.Core.Option
use psrt.Fault.{ok}
use psrt.Exec.{◌>>=◌}
use psrt.Client.Command as Commands
use psrt.Client.Handle.{Client, takes, answers, exec_command}
use psrt.Cli.Benchmark.{BenchmarkWorker, benchmark_message}
use psrt.Cli.Tallies.{messages}
use psrt.Cli.Tables.{Tells, on_message-Tells}

abbrev message : Bytes → Bytes → Message
message topic body = record { priority = 127; topic = topic; body = body }

-- Two seconds pass between the messages, on a terminal with room for two rows.
abbrev event : Bytes → Bytes → ℕ → Event
event topic body second = record {
  message = message topic body;
  checked_at = seconds second;
  drawn_at = seconds second;
  sort_mode = false;
  height = 6;
}

abbrev events : List Event
events =
    event (codes "b") (codes "22") 2
    ∷ event (codes "a") (codes "4444") 4
    ∷ event (codes "c") [] 6
    ∷ event (codes "c") (codes "1") 8
    ∷ []

abbrev last_event : Event
last_event = event (codes "b") (codes "333") 10

-- `a` has the fewest messages.
abbrev table : List TopicStat
table =
    record { topic = codes "b"; count = 2; bytes = 5 }
    ∷ record { topic = codes "c"; count = 2; bytes = 1 }
    ∷ []

drawn : (on_message last_event (run events start)).tables ≡ table ∷ (run events start).tables
unfolding on_message run
drawn = refl

on_message-Tells_example :
    (shown : List TopicStat) × ((on_message last_event (run events start)).tables
      ≡ shown ∷ (run events start).tables)
    × Tells false 6 (messages events ++ last_event.message ∷ []) shown
unfolding run
on_message-Tells_example = on_message-Tells events last_event refl

three_bytes : message_body (λ s. some 3) (codes "==3b") ≡ some (0 ∷ 1 ∷ 2 ∷ [])
unfolding message_body beq
three_bytes = refl

as_given : message_body (λ s. none) (codes "on") ≡ some (codes "on")
unfolding message_body beq
as_given = refl

two_topics : parse_topics (some (codes "a,b/#")) ≡ some (codes "a" ∷ codes "b/#" ∷ [])
unfolding split_on
two_topics = refl

-- The reader of another node keeps its subscription; the client that publishes ends one that it does
-- not have.
abbrev idle : Client
idle = record {
  data_channel = none;
  connected = true;
  timeout = seconds 5;
  now = 0;
  turns = takes 1 (answers 1 (ok tt)) ∷ takes 1 (answers 1 (ok tt)) ∷ [];
  taken = [];
  aborted = false;
}

abbrev worker : BenchmarkWorker
worker = record { id = codes "7/0"; client = idle; r_client = some idle }

abbrev after_test : BenchmarkWorker
after_test = (benchmark_message (codes "10b") (codes "x") 1 true worker).1

abbrev topic_7 : Bytes
topic_7 = codes "benchmark/7/0/test/10b"

client_calls :
    after_test.client.taken
    ≡ Commands.publish 127 topic_7 (codes "x") ∷ Commands.unsubscribe topic_7 ∷ []
unfolding benchmark_message ◌>>=◌ exec_command
client_calls = refl

reader_calls :
    Option.map (λ r. r.taken) after_test.r_client ≡ some (Commands.subscribe topic_7 ∷ [])
unfolding benchmark_message ◌>>=◌ exec_command
reader_calls = refl
