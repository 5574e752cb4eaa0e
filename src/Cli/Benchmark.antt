-- ===== src/Cli/Benchmark.antt =====
-- src/cli.rs: the workers of the benchmark and what each of them calls. The tasks of one worker share
-- no state with those of another but the server, and the task that reads messages only reads.
use psrt.Prelude.{
  ℕ, zero, suc, ◌/◌, Bool, true, false, ◌&&◌, Option, none, some, List, [], ◌∷◌, ◌++◌,
}
use psrt.Prelude.Bytes.{Bytes, codes}
use psrt.Fault.{Result}
use psrt.Wire.{default_priority}
use psrt.Exec.{Exec, pure, ◌>>◌}
use psrt.Client.Handle as Client
use psrt.Client.Handle.{Client}
use psrt.Cli.{counting}

pub record BenchmarkWorker : Type 0 where
  pub id : Bytes
  pub client : Client
  pub r_client : Option Client

abbrev pub is_connected : BenchmarkWorker → Bool
is_connected w = both w.r_client
  where
    both : Option Client → Bool
    both none = Client.is_connected w.client
    both (some r) = Client.is_connected r && Client.is_connected w.client

abbrev moved : Result (Unit {0}) × Client → BenchmarkWorker → Result (Unit {0}) × BenchmarkWorker
moved (r, client) w = (r, record w { client = client })

abbrev moved_reader :
    Result (Unit {0}) × Client → BenchmarkWorker → Result (Unit {0}) × BenchmarkWorker
moved_reader (r, client) w = (r, record w { r_client = some client })

abbrev by_client : Exec Client (Unit {0}) → Exec BenchmarkWorker (Unit {0})
by_client m w = moved (m w.client) w

-- By the client of the other node; `otherwise` where there is none.
abbrev by_reader :
    Option Client
    → Exec Client (Unit {0})
    → Exec BenchmarkWorker (Unit {0})
    → Exec BenchmarkWorker (Unit {0})
by_reader none m otherwise w = otherwise w
by_reader (some r) m otherwise w = moved_reader (m r) w

unfoldable pub bye : Exec BenchmarkWorker (Unit {0})
bye = do by_client Client.bye; λ w. by_reader w.r_client Client.bye (pure tt) w

abbrev pub test_topic : BenchmarkWorker → Bytes → Bytes
test_topic w name = codes "benchmark/" ++ (w.id ++ (codes "/test/" ++ name))

-- `benchmark_message`, for one worker: the subscription, the messages, and the end of it.
unfoldable pub subscribe_test : Bool → Bytes → Exec BenchmarkWorker (Unit {0})
subscribe_test false topic = pure tt
subscribe_test true topic =
    λ w. by_reader w.r_client (Client.subscribe topic) (by_client (Client.subscribe topic)) w

unfoldable pub publish_tests : ℕ → Bytes → Bytes → Exec BenchmarkWorker (Unit {0})
publish_tests zero topic message = pure tt
publish_tests (suc iterations) topic message = do
  by_client (Client.publish default_priority topic message)
  publish_tests iterations topic message

unfoldable pub benchmark_message : Bytes → Bytes → ℕ → Bool → Exec BenchmarkWorker (Unit {0})
unfolding subscribe_test publish_tests
benchmark_message name message iterations wait_read w = run w
  where
    run : Exec BenchmarkWorker (Unit {0})
    run = do
      subscribe_test wait_read (test_topic w name)
      publish_tests iterations (test_topic w name) message
      by_client (Client.unsubscribe (test_topic w name))

pub record MessageTest : Type 0 where
  pub name : Bytes
  pub data_bytes : Bytes
  pub iterations : ℕ

-- `byte_unit` gives the size that a name stands for.
module _ (bytes_of : Bytes → Option ℕ) where
  abbrev sized : Bytes → ℕ → Option ℕ → Option MessageTest
  sized name iterations none = none
  sized name iterations (some size) =
      some (record { name = name; data_bytes = counting 0 size; iterations = iterations })

  unfoldable pub new_test : Bytes → ℕ → Option MessageTest
  unfolding counting
  new_test name iterations = sized name iterations (bytes_of name)

  unfoldable pub message_tests : ℕ → List (Option MessageTest)
  unfolding new_test
  message_tests iterations =
      new_test (codes "10b") iterations
      ∷ new_test (codes "1kb") iterations
      ∷ new_test (codes "10kb") iterations
      ∷ new_test (codes "100kb") (iterations / 10)
      ∷ new_test (codes "1mb") (iterations / 100)
      ∷ []
