-- ===== src/Control/Consumes.antt =====
-- Every round of the loop of `process_control` consumes at least the command byte, so the bytes
-- that the client sends bound the number of rounds.
use psrt.Prelude.{ℕ, zero, suc, ◌<◌, ◌≡◌, refl, Option, none, some, List, [], ◌∷◌, arith, length}
use psrt.Prelude.Bytes.{Bytes}
use psrt.Prelude.Split.{position}
use psrt.Fault.{Result, ok, err}
use psrt.Exec.{Exec, change, continue, ◌>>=◌}
use psrt.Exec.Keeps.{Keeps, Keeps-change, keeps_rules}
use psrt.Comm.{Stream, read_with_timeout, read}
use psrt.Comm.Consumes.{Within, stream_rules, read_with_timeout-consumes}
use psrt.Push.{push_to_subscribers}
use psrt.Stats.{count_pub_bytes}
use psrt.PubSub.Submap.{ServerClient, SubMap}
use psrt.Server.{Session, on_stream}
use psrt.Control.{
  Control, Verdict, more, bye, subscribed, unsubscribed, publish_to, publish_prepared,
  publish_named, publish_at, subscribe_topics, unsubscribe_topics, topics_frame,
  op_subscribe_command, op_unsubscribe_command, publish_topic, publish_block, op_publish_command,
  replicate_to, replicate_topic, op_publish_repl_command, command, round, process_control,
  first_byte,
}

module _ {Map : Type 0} where
  -- The bytes that the stream has still to bring are at most `k`.
  abbrev pub Left : ℕ → Session Map → Type 0
  Left k s = Within k s.stream

  pub on_stream-Left :
      {A : Type 0} (k : ℕ) (m : Exec Stream A) → Keeps (Within k) m → Keeps (Left k) (on_stream m)
  unfolding on_stream
  on_stream-Left k m h = record { at = λ s w. h.at s.stream w }

module _ {Map : Type 0} (S : SubMap Map) (ctl : Control) where
  subscribe_topics-stream :
      (topics : List Bytes) (s : Session Map)
      → (subscribe_topics S ctl topics s).1.stream ≡ s.stream
  unfolding subscribe_topics
  subscribe_topics-stream [] s = refl
  subscribe_topics-stream (t ∷ topics) s =
      ground (arith, subscribe_topics-stream topics (subscribed S ctl t s))

  unsubscribe_topics-stream :
      (topics : List Bytes) (s : Session Map)
      → (unsubscribe_topics S ctl topics s).1.stream ≡ s.stream
  unfolding unsubscribe_topics
  unsubscribe_topics-stream [] s = refl
  unsubscribe_topics-stream (t ∷ topics) s =
      ground (arith, unsubscribe_topics-stream topics (unsubscribed S ctl t s))

module _ {Map : Type 0} (S : SubMap Map) (ctl : Control) (k : ℕ) where
  topics_frame-Left : (start : ℕ) → Keeps (Left {Map = Map} k) (topics_frame S ctl start)
  unfolding topics_frame
  topics_frame-Left start = search (keeps_rules, stream_rules, on_stream-Left)

  subscribe_topics-Left :
      (topics : List Bytes) → Keeps (Left k) (change (subscribe_topics S ctl topics))
  subscribe_topics-Left topics =
      Keeps-change (subscribe_topics S ctl topics)
        (λ s h. rw (subscribe_topics-stream S ctl topics s) h)

  unsubscribe_topics-Left :
      (topics : List Bytes) → Keeps (Left k) (change (unsubscribe_topics S ctl topics))
  unsubscribe_topics-Left topics =
      Keeps-change (unsubscribe_topics S ctl topics)
        (λ s h. rw (unsubscribe_topics-stream S ctl topics s) h)

  -- A change that leaves the stream alone.
  change-Left :
      (f : Session Map → Session Map)
      → ((s : Session Map) → (f s).stream ≡ s.stream)
      → Keeps (Left k) (change (λ s. (tt {0}, f s)))
  change-Left f same = Keeps-change (λ s. (tt {0}, f s)) (λ s h. rw (same s) h)

  ruleset left_rules = (
    keeps_rules, stream_rules, on_stream-Left, topics_frame-Left, subscribe_topics-Left,
    unsubscribe_topics-Left,
  )

  op_subscribe_command-Left : (start : ℕ) → Keeps (Left k) (op_subscribe_command S ctl start)
  unfolding op_subscribe_command
  op_subscribe_command-Left start = search left_rules

  op_unsubscribe_command-Left : (start : ℕ) → Keeps (Left k) (op_unsubscribe_command S ctl start)
  unfolding op_unsubscribe_command
  op_unsubscribe_command-Left start = search left_rules

  publish_to-Left :
      (priority timestamp : ℕ) (topic message : Bytes)
      → Keeps (Left k) (change (λ s. (tt {0}, publish_to S ctl priority timestamp topic message s)))
  publish_to-Left priority timestamp topic message =
      change-Left (publish_to S ctl priority timestamp topic message) (λ s. refl)

  publish_topic-Left :
      (priority timestamp : ℕ) (topic message : Bytes)
      → Keeps (Left k) (publish_topic S ctl priority timestamp topic message)
  unfolding publish_topic
  publish_topic-Left priority timestamp topic message = search (left_rules, publish_to-Left) depth 9

  publish_prepared-Left :
      (priority timestamp : ℕ) (message : Bytes) (r : Result Bytes)
      → Keeps (Left k) (publish_prepared S ctl priority timestamp message r)
  unfolding publish_prepared
  publish_prepared-Left priority timestamp message (ok topic) =
      publish_topic-Left priority timestamp topic message
  publish_prepared-Left priority timestamp message (err e) = search left_rules

  publish_block-Left :
      (priority timestamp : ℕ) (frame : Bytes)
      → Keeps (Left k) (publish_block S ctl priority timestamp frame)
  unfolding publish_block publish_at publish_named
  publish_block-Left priority timestamp frame = go (position 0 frame)
    where
      go : (o : Option ℕ) → Keeps (Left k) (publish_at S ctl priority timestamp frame o)
      go none = search left_rules
      go (some npos) = search (left_rules, publish_prepared-Left) depth 7

  count-Left :
      (size : ℕ)
      → Keeps
          (Left {Map = Map} k)
          (change (λ s. (tt {0}, record s { counters = count_pub_bytes size s.counters })))
  count-Left size =
      change-Left (λ s. record s { counters = count_pub_bytes size s.counters }) (λ s. refl)

  op_publish_command-Left : (start : ℕ) → Keeps (Left k) (op_publish_command S ctl start)
  unfolding op_publish_command
  op_publish_command-Left start = search (left_rules, count-Left, publish_block-Left) depth 20

  push-Left :
      (subscribers : List ServerClient) (priority : ℕ) (topic message : Bytes) (timestamp : ℕ)
      → Keeps (Left {Map = Map} k) (
          change (λ s. (
            tt {0},
            record s { db = push_to_subscribers subscribers priority topic message timestamp s.db },
          )))
  push-Left subscribers priority topic message timestamp =
      change-Left
        (λ s. record s {
          db = push_to_subscribers subscribers priority topic message timestamp s.db;
        })
        (λ s. refl)

  replicate_to-Left :
      (start : ℕ) (topic : Bytes) (subscribers : List ServerClient)
      → Keeps (Left k) (replicate_to S ctl start topic subscribers)
  unfolding replicate_to
  replicate_to-Left start topic subscribers = search (left_rules, push-Left) depth 20

  replicate_topic-Left :
      (start : ℕ) (topic : Bytes) (subscribers : List ServerClient)
      → Keeps (Left k) (replicate_topic S ctl start topic subscribers)
  unfolding replicate_topic
  replicate_topic-Left start topic [] = search left_rules
  replicate_topic-Left start topic (c ∷ subscribers) =
      replicate_to-Left start topic (c ∷ subscribers)

  op_publish_repl_command-Left : (start : ℕ) → Keeps (Left k) (op_publish_repl_command S ctl start)
  unfolding op_publish_repl_command
  op_publish_repl_command-Left start = search (left_rules, replicate_topic-Left) depth 20

  command-Left : (start cmd : ℕ) → Keeps (Left k) (command S ctl start cmd)
  unfolding command
  command-Left start cmd =
      search
        (
          left_rules, op_subscribe_command-Left, op_unsubscribe_command-Left,
          op_publish_command-Left, op_publish_repl_command-Left,
        )
        depth 12

module _ {Map : Type 0} (S : SubMap Map) (ctl : Control) where
  round-consumes :
      (s : Session Map) {v : Verdict}
      → (round S ctl s).0 ≡ ok v
      → length (round S ctl s).1.stream.input < length s.stream.input
  unfolding round ◌>>=◌ on_stream read
  round-consumes s {v} h = go (read_with_timeout 1 s.stream.timeout s.stream).0 refl h
    where
      after : Session Map
      after = record s { stream = (read_with_timeout 1 s.stream.timeout s.stream).1 }

      go :
          (r : Result Bytes)
          → (read_with_timeout 1 s.stream.timeout s.stream).0 ≡ r
          → (continue r (λ cmd. command S ctl s.stream.now (first_byte cmd)) after).0 ≡ ok v
          → length
              (continue r (λ cmd. command S ctl s.stream.now (first_byte cmd)) after).1.stream.input
            < length s.stream.input
      go (err e) got k = cc
      go (ok cmd) got k =
          let taken = read_with_timeout-consumes 1 s.stream.timeout s.stream got in
          let kept =
            (command-Left S ctl (length after.stream.input) s.stream.now (first_byte cmd)).at after
              (omega arith) in
          omega (arith, taken, kept)

  -- The loop of `process_control` ends: with more fuel than there are bytes to come, it returns,
  -- with success or with an error, whatever the client sends.
  pub process_control_total :
      (fuel : ℕ) (s : Session Map)
      → length s.stream.input < fuel
      → (r : Result (Unit {0}) × Session Map) × (process_control S ctl fuel s ≡ some r)
  unfolding process_control
  process_control_total zero s h = absurd (omega arith)
  process_control_total (suc fuel) s h =
      go (round S ctl s).0 refl (process_control_total fuel (round S ctl s).1)
    where
      go :
          (v : Result Verdict)
          → (round S ctl s).0 ≡ v
          → (length (round S ctl s).1.stream.input < fuel
              → (r : Result (Unit {0}) × Session Map) × (process_control S ctl fuel
                    (round S ctl s).1
                  ≡ some r))
          → (r : Result (Unit {0}) × Session Map) × (process_control S ctl (suc fuel) s ≡ some r)
      go (err f) e next = ((err f, (round S ctl s).1), rw (e, process_control) refl)
      go (ok bye) e next = ((ok tt, (round S ctl s).1), rw (e, process_control) refl)
      go (ok more) e next =
          let (r, done) = next (omega (arith, round-consumes s e)) in
          (r, rw (e, process_control) done)
