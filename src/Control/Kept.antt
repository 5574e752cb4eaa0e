-- ===== src/Control/Kept.antt =====
-- What every operation on the client database keeps, every command of a control connection keeps.
use mathlib.Core.Path.{subst}
use psrt.Prelude.{
  ℕ, zero, suc, ◌≡◌, refl, Option, none, some, List, [], ◌∷◌, arith, Bool-cases, inl, inr,
}
use psrt.Prelude.Bytes.{Bytes}
use psrt.Prelude.Split.{position}
use psrt.Fault.{Result, ok, err, Result-cases}
use psrt.Exec.{Exec, change}
use psrt.Exec.Keeps.{Keeps, Keeps-change, keeps_rules}
use psrt.Comm.{Stream}
use psrt.Acl.{allow_read}
use psrt.Push.{push_to_subscribers}
use psrt.Stats.{count_pub_bytes}
use psrt.PubSub.Submap.{ServerClient, SubMap}
use psrt.PubSub.Db.{ClientDb, subscribe, unsubscribe, get_subscribers}
use psrt.Server.{Session, on_stream}
use psrt.Control.{
  Control, Verdict, more, bye, subscribed, unsubscribed, publish_to, publish_prepared,
  publish_named, publish_at, subscribe_topics, unsubscribe_topics, topics_frame,
  op_subscribe_command, op_unsubscribe_command, publish_topic, publish_block, op_publish_command,
  replicate_to, replicate_topic, op_publish_repl_command, command, round, process_control,
}

-- What every operation that a command makes on the database keeps.
pub record KeptBy {Map : Type 0} (S : SubMap Map) (ctl : Control) (P : ClientDb Map → Type 0)
    : Type 0 where
  pub subscribing :
      (topic : Bytes) (db : ClientDb Map)
      → P db
      → P (subscribe S ctl.settings.max_topic_depth topic ctl.client db).1
  pub unsubscribing :
      (topic : Bytes) (db : ClientDb Map)
      → P db
      → P (unsubscribe S ctl.settings.max_topic_depth topic ctl.client db).1
  pub pushing :
      (subscribers : List ServerClient) (priority : ℕ) (topic message : Bytes) (timestamp : ℕ)
      (db : ClientDb Map)
      → P db
      → P (push_to_subscribers subscribers priority topic message timestamp db)

module _ {Map : Type 0} (S : SubMap Map) (ctl : Control) (P : ClientDb Map → Type 0)
    (K : KeptBy S ctl P) where
  abbrev OnDb : Session Map → Type 0
  OnDb s = P s.db

  on_stream-OnDb : {A : Type 0} (m : Exec Stream A) → Keeps OnDb (on_stream m)
  unfolding on_stream
  on_stream-OnDb m = record { at = λ s h. h }

  subscribe_topics-OnDb :
      (topics : List Bytes) (s : Session Map) → P s.db → P (subscribe_topics S ctl topics s).1.db
  unfolding subscribe_topics
  subscribe_topics-OnDb [] s h = h
  subscribe_topics-OnDb (topic ∷ topics) s h =
      let now = K.subscribing topic s.db h in
      let later = subscribe_topics-OnDb topics (subscribed S ctl topic s) now in
      elim (Bool-cases (allow_read ctl.acl topic)) [
        | inr denied ↦ rw (denied, subscribe_topics) h
        | inl allowed ↦
            elim (Result-cases (subscribe S ctl.settings.max_topic_depth topic ctl.client s.db).0) [
              | inl (u, good) ↦ rw (allowed, good, subscribe_topics) later
              | inr (e, bad) ↦ rw (allowed, bad, subscribe_topics) now
            ]
      ]

  unsubscribe_topics-OnDb :
      (topics : List Bytes) (s : Session Map) → P s.db → P (unsubscribe_topics S ctl topics s).1.db
  unfolding unsubscribe_topics
  unsubscribe_topics-OnDb [] s h = h
  unsubscribe_topics-OnDb (topic ∷ topics) s h =
      let now = K.unsubscribing topic s.db h in
      let later = unsubscribe_topics-OnDb topics (unsubscribed S ctl topic s) now in
      elim (Result-cases (unsubscribe S ctl.settings.max_topic_depth topic ctl.client s.db).0) [
        | inl (u, good) ↦ rw (good, unsubscribe_topics) later
        | inr (e, bad) ↦ rw (bad, unsubscribe_topics) now
      ]

  subscribing-OnDb : (topics : List Bytes) → Keeps OnDb (change (subscribe_topics S ctl topics))
  subscribing-OnDb topics =
      Keeps-change (subscribe_topics S ctl topics) (subscribe_topics-OnDb topics)

  unsubscribing-OnDb : (topics : List Bytes) → Keeps OnDb (change (unsubscribe_topics S ctl topics))
  unsubscribing-OnDb topics =
      Keeps-change (unsubscribe_topics S ctl topics) (unsubscribe_topics-OnDb topics)

  publish_to-OnDb :
      (priority timestamp : ℕ) (topic message : Bytes)
      → Keeps OnDb (change (λ s. (tt {0}, publish_to S ctl priority timestamp topic message s)))
  publish_to-OnDb priority timestamp topic message =
      Keeps-change (λ s. (tt {0}, publish_to S ctl priority timestamp topic message s))
        (λ s h. K.pushing (get_subscribers S topic s.db) priority topic message timestamp s.db h)

  count-OnDb :
      (size : ℕ)
      → Keeps OnDb (change (λ s. (tt {0}, record s { counters = count_pub_bytes size s.counters })))
  count-OnDb size =
      Keeps-change (λ s. (tt {0}, record s { counters = count_pub_bytes size s.counters }))
        (λ s h. h)

  push-OnDb :
      (subscribers : List ServerClient) (priority : ℕ) (topic message : Bytes) (timestamp : ℕ)
      → Keeps OnDb (
          change (λ s. (
            tt {0},
            record s { db = push_to_subscribers subscribers priority topic message timestamp s.db },
          )))
  push-OnDb subscribers priority topic message timestamp =
      Keeps-change
        (λ s. (
          tt {0},
          record s { db = push_to_subscribers subscribers priority topic message timestamp s.db },
        ))
        (λ s h. K.pushing subscribers priority topic message timestamp s.db h)

  ruleset db_rules = (
    keeps_rules, on_stream-OnDb, subscribing-OnDb, unsubscribing-OnDb, publish_to-OnDb, count-OnDb,
    push-OnDb,
  )

  topics_frame-OnDb : (start : ℕ) → Keeps OnDb (topics_frame S ctl start)
  unfolding topics_frame
  topics_frame-OnDb start = search db_rules

  publish_topic-OnDb :
      (priority timestamp : ℕ) (topic message : Bytes)
      → Keeps OnDb (publish_topic S ctl priority timestamp topic message)
  unfolding publish_topic
  publish_topic-OnDb priority timestamp topic message = search db_rules depth 9

  publish_prepared-OnDb :
      (priority timestamp : ℕ) (message : Bytes) (r : Result Bytes)
      → Keeps OnDb (publish_prepared S ctl priority timestamp message r)
  unfolding publish_prepared
  publish_prepared-OnDb priority timestamp message (ok topic) =
      publish_topic-OnDb priority timestamp topic message
  publish_prepared-OnDb priority timestamp message (err e) = search db_rules

  publish_block-OnDb :
      (priority timestamp : ℕ) (frame : Bytes)
      → Keeps OnDb (publish_block S ctl priority timestamp frame)
  unfolding publish_block publish_at publish_named
  publish_block-OnDb priority timestamp frame = go (position 0 frame)
    where
      go : (o : Option ℕ) → Keeps OnDb (publish_at S ctl priority timestamp frame o)
      go none = search db_rules
      go (some npos) = search (db_rules, publish_prepared-OnDb) depth 7

  replicate_topic-OnDb :
      (start : ℕ) (topic : Bytes) (subscribers : List ServerClient)
      → Keeps OnDb (replicate_topic S ctl start topic subscribers)
  unfolding replicate_topic replicate_to
  replicate_topic-OnDb start topic [] = search db_rules
  replicate_topic-OnDb start topic (c ∷ subscribers) = search db_rules depth 20

  op_subscribe_command-OnDb : (start : ℕ) → Keeps OnDb (op_subscribe_command S ctl start)
  unfolding op_subscribe_command
  op_subscribe_command-OnDb start = search (db_rules, topics_frame-OnDb)

  op_unsubscribe_command-OnDb : (start : ℕ) → Keeps OnDb (op_unsubscribe_command S ctl start)
  unfolding op_unsubscribe_command
  op_unsubscribe_command-OnDb start = search (db_rules, topics_frame-OnDb)

  op_publish_command-OnDb : (start : ℕ) → Keeps OnDb (op_publish_command S ctl start)
  unfolding op_publish_command
  op_publish_command-OnDb start = search (db_rules, publish_block-OnDb) depth 20

  op_publish_repl_command-OnDb : (start : ℕ) → Keeps OnDb (op_publish_repl_command S ctl start)
  unfolding op_publish_repl_command
  op_publish_repl_command-OnDb start = search (db_rules, replicate_topic-OnDb) depth 20

  command-OnDb : (start cmd : ℕ) → Keeps OnDb (command S ctl start cmd)
  unfolding command
  command-OnDb start cmd =
      search
        (
          db_rules, op_subscribe_command-OnDb, op_unsubscribe_command-OnDb, op_publish_command-OnDb,
          op_publish_repl_command-OnDb,
        )
        depth 12

  round-OnDb : Keeps OnDb (round S ctl)
  unfolding round
  round-OnDb = search (db_rules, command-OnDb)

  pub process_control-OnDb :
      (fuel : ℕ) (s : Session Map) {r : Result (Unit {0}) × Session Map}
      → process_control S ctl fuel s ≡ some r
      → P s.db
      → P r.1.db
  unfolding process_control
  process_control-OnDb zero s e h = cc
  process_control-OnDb (suc fuel) s {r} e h =
      go (round S ctl s).0 refl (process_control-OnDb fuel (round S ctl s).1 {r = r})
        (round-OnDb.at s h)
    where
      go :
          (v : Result Verdict)
          → (round S ctl s).0 ≡ v
          → (process_control S ctl fuel (round S ctl s).1 ≡ some r
              → P (round S ctl s).1.db
              → P r.1.db)
          → P (round S ctl s).1.db
          → P r.1.db
      go (err f) same next kept =
          let last : (err f, (round S ctl s).1) ≡ r = ground (arith, same, e) in
          subst (λ x. P x.1.db) last kept
      go (ok bye) same next kept =
          let last : (ok tt, (round S ctl s).1) ≡ r = ground (arith, same, e) in
          subst (λ x. P x.1.db) last kept
      go (ok more) same next kept = next (ground (arith, same, e)) kept
