-- ===== src/Control.antt =====
-- src/server.rs: `process_control`, the commands of a control connection.
pub mod Consumes
pub mod Publishing
pub mod Subscribing
pub mod Escape
pub mod Unprepared
pub mod Kept
pub mod Keeping
pub use psrt.Commands.{Control, Verdict, more, bye, first_byte, respond, subscribed, unsubscribed}
unfoldable pub use psrt.Commands.{
  invalid_block, utf8_parts, parse_topics, subscribe_topics, unsubscribe_topics, topics_frame,
  op_subscribe_command, op_unsubscribe_command,
}
use psrt.Commands.{time_left}
use psrt.Prelude.{
  ℕ, ◌%◌, ◌^◌, zero, suc, ◌+◌, ◌-◌, Bool, true, false, Option, none, some, List, [], ◌∷◌, ◌++◌,
  ◌==◌, if◌then◌else◌, length, take, drop,
}
use psrt.Prelude.Bytes.{Bytes, is_empty}
use psrt.Prelude.Split.{split_on, position}
use psrt.Prelude.Utf8.{is_utf8}
use psrt.Prelude.Words.{of_le}
use psrt.Wire.{
  op_nop, op_subscribe, op_unsubscribe, op_publish, op_publish_repl, op_bye, response_ok,
  response_err, response_err_access, response_not_required, response_ok_waiting, default_priority,
  u64,
}
use psrt.Fault.{Error, Result, ok, err, error_invalid_data, text, decimal, from_utf8_error}
use psrt.Exec.{Exec, pure, raise, lift, gets, change, ◌>>=◌, ◌>>◌}
use psrt.Comm.{Stream, reduce_timeout, read, read_with_timeout, write, read_frame_with_timeout}
use psrt.Topic.{prepare_topic, has_invalid_symbols}
use psrt.Acl.{Acl, allow_read, allow_write}
use psrt.PubSub.Submap.{ServerClient, SubMap}
use psrt.PubSub.Db.{ClientDb, subscribe, unsubscribe, get_subscribers}
use psrt.Stats.{count_sub_ops, count_pub_bytes}
use psrt.Server.{Settings, Replicated, Session, on_stream, on_db, now_ns}
use psrt.Push.{push_to_subscribers}

module _ {Map : Type 0} (S : SubMap Map) (ctl : Control) where
  -- The database after the message went to the subscribers of the topic, and the call of
  -- `replication::push` in a build with clusters.
  abbrev pub publish_to : ℕ → ℕ → Bytes → Bytes → Session Map → Session Map
  publish_to priority timestamp topic message s =
      let subscribers = get_subscribers S topic s.db in
      let call : Replicated = record {
        priority = priority;
        topic = topic;
        message = message;
        timestamp = timestamp;
      } in
      record s {
        db = push_to_subscribers subscribers priority topic message timestamp s.db;
        replicated = if ctl.settings.cluster then s.replicated ++ call ∷ [] else s.replicated;
      }

  -- The part of `OP_PUBLISH` behind the test of the topic's depth.
  unfoldable pub publish_topic : ℕ → ℕ → Bytes → Bytes → Exec (Session Map) Verdict
  publish_topic priority timestamp topic message =
      if has_invalid_symbols topic
      then raise invalid_block
      else if allow_write ctl.acl topic
      then (do
        change (λ s. (tt, publish_to priority timestamp topic message s))
        respond response_ok
        pure more)
      else (do respond response_err_access; pure more)

  -- The `if let Ok(topic) = prepare_topic(..)`.
  unfoldable pub publish_prepared : ℕ → ℕ → Bytes → Result Bytes → Exec (Session Map) Verdict
  publish_prepared priority timestamp message (ok topic) =
      publish_topic priority timestamp topic message
  publish_prepared priority timestamp message (err e) = do respond response_err; pure more

  unfoldable pub publish_named : ℕ → ℕ → Bytes → Bytes → Exec (Session Map) Verdict
  publish_named priority timestamp name message =
      if is_empty name
      then raise invalid_block
      else if is_utf8 name
      then publish_prepared priority timestamp message
          (prepare_topic ctl.settings.max_topic_depth name)
      else raise from_utf8_error

  -- The part of `OP_PUBLISH` behind the reads: `split_off(npos + 1)` leaves the message, and
  -- `truncate` takes the zero byte off the topic in front of it.
  unfoldable pub publish_at : ℕ → ℕ → Bytes → Option ℕ → Exec (Session Map) Verdict
  publish_at priority timestamp frame none = raise invalid_block
  publish_at priority timestamp frame (some npos) =
      let head = take (npos + 1) frame in
      publish_named priority timestamp (take (length head - 1) head) (drop (npos + 1) frame)

  unfoldable pub publish_block : ℕ → ℕ → Bytes → Exec (Session Map) Verdict
  publish_block priority timestamp frame = publish_at priority timestamp frame (position 0 frame)

  unfoldable pub op_publish_command : ℕ → Exec (Session Map) Verdict
  op_publish_command op_start = do
    timestamp ← gets now_ns
    wait ← time_left ctl op_start
    prio ← on_stream (read_with_timeout 1 wait)
    wait_frame ← time_left ctl op_start
    frame ← on_stream (read_frame_with_timeout (some ctl.settings.max_pub_size) wait_frame)
    change (λ s. (tt, record s { counters = count_pub_bytes (u64 (length frame)) s.counters }))
    publish_block (first_byte prio) timestamp frame

  -- The part of `OP_PUBLISH_REPL` for a topic that has subscribers.
  unfoldable pub replicate_to : ℕ → Bytes → List ServerClient → Exec (Session Map) Verdict
  replicate_to op_start topic subscribers = do
    respond response_ok_waiting
    wait ← time_left ctl op_start
    prio ← on_stream (read_with_timeout 1 wait)
    wait_ts ← time_left ctl op_start
    ts_buf ← on_stream (read_with_timeout 8 wait_ts)
    wait_frame ← time_left ctl op_start
    message ← on_stream (read_frame_with_timeout (some ctl.settings.max_pub_size) wait_frame)
    change (λ s. (
      tt,
      record s {
        db = push_to_subscribers subscribers (first_byte prio) topic message (of_le ts_buf) s.db;
      },
    ))
    respond response_ok
    pure more

  -- The part behind the tests of the topic and of the access list.
  unfoldable pub replicate_topic : ℕ → Bytes → List ServerClient → Exec (Session Map) Verdict
  replicate_topic op_start topic [] = do respond response_not_required; pure more
  replicate_topic op_start topic (c ∷ subscribers) = replicate_to op_start topic (c ∷ subscribers)

  unfoldable pub op_publish_repl_command : ℕ → Exec (Session Map) Verdict
  op_publish_repl_command op_start =
      if ctl.settings.cluster
      then (do
        wait ← time_left ctl op_start
        topic ← on_stream (read_frame_with_timeout (some ctl.settings.max_topic_length) wait)
        lift (if is_utf8 topic then ok (tt {0}) else err from_utf8_error)
        subscribers ← gets (λ s. get_subscribers S topic s.db)
        if ctl.acl.replicator
            then replicate_topic op_start topic subscribers
            else (do respond response_err_access; pure more))
      else raise (error_invalid_data (text "Unsupported operation: OP_PUBLISH_REPL" ∷ []))

  -- The `match` on the command byte.
  unfoldable pub command : ℕ → ℕ → Exec (Session Map) Verdict
  command op_start cmd =
      if cmd == op_nop
      then (do respond response_ok; pure more)
      else if cmd == op_subscribe
      then op_subscribe_command S ctl op_start
      else if cmd == op_unsubscribe
      then op_unsubscribe_command S ctl op_start
      else if cmd == op_publish
      then op_publish_command op_start
      else if cmd == op_publish_repl
      then op_publish_repl_command op_start
      else if cmd == op_bye
      then (do respond response_ok; pure bye)
      else raise (error_invalid_data (text "Invalid operation: " ∷ decimal cmd ∷ []))

  -- One round of the loop.
  unfoldable pub round : Exec (Session Map) Verdict
  round = do
    op_start ← gets (λ s. s.stream.now)
    cmd ← on_stream (read 1)
    command op_start (first_byte cmd)

  -- The loop, with at most `fuel` rounds; `none` if they do not suffice.
  unfoldable pub process_control : ℕ → Session Map → Option (Result (Unit {0}) × Session Map)
  process_control zero s = none
  process_control (suc fuel) s =
      let r = round s in
      elim r.0 [
        | err e ↦ some (err e, r.1)
        | ok bye ↦ some (ok tt, r.1)
        | ok more ↦ process_control fuel r.1
      ]
