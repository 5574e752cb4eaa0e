-- ===== src/Commands.antt =====
-- src/server.rs: the start of `process_control`, what it is given, and the commands to subscribe and
-- to unsubscribe.
use psrt.Prelude.{ℕ, some, List, [], ◌∷◌, if◌then◌else◌}
use psrt.Prelude.Bytes.{Bytes}
use psrt.Prelude.Split.{split_on}
use psrt.Prelude.Utf8.{is_utf8}
use psrt.Wire.{response_ok, response_err, response_err_access, default_priority}
use psrt.Fault.{Error, Result, ok, err, error_invalid_data, text, from_utf8_error}
use psrt.Exec.{Exec, pure, lift, gets, change, ◌>>=◌, ◌>>◌}
use psrt.Comm.{reduce_timeout, write, read_frame_with_timeout}
use psrt.Acl.{Acl, allow_read}
use psrt.PubSub.Submap.{ServerClient, SubMap}
use psrt.PubSub.Db.{subscribe, unsubscribe}
use psrt.Stats.{count_sub_ops}
use psrt.Server.{Settings, Session, on_stream}

-- What the loop of `process_control` is given.
pub record Control : Type 0 where
  pub client : ServerClient
  pub acl : Acl
  pub timeout : ℕ
  pub settings : Settings

-- Does the loop go on after a command?
pub data Verdict : Type 0 where
  more bye : Verdict

unfoldable pub invalid_block : Error
invalid_block = error_invalid_data (text "Invalid data block" ∷ [])

-- `parse_topics!`: the non-empty parts between the zero bytes; one that is not UTF-8 is an error.
unfoldable pub utf8_parts : List Bytes → Result (List Bytes)
utf8_parts [] = ok []
utf8_parts ([] ∷ parts) = utf8_parts parts
utf8_parts ((b ∷ t) ∷ parts) =
    let later = utf8_parts parts in
    if is_utf8 (b ∷ t)
    then elim later [ ok topics ↦ ok ((b ∷ t) ∷ topics) | err e ↦ err e ]
    else err from_utf8_error

unfoldable pub parse_topics : Bytes → Result (List Bytes)
parse_topics data_block = utf8_parts (split_on 0 data_block)

-- The only byte of a buffer of one byte.
abbrev pub first_byte : Bytes → ℕ
first_byte [] = default_priority
first_byte (b ∷ bs) = b

module _ {Map : Type 0} where
  -- `respond_status!` and its three uses.
  abbrev pub respond : ℕ → Exec (Session Map) (Unit {0})
  respond status = on_stream (write (status ∷ []))

  -- `reduce_timeout(timeout, op_start)` at this moment.
  abbrev pub time_left : Control → ℕ → Exec (Session Map) ℕ
  time_left ctl op_start = gets (λ s. reduce_timeout ctl.timeout op_start s.stream.now)

module _ {Map : Type 0} (S : SubMap Map) (ctl : Control) where
  -- The session after one topic was subscribed to, or unsubscribed from, and counted.
  abbrev pub subscribed : Bytes → Session Map → Session Map
  subscribed topic s = record s {
    db = (subscribe S ctl.settings.max_topic_depth topic ctl.client s.db).1;
    counters = count_sub_ops s.counters;
  }

  abbrev pub unsubscribed : Bytes → Session Map → Session Map
  unsubscribed topic s = record s {
    db = (unsubscribe S ctl.settings.max_topic_depth topic ctl.client s.db).1;
    counters = count_sub_ops s.counters;
  }

  -- The loop over the topics of `OP_SUBSCRIBE`: the status to respond with. It stops at the first
  -- topic that is not allowed or too deep, and keeps the subscriptions made before it.
  unfoldable pub subscribe_topics : List Bytes → Session Map → ℕ × Session Map
  subscribe_topics [] s = (response_ok, s)
  subscribe_topics (topic ∷ topics) s =
      let rest = subscribe_topics topics (subscribed topic s) in
      if allow_read ctl.acl topic
      then elim (subscribe S ctl.settings.max_topic_depth topic ctl.client s.db).0 [
        | ok _ ↦ rest
        | err _ ↦ (
          response_err,
          record s { db = (subscribe S ctl.settings.max_topic_depth topic ctl.client s.db).1 },
        )
      ]
      else (response_err_access, s)

  unfoldable pub unsubscribe_topics : List Bytes → Session Map → ℕ × Session Map
  unsubscribe_topics [] s = (response_ok, s)
  unsubscribe_topics (topic ∷ topics) s =
      let rest = unsubscribe_topics topics (unsubscribed topic s) in
      elim (unsubscribe S ctl.settings.max_topic_depth topic ctl.client s.db).0 [
        | ok _ ↦ rest
        | err _ ↦ (
          response_err,
          record s { db = (unsubscribe S ctl.settings.max_topic_depth topic ctl.client s.db).1 },
        )
      ]

  -- A frame of topics, within what is left of the timeout.
  unfoldable pub topics_frame : ℕ → Exec (Session Map) (List Bytes)
  topics_frame op_start = do
    wait ← time_left ctl op_start
    block ← on_stream (read_frame_with_timeout (some ctl.settings.max_topic_length) wait)
    lift (parse_topics block)

  unfoldable pub op_subscribe_command : ℕ → Exec (Session Map) Verdict
  op_subscribe_command op_start = do
    topics ← topics_frame op_start
    res ← change (subscribe_topics topics)
    respond res
    pure more

  unfoldable pub op_unsubscribe_command : ℕ → Exec (Session Map) Verdict
  op_unsubscribe_command op_start = do
    topics ← topics_frame op_start
    res ← change (unsubscribe_topics topics)
    respond res
    pure more
