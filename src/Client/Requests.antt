-- ===== src/Client/Requests.antt =====
-- The server reads the requests that `as_bytes` writes as what the client asked for.
use psrt.Prelude.{
  ℕ, suc, ◌+◌, ◌≤◌, ◌<◌, ◌≡◌, refl, ap, ◌∙◌, false, some, List, [], ◌∷◌, ◌++◌, append-nil, arith,
  length, length-append, drop, take-append, drop-suc-append, All,
}
use psrt.Prelude.Bytes.{Bytes, has}
use psrt.Prelude.Split.{position-append, truncate-split_off}
use psrt.Prelude.Words.{le32}
use psrt.Wire.{op_nop, op_subscribe, op_unsubscribe, op_publish, op_bye, response_ok, u64}
use psrt.Fault.{ok}
use psrt.Exec.{Exec, pure, change, ◌>>=◌, ◌>>◌}
use psrt.Stats.{count_pub_bytes}
use psrt.Comm.{Arrivals, reduce_timeout, read, too_long}
use psrt.Comm.Delivery.{at_hand, read_with_timeout-at_hand, read_frame-at_hand}
use psrt.PubSub.Submap.{SubMap}
use psrt.Server.{Session, on_stream, now_ns}
use psrt.Control.{
  Control, Verdict, more, respond, parse_topics, subscribe_topics, unsubscribe_topics, topics_frame,
  op_subscribe_command, op_unsubscribe_command, op_publish_command, publish_at, publish_named,
  publish_block, command, round,
}
use psrt.Client.Command.{
  ControlCommand, nop, bye, publish_repl, subscribe, subscribe_bulk, unsubscribe, unsubscribe_bulk,
  publish, bulk_body, as_bytes,
}
use psrt.Client.Framing.{
  IsTopic, parse_topics-bulk_body, parse_topics-single, single_frame, bulk_frame, publish_frame,
}

-- What `run_control_stream` writes behind the bytes of a command.
abbrev pub message_behind : ControlCommand → Bytes
message_behind nop = []
message_behind bye = []
message_behind (subscribe topic) = []
message_behind (unsubscribe topic) = []
message_behind (subscribe_bulk topics) = []
message_behind (unsubscribe_bulk topics) = []
message_behind (publish priority topic message) = message
message_behind (publish_repl priority topic message timestamp) = []

module _ {Map : Type 0} (S : SubMap Map) (ctl : Control) where
  -- The session behind bytes that were read.
  abbrev pub behind : Arrivals → Session Map → Session Map
  behind later s = record s { stream = record s.stream { input = later } }

  topics_frame-at_hand :
      (block : Bytes) (topics : List Bytes) (start : ℕ) (later : Arrivals) (s : Session Map)
      → parse_topics block ≡ ok topics
      → length block < 4294967296
      → length block ≤ ctl.settings.max_topic_length
      → s.stream.input ≡ at_hand (le32 (length block) ++ block) later
      → topics_frame S ctl start s ≡ (ok topics, behind later s)
  unfolding topics_frame ◌>>=◌ on_stream
  topics_frame-at_hand block topics start later s parsed short fits h =
      let within : too_long (some ctl.settings.max_topic_length) (length block) ≡ false =
        ground arith in
      rw
        (
          read_frame-at_hand (some ctl.settings.max_topic_length)
              (reduce_timeout ctl.timeout start s.stream.now) block later s.stream short within h,
          parsed,
        )
        refl

  round-at_hand :
      (cmd : ℕ) (later : Arrivals) (s : Session Map)
      → s.stream.input ≡ at_hand (cmd ∷ []) later
      → round S ctl s ≡ command S ctl s.stream.now cmd (behind later s)
  unfolding round ◌>>=◌ on_stream read
  round-at_hand cmd later s h =
      rw (read_with_timeout-at_hand (cmd ∷ []) s.stream.timeout later s.stream h) refl

  -- What the server does with the topics of a request: it works through them and answers.
  abbrev pub answer :
      (List Bytes → Session Map → ℕ × Session Map) → List Bytes → Exec (Session Map) Verdict
  answer work topics = do res ← change (work topics); respond res; pure more

  request-at_hand :
      (cmd : ℕ) (block : Bytes) (topics : List Bytes) (later : Arrivals) (s : Session Map)
      → parse_topics block ≡ ok topics
      → length block < 4294967296
      → length block ≤ ctl.settings.max_topic_length
      → s.stream.input ≡ at_hand (cmd ∷ (le32 (length block) ++ block)) later
      → (round S ctl s
          ≡ command S ctl s.stream.now cmd
              (behind (at_hand (le32 (length block) ++ block) later) s))
        × (topics_frame S ctl s.stream.now (behind (at_hand (le32 (length block) ++ block) later) s)
            ≡ (ok topics, behind later s))
  request-at_hand cmd block topics later s parsed short fits h = (
    round-at_hand cmd (at_hand (le32 (length block) ++ block) later) s h,
    topics_frame-at_hand block topics s.stream.now later
        (behind (at_hand (le32 (length block) ++ block) later) s) parsed short fits refl,
  )

  subscribe-at_hand :
      (block : Bytes) (topics : List Bytes) (later : Arrivals) (s : Session Map)
      → parse_topics block ≡ ok topics
      → length block < 4294967296
      → length block ≤ ctl.settings.max_topic_length
      → s.stream.input ≡ at_hand (op_subscribe ∷ (le32 (length block) ++ block)) later
      → round S ctl s ≡ answer (subscribe_topics S ctl) topics (behind later s)
  unfolding command op_subscribe_command ◌>>=◌
  subscribe-at_hand block topics later s parsed short fits h =
      let (started, framed) =
        request-at_hand op_subscribe block topics later s parsed short fits h in
      started ∙ rw framed refl

  unsubscribe-at_hand :
      (block : Bytes) (topics : List Bytes) (later : Arrivals) (s : Session Map)
      → parse_topics block ≡ ok topics
      → length block < 4294967296
      → length block ≤ ctl.settings.max_topic_length
      → s.stream.input ≡ at_hand (op_unsubscribe ∷ (le32 (length block) ++ block)) later
      → round S ctl s ≡ answer (unsubscribe_topics S ctl) topics (behind later s)
  unfolding command op_unsubscribe_command ◌>>=◌
  unsubscribe-at_hand block topics later s parsed short fits h =
      let (started, framed) =
        request-at_hand op_unsubscribe block topics later s parsed short fits h in
      started ∙ rw framed refl

  -- What the server does with a message to publish: it counts it and publishes it, at this moment.
  abbrev pub publishing : ℕ → Bytes → Bytes → Exec (Session Map) Verdict
  publishing priority topic message s =
      publish_named S ctl priority (now_ns s) topic message
        (record s { counters = count_pub_bytes (u64 (length (topic ++ 0 ∷ message))) s.counters })

  publish_block-framed :
      (priority timestamp : ℕ) (topic message : Bytes) (s : Session Map)
      → has 0 topic ≡ false
      → publish_block S ctl priority timestamp (topic ++ 0 ∷ message) s
        ≡ publish_named S ctl priority timestamp topic message s
  unfolding publish_block publish_at
  publish_block-framed priority timestamp topic message s clean =
      let frame = topic ++ 0 ∷ message in
      let one : length topic + 1 ≡ suc (length topic) = omega arith in
      let fits : length topic < length frame = omega (arith, length-append topic (0 ∷ message)) in
      rw (position-append 0 topic message clean) (
        ap (λ t. publish_named S ctl priority timestamp t (drop (length topic + 1) frame) s)
          (truncate-split_off (length topic) frame fits ∙ take-append topic (0 ∷ message))
        ∙ ap (λ d. publish_named S ctl priority timestamp topic d s)
            (ap (λ k. drop k frame) one ∙ drop-suc-append topic 0 message))

  publish-at_hand :
      (priority : ℕ) (topic message : Bytes) (later : Arrivals) (s : Session Map)
      → has 0 topic ≡ false
      → length (topic ++ 0 ∷ message) < 4294967296
      → length (topic ++ 0 ∷ message) ≤ ctl.settings.max_pub_size
      → s.stream.input
        ≡ at_hand
            (op_publish
              ∷ priority
              ∷ (le32 (length (topic ++ 0 ∷ message)) ++ (topic ++ 0 ∷ message)))
            later
      → round S ctl s ≡ publishing priority topic message (behind later s)
  unfolding command op_publish_command ◌>>=◌ on_stream
  publish-at_hand priority topic message later s clean short fits h =
      let frame = topic ++ 0 ∷ message in
      let rest = at_hand (le32 (length frame) ++ frame) later in
      let within : too_long (some ctl.settings.max_pub_size) (length frame) ≡ false =
        ground arith in
      round-at_hand op_publish ((0, priority) ∷ rest) s h
      ∙ rw
          (read_with_timeout-at_hand (priority ∷ [])
            (reduce_timeout ctl.timeout s.stream.now s.stream.now) rest
            (record s.stream { input = (0, priority) ∷ rest }) refl)
          (rw
            (read_frame-at_hand (some ctl.settings.max_pub_size)
              (reduce_timeout ctl.timeout s.stream.now s.stream.now) frame later
              (record s.stream { input = rest }) short within refl)
            (publish_block-framed priority (now_ns s) topic message
              (record (behind later s) {
                counters = count_pub_bytes (u64 (length frame)) s.counters;
              })
              clean))

  -- A block that a frame can carry and the server's limit lets pass.
  abbrev Fits : ℕ → Bytes → Type 0
  Fits limit block = (length block < 4294967296) × (length block ≤ limit)

  -- The commands that the server can read; publishing to replicate is a dialogue, and not among them.
  abbrev pub CanSend : ControlCommand → Type 0
  CanSend nop = Unit
  CanSend bye = Unit
  CanSend (subscribe topic) = IsTopic topic × Fits ctl.settings.max_topic_length topic
  CanSend (unsubscribe topic) = IsTopic topic × Fits ctl.settings.max_topic_length topic
  CanSend (subscribe_bulk topics) =
      All IsTopic topics × Fits ctl.settings.max_topic_length (bulk_body topics)
  CanSend (unsubscribe_bulk topics) =
      All IsTopic topics × Fits ctl.settings.max_topic_length (bulk_body topics)
  CanSend (publish priority topic message) =
      (has 0 topic ≡ false) × Fits ctl.settings.max_pub_size (topic ++ 0 ∷ message)
  CanSend (publish_repl priority topic message timestamp) = ⊥

  -- What a command asks of the server.
  abbrev pub meaning : ControlCommand → Exec (Session Map) Verdict
  meaning nop = do respond response_ok; pure more
  meaning bye = do respond response_ok; pure Verdict.bye
  meaning (subscribe topic) = answer (subscribe_topics S ctl) (topic ∷ [])
  meaning (unsubscribe topic) = answer (unsubscribe_topics S ctl) (topic ∷ [])
  meaning (subscribe_bulk topics) = answer (subscribe_topics S ctl) topics
  meaning (unsubscribe_bulk topics) = answer (unsubscribe_topics S ctl) topics
  meaning (publish priority topic message) = publishing priority topic message
  meaning (publish_repl priority topic message timestamp) = pure more

  -- Every command but the one for replication, sent by `as_bytes` (and, to publish, the message
  -- behind it) and there when the server reads, makes the server do what the command means and
  -- leaves the bytes behind it for the next round, if its topics hold no zero byte, a subscription's
  -- are also non-empty UTF-8, and its block is within the server's limit and below 4 GiB.
  pub round-as_bytes :
      (cmd : ControlCommand) (later : Arrivals) (s : Session Map)
      → CanSend cmd
      → s.stream.input ≡ at_hand (as_bytes cmd ++ message_behind cmd) later
      → round S ctl s ≡ meaning cmd (behind later s)
  unfolding as_bytes command ◌>>=◌
  round-as_bytes nop later s h e = round-at_hand op_nop later s e
  round-as_bytes bye later s h e = round-at_hand op_bye later s e
  round-as_bytes (subscribe topic) later s (good, (short, fits)) e =
      subscribe-at_hand topic (topic ∷ []) later s (parse_topics-single topic good) short fits
        (e ∙ ap (λ b. at_hand b later) (append-nil _ ∙ single_frame op_subscribe topic short))
  round-as_bytes (unsubscribe topic) later s (good, (short, fits)) e =
      unsubscribe-at_hand topic (topic ∷ []) later s (parse_topics-single topic good) short fits
        (e ∙ ap (λ b. at_hand b later) (append-nil _ ∙ single_frame op_unsubscribe topic short))
  round-as_bytes (subscribe_bulk topics) later s (good, (short, fits)) e =
      subscribe-at_hand (bulk_body topics) topics later s (parse_topics-bulk_body topics good) short
        fits (e ∙ ap (λ b. at_hand b later) (append-nil _ ∙ bulk_frame op_subscribe topics short))
  round-as_bytes (unsubscribe_bulk topics) later s (good, (short, fits)) e =
      unsubscribe-at_hand (bulk_body topics) topics later s (parse_topics-bulk_body topics good)
        short fits
        (e ∙ ap (λ b. at_hand b later) (append-nil _ ∙ bulk_frame op_unsubscribe topics short))
  round-as_bytes (publish priority topic message) later s (clean, (short, fits)) e =
      publish-at_hand priority topic message later s clean short fits
        (e ∙ ap (λ b. at_hand b later) (publish_frame priority topic message short))
  round-as_bytes (publish_repl priority topic message timestamp) later s h e = absurd h
