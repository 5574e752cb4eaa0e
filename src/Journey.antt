-- ===== src/Journey.antt =====
-- src/client.rs and src/server.rs together: a message on its way from the program that publishes it
-- to a program that is subscribed to its topic.
use psrt.Prelude.{
  ℕ, ◌<◌, ◌≡◌, ◌≢◌, refl, ap, ◌∙◌, true, false, some, List, [], ◌∷◌, ◌++◌, arith, length, map,
  append-nil,
}
use psrt.Prelude.Bytes.{Bytes, has}
use psrt.Prelude.Utf8.{is_utf8}
use psrt.Fault.{ok}
use psrt.Exec.{◌>>=◌}
use psrt.Topic.{prepare_topic, has_invalid_symbols}
use psrt.Acl.{allow_write}
use psrt.Comm.{Arrivals}
use psrt.Comm.Delivery.{at_hand}
use psrt.PubSub.Submap.{ServerClient, SubMap, SubMapLaws, holds_digest}
use psrt.PubSub.Store.{MessageFrame, is_full}
use psrt.PubSub.Db.{data_of, get_subscribers}
use psrt.Push.{packed_head, message_frame, push_to_subscribers}
use psrt.Push.Delivery.{Holds, push_to_subscribers-delivers}
use psrt.Server.{Session, Replicated, now_ns, on_stream}
use psrt.Control.{Control, publish_topic, publish_prepared, publish_named, round}
use psrt.Connection.Sending.{sent_bytes, handle_data_stream, handle_data_stream-all}
use psrt.Client.Command.{publish, as_bytes}
use psrt.Client.Data.{DataStream, data_round}
use psrt.Client.Deliveries.{data_round-packed_head}
use psrt.Client.Requests.{CanSend, behind, round-as_bytes}

-- The messages of a channel, all received at one time.
abbrev pub at_time : ℕ → List MessageFrame → List (ℕ × MessageFrame)
at_time t frames = map (λ f. (t, f)) frames

lone_frame : {a : Bytes} (b c : Bytes) → a ≡ [] → a ++ (b ++ c ++ []) ≡ b ++ c
lone_frame b c none = rw (none) (append-nil (b ++ c))

-- A publisher whose access list allows writing to the topic that `name` is prepared to.
pub record CanPublish (ctl : Control) (name topic : Bytes) : Type 0 where
  pub named : name ≢ []
  pub text : is_utf8 name ≡ true
  pub prepared : prepare_topic ctl.settings.max_topic_depth name ≡ ok topic
  pub plain : has_invalid_symbols topic ≡ false
  pub allowed : allow_write ctl.acl topic ≡ true

module _ {Map : Type 0} (S : SubMap Map) (L : SubMapLaws S) (ctl : Control) where
  publish_topic-db :
      (priority timestamp : ℕ) (topic message : Bytes) (s : Session Map)
      → has_invalid_symbols topic ≡ false
      → allow_write ctl.acl topic ≡ true
      → (publish_topic S ctl priority timestamp topic message s).1.db
        ≡ push_to_subscribers (get_subscribers S topic s.db) priority topic message timestamp s.db
  unfolding publish_topic ◌>>=◌ on_stream
  publish_topic-db priority timestamp topic message s plain allowed = ground (arith, plain, allowed)

  publish_named-db :
      (priority timestamp : ℕ) (name topic message : Bytes) (s : Session Map)
      → CanPublish ctl name topic
      → (publish_named S ctl priority timestamp name message s).1.db
        ≡ push_to_subscribers (get_subscribers S topic s.db) priority topic message timestamp s.db
  unfolding publish_named publish_prepared
  publish_named-db priority timestamp [] topic message s p = absurd (p.named refl)
  publish_named-db priority timestamp (c ∷ name) topic message s p =
      rw (p.text, p.prepared)
        (publish_topic-db priority timestamp topic message s p.plain p.allowed)

  -- A message that a client publishes reaches the program of a client that is subscribed to its
  -- topic: the server reads the bytes of the command, pushes the message into the subscriber's empty
  -- data channel, and what the subscriber's data stream sends for this channel makes one round of its
  -- client hand the program this message, with its priority and the prepared topic. The publisher may
  -- write to the topic and its frame is within the server's limit; the channel is the subscriber's
  -- own, open and has room; the data stream's peer takes what is written and the program still takes
  -- messages; and the prepared topic is UTF-8 without zero bytes, below 4 GiB with the message.
  pub publish-received :
      (priority : ℕ) (name topic message : Bytes) (later : Arrivals) (s : Session Map)
      (x : ServerClient) (ch timeout beacon_interval t : ℕ) (sender : Session Map) (rest : Arrivals)
      (program : DataStream)
      → CanPublish ctl name topic
      → CanSend S ctl (publish priority name message)
      → s.stream.input ≡ at_hand (as_bytes (publish priority name message) ++ message) later
      → Holds S L x ch s.db
      → (data_of x s.db).data_channel ≡ some ch
      → is_full (s.db.channels ch) ≡ false
      → (s.db.channels ch).is_open ≡ true
      → (s.db.channels ch).queue ≡ []
      → holds_digest x.digest (get_subscribers S topic s.db) ≡ true
      → (has 0 topic ≡ false)
        × (is_utf8 topic ≡ true)
        × (length (topic ++ 0 ∷ message) < 4294967296)
      → sender.stream.takings ≡ []
      → sender.stream.output ≡ []
      → program.is_open ≡ true
      → program.stream.input
        ≡ at_hand
            (handle_data_stream timeout beacon_interval
              (at_time t ((round S ctl s).1.db.channels ch).queue)
              sender).1.stream.output
            rest
      → data_round program ≡ (
        ok tt,
        record program {
          stream = record program.stream { input = rest };
          delivered =
              program.delivered
              ++ record { priority = priority; topic = topic; body = message } ∷ [];
        },
      )
  unfolding sent_bytes
  publish-received priority name topic message later s x ch timeout beacon_interval t sender rest
        program can_publish can_send sent holds attached room is_on quiet subscribed
        (clean, valid, short) takes_all silent is_taken arriving =
      let now = now_ns (behind S ctl later s) in
      let call : Replicated = record {
        priority = priority;
        topic = topic;
        message = message;
        timestamp = now;
      } in
      let done = round-as_bytes S ctl (publish priority name message) later s can_send sent in
      let pushed_db : (round S ctl s).1.db
          ≡ push_to_subscribers (get_subscribers S topic s.db) priority topic message now s.db =
        ap (λ r. r.1.db) done ∙ publish_named-db priority now name topic message _ can_publish in
      let (_, queued) =
        push_to_subscribers-delivers S L x ch priority topic message now s.db holds attached room
          is_on in
      let waiting : ((round S ctl s).1.db.channels ch).queue
          ≡ message_frame priority topic message now ∷ [] =
        ap (λ d. (d.channels ch).queue) pushed_db ∙ queued ∙ rw (subscribed, quiet) refl in
      let (_, out) =
        handle_data_stream-all timeout beacon_interval ((t, some call) ∷ []) sender takes_all in
      let bytes : (handle_data_stream timeout beacon_interval
            (at_time t ((round S ctl s).1.db.channels ch).queue) sender).1.stream.output
          ≡ packed_head priority topic message ++ message =
        rw (waiting) (out ∙ lone_frame (packed_head priority topic message) message silent) in
      data_round-packed_head priority topic message rest program clean valid short is_taken
        (arriving ∙ ap (λ b. at_hand b rest) bytes)
