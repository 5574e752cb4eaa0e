-- ===== src/Tests/Sessions.antt =====
-- Commands on a control connection and messages on a data connection.
use psrt.Prelude.{◌≡◌, ◌↔◌, ◌⊎◌, refl, true, false, none, some, [], ◌∷◌, ◌++◌, arith, All}
use psrt.Prelude.Bytes.{Bytes, codes, has}
use psrt.Wire.{response_ok, op_nop, op_bye}
use psrt.Fault.{Result, ok}
use psrt.Exec.{◌>>=◌}
use psrt.Comm.{Arrivals, Stream, read, write}
use psrt.Comm.Delivery.{at_hand}
use psrt.Topic.{slash}
use psrt.Acl.{Acl, hash, plus, new_full, allow_read}
use psrt.PubSub.Submap.{holds_digest}
use psrt.PubSub.Db.{get_subscribers}
use psrt.Push.{packed_head}
use psrt.Server.{Settings, Session, on_stream}
use psrt.Control.{Control, process_control, command, round, subscribe_topics, publish_block}
use psrt.Control.Consumes.{process_control_total}
use psrt.Control.Publishing.{Published, Untouched, publish_block-cases}
use psrt.Control.Subscribing.{Accepts, subscribe_topics_iff}
use psrt.Control.Unprepared.{subscribe_slash_escapes}
use psrt.Control.Escape.{subscribe_hash_escapes}
use psrt.Control.Keeping.{IsSound, process_control-IsSound}
use psrt.Client.Command.{ControlCommand, publish, as_bytes}
use psrt.Client.Requests.{behind, meaning, round-as_bytes, message_behind}
use psrt.Client.Message.{Message}
use psrt.Client.Data.{DataStream}
use psrt.Tests.ListedMap.{ListedMap, listed_map}
use psrt.Tests.ListedLaws.{listed_laws}
use psrt.Tests.Database.{
  ann, attached_db, subscribed_db, ann_known, queues_fit, subscribed_db-WellFormed,
}

abbrev pub limits : Settings
limits = record {
  allow_anonymous = true;
  max_pub_size = 1000;
  max_topic_length = 100;
  max_topic_depth = 5;
  data_queue_size = 1;
  latency_warn = 100000;
  cluster = true;
}

abbrev pub full_control : Control
full_control = record { client = ann; acl = new_full; timeout = 10; settings = limits }

-- `ann` may read topics of one level, and write nothing.
abbrev one_level_acl : Acl
one_level_acl = record {
  admin = false;
  replicator = false;
  read = some (record { path_masks = record { chunks = some (plus ∷ []) } ∷ [] });
  write = none;
}

abbrev narrow_control : Control
narrow_control = record full_control { acl = one_level_acl }

abbrev pub stream_of : Arrivals → Stream
stream_of input = record {
  input = input;
  closes = some 500;
  takings = [];
  output = [];
  now = 100;
  timeout = 10;
}

abbrev pub session_of : Arrivals → Session ListedMap
session_of input = record {
  stream = stream_of input;
  db = subscribed_db;
  counters = record {
    c_sub_ops = 0;
    c_pub_messages = 0;
    c_pub_bytes = 0;
    c_sent_messages = 0;
    c_sent_bytes = 0;
    c_sent_latency = 0;
  };
  replicated = [];
  epoch = 5000;
}

-- A no-op and a goodbye.
abbrev polite : Session ListedMap
polite = session_of ((101, op_nop) ∷ (105, op_bye) ∷ [])

abbrev answered : Stream
answered = record (stream_of []) { output = response_ok ∷ response_ok ∷ []; now = 105 }

polite_runs :
    process_control listed_map full_control 3 polite
    ≡ some (ok tt, record polite { stream = answered })
unfolding process_control round ◌>>=◌ on_stream read command write
polite_runs = refl

process_control_total_example :
    (r : Result (Unit {0}) × Session ListedMap) × (process_control listed_map full_control 3 polite
      ≡ some r)
process_control_total_example = process_control_total listed_map full_control 3 polite (omega arith)

process_control-IsSound_example : IsSound listed_map listed_laws subscribed_db
process_control-IsSound_example =
    process_control-IsSound listed_map listed_laws full_control 3 polite polite_runs
      (subscribed_db-WellFormed, queues_fit)

abbrev a_frame : Bytes
a_frame = codes "a/b" ++ 0 ∷ codes "hot"

publish_block-cases_example :
    Published listed_map full_control 7 1000 a_frame
      (session_of [])
      (publish_block listed_map full_control 7 1000 a_frame (session_of [])).1
    ⊎ Untouched listed_map full_control 7 1000
        (session_of [])
        (publish_block listed_map full_control 7 1000 a_frame (session_of [])).1
publish_block-cases_example =
    publish_block-cases listed_map full_control 7 1000 a_frame (session_of [])

subscribe_topics_iff_example :
    ((subscribe_topics listed_map narrow_control (codes "a" ∷ codes "a/b" ∷ []) (session_of [])).0
      ≡ response_ok)
    ↔ All (Accepts narrow_control) (codes "a" ∷ codes "a/b" ∷ [])
subscribe_topics_iff_example =
    subscribe_topics_iff listed_map narrow_control (codes "a" ∷ codes "a/b" ∷ []) (session_of [])

abbrev unsubscribed_session : Session ListedMap
unsubscribed_session = record (session_of []) { db = attached_db }

subscribe_hash_escapes_example :
    ((subscribe_topics listed_map narrow_control (hash ∷ []) unsubscribed_session).0 ≡ response_ok)
    × (holds_digest ann.digest (
          get_subscribers listed_map
            (codes "a" ++ slash ∷ codes "b")
            (subscribe_topics listed_map narrow_control (hash ∷ []) unsubscribed_session).1.db)
        ≡ true)
    × (allow_read one_level_acl (codes "a" ++ slash ∷ codes "b") ≡ false)
unfolding has
subscribe_hash_escapes_example =
    subscribe_hash_escapes listed_map listed_laws narrow_control unsubscribed_session (codes "a")
      (codes "b") refl ann_known refl

abbrev two_level_acl : Acl
two_level_acl = record one_level_acl {
  read = some (record { path_masks = record { chunks = some (plus ∷ plus ∷ []) } ∷ [] });
}

abbrev two_level_control : Control
two_level_control = record full_control { acl = two_level_acl }

subscribe_slash_escapes_example :
    ((subscribe_topics listed_map two_level_control
        ((slash ∷ codes "name") ∷ [])
        unsubscribed_session).0
      ≡ response_ok)
    × (holds_digest ann.digest (
          get_subscribers listed_map
            (codes "name")
            (subscribe_topics listed_map two_level_control
              ((slash ∷ codes "name") ∷ [])
              unsubscribed_session).1.db)
        ≡ true)
    × (allow_read two_level_acl (codes "name") ≡ false)
unfolding has
subscribe_slash_escapes_example =
    subscribe_slash_escapes listed_map listed_laws two_level_control unsubscribed_session
      (codes "name") refl ann_known refl

abbrev to_publish : ControlCommand
to_publish = publish 7 (codes "a/b") (codes "hot")

abbrev publishing_session : Session ListedMap
publishing_session =
    session_of (at_hand (as_bytes to_publish ++ message_behind to_publish) ((120, op_bye) ∷ []))

round-as_bytes_example :
    round listed_map full_control publishing_session
    ≡ meaning listed_map full_control to_publish
        (behind listed_map full_control ((120, op_bye) ∷ []) publishing_session)
unfolding has
round-as_bytes_example =
    round-as_bytes listed_map full_control to_publish ((120, op_bye) ∷ []) publishing_session
      (refl, (omega arith, omega arith)) refl

abbrev receiving : DataStream
receiving = record {
  stream =
      stream_of
        (at_hand (packed_head 7 (codes "a/b") (codes "hot") ++ codes "hot") ((120, 0) ∷ []));
  delivered = [];
  is_open = true;
  commands = [];
}

abbrev hot : Message
hot = record { priority = 7; topic = codes "a/b"; body = codes "hot" }
