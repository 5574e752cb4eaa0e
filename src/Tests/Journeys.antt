-- ===== src/Tests/Journeys.antt =====
-- A message of one byte string on its way from `ann`, who publishes it, to `ann`, who is subscribed.
use psrt.Prelude.{◌≡◌, refl, true, [], ◌∷◌, ◌++◌, List, arith}
use psrt.Prelude.Bytes.{Bytes, codes, has}
use psrt.Prelude.Utf8.{is_utf8}
use psrt.Prelude.Split.{split_on}
use psrt.Acl.{matches_chunks, allow_write}
use psrt.Wire.{op_bye}
use psrt.Fault.{ok}
use psrt.Comm.{Arrivals}
use psrt.Comm.Delivery.{at_hand}
use psrt.Topic.{prepare_topic, has_invalid_symbols}
use psrt.PubSub.Store.{MessageFrame, is_full}
use psrt.PubSub.Db.{register_client, register_data_channel, subscribe}
use psrt.Control.{round}
use psrt.Connection.Sending.{handle_data_stream}
use psrt.Client.Command.{ControlCommand, publish, as_bytes}
use psrt.Client.Data.{DataStream, data_round}
use psrt.Server.{Session}
use psrt.Journey.{at_time, CanPublish, publish-received}
use psrt.Tests.ListedMap.{ListedMap, listed_map}
use psrt.Tests.ListedLaws.{listed_laws}
use psrt.Tests.Database.{ann}
use psrt.Tests.Sessions.{full_control, session_of, stream_of}
use psrt.Tests.Crossings.{ann-Holds}

abbrev to_publish : ControlCommand
to_publish = publish 7 (codes "a/b") (codes "hot")

abbrev goodbye : Arrivals
goodbye = (120, op_bye) ∷ []

abbrev publisher : Session ListedMap
publisher = session_of (at_hand (as_bytes to_publish ++ codes "hot") goodbye)

-- What the channel of `ann` holds after the command was read.
abbrev queued : List MessageFrame
queued = ((round listed_map full_control publisher).1.db.channels 0).queue

abbrev sent : Bytes
sent = (handle_data_stream 10 5 (at_time 200 queued) (session_of [])).1.stream.output

abbrev receiver : DataStream
receiver = record {
  stream = stream_of (at_hand sent ((300, 0) ∷ []));
  delivered = [];
  is_open = true;
  commands = [];
}

may_publish : CanPublish full_control (codes "a/b") (codes "a/b")
unfolding prepare_topic has_invalid_symbols has is_utf8 allow_write
may_publish = record {
  named = λ e. ground (arith, e);
  text = refl;
  prepared = refl;
  plain = refl;
  allowed = refl;
}

publish-received_example : data_round receiver ≡ (
  ok tt,
  record receiver {
    stream = stream_of ((300, 0) ∷ []);
    delivered = record { priority = 7; topic = codes "a/b"; body = codes "hot" } ∷ [];
  },
)
unfolding has register_client register_data_channel subscribe matches_chunks split_on is_utf8
publish-received_example =
    publish-received listed_map listed_laws full_control 7 (codes "a/b") (codes "a/b") (codes "hot")
      goodbye publisher ann 0 10 5 200 (session_of []) ((300, 0) ∷ []) receiver may_publish
      (refl, (omega arith, omega arith)) refl ann-Holds refl (unfold is_full in refl) refl refl refl
      (refl, refl, omega arith) refl refl refl refl
