-- ===== src/Push.antt =====
-- src/server.rs: `push_to_subscribers`.
pub mod Queues
pub mod Following
pub mod Delivery
use psrt.Prelude.{
  ℕ, ◌+◌, Bool, true, false, Option, none, some, List, [], ◌∷◌, ◌++◌, if◌then◌else◌, length,
}
use psrt.Prelude.Bytes.{Bytes}
use psrt.Prelude.Words.{le32}
use psrt.Wire.{response_ok, u32}
use psrt.PubSub.Submap.{ServerClient}
use psrt.PubSub.Store.{MessageFrame, update, is_full, send}
use psrt.PubSub.Db.{ClientDb, data_of, abort_tasks, unregister_data_channel}

-- The head of a message on the data stream: `RESPONSE_OK`, the priority, the length of what
-- follows, the topic and a zero byte. The message body comes after it.
unfoldable pub packed_head : ℕ → Bytes → Bytes → Bytes
unfolding le32
packed_head priority topic message =
    response_ok
    ∷ priority
    ∷ (le32 (u32 (u32 (length topic) + u32 (length message) + 1)) ++ (topic ++ 0 ∷ []))

abbrev pub message_frame : ℕ → Bytes → Bytes → ℕ → MessageFrame
message_frame priority topic message timestamp = record {
  timestamp = some timestamp;
  frame = packed_head priority topic message;
  body = some message;
}

module _ {Map : Type 0} where
  -- A client whose queue is full loses its data channel and its tasks.
  abbrev pub drop_channel : ServerClient → ClientDb Map → ClientDb Map
  drop_channel s db = abort_tasks s (unregister_data_channel (data_of s db).token db)

  -- One round of the loop, for a subscriber with this data channel.
  unfoldable pub push_one : MessageFrame → ServerClient → Option ℕ → ClientDb Map → ClientDb Map
  unfolding is_full send abort_tasks unregister_data_channel
  push_one message s none db = db
  push_one message s (some dc) db =
      if is_full (db.channels dc)
      then drop_channel s db
      else record db { channels = update db.channels dc (send message (db.channels dc)) }

  unfoldable pub push_all : MessageFrame → List ServerClient → ClientDb Map → ClientDb Map
  unfolding push_one
  push_all message [] db = db
  push_all message (s ∷ subscribers) db =
      push_all message subscribers (push_one message s (data_of s db).data_channel db)

  unfoldable pub push_to_subscribers :
      List ServerClient → ℕ → Bytes → Bytes → ℕ → ClientDb Map → ClientDb Map
  unfolding push_all packed_head
  push_to_subscribers subscribers priority topic message timestamp =
      push_all (message_frame priority topic message timestamp) subscribers
