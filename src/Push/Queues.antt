-- ===== src/Push/Queues.antt =====
-- What publishing does to the data channels.
use psrt.Prelude.{
  ℕ, ◌≤◌, ◌≡◌, refl, false, Option, none, some, List, [], ◌∷◌, arith, length, length-append,
  Bool-cases, inl, inr,
}
use psrt.Prelude.Bytes.{Bytes}
use psrt.PubSub.Submap.{ServerClient, SubMap, SubMapLaws}
use psrt.PubSub.Store.{MessageFrame, Channel, is_full, send}
use psrt.PubSub.Db.{ClientDb, data_of, abort_tasks, unregister_data_channel}
use psrt.PubSub.Db.Invariant.{
  WellFormed, SameLinks-WellFormed, unregister_data_channel-WellFormed, abort_tasks-WellFormed,
}
use psrt.Push.{drop_channel, message_frame, push_one, push_all, push_to_subscribers}

pub send_fits :
    (message : MessageFrame) (c : Channel)
    → length c.queue ≤ c.capacity
    → is_full c ≡ false
    → length (send message c).queue ≤ (send message c).capacity
unfolding is_full send
send_fits message c h room = ground (arith, length-append c.queue (message ∷ []))

module _ {Map : Type 0} where
  -- No queue is longer than its capacity.
  abbrev pub QueuesFit : ClientDb Map → Type 0
  QueuesFit db = (ch : ℕ) → length (db.channels ch).queue ≤ (db.channels ch).capacity

  pub channels-drop_channel :
      (s : ServerClient) (db : ClientDb Map) → (drop_channel s db).channels ≡ db.channels
  unfolding abort_tasks unregister_data_channel
  channels-drop_channel s db = ground arith

  pub push_one-QueuesFit :
      (message : MessageFrame) (s : ServerClient) (o : Option ℕ) (db : ClientDb Map)
      → QueuesFit db
      → QueuesFit (push_one message s o db)
  unfolding push_one
  push_one-QueuesFit message s none db h ch = h ch
  push_one-QueuesFit message s (some dc) db h ch = elim (Bool-cases (is_full (db.channels dc))) [
    | inl full ↦ ground (arith, full, channels-drop_channel s db, h ch)
    | inr room ↦ ground (arith, room, h ch, send_fits message (db.channels dc) (h dc) room)
  ]

  push_all-QueuesFit :
      (message : MessageFrame) (subscribers : List ServerClient) (db : ClientDb Map)
      → QueuesFit db
      → QueuesFit (push_all message subscribers db)
  unfolding push_all
  push_all-QueuesFit message [] db h = h
  push_all-QueuesFit message (s ∷ subscribers) db h =
      push_all-QueuesFit message subscribers (push_one message s (data_of s db).data_channel db)
        (push_one-QueuesFit message s (data_of s db).data_channel db h)

  -- Publishing to any subscribers leaves every queue within its capacity.
  pub push_to_subscribers-QueuesFit :
      (subscribers : List ServerClient) (priority : ℕ) (topic message : Bytes) (timestamp : ℕ)
      (db : ClientDb Map)
      → QueuesFit db
      → QueuesFit (push_to_subscribers subscribers priority topic message timestamp db)
  unfolding push_to_subscribers
  push_to_subscribers-QueuesFit subscribers priority topic message timestamp db h =
      push_all-QueuesFit (message_frame priority topic message timestamp) subscribers db h

module _ {Map : Type 0} (S : SubMap Map) (L : SubMapLaws S) where
  pub push_one-WellFormed :
      (message : MessageFrame) (s : ServerClient) (o : Option ℕ) {db : ClientDb Map}
      → WellFormed S L db
      → WellFormed S L (push_one message s o db)
  unfolding push_one
  push_one-WellFormed message s none w = w
  push_one-WellFormed message s (some dc) {db} w = elim (Bool-cases (is_full (db.channels dc))) [
    | inl full ↦
        rw (full, push_one)
          (abort_tasks-WellFormed S L s
            (unregister_data_channel-WellFormed S L (data_of s db).token w))
    | inr room ↦
        rw (room, push_one)
          (SameLinks-WellFormed S L {db = db}
            (record { table = refl; next = refl; tokens = λ k. refl; clients = λ d. refl }) w)
  ]

  push_all-WellFormed :
      (message : MessageFrame) (subscribers : List ServerClient) {db : ClientDb Map}
      → WellFormed S L db
      → WellFormed S L (push_all message subscribers db)
  unfolding push_all
  push_all-WellFormed message [] w = w
  push_all-WellFormed message (s ∷ subscribers) {db} w =
      push_all-WellFormed message subscribers
        (push_one-WellFormed message s (data_of s db).data_channel w)

  pub push_to_subscribers-WellFormed :
      (subscribers : List ServerClient) (priority : ℕ) (topic message : Bytes) (timestamp : ℕ)
      {db : ClientDb Map}
      → WellFormed S L db
      → WellFormed S L (push_to_subscribers subscribers priority topic message timestamp db)
  unfolding push_to_subscribers
  push_to_subscribers-WellFormed subscribers priority topic message timestamp w =
      push_all-WellFormed (message_frame priority topic message timestamp) subscribers w
