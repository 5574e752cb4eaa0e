-- ===== src/Traffic.antt =====
-- src/server.rs and src/pubsub.rs: the tasks of the server, as they interleave on the client database
-- and the data channels. A task holds the lock of the database for one call; it pushes a message to
-- the subscribers one after the other and without the lock, and first reads a client's data channel,
-- then uses it. Whether a channel is full is asked and answered together with the sending.
pub mod Quiet
pub mod Invariant
pub mod Attaching
pub mod Sending
pub mod Receiving
pub mod Histories
use psrt.Prelude.{ℕ, ◌≡◌, Bool, true, false, Option, none, some, List, [], ◌∷◌, ◌++◌, if◌then◌else◌}
use psrt.Prelude.Bytes.{Bytes}
use psrt.Wire.{op_nop}
use psrt.Fault.{Result, ok, err}
use psrt.PubSub.Submap.{ServerClient, SubMap, SubMapLaws}
use psrt.PubSub.Store.{MessageFrame, Channel, ServerClientData, update, is_full, send, bounded}
use psrt.PubSub.Db.{
  ClientDb, data_of, new_db, new_channel, abort_tasks, register_task, register_data_channel,
  unregister_data_channel, register_client, unregister_client, subscribe, unsubscribe,
  get_subscribers,
}
use psrt.PubSub.Db.Invariant.{IsLive}
use psrt.Push.{message_frame, push_one}

-- A message that was published, with the subscribers of its topic at that time.
pub record Publication : Type 0 where
  pub topic : Bytes
  pub frame : MessageFrame
  pub subscribers : List ServerClient

-- A task in the loop of `push_to_subscribers`: the client whose channel was read, with that channel,
-- and the clients that are left.
pub record Pushing : Type 0 where
  pub publication : Publication
  pub chosen : Option (ServerClient × Option ℕ)
  pub left : List ServerClient

-- The state that the tasks share, what each is pushing, and the channels that a task has made and not
-- registered. The rest is history: `owner` is the place of the client that a channel was registered
-- for, `accepted` what was put into a channel, and `taken` what its data stream took out of it.
pub record Traffic (Map : Type 0) : Type 0 where
  pub db : ClientDb Map
  pub pushing : ℕ → Pushing
  pub is_held : ℕ → Bool
  pub published : List Publication
  pub owner : ℕ → Option ℕ
  pub accepted : ℕ → List MessageFrame
  pub taken : ℕ → List MessageFrame

-- The message of a pinger.
abbrev pub beacon : MessageFrame
beacon = record { timestamp = none; frame = op_nop ∷ []; body = none }

-- The message goes into the channel, as `push_one` sends it.
abbrev pub is_accepted : Channel → Bool
is_accepted c = if is_full c then false else c.is_open

abbrev pub noted :
    Option ℕ → MessageFrame → (ℕ → Channel) → (ℕ → List MessageFrame) → ℕ → List MessageFrame
noted none message channels accepted = accepted
noted (some dc) message channels accepted =
    if is_accepted (channels dc) then update accepted dc (accepted dc ++ message ∷ []) else accepted

-- Who has the channel that was registered, if it was.
abbrev pub owned_by : Result (ℕ × ServerClient) → ℕ → (ℕ → Option ℕ) → ℕ → Option ℕ
owned_by (err e) ch owner = owner
owned_by (ok (channel, c)) ch owner = update owner ch (some c.at)

module _ {Map : Type 0} (S : SubMap Map) (L : SubMapLaws S) where
  -- A call of a method of the database or of a client that makes, fills and registers no channel.
  pub data QuietCall (db : ClientDb Map) : ClientDb Map → Type 0 where
    registered : (login addr : Bytes) → QuietCall db (register_client S login addr db).1
    unregistered : (c : ServerClient) → IsLive S L c db → QuietCall db (unregister_client S c db)
    detached : (token : Bytes) → QuietCall db (unregister_data_channel token db)
    subscribed :
        (max_depth : ℕ) (topic : Bytes) (c : ServerClient)
        → QuietCall db (subscribe S max_depth topic c db).1
    unsubscribed :
        (max_depth : ℕ) (topic : Bytes) (c : ServerClient)
        → QuietCall db (unsubscribe S max_depth topic c db).1
    spawned : (c : ServerClient) (task : ℕ) → QuietCall db (register_task c task db)
    aborted : (c : ServerClient) → QuietCall db (abort_tasks c db)

  abbrev pub called : ClientDb Map → Traffic Map → Traffic Map
  called db t = record t { db = db }

  -- `launch_data_stream` makes a channel, and later registers it for the token that it was sent.
  abbrev pub opened : ℕ → Traffic Map → Traffic Map
  opened capacity t =
      let r = new_channel capacity t.db in
      record t { db = r.1; is_held = update t.is_held r.0 true }

  abbrev pub attached : Bytes → ℕ → Traffic Map → Traffic Map
  attached token ch t =
      let r = register_data_channel token ch t.db in
      record t { db = r.1; is_held = update t.is_held ch false; owner = owned_by r.0 ch t.owner }

  -- The task `i` asks for the subscribers of a topic, with a message for them.
  abbrev pub publishing : ℕ → ℕ → Bytes → Bytes → ℕ → Traffic Map → Traffic Map
  publishing i priority topic message timestamp t =
      let p : Publication = record {
        topic = topic;
        frame = message_frame priority topic message timestamp;
        subscribers = get_subscribers S topic t.db;
      } in
      record t {
        pushing =
            update t.pushing i (record { publication = p; chosen = none; left = p.subscribers });
        published = p ∷ t.published;
      }

  -- It reads the data channel of the next one, and then pushes.
  abbrev pub picking : ℕ → ServerClient → List ServerClient → Traffic Map → Traffic Map
  picking i s rest t = record t {
    pushing =
        update t.pushing i
          (record (t.pushing i) { chosen = some (s, (data_of s t.db).data_channel); left = rest });
  }

  abbrev pub pushed : ℕ → ServerClient → Option ℕ → Traffic Map → Traffic Map
  pushed i s o t =
      let frame = (t.pushing i).publication.frame in
      record t {
        db = push_one frame s o t.db;
        pushing = update t.pushing i (record (t.pushing i) { chosen = none });
        accepted = noted o frame t.db.channels t.accepted;
      }

  -- A data stream takes the oldest message of its channel, or drops its end of the channel.
  abbrev pub received : ℕ → MessageFrame → List MessageFrame → Traffic Map → Traffic Map
  received ch message rest t = record t {
    db = record t.db {
      channels = update t.db.channels ch (record (t.db.channels ch) { queue = rest });
    };
    taken = update t.taken ch (t.taken ch ++ message ∷ []);
  }

  abbrev pub closed : ℕ → Traffic Map → Traffic Map
  closed ch t = record t {
    db = record t.db {
      channels = update t.db.channels ch (record (t.db.channels ch) { is_open = false });
    };
  }

  -- The pinger of a data stream puts a beacon into the channel; it waits while the channel is full.
  abbrev pub pinged : ℕ → Traffic Map → Traffic Map
  pinged ch t = record t {
    db = record t.db { channels = update t.db.channels ch (send beacon (t.db.channels ch)) };
    accepted = noted (some ch) beacon t.db.channels t.accepted;
  }

  pub data TrafficStep (t : Traffic Map) : Traffic Map → Type 0 where
    calls : {db : ClientDb Map} → QuietCall t.db db → TrafficStep t (called db t)
    opens : (capacity : ℕ) → TrafficStep t (opened capacity t)
    attaches : (token : Bytes) (ch : ℕ) → t.is_held ch ≡ true → TrafficStep t (attached token ch t)
    publishes :
        (i priority : ℕ) (topic message : Bytes) (timestamp : ℕ)
        → (t.pushing i).chosen ≡ none
        → (t.pushing i).left ≡ []
        → TrafficStep t (publishing i priority topic message timestamp t)
    picks :
        (i : ℕ) (s : ServerClient) (rest : List ServerClient)
        → (t.pushing i).chosen ≡ none
        → (t.pushing i).left ≡ s ∷ rest
        → TrafficStep t (picking i s rest t)
    pushes :
        (i : ℕ) (s : ServerClient) (o : Option ℕ)
        → (t.pushing i).chosen ≡ some (s, o)
        → TrafficStep t (pushed i s o t)
    receives :
        (ch : ℕ) (message : MessageFrame) (rest : List MessageFrame)
        → (t.db.channels ch).queue ≡ message ∷ rest
        → TrafficStep t (received ch message rest t)
    closes : (ch : ℕ) → TrafficStep t (closed ch t)
    pings :
        (ch p : ℕ)
        → t.owner ch ≡ some p
        → is_full (t.db.channels ch) ≡ false
        → TrafficStep t (pinged ch t)

  pub data TrafficReach (t : Traffic Map) : Traffic Map → Type 0 where
    start : TrafficReach t t
    next : {a b : Traffic Map} → TrafficReach t a → TrafficStep a b → TrafficReach t b

  abbrev pub resting : Pushing
  resting = record {
    publication = record {
      topic = [];
      frame = record { timestamp = none; frame = []; body = none };
      subscribers = [];
    };
    chosen = none;
    left = [];
  }

  -- The server before its first task.
  abbrev pub new_traffic : (ℕ → ServerClientData) → List Bytes → Traffic Map
  new_traffic heap supply = record {
    db = new_db S heap (λ ch. bounded 0) supply;
    pushing = λ i. resting;
    is_held = λ ch. false;
    published = [];
    owner = λ ch. none;
    accepted = λ ch. [];
    taken = λ ch. [];
  }
