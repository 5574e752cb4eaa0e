-- ===== src/PubSub/Db.antt =====
-- `ServerClientDB` and the methods of `ServerClientData`, over the heap of `Store`.
pub mod Invariant
pub mod Enlisting
pub mod Reach
pub mod Access
pub mod Registered
pub mod Broker
use psrt.Prelude.{
  ℕ, suc, ◌+◌, Bool, true, false, Option, none, some, List, [], ◌∷◌, ◌++◌, ◌==◌, if◌then◌else◌,
}
use psrt.Prelude.Bytes.{Bytes, beq}
use psrt.Prelude.Assoc.{Assoc, lookup, remove, insert}
use psrt.Fault.{Result, ok, err, error_access, error_io, text}
use psrt.Topic.{prepare_topic}
use psrt.PubSub.Submap.{ServerClient, SubMap}
use psrt.PubSub.Store.{MessageFrame, Channel, ServerClientData, update, bounded}

-- The database with the objects that it points to. `supply` holds what the random generator will
-- deliver, and `aborted` the tasks that were told to stop.
pub record ClientDb (Map : Type 0) : Type 0 where
  pub heap : ℕ → ServerClientData
  pub next : ℕ
  pub channels : ℕ → Channel
  pub next_channel : ℕ
  pub submap : Map
  pub clients_by_token : Assoc ServerClient
  pub supply : List Bytes
  pub aborted : List ℕ

module _ {Map : Type 0} where
  abbrev pub data_of : ServerClient → ClientDb Map → ServerClientData
  data_of c db = db.heap c.at

  abbrev pub set_data : ServerClient → ServerClientData → ClientDb Map → ClientDb Map
  set_data c d db = record db { heap = update db.heap c.at d }

  -- `async_channel::bounded(get_data_queue_size())`.
  unfoldable pub new_channel : ℕ → ClientDb Map → ℕ × ClientDb Map
  new_channel capacity db = (
    db.next_channel,
    record db {
      channels = update db.channels db.next_channel (bounded capacity);
      next_channel = suc db.next_channel;
    },
  )

  -- `ServerClientData::abort_tasks` and `register_task`.
  unfoldable pub abort_tasks : ServerClient → ClientDb Map → ClientDb Map
  abort_tasks c db =
      let d = data_of c db in
      record (set_data c (record d { tasks = [] }) db) { aborted = db.aborted ++ d.tasks }

  unfoldable pub register_task : ServerClient → ℕ → ClientDb Map → ClientDb Map
  register_task c task db =
      let d = data_of c db in set_data c (record d { tasks = d.tasks ++ task ∷ [] }) db

  -- `register_data_channel`: a token that is not known is refused, and so is a second channel.
  attach : ServerClient → ℕ → Option ℕ → ClientDb Map → Result (ℕ × ServerClient) × ClientDb Map
  attach c channel (some old) db =
      (err (error_access (text "Data channel is already registered" ∷ [])), db)
  attach c channel none db =
      (ok (channel, c), set_data c (record (data_of c db) { data_channel = some channel }) db)

  unfoldable pub register_data_channel :
      Bytes → ℕ → ClientDb Map → Result (ℕ × ServerClient) × ClientDb Map
  unfolding attach lookup
  register_data_channel token channel db = elim (lookup token db.clients_by_token) [
    | none ↦ (err (error_access (text "data channel access denied" ∷ [])), db)
    | some c ↦ attach c channel (data_of c db).data_channel db
  ]

  unfoldable pub unregister_data_channel : Bytes → ClientDb Map → ClientDb Map
  unfolding lookup
  unregister_data_channel token db = elim (lookup token db.clients_by_token) [
    | none ↦ db
    | some c ↦ set_data c (record (data_of c db) { data_channel = none }) db
  ]

module _ {Map : Type 0} (S : SubMap Map) where
  -- `submap: SubMap::new(), clients_by_token: <_>::default()`.
  abbrev pub new_db : (ℕ → ServerClientData) → (ℕ → Channel) → List Bytes → ClientDb Map
  new_db heap channels supply = record {
    heap = heap;
    next = 0;
    channels = channels;
    next_channel = 0;
    submap = S.new;
    clients_by_token = [];
    supply = supply;
    aborted = [];
  }

  abbrev pub fresh : Bytes → Bytes → Bytes → ServerClientData
  fresh login addr token = record {
    login = login;
    addr = addr;
    token = token;
    data_channel = none;
    tasks = [];
  }

  -- One round of the loop of `register_client`, for a token just created.
  abbrev pub offer : Bytes → ClientDb Map → ServerClient
  offer token db = record { digest = S.sha256 token; at = db.next }

  abbrev pub enlist : Bytes → Bytes → Bytes → ClientDb Map → ClientDb Map
  enlist login addr token db = record db {
    heap = update db.heap db.next (fresh login addr token);
    next = suc db.next;
    submap = (S.register_client (offer token db) db.submap).1;
    clients_by_token = insert token (offer token db) db.clients_by_token;
  }

  -- The loop: a token whose digest is in use is thrown away. It ends with the random supply at the
  -- latest, where the generator fails.
  unfoldable pub register_loop :
      List Bytes → Bytes → Bytes → ClientDb Map → Result ServerClient × ClientDb Map
  unfolding insert
  register_loop [] login addr db = (err (error_io (text "rand" ∷ [])), record db { supply = [] })
  register_loop (token ∷ supply) login addr db =
      elim (S.register_client (offer token db) db.submap).0 [
        | true ↦ (ok (offer token db), record (enlist login addr token db) { supply = supply })
        | false ↦
            register_loop supply login addr
              (record db { submap = (S.register_client (offer token db) db.submap).1 })
      ]

  unfoldable pub register_client : Bytes → Bytes → ClientDb Map → Result ServerClient × ClientDb Map
  unfolding register_loop
  register_client login addr db = register_loop db.supply login addr db

  unfoldable pub unregister_client : ServerClient → ClientDb Map → ClientDb Map
  unfolding remove
  unregister_client c db = record db {
    submap = S.unregister_client c db.submap;
    clients_by_token = remove (data_of c db).token db.clients_by_token;
  }

  -- `subscribe` and `unsubscribe` prepare the topic; a topic that is too deep changes nothing.
  unfoldable pub subscribe :
      ℕ → Bytes → ServerClient → ClientDb Map → Result (Unit {0}) × ClientDb Map
  unfolding prepare_topic
  subscribe max_depth topic c db = elim (prepare_topic max_depth topic) [
    | err e ↦ (err e, db)
    | ok t ↦ (ok tt, record db { submap = S.subscribe t c db.submap })
  ]

  unfoldable pub unsubscribe :
      ℕ → Bytes → ServerClient → ClientDb Map → Result (Unit {0}) × ClientDb Map
  unfolding prepare_topic
  unsubscribe max_depth topic c db = elim (prepare_topic max_depth topic) [
    | err e ↦ (err e, db)
    | ok t ↦ (ok tt, record db { submap = S.unsubscribe t c db.submap })
  ]

  abbrev pub get_subscribers : Bytes → ClientDb Map → List ServerClient
  get_subscribers topic db = S.get_subscribers topic db.submap

  -- `get_stats`: the subscriptions and the clients.
  abbrev pub get_stats : ClientDb Map → ℕ × ℕ
  get_stats db = (S.subscription_count db.submap, S.client_count db.submap)
