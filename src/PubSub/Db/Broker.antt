-- ===== src/PubSub/Db/Broker.antt =====
-- src/pubsub.rs: `ServerClientDB` against an abstract broker, which only knows who is subscribed to
-- what. The broker forgets the heap, the tokens, the channels and the tasks.
use psrt.Prelude.{
  ℕ, ◌≡◌, sym, ap, ◌∙◌, ◌↔◌, Bool, true, false, ◌&&◌, some, List, [], ◌∷◌, arith, if◌then◌else◌,
  Bool-cases, inl, inr,
}
use psrt.Prelude.Bytes.{Bytes, beq}
use psrt.Prelude.Split.{split_on}
use psrt.Fault.{ok, err, Result-cases}
use psrt.Topic.{slash, prepare_topic}
use psrt.Acl.{matches_chunks}
use psrt.PubSub.Submap.{ServerClient, SubMap, SubMapLaws, holds_digest}
use psrt.PubSub.Store.{ServerClientData, Channel}
use psrt.PubSub.Db.{
  ClientDb, abort_tasks, register_data_channel, unregister_data_channel, new_db, register_client,
  register_loop, unregister_client, subscribe, unsubscribe, get_subscribers, attach, offer,
}

-- The calls of the server's tasks.
pub data Call : Type 0 where
  join : (login addr : Bytes) → Call
  leave : ServerClient → Call
  sub : (max_depth : ℕ) (topic : Bytes) → ServerClient → Call
  unsub : (max_depth : ℕ) (topic : Bytes) → ServerClient → Call
  attach_channel : (token : Bytes) (channel : ℕ) → Call
  detach_channel : (token : Bytes) → Call
  stop_tasks : ServerClient → Call

-- The broker: which digest is subscribed to which prepared topic.
abbrev pub Broker : Type 0
Broker = Bytes → Bytes → Bool

abbrev pub idle : Broker
idle d t = false

abbrev pub set_all : ServerClient → Broker → Broker
set_all c b d t = if beq c.digest d then false else b d t

abbrev pub set_one : Bool → ServerClient → Bytes → Broker → Broker
set_one on c u b d t = if beq c.digest d && beq u t then on else b d t

-- A call, to the broker.
unfoldable pub replay : Call → Broker → Broker
unfolding prepare_topic
replay (join login addr) b = b
replay (leave c) b = set_all c b
replay (sub max_depth topic c) b = elim (prepare_topic max_depth topic) [
  | err e ↦ b
  | ok t ↦ set_one true c t b
]
replay (unsub max_depth topic c) b = elim (prepare_topic max_depth topic) [
  | err e ↦ b
  | ok t ↦ set_one false c t b
]
replay (attach_channel token channel) b = b
replay (detach_channel token) b = b
replay (stop_tasks c) b = b

unfoldable pub replay_all : List Call → Broker → Broker
unfolding replay
replay_all [] b = b
replay_all (call ∷ calls) b = replay_all calls (replay call b)

module _ {Map : Type 0} (S : SubMap Map) where
  -- The same call, to the database.
  unfoldable pub run : Call → ClientDb Map → ClientDb Map
  unfolding register_client unregister_client subscribe unsubscribe register_data_channel
      unregister_data_channel abort_tasks
  run (join login addr) db = (register_client S login addr db).1
  run (leave c) db = unregister_client S c db
  run (sub max_depth topic c) db = (subscribe S max_depth topic c db).1
  run (unsub max_depth topic c) db = (unsubscribe S max_depth topic c db).1
  run (attach_channel token channel) db = (register_data_channel token channel db).1
  run (detach_channel token) db = unregister_data_channel token db
  run (stop_tasks c) db = abort_tasks c db

  unfoldable pub run_all : List Call → ClientDb Map → ClientDb Map
  unfolding run
  run_all [] db = db
  run_all (call ∷ calls) db = run_all calls (run call db)

module _ {Map : Type 0} (S : SubMap Map) (L : SubMapLaws S) where
  -- A task subscribes with the handle of a client that is registered.
  abbrev pub IsAllowed : Call → ClientDb Map → Type 0
  IsAllowed (sub max_depth topic c) db =
      (b : ServerClient) × (L.client_of db.submap c.digest ≡ some b)
  IsAllowed (join login addr) db = Unit
  IsAllowed (leave c) db = Unit
  IsAllowed (unsub max_depth topic c) db = Unit
  IsAllowed (attach_channel token channel) db = Unit
  IsAllowed (detach_channel token) db = Unit
  IsAllowed (stop_tasks c) db = Unit

  abbrev pub AreAllowed : List Call → ClientDb Map → Type 0
  AreAllowed [] db = Unit
  AreAllowed (call ∷ calls) db = IsAllowed call db × AreAllowed calls (run S call db)

  -- The database shows what the broker knows.
  abbrev pub Agrees : ClientDb Map → Broker → Type 0
  Agrees db b = (d t : Bytes) → L.subscribed db.submap d t ≡ b d t

  register_loop-Agrees :
      (supply : List Bytes) (login addr : Bytes) (db : ClientDb Map) (b : Broker)
      → Agrees db b
      → Agrees (register_loop S supply login addr db).1 b
  unfolding register_loop
  register_loop-Agrees [] login addr db b h d t = h d t
  register_loop-Agrees (token ∷ supply) login addr db b h d t =
      let after = L.subscribed-register (offer S token db) db.submap d t in
      elim (Bool-cases (S.register_client (offer S token db) db.submap).0) [
        | inl e ↦ rw (e, register_loop) (after ∙ h d t)
        | inr n ↦
            rw (n, register_loop)
              (register_loop-Agrees supply login addr
                (record db { submap = (S.register_client (offer S token db) db.submap).1 }) b
                (λ d t. L.subscribed-register (offer S token db) db.submap d t ∙ h d t) d t)
      ]

  register_data_channel-submap :
      (token : Bytes) (channel : ℕ) (db : ClientDb Map)
      → (register_data_channel token channel db).1.submap ≡ db.submap
  unfolding register_data_channel attach
  register_data_channel-submap token channel db = ground arith

  unregister_data_channel-submap :
      (token : Bytes) (db : ClientDb Map) → (unregister_data_channel token db).submap ≡ db.submap
  unfolding unregister_data_channel
  unregister_data_channel-submap token db = ground arith

  -- Each call does to the database what it does to the broker.
  run-Agrees :
      (call : Call) (db : ClientDb Map) (b : Broker)
      → IsAllowed call db
      → Agrees db b
      → Agrees (run S call db) (replay call b)
  unfolding run replay
  run-Agrees (join login addr) db b allowed h d t =
      register_loop-Agrees db.supply login addr db b h d t
  run-Agrees (leave c) db b allowed h d t =
      ground (arith, L.subscribed-unregister c db.submap d t, h d t)
  run-Agrees (sub max_depth topic c) db b (known, there) h d t =
      elim (Result-cases (prepare_topic max_depth topic)) [
        | inr (e, never) ↦ rw (never, run, subscribe, replay) (h d t)
        | inl (u, prepared) ↦
            rw (prepared, run, subscribe, replay)
              (ground (arith, L.subscribed-subscribe u t c known db.submap d there, h d t))
      ]
  run-Agrees (unsub max_depth topic c) db b allowed h d t =
      elim (Result-cases (prepare_topic max_depth topic)) [
        | inr (e, never) ↦ rw (never, run, unsubscribe, replay) (h d t)
        | inl (u, prepared) ↦
            rw (prepared, run, unsubscribe, replay)
              (ground (arith, L.subscribed-unsubscribe u t c db.submap d, h d t))
      ]
  run-Agrees (attach_channel token channel) db b allowed h d t =
      ap (λ m. L.subscribed m d t) (register_data_channel-submap token channel db) ∙ h d t
  run-Agrees (detach_channel token) db b allowed h d t =
      ap (λ m. L.subscribed m d t) (unregister_data_channel-submap token db) ∙ h d t
  run-Agrees (stop_tasks c) db b allowed h d t = h d t

  run_all-Agrees :
      (calls : List Call) (db : ClientDb Map) (b : Broker)
      → AreAllowed calls db
      → Agrees db b
      → Agrees (run_all S calls db) (replay_all calls b)
  unfolding run_all replay_all
  run_all-Agrees [] db b allowed h = h
  run_all-Agrees (call ∷ calls) db b (first, rest) h =
      run_all-Agrees calls (run S call db) (replay call b) rest (run-Agrees call db b first h)

  -- Whatever the tasks call, in any order, on a database that starts empty, where clients that
  -- subscribe are registered: a digest is among the subscribers of a topic exactly if the same
  -- calls leave the broker with a subscription of this digest that matches the topic.
  pub run_all-refines :
      (heap : ℕ → ServerClientData) (channels : ℕ → Channel) (supply : List Bytes)
      (calls : List Call)
      → AreAllowed calls (new_db S heap channels supply)
      → (topic d : Bytes)
      → (holds_digest d (get_subscribers S topic (run_all S calls (new_db S heap channels supply)))
          ≡ true)
        ↔ ((t : Bytes) × (replay_all calls idle d t ≡ true)
            × (matches_chunks (split_on slash topic) (split_on slash t) ≡ true))
  run_all-refines heap channels supply calls allowed topic d =
      let db = new_db S heap channels supply in
      let agree = run_all-Agrees calls db idle allowed (λ d t. L.subscribed-new d t) in
      (
        λ h.
            let (t, on, fits) = L.subscription_of topic d (run_all S calls db).submap h in
            (t, sym (agree d t) ∙ on, fits),
        λ (t, on, fits).
            L.subscriber_of topic t d (run_all S calls db).submap (agree d t ∙ on) fits,
      )
