-- ===== src/Traffic/Quiet.antt =====
-- What a call that makes, fills and registers no channel leaves of the channels.
use psrt.Prelude.{ℕ, ◌<◌, ◌≤◌, ◌≡◌, refl, some, List, [], ◌∷◌, arith, Bool-cases, inl, inr}
use psrt.Prelude.Bytes.{Bytes}
use psrt.Fault.{Result-cases}
use psrt.Topic.{prepare_topic}
use psrt.PubSub.Submap.{SubMap, SubMapLaws}
use psrt.PubSub.Db.{
  ClientDb, register_task, abort_tasks, unregister_data_channel, register_client, register_loop,
  offer, unregister_client, subscribe, unsubscribe,
}
use psrt.PubSub.Db.Invariant.{
  WellFormed, SameLinks-WellFormed, unregister_client-WellFormed,
  unregister_data_channel-WellFormed, subscribe-WellFormed, unsubscribe-WellFormed,
  abort_tasks-WellFormed,
}
use psrt.PubSub.Db.Enlisting.{register_client-WellFormed}
use psrt.Traffic.{
  QuietCall, registered, unregistered, detached, subscribed, unsubscribed, spawned, aborted,
}

module _ {Map : Type 0} where
  pub record KeepsChannels (db db' : ClientDb Map) : Type 0 where
    pub channels : db'.channels ≡ db.channels
    pub next_channel : db'.next_channel ≡ db.next_channel
    pub next : db.next ≤ db'.next
    pub fewer :
        (p ch : ℕ)
        → p < db'.next
        → (db'.heap p).data_channel ≡ some ch
        → (p < db.next) × ((db.heap p).data_channel ≡ some ch)

  all_kept : (db : ClientDb Map) → KeepsChannels db db
  all_kept db = record {
    channels = refl;
    next_channel = refl;
    next = omega arith;
    fewer = λ p ch small h. (small, h);
  }

module _ {Map : Type 0} (S : SubMap Map) (L : SubMapLaws S) where
  register_loop-KeepsChannels :
      (supply : List Bytes) (login addr : Bytes) (db : ClientDb Map)
      → KeepsChannels db (register_loop S supply login addr db).1
  unfolding register_loop
  register_loop-KeepsChannels [] login addr db = record {
    channels = refl;
    next_channel = refl;
    next = omega arith;
    fewer = λ p ch small h. (small, h);
  }
  register_loop-KeepsChannels (token ∷ supply) login addr db =
      elim (Bool-cases (S.register_client (offer S token db) db.submap).0) [
        | inl e ↦
            rw (e, register_loop)
              (record {
                channels = refl;
                next_channel = refl;
                next = omega arith;
                fewer = λ p ch small h. (ground (arith, small, h), ground (arith, small, h));
              })
        | inr n ↦
            let refused = record db {
              submap = (S.register_client (offer S token db) db.submap).1;
            } in
            let k = register_loop-KeepsChannels supply login addr refused in
            rw (n, register_loop)
              (record {
                channels = k.channels;
                next_channel = k.next_channel;
                next = k.next;
                fewer = k.fewer;
              })
      ]

  pub QuietCall-KeepsChannels :
      {db db' : ClientDb Map} → QuietCall S L db db' → KeepsChannels db db'
  unfolding register_client unregister_client unregister_data_channel subscribe unsubscribe
      register_task abort_tasks
  QuietCall-KeepsChannels {db} (registered login addr) =
      register_loop-KeepsChannels db.supply login addr db
  QuietCall-KeepsChannels {db} (unregistered c live) = record {
    channels = refl;
    next_channel = refl;
    next = omega arith;
    fewer = λ p ch small h. (small, h);
  }
  QuietCall-KeepsChannels {db} (detached token) = record {
    channels = ground arith;
    next_channel = ground arith;
    next = ground arith;
    fewer = λ p ch small h. (ground (arith, small), ground (arith, h));
  }
  QuietCall-KeepsChannels {db} (subscribed max_depth topic c) =
      elim (Result-cases (prepare_topic max_depth topic)) [
        | inr (e, never) ↦ rw (never, subscribe) (all_kept db)
        | inl (t, prepared) ↦
            rw (prepared, subscribe)
              (record {
                channels = refl;
                next_channel = refl;
                next = omega arith;
                fewer = λ p ch small h. (small, h);
              })
      ]
  QuietCall-KeepsChannels {db} (unsubscribed max_depth topic c) =
      elim (Result-cases (prepare_topic max_depth topic)) [
        | inr (e, never) ↦ rw (never, unsubscribe) (all_kept db)
        | inl (t, prepared) ↦
            rw (prepared, unsubscribe)
              (record {
                channels = refl;
                next_channel = refl;
                next = omega arith;
                fewer = λ p ch small h. (small, h);
              })
      ]
  QuietCall-KeepsChannels {db} (spawned c task) = record {
    channels = refl;
    next_channel = refl;
    next = omega arith;
    fewer = λ p ch small h. (small, ground (arith, h));
  }
  QuietCall-KeepsChannels {db} (aborted c) = record {
    channels = refl;
    next_channel = refl;
    next = omega arith;
    fewer = λ p ch small h. (small, ground (arith, h));
  }

  pub QuietCall-WellFormed :
      {db db' : ClientDb Map} → QuietCall S L db db' → WellFormed S L db → WellFormed S L db'
  unfolding register_task
  QuietCall-WellFormed (registered login addr) w = register_client-WellFormed S L login addr w
  QuietCall-WellFormed (unregistered c live) w = unregister_client-WellFormed S L c live w
  QuietCall-WellFormed (detached token) w = unregister_data_channel-WellFormed S L token w
  QuietCall-WellFormed (subscribed max_depth topic c) w =
      subscribe-WellFormed S L max_depth topic c w
  QuietCall-WellFormed (unsubscribed max_depth topic c) w =
      unsubscribe-WellFormed S L max_depth topic c w
  QuietCall-WellFormed {db} (spawned c task) w =
      SameLinks-WellFormed S L {db = db}
        (record { table = refl; next = refl; tokens = λ k. ground arith; clients = λ k. refl }) w
  QuietCall-WellFormed (aborted c) w = abort_tasks-WellFormed S L c w
