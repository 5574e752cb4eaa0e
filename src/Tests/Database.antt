-- ===== src/Tests/Database.antt =====
-- A database with one client, its data channel and its subscription.
use psrt.Prelude.{◌≡◌, ◌↔◌, ◌⊎◌, refl, true, false, none, some, [], ◌∷◌, arith}
use psrt.Prelude.Bytes.{codes}
use psrt.Prelude.Split.{split_on}
use psrt.Fault.{ok, err, error_access, text}
use psrt.Topic.{slash, prepare_topic}
use psrt.Acl.{matches_chunks}
use psrt.PubSub.Submap.{ServerClient, holds_digest}
use psrt.PubSub.Store.{ServerClientData, bounded}
use psrt.PubSub.Db.{
  ClientDb, data_of, new_db, register_client, register_data_channel, unregister_client, subscribe,
  get_subscribers,
}
use psrt.PubSub.Db.Invariant.{WellFormed, IsLive}
use psrt.PubSub.Db.Reach.{
  DbReach, start, next, registered, attached, subscribed, reachable-WellFormed,
}
use psrt.PubSub.Db.Access.{unregister_client-forgets, subscribe-get_subscribers}
use psrt.Push.{push_to_subscribers}
use psrt.Push.Queues.{QueuesFit}
use psrt.Tests.ListedMap.{ListedMap, listed_map}
use psrt.Tests.ListedLaws.{listed_laws}

abbrev blank : ServerClientData
blank = record { login = []; addr = []; token = []; data_channel = none; tasks = [] }

-- Every channel of the heap takes one message; the generator will give two tokens.
abbrev pub empty_db : ClientDb ListedMap
empty_db = new_db listed_map (λ k. blank) (λ k. bounded 1) ((1 ∷ 2 ∷ []) ∷ (3 ∷ 4 ∷ []) ∷ [])

abbrev pub ann : ServerClient
ann = record { digest = 1 ∷ 2 ∷ []; at = 0 }

-- `ann` is registered.
abbrev pub one_client : ClientDb ListedMap
one_client = (register_client listed_map (codes "ann") (codes "host") empty_db).1

ann_registered : (register_client listed_map (codes "ann") (codes "host") empty_db).0 ≡ ok ann
unfolding register_client
ann_registered = refl

-- She has a data channel, and then a subscription.
abbrev pub attached_db : ClientDb ListedMap
attached_db = (register_data_channel (1 ∷ 2 ∷ []) 0 one_client).1

abbrev pub subscribed_db : ClientDb ListedMap
subscribed_db = (subscribe listed_map 5 (codes "/a//+") ann attached_db).1

pub reached : DbReach listed_map listed_laws empty_db subscribed_db
reached =
    next (next (next start (registered (codes "ann") (codes "host"))) (attached (1 ∷ 2 ∷ []) 0))
      (subscribed 5 (codes "/a//+") ann)

reachable-WellFormed_example : WellFormed listed_map listed_laws subscribed_db
reachable-WellFormed_example =
    reachable-WellFormed listed_map listed_laws (λ k. blank) (λ k. bounded 1)
      ((1 ∷ 2 ∷ []) ∷ (3 ∷ 4 ∷ []) ∷ []) reached

pub subscribed_db-WellFormed : WellFormed listed_map listed_laws subscribed_db
subscribed_db-WellFormed =
    reachable-WellFormed listed_map listed_laws (λ k. blank) (λ k. bounded 1)
      ((1 ∷ 2 ∷ []) ∷ (3 ∷ 4 ∷ []) ∷ []) reached

ann_attached : (register_data_channel (1 ∷ 2 ∷ []) 0 one_client).0 ≡ ok (0, ann)
unfolding register_client register_data_channel
ann_attached = refl

pub ann_known : listed_laws.client_of attached_db.submap ann.digest ≡ some ann
unfolding listed_laws register_client register_data_channel
ann_known = refl

wanted_prepared : prepare_topic 5 (codes "/a//+") ≡ ok (codes "a/+")
unfolding prepare_topic
wanted_prepared = refl

subscribe-get_subscribers_example :
    (holds_digest (1 ∷ 2 ∷ []) (get_subscribers listed_map (codes "a/b") subscribed_db) ≡ true) ↔ (
      (holds_digest (1 ∷ 2 ∷ []) (get_subscribers listed_map (codes "a/b") attached_db) ≡ true)
      ⊎ ((1 ∷ 2 ∷ [] ≡ ann.digest)
          × (matches_chunks (split_on slash (codes "a/b")) (split_on slash (codes "a/+")) ≡ true)))
subscribe-get_subscribers_example =
    subscribe-get_subscribers listed_map listed_laws 5 (codes "/a//+") ann ann attached_db
      wanted_prepared ann_known (codes "a/b") (1 ∷ 2 ∷ [])

ann-IsLive : IsLive listed_map listed_laws ann subscribed_db
unfolding register_client register_data_channel subscribe
ann-IsLive = refl

unregister_client-forgets_example :
    (register_data_channel
        (data_of ann subscribed_db).token
        7
        (unregister_client listed_map ann subscribed_db)
      ≡ (
        err (error_access (text "data channel access denied" ∷ [])),
        unregister_client listed_map ann subscribed_db,
      ))
    × (holds_digest ann.digest (
          get_subscribers listed_map (codes "a/b") (unregister_client listed_map ann subscribed_db))
        ≡ false)
unregister_client-forgets_example =
    unregister_client-forgets listed_map listed_laws ann subscribed_db ann-IsLive
      subscribed_db-WellFormed 7 (codes "a/b")

pub queues_fit : QueuesFit subscribed_db
unfolding register_client register_data_channel subscribe
queues_fit ch = omega arith

-- The second message does not fit: the channel is taken from the client.
push_twice :
    (data_of ann (
      push_to_subscribers
        (ann ∷ ann ∷ [])
        7
        (codes "a/b")
        (9 ∷ [])
        1000
        subscribed_db)).data_channel
    ≡ none
unfolding register_client register_data_channel subscribe push_to_subscribers
push_twice = refl
