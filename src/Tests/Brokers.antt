-- ===== src/Tests/Brokers.antt =====
-- A run of calls on the database, against the broker.
use psrt.Prelude.{◌≡◌, ◌↔◌, refl, true, false, List, [], ◌∷◌}
use psrt.Prelude.Bytes.{Bytes, codes, beq}
use psrt.Prelude.Split.{split_on}
use psrt.Topic.{slash}
use psrt.Acl.{matches_chunks}
use psrt.PubSub.Submap.{ServerClient, holds_digest}
use psrt.PubSub.Db.{get_subscribers}
use psrt.PubSub.Db.Broker.{
  Call, join, leave, sub, unsub, attach_channel, detach_channel, stop_tasks, AreAllowed, replay_all,
  run_all, idle, run_all-refines,
}
use psrt.Tests.ListedMap.{listed_map}
use psrt.Tests.ListedLaws.{listed_laws}
use psrt.Tests.Database.{empty_db, ann}

abbrev bob : ServerClient
bob = record { digest = 3 ∷ 4 ∷ []; at = 1 }

-- Both clients subscribe, and `ann` leaves.
abbrev calls : List Call
calls =
    join (codes "ann") (codes "host")
    ∷ sub 5 (codes "/a//+") ann
    ∷ attach_channel (1 ∷ 2 ∷ []) 0
    ∷ join (codes "bob") (codes "host")
    ∷ sub 5 (codes "a/#") bob
    ∷ sub 5 (codes "b") bob
    ∷ leave ann
    ∷ stop_tasks ann
    ∷ unsub 5 (codes "/b") bob
    ∷ detach_channel (3 ∷ 4 ∷ [])
    ∷ []

calls_allowed : AreAllowed listed_map listed_laws calls empty_db
unfolding run_all listed_laws
calls_allowed =
    (tt, ((ann, refl), (tt, (tt, ((bob, refl), ((bob, refl), (tt, (tt, (tt, (tt, tt))))))))))

run_all-refines_example :
    (holds_digest bob.digest
        (get_subscribers listed_map (codes "a/x") (run_all listed_map calls empty_db))
      ≡ true)
    ↔ ((t : Bytes) × (replay_all calls idle bob.digest t ≡ true)
        × (matches_chunks (split_on slash (codes "a/x")) (split_on slash t) ≡ true))
run_all-refines_example =
    run_all-refines listed_map listed_laws empty_db.heap empty_db.channels empty_db.supply calls
      calls_allowed (codes "a/x") bob.digest

left_and_kept :
    (replay_all calls idle (3 ∷ 4 ∷ []) (codes "a/#") ≡ true)
    × (replay_all calls idle (3 ∷ 4 ∷ []) (codes "b") ≡ false)
    × (replay_all calls idle (1 ∷ 2 ∷ []) (codes "a/+") ≡ false)
unfolding replay_all beq
left_and_kept = (refl, refl, refl)
