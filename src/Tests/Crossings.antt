-- ===== src/Tests/Crossings.antt =====
-- Two tasks that cross: a message is pushed while a data stream is launched and takes messages; and
-- a message that is pushed to a client that has room.
use psrt.Prelude.{
  ◌≡◌, ◌≤◌, refl, true, none, some, [], ◌∷◌, ◌++◌, All, arith, length, if◌then◌else◌,
}
use psrt.Prelude.Bytes.{Bytes, codes}
use psrt.Prelude.Assoc.{lookup}
use psrt.PubSub.Submap.{holds_digest}
use psrt.PubSub.Store.{ServerClientData, MessageFrame, is_full}
use psrt.PubSub.Db.{
  data_of, register_client, register_data_channel, subscribe, get_subscribers, new_channel,
}
use psrt.Acl.{matches_chunks}
use psrt.Prelude.Split.{split_on}
use psrt.Push.{message_frame, push_one, push_to_subscribers}
use psrt.Push.Delivery.{Holds, push_to_subscribers-delivers}
use psrt.Traffic.{
  Traffic, TrafficReach, start, next, calls, opens, attaches, publishes, picks, pushes, receives,
  registered, subscribed, new_traffic, called, opened, attached, publishing, picking, pushed,
  received,
}
use psrt.Traffic.Invariant.{Came}
use psrt.Traffic.Histories.{holders, reachable-Histories}
use psrt.Tests.ListedMap.{ListedMap, listed_map}
use psrt.Tests.ListedLaws.{listed_laws}
use psrt.Tests.Database.{ann, subscribed_db, subscribed_db-WellFormed}

abbrev blank : ServerClientData
blank = record { login = []; addr = []; token = []; data_channel = none; tasks = [] }

abbrev token : Bytes
token = 1 ∷ 2 ∷ []

abbrev t0 : Traffic ListedMap
t0 = new_traffic listed_map listed_laws (λ p. blank) (token ∷ [])

-- `ann` logs in and a channel is made; she subscribes, and the channel is registered.
abbrev t1 : Traffic ListedMap
t1 =
    called listed_map listed_laws (register_client listed_map (codes "ann") (codes "host") t0.db).1
      t0

abbrev t2 : Traffic ListedMap
t2 = opened listed_map listed_laws 2 t1

abbrev t3 : Traffic ListedMap
t3 = called listed_map listed_laws (subscribe listed_map 5 (codes "a/+") ann t2.db).1 t2

abbrev t4 : Traffic ListedMap
t4 = attached listed_map listed_laws token 0 t3

-- The task 7 publishes, reads her channel and pushes; the message is taken.
abbrev t5 : Traffic ListedMap
t5 = publishing listed_map listed_laws 7 127 (codes "a/b") (codes "hot") 9 t4

abbrev t6 : Traffic ListedMap
t6 = picking listed_map listed_laws 7 ann [] t5

abbrev t7 : Traffic ListedMap
t7 = pushed listed_map listed_laws 7 ann (some 0) t6

abbrev hot : MessageFrame
hot = message_frame 127 (codes "a/b") (codes "hot") 9

abbrev t8 : Traffic ListedMap
t8 = received listed_map listed_laws 0 hot [] t7

held : t3.is_held 0 ≡ true
unfolding new_channel register_client subscribe
held = refl

left : (t5.pushing 7).left ≡ ann ∷ []
unfolding new_channel register_client subscribe register_data_channel matches_chunks split_on
left = refl

chosen : (t6.pushing 7).chosen ≡ some (ann, some 0)
unfolding new_channel register_client subscribe register_data_channel lookup
chosen = refl

waiting : (t7.db.channels 0).queue ≡ hot ∷ []
unfolding new_channel register_client subscribe register_data_channel lookup push_one
waiting = refl

crossed : TrafficReach listed_map listed_laws t0 t8
crossed =
    next
      (next
        (next
          (next
            (next
              (next (next (next start (calls (registered (codes "ann") (codes "host")))) (opens 2))
                (calls (subscribed 5 (codes "a/+") ann)))
              (attaches token 0 held))
            (publishes 7 127 (codes "a/b") (codes "hot") 9 refl refl))
          (picks 7 ann [] refl left))
        (pushes 7 ann (some 0) chosen))
      (receives 0 hot [] waiting)

reachable-Histories_example :
    (holders t8.db.next t8.db.heap 0 ≤ 1)
    × (length (t8.db.channels 0).queue ≤ (t8.db.channels 0).capacity)
    × (t8.taken 0 ++ (t8.db.channels 0).queue ≡ t8.accepted 0)
    × All (Came t8.owner t8.published 0) (t8.accepted 0)
reachable-Histories_example =
    reachable-Histories listed_map listed_laws (λ p. blank) (token ∷ []) crossed 0

hot_taken : t8.taken 0 ≡ hot ∷ []
unfolding new_channel register_client subscribe register_data_channel lookup
hot_taken = refl

pub ann-Holds : Holds listed_map listed_laws ann 0 subscribed_db
unfolding register_client register_data_channel subscribe listed_laws
ann-Holds = record {
  well_formed = subscribed_db-WellFormed;
  registered = refl;
  alone = λ p small own. omega (arith, small);
}

push_to_subscribers-delivers_example :
    ((data_of ann (
        push_to_subscribers
          (get_subscribers listed_map (codes "a/b") subscribed_db)
          127
          (codes "a/b")
          (codes "hot")
          9
          subscribed_db)).data_channel
      ≡ some 0)
    × (((push_to_subscribers
            (get_subscribers listed_map (codes "a/b") subscribed_db)
            127
            (codes "a/b")
            (codes "hot")
            9
            subscribed_db).channels
          0).queue
        ≡ (if holds_digest ann.digest (get_subscribers listed_map (codes "a/b") subscribed_db)
            then (subscribed_db.channels 0).queue ++ hot ∷ []
            else (subscribed_db.channels 0).queue))
unfolding register_client register_data_channel subscribe
push_to_subscribers-delivers_example =
    push_to_subscribers-delivers listed_map listed_laws ann 0 127 (codes "a/b") (codes "hot") 9
      subscribed_db ann-Holds refl (unfold is_full in refl) refl
