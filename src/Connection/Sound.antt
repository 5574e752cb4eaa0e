-- ===== src/Connection/Sound.antt =====
-- The operations that a connection makes on the database outside its commands keep it sound.
use psrt.Prelude.{ℕ, refl, arith}
use psrt.Prelude.Bytes.{Bytes}
use psrt.PubSub.Submap.{ServerClient, SubMap, SubMapLaws}
use psrt.PubSub.Db.{
  ClientDb, new_channel, register_data_channel, register_task, abort_tasks, register_client,
  unregister_client,
}
use psrt.PubSub.Db.Invariant.{
  SameLinks-WellFormed, IsLive, unregister_client-WellFormed, register_data_channel-WellFormed,
  abort_tasks-WellFormed,
}
use psrt.PubSub.Db.Enlisting.{register_client-WellFormed}
use psrt.PubSub.Db.Registered.{register_client-channels}
use psrt.PubSub.Db.Access.{register_data_channel-channels}
use psrt.Server.{Session}
use psrt.Control.Keeping.{IsSound}
use psrt.Connection.{close_channel}

module _ {Map : Type 0} (S : SubMap Map) (L : SubMapLaws S) where
  pub register_client-IsSound :
      (login addr : Bytes) (db : ClientDb Map)
      → IsSound S L db
      → IsSound S L (register_client S login addr db).1
  register_client-IsSound login addr db h = (
    register_client-WellFormed S L login addr h.0,
    rw (register_client-channels S login addr db) h.1,
  )

  pub unregister-IsSound :
      (c : ServerClient) (db : ClientDb Map)
      → IsLive S L c db
      → IsSound S L db
      → IsSound S L (abort_tasks c (unregister_client S c db))
  unfolding abort_tasks unregister_client
  unregister-IsSound c db live h =
      (abort_tasks-WellFormed S L c (unregister_client-WellFormed S L c live h.0), λ ch. h.1 ch)

  pub new_channel-IsSound :
      (capacity : ℕ) (db : ClientDb Map) → IsSound S L db → IsSound S L (new_channel capacity db).1
  unfolding new_channel
  new_channel-IsSound capacity db h = (
    SameLinks-WellFormed S L {db = db}
        (record { table = refl; next = refl; tokens = λ k. refl; clients = λ k. refl }) h.0,
    λ ch. ground (arith, h.1 ch),
  )

  pub register_data_channel-IsSound :
      (token : Bytes) (channel : ℕ) (db : ClientDb Map)
      → IsSound S L db
      → IsSound S L (register_data_channel token channel db).1
  register_data_channel-IsSound token channel db h = (
    register_data_channel-WellFormed S L token channel h.0,
    rw (register_data_channel-channels token channel db) h.1,
  )

  pub register_task-IsSound :
      (c : ServerClient) (task : ℕ) (db : ClientDb Map)
      → IsSound S L db
      → IsSound S L (register_task c task db)
  unfolding register_task
  register_task-IsSound c task db h = (
    SameLinks-WellFormed S L {db = db}
        (record { table = refl; next = refl; tokens = λ k. ground arith; clients = λ k. refl }) h.0,
    λ ch. h.1 ch,
  )

  pub close_channel-IsSound :
      (ch : ℕ) (s : Session Map) → IsSound S L s.db → IsSound S L (close_channel ch s).db
  close_channel-IsSound ch s h = (
    SameLinks-WellFormed S L {db = s.db}
        (record { table = refl; next = refl; tokens = λ k. refl; clients = λ k. refl }) h.0,
    λ j. ground (arith, h.1 j, h.1 ch),
  )
