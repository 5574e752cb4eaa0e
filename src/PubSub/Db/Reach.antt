-- ===== src/PubSub/Db/Reach.antt =====
-- Every database that the calls of the tasks lead to is well formed.
use psrt.Prelude.{ℕ, List}
use psrt.Prelude.Bytes.{Bytes}
use psrt.PubSub.Submap.{ServerClient, SubMap, SubMapLaws}
use psrt.PubSub.Store.{ServerClientData, Channel}
use psrt.PubSub.Db.{
  ClientDb, abort_tasks, register_data_channel, unregister_data_channel, new_db, register_client,
  unregister_client, subscribe, unsubscribe,
}
use psrt.PubSub.Db.Invariant.{
  WellFormed, IsLive, new_db-WellFormed, unregister_client-WellFormed,
  register_data_channel-WellFormed, unregister_data_channel-WellFormed, subscribe-WellFormed,
  unsubscribe-WellFormed, abort_tasks-WellFormed,
}
use psrt.PubSub.Db.Enlisting.{register_client-WellFormed}

module _ {Map : Type 0} (S : SubMap Map) (L : SubMapLaws S) where
  -- One call of a method of the database by some task, with the handle of a client that is in it
  -- where the client is removed.
  pub data DbStep (db : ClientDb Map) : ClientDb Map → Type 0 where
    registered : (login addr : Bytes) → DbStep db (register_client S login addr db).1
    unregistered : (c : ServerClient) → IsLive S L c db → DbStep db (unregister_client S c db)
    attached : (token : Bytes) (channel : ℕ) → DbStep db (register_data_channel token channel db).1
    detached : (token : Bytes) → DbStep db (unregister_data_channel token db)
    subscribed :
        (max_depth : ℕ) (topic : Bytes) (c : ServerClient)
        → DbStep db (subscribe S max_depth topic c db).1
    unsubscribed :
        (max_depth : ℕ) (topic : Bytes) (c : ServerClient)
        → DbStep db (unsubscribe S max_depth topic c db).1
    aborted : (c : ServerClient) → DbStep db (abort_tasks c db)

  pub data DbReach (db : ClientDb Map) : ClientDb Map → Type 0 where
    start : DbReach db db
    next : {a b : ClientDb Map} → DbReach db a → DbStep a b → DbReach db b

  pub DbStep-WellFormed : {a b : ClientDb Map} → DbStep a b → WellFormed S L a → WellFormed S L b
  DbStep-WellFormed (registered login addr) w = register_client-WellFormed S L login addr w
  DbStep-WellFormed (unregistered c live) w = unregister_client-WellFormed S L c live w
  DbStep-WellFormed (attached token channel) w =
      register_data_channel-WellFormed S L token channel w
  DbStep-WellFormed (detached token) w = unregister_data_channel-WellFormed S L token w
  DbStep-WellFormed (subscribed max_depth topic c) w = subscribe-WellFormed S L max_depth topic c w
  DbStep-WellFormed (unsubscribed max_depth topic c) w =
      unsubscribe-WellFormed S L max_depth topic c w
  DbStep-WellFormed (aborted c) w = abort_tasks-WellFormed S L c w

  DbReach-WellFormed : {a b : ClientDb Map} → WellFormed S L a → DbReach a b → WellFormed S L b
  DbReach-WellFormed w start = w
  DbReach-WellFormed w (next r s) = DbStep-WellFormed s (DbReach-WellFormed w r)

  -- However the tasks interleave their calls on a database that starts empty, the table of tokens
  -- and the subscription map list the same clients: each entry of the table holds its token, has
  -- the digest of that token, and is registered in the map under it; each client of the map is
  -- listed under its token.
  pub reachable-WellFormed :
      (heap : ℕ → ServerClientData) (channels : ℕ → Channel) (supply : List Bytes)
      {db : ClientDb Map}
      → DbReach (new_db S heap channels supply) db
      → WellFormed S L db
  reachable-WellFormed heap channels supply r =
      DbReach-WellFormed (new_db-WellFormed S L heap channels supply) r
