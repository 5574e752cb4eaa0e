-- ===== src/Connection/Live.antt =====
-- The client of a connection stays listed under its token as long as its handler runs.
use psrt.Prelude.{
  ℕ, ◌≡◌, refl, ◌∙◌, Option, none, some, List, [], ◌∷◌, arith, Bool-cases, Option-cases, inl, inr,
}
use psrt.Prelude.Bytes.{Bytes}
use psrt.Prelude.Assoc.{lookup}
use psrt.PubSub.Submap.{ServerClient, SubMap, SubMapLaws}
use psrt.PubSub.Store.{MessageFrame, is_full, ServerClientData}
use psrt.PubSub.Db.{
  ClientDb, data_of, abort_tasks, unregister_data_channel, set_data, subscribe, unsubscribe,
}
use psrt.PubSub.Db.Invariant.{IsLive}
use psrt.Push.{message_frame, push_one, push_all, push_to_subscribers}
use psrt.Control.{Control}
use psrt.Control.Kept.{KeptBy}
use psrt.Control.Keeping.{IsSound, IsSound-KeptBy}

module _ {Map : Type 0} where
  -- No token changes its place.
  pub record TokensKept (db db' : ClientDb Map) : Type 0 where
    pub table : db'.clients_by_token ≡ db.clients_by_token
    pub tokens : (k : ℕ) → (db'.heap k).token ≡ (db.heap k).token

  TokensKept-trans : {a b c : ClientDb Map} → TokensKept a b → TokensKept b c → TokensKept a c
  TokensKept-trans p q = record { table = q.table ∙ p.table; tokens = λ k. q.tokens k ∙ p.tokens k }

  set_data-TokensKept :
      (c : ServerClient) (d : ServerClientData) (db : ClientDb Map)
      → d.token ≡ (db.heap c.at).token
      → TokensKept db (set_data c d db)
  set_data-TokensKept c d db e = record { table = refl; tokens = λ k. ground arith }

  abort_tasks-TokensKept : (c : ServerClient) (db : ClientDb Map) → TokensKept db (abort_tasks c db)
  unfolding abort_tasks
  abort_tasks-TokensKept c db =
      let kept = set_data-TokensKept c (record (data_of c db) { tasks = [] }) db refl in
      record { table = refl; tokens = kept.tokens }

  unregister_data_channel-TokensKept :
      (token : Bytes) (db : ClientDb Map) → TokensKept db (unregister_data_channel token db)
  unfolding unregister_data_channel
  unregister_data_channel-TokensKept token db =
      elim (Option-cases (lookup token db.clients_by_token)) [
        | inl e ↦ rw (e, unregister_data_channel) (record { table = refl; tokens = λ k. refl })
        | inr (c, e) ↦
            rw (e, unregister_data_channel)
              (set_data-TokensKept c (record (data_of c db) { data_channel = none }) db refl)
      ]

  push_one-TokensKept :
      (message : MessageFrame) (s : ServerClient) (o : Option ℕ) (db : ClientDb Map)
      → TokensKept db (push_one message s o db)
  unfolding push_one
  push_one-TokensKept message s none db = record { table = refl; tokens = λ k. refl }
  push_one-TokensKept message s (some dc) db = elim (Bool-cases (is_full (db.channels dc))) [
    | inr room ↦ rw (room, push_one) (record { table = refl; tokens = λ k. refl })
    | inl full ↦
        rw (full, push_one)
          (TokensKept-trans (unregister_data_channel-TokensKept (data_of s db).token db)
            (abort_tasks-TokensKept s (unregister_data_channel (data_of s db).token db)))
  ]

  push_all-TokensKept :
      (message : MessageFrame) (subscribers : List ServerClient) (db : ClientDb Map)
      → TokensKept db (push_all message subscribers db)
  unfolding push_all
  push_all-TokensKept message [] db = record { table = refl; tokens = λ k. refl }
  push_all-TokensKept message (s ∷ subscribers) db =
      TokensKept-trans (push_one-TokensKept message s (data_of s db).data_channel db) (
        push_all-TokensKept message subscribers (push_one message s (data_of s db).data_channel db))

module _ {Map : Type 0} (S : SubMap Map) (L : SubMapLaws S) where
  TokensKept-IsLive :
      (c : ServerClient) {db db' : ClientDb Map}
      → TokensKept db db'
      → IsLive S L c db
      → IsLive S L c db'
  TokensKept-IsLive c k live = rw (k.table, k.tokens c.at) live

  -- A sound database in which the client is listed.
  abbrev pub IsServed : ServerClient → ClientDb Map → Type 0
  IsServed c db = IsSound S L db × IsLive S L c db

  -- The commands of a connection keep it so.
  pub IsServed-KeptBy : (ctl : Control) (c : ServerClient) → KeptBy S ctl (IsServed c)
  unfolding subscribe unsubscribe push_to_subscribers
  IsServed-KeptBy ctl c =
      let sound = IsSound-KeptBy S L ctl in
      record {
        subscribing = λ topic db h. (sound.subscribing topic db h.0, ground (arith, h.1));
        unsubscribing = λ topic db h. (sound.unsubscribing topic db h.0, ground (arith, h.1));
        pushing = λ subscribers priority topic message timestamp db h. (
          sound.pushing subscribers priority topic message timestamp db h.0,
          TokensKept-IsLive c
              (push_all-TokensKept (message_frame priority topic message timestamp) subscribers db)
              h.1,
        );
      }
