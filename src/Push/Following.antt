-- ===== src/Push/Following.antt =====
-- What a push to one client leaves of the database, and of the channels of others.
use psrt.Prelude.{ℕ, ◌≡◌, ◌≢◌, refl, false, Option, none, some, arith, Bool-cases, inl, inr}
use psrt.Prelude.Assoc.{lookup}
use psrt.PubSub.Submap.{ServerClient}
use psrt.PubSub.Store.{MessageFrame, is_full, send}
use psrt.PubSub.Db.{ClientDb, data_of, abort_tasks, unregister_data_channel}
use psrt.Push.{drop_channel, push_one}

module _ {Map : Type 0} where
  -- What a push leaves of the database: data channels only go away.
  pub record Follows (db db' : ClientDb Map) : Type 0 where
    pub table : db'.clients_by_token ≡ db.clients_by_token
    pub next : db'.next ≡ db.next
    pub submap : db'.submap ≡ db.submap
    pub tokens : (p : ℕ) → (db'.heap p).token ≡ (db.heap p).token
    pub fewer :
        (p ch : ℕ) → (db'.heap p).data_channel ≡ some ch → (db.heap p).data_channel ≡ some ch

  drop_channel-Follows : (s : ServerClient) (db : ClientDb Map) → Follows db (drop_channel s db)
  unfolding abort_tasks unregister_data_channel
  drop_channel-Follows s db = record {
    table = ground arith;
    next = ground arith;
    submap = ground arith;
    tokens = λ p. ground arith;
    fewer = λ p ch h. ground (arith, h);
  }

  pub push_one-Follows :
      (message : MessageFrame) (s : ServerClient) (o : Option ℕ) (db : ClientDb Map)
      → Follows db (push_one message s o db)
  unfolding push_one
  push_one-Follows message s none db = record {
    table = refl;
    next = refl;
    submap = refl;
    tokens = λ p. refl;
    fewer = λ p ch h. h;
  }
  push_one-Follows message s (some dc) db = elim (Bool-cases (is_full (db.channels dc))) [
    | inl full ↦ rw (full, push_one) (drop_channel-Follows s db)
    | inr room ↦
        rw (room, push_one)
          (record {
            table = refl;
            next = refl;
            submap = refl;
            tokens = λ p. refl;
            fewer = λ p ch h. h;
          })
  ]

  -- A push to one client leaves the data of another and a channel that is not its own as they were.
  pub push_one-apart :
      (message : MessageFrame) (s x : ServerClient) (ch : ℕ) (o : Option ℕ) (db : ClientDb Map)
      → lookup (data_of s db).token db.clients_by_token ≡ some s
      → s.at ≢ x.at
      → o ≢ some ch
      → ((push_one message s o db).heap x.at ≡ db.heap x.at)
        × ((push_one message s o db).channels ch ≡ db.channels ch)
  unfolding push_one abort_tasks unregister_data_channel
  push_one-apart message s x ch none db live apart other = (refl, refl)
  push_one-apart message s x ch (some dc) db live apart other =
      elim (Bool-cases (is_full (db.channels dc))) [
        | inl full ↦ (ground (arith, full, live, apart), ground (arith, full, live))
        | inr room ↦ (ground (arith, room), ground (arith, room, other))
      ]

  -- A push to the client itself, whose channel has room.
  pub push_one-own :
      (message : MessageFrame) (x : ServerClient) (ch : ℕ) (db : ClientDb Map)
      → is_full (db.channels ch) ≡ false
      → ((push_one message x (some ch) db).heap x.at ≡ db.heap x.at)
        × ((push_one message x (some ch) db).channels ch ≡ send message (db.channels ch))
  unfolding push_one
  push_one-own message x ch db room = (ground (arith, room), ground (arith, room))
