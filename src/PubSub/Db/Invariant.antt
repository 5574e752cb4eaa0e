-- ===== src/PubSub/Db/Invariant.antt =====
-- The table of tokens and the subscription map agree, and every operation keeps it so.
use psrt.Prelude.{
  ℕ, ◌<◌, ◌≡◌, refl, sym, ap, ◌∙◌, Option, none, some, List, [], arith, Option-cases, inl, inr,
}
use psrt.Prelude.Bytes.{Bytes, beq_iff}
use psrt.Prelude.Assoc.{lookup, lookup-remove}
use psrt.Fault.{Result-cases}
use psrt.Topic.{prepare_topic}
use psrt.PubSub.Submap.{ServerClient, SubMap, SubMapLaws}
use psrt.PubSub.Store.{ServerClientData, Channel, update}
use psrt.PubSub.Db.{
  ClientDb, data_of, set_data, abort_tasks, attach, register_data_channel, unregister_data_channel,
  new_db, unregister_client, subscribe, unsubscribe,
}

module _ {Map : Type 0} (S : SubMap Map) (L : SubMapLaws S) where
  open L use {client_of}

  -- What the table of tokens says of one of its entries.
  pub record IsListed (db : ClientDb Map) (t : Bytes) (c : ServerClient) : Type 0 where
    pub token : (db.heap c.at).token ≡ t
    pub digest : c.digest ≡ S.sha256 t
    pub mapped : client_of db.submap c.digest ≡ some c
    pub allocated : c.at < db.next

  pub record WellFormed (db : ClientDb Map) : Type 0 where
    pub listed :
        (t : Bytes) (c : ServerClient) → lookup t db.clients_by_token ≡ some c → IsListed db t c
    pub known :
        (d : Bytes) (c : ServerClient)
        → client_of db.submap d ≡ some c
        → (c.digest ≡ d) × (lookup (db.heap c.at).token db.clients_by_token ≡ some c)

  pub new_db-WellFormed :
      (heap : ℕ → ServerClientData) (channels : ℕ → Channel) (supply : List Bytes)
      → WellFormed (new_db S heap channels supply)
  unfolding lookup
  new_db-WellFormed heap channels supply = record {
    listed = λ t c h. cc;
    known = λ d c h. cc (L.client_of-new d);
  }

  update-token :
      (heap : ℕ → ServerClientData) (k : ℕ) (d : ServerClientData)
      → d.token ≡ (heap k).token
      → (j : ℕ) → (update heap k d j).token ≡ (heap j).token
  update-token heap k d e j = ground arith

  -- Whatever keeps the table, the tokens of the objects and the registered clients keeps the
  -- invariant.
  pub record SameLinks (db db' : ClientDb Map) : Type 0 where
    pub table : db'.clients_by_token ≡ db.clients_by_token
    pub next : db'.next ≡ db.next
    pub tokens : (k : ℕ) → (db'.heap k).token ≡ (db.heap k).token
    pub clients : (d : Bytes) → client_of db'.submap d ≡ client_of db.submap d

  pub SameLinks-WellFormed :
      {db db' : ClientDb Map} → SameLinks db db' → WellFormed db → WellFormed db'
  SameLinks-WellFormed {db} {db'} same w = record {
    listed = λ t c h.
        let l = w.listed t c (ap (lookup t) (sym same.table) ∙ h) in
        record {
          token = same.tokens c.at ∙ l.token;
          digest = l.digest;
          mapped = same.clients c.digest ∙ l.mapped;
          allocated = rw same.next l.allocated;
        };
    known = λ d c h.
        let (a, b) = w.known d c (sym (same.clients d) ∙ h) in
        (a, rw (same.table, same.tokens c.at) b);
  }

  set_data-SameLinks :
      (db : ClientDb Map) (c : ServerClient) (d : ServerClientData)
      → d.token ≡ (db.heap c.at).token
      → SameLinks db (set_data c d db)
  set_data-SameLinks db c d e = record {
    table = refl;
    next = refl;
    tokens = update-token db.heap c.at d e;
    clients = λ k. refl;
  }

  pub register_data_channel-WellFormed :
      (token : Bytes) (channel : ℕ) {db : ClientDb Map}
      → WellFormed db
      → WellFormed (register_data_channel token channel db).1
  unfolding register_data_channel
  register_data_channel-WellFormed token channel {db} w =
      elim (Option-cases (lookup token db.clients_by_token)) [
        | inl e ↦ rw (e, register_data_channel) w
        | inr (c, e) ↦ rw (e, register_data_channel) (go c (data_of c db).data_channel)
      ]
    where
      go : (c : ServerClient) (o : Option ℕ) → WellFormed (attach c channel o db).1
      go c (some old) = w
      go c none =
          SameLinks-WellFormed
            (set_data-SameLinks db c (record (data_of c db) { data_channel = some channel }) refl) w

  pub unregister_data_channel-WellFormed :
      (token : Bytes) {db : ClientDb Map}
      → WellFormed db
      → WellFormed (unregister_data_channel token db)
  unfolding unregister_data_channel
  unregister_data_channel-WellFormed token {db} w =
      elim (Option-cases (lookup token db.clients_by_token)) [
        | inl e ↦ rw (e, unregister_data_channel) w
        | inr (c, e) ↦
            rw (e, unregister_data_channel)
              (SameLinks-WellFormed
                (set_data-SameLinks db c (record (data_of c db) { data_channel = none }) refl) w)
      ]

  pub abort_tasks-WellFormed :
      (c : ServerClient) {db : ClientDb Map} → WellFormed db → WellFormed (abort_tasks c db)
  unfolding abort_tasks
  abort_tasks-WellFormed c {db} w =
      SameLinks-WellFormed {db = db}
        (record {
          table = refl;
          next = refl;
          tokens = update-token db.heap c.at (record (data_of c db) { tasks = [] }) refl;
          clients = λ k. refl;
        })
        w

  pub subscribe-WellFormed :
      (max_depth : ℕ) (topic : Bytes) (c : ServerClient) {db : ClientDb Map}
      → WellFormed db
      → WellFormed (subscribe S max_depth topic c db).1
  unfolding subscribe
  subscribe-WellFormed max_depth topic c {db} w =
      elim (Result-cases (prepare_topic max_depth topic)) [
        | inr (e, h) ↦ rw (h, subscribe) w
        | inl (t, h) ↦
            rw (h, subscribe)
              (SameLinks-WellFormed {db = db}
                (record {
                  table = refl;
                  next = refl;
                  tokens = λ k. refl;
                  clients = L.client_of-subscribe t c db.submap;
                })
                w)
      ]

  pub unsubscribe-WellFormed :
      (max_depth : ℕ) (topic : Bytes) (c : ServerClient) {db : ClientDb Map}
      → WellFormed db
      → WellFormed (unsubscribe S max_depth topic c db).1
  unfolding unsubscribe
  unsubscribe-WellFormed max_depth topic c {db} w =
      elim (Result-cases (prepare_topic max_depth topic)) [
        | inr (e, h) ↦ rw (h, unsubscribe) w
        | inl (t, h) ↦
            rw (h, unsubscribe)
              (SameLinks-WellFormed {db = db}
                (record {
                  table = refl;
                  next = refl;
                  tokens = λ k. refl;
                  clients = L.client_of-unsubscribe t c db.submap;
                })
                w)
      ]

  -- A handle that the table lists under its own token.
  abbrev pub IsLive : ServerClient → ClientDb Map → Type 0
  IsLive c db = lookup (data_of c db).token db.clients_by_token ≡ some c

  pub unregister_client-WellFormed :
      (c : ServerClient) {db : ClientDb Map}
      → IsLive c db
      → WellFormed db
      → WellFormed (unregister_client S c db)
  unfolding unregister_client
  unregister_client-WellFormed c {db} live w =
      let token = (data_of c db).token in
      let own = w.listed token c live in
      record {
        listed = λ t b h.
            let gone = lookup-remove token t db.clients_by_token in
            let l = w.listed t b (ground (arith, gone)) in
            record {
              token = l.token;
              digest = l.digest;
              mapped = ground (
                arith,
                gone,
                own.mapped,
                own.token,
                l.mapped,
                l.token,
                L.client_of-unregister c db.submap b.digest,
                beq_iff c.digest b.digest,
                beq_iff token t,
              );
              allocated = l.allocated;
            };
        known = λ d b h.
            let left = L.client_of-unregister c db.submap d in
            let (digest, found) = w.known d b (ground (arith, left)) in
            let gone = lookup-remove token (db.heap b.at).token db.clients_by_token in
            (
              digest,
              ground (
                arith,
                gone,
                left,
                found,
                live,
                beq_iff c.digest d,
                beq_iff token (db.heap b.at).token,
              ),
            );
      }
