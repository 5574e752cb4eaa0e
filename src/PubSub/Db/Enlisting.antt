-- ===== src/PubSub/Db/Enlisting.antt =====
-- Registering a client keeps the table of tokens and the subscription map in agreement.
use psrt.Prelude.{
  ◌≡◌, refl, true, false, none, List, [], ◌∷◌, arith, Bool-cases, Option-cases, inl, inr,
}
use psrt.Prelude.Bytes.{Bytes, beq, beq→eq, beq_iff, beq_refl}
use psrt.Prelude.Assoc.{lookup-insert}
use psrt.PubSub.Submap.{ServerClient, SubMap, SubMapLaws}
use psrt.PubSub.Store.{update}
use psrt.PubSub.Db.{ClientDb, fresh, offer, enlist, register_loop, register_client}
use psrt.PubSub.Db.Invariant.{WellFormed, SameLinks, SameLinks-WellFormed}

module _ {Map : Type 0} (S : SubMap Map) (L : SubMapLaws S) where
  open L use {client_of}

  -- A digest that the map accepts was not in use.
  unused :
      (c : ServerClient) (m : Map) → (S.register_client c m).0 ≡ true → client_of m c.digest ≡ none
  unused c m h = elim (Option-cases (client_of m c.digest)) [
    | inl e ↦ e
    | inr (b, e) ↦ cc (L.register_known c b m e).0
  ]

  enlist-WellFormed :
      (login addr token : Bytes) {db : ClientDb Map}
      → client_of db.submap (S.sha256 token) ≡ none
      → WellFormed S L db
      → WellFormed S L (enlist S login addr token db)
  enlist-WellFormed login addr token {db} free w =
      let c = offer S token db in
      let (_, later) = L.register_fresh c db.submap free in
      record {
        listed = λ t b h.
            let added = lookup-insert token t c db.clients_by_token in
            elim (Bool-cases (beq token t)) [
              | inl e ↦
                  let is_new : c ≡ b = ground (arith, added) in
                  let same : token ≡ t = beq→eq token t e in
                  record {
                    token = ground (arith, is_new, same);
                    digest = ground (arith, is_new, same);
                    mapped = ground (arith, is_new, later b.digest, beq_refl b.digest);
                    allocated = ground (arith, is_new);
                  }
              | inr n ↦
                  let l = w.listed t b (ground (arith, added)) in
                  record {
                    token = ground (arith, l.token, l.allocated);
                    digest = l.digest;
                    mapped =
                        ground (arith, later b.digest, l.mapped, beq_iff (S.sha256 token) b.digest);
                    allocated = omega (arith, l.allocated);
                  }
            ];
        known = λ d b h. elim (Bool-cases (beq (S.sha256 token) d)) [
          | inl e ↦
              let is_new : c ≡ b = ground (arith, later d) in
              let same : S.sha256 token ≡ d = beq→eq (S.sha256 token) d e in
              (
                ground (arith, is_new, same),
                ground (
                  arith,
                  is_new,
                  lookup-insert token (update db.heap db.next (fresh S login addr token) b.at).token
                      c db.clients_by_token,
                  beq_refl token,
                ),
              )
          | inr n ↦
              let (digest, found) = w.known d b (ground (arith, later d)) in
              let l = w.listed (db.heap b.at).token b found in
              (
                digest,
                ground (
                  arith,
                  found,
                  l.allocated,
                  l.digest,
                  l.mapped,
                  beq_iff token (db.heap b.at).token,
                  lookup-insert token (db.heap b.at).token c db.clients_by_token,
                ),
              )
        ];
      }

  supply-SameLinks :
      (db : ClientDb Map) (supply : List Bytes) → SameLinks S L db (record db { supply = supply })
  supply-SameLinks db supply = record {
    table = refl;
    next = refl;
    tokens = λ k. refl;
    clients = λ d. refl;
  }

  register_loop-WellFormed :
      (supply : List Bytes) (login addr : Bytes) {db : ClientDb Map}
      → WellFormed S L db
      → WellFormed S L (register_loop S supply login addr db).1
  unfolding register_loop
  register_loop-WellFormed [] login addr {db} w =
      SameLinks-WellFormed S L (supply-SameLinks db []) w
  register_loop-WellFormed (token ∷ supply) login addr {db} w =
      elim (Bool-cases (S.register_client (offer S token db) db.submap).0) [
        | inl e ↦
            rw (e, register_loop)
              (SameLinks-WellFormed S L (supply-SameLinks (enlist S login addr token db) supply)
                (enlist-WellFormed login addr token (unused (offer S token db) db.submap e) w))
        | inr n ↦ rw (n, register_loop) (register_loop-WellFormed supply login addr (again n))
      ]
    where
      again :
          (S.register_client (offer S token db) db.submap).0 ≡ false
          → WellFormed S L
              (record db { submap = (S.register_client (offer S token db) db.submap).1 })
      again n = elim (Option-cases (client_of db.submap (S.sha256 token))) [
        | inl e ↦ cc (L.register_fresh (offer S token db) db.submap e).0
        | inr (b, e) ↦
            SameLinks-WellFormed S L {db = db}
              (record {
                table = refl;
                next = refl;
                tokens = λ k. refl;
                clients = (L.register_known (offer S token db) b db.submap e).1;
              })
              w
      ]

  pub register_client-WellFormed :
      (login addr : Bytes) {db : ClientDb Map}
      → WellFormed S L db
      → WellFormed S L (register_client S login addr db).1
  unfolding register_client
  register_client-WellFormed login addr {db} w = register_loop-WellFormed db.supply login addr w
