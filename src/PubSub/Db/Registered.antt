-- ===== src/PubSub/Db/Registered.antt =====
-- What `register_client` leaves in the database.
use psrt.Prelude.{refl, ◌≡◌, sym, List, none, some, [], ◌∷◌, arith, Bool-cases, inl, inr}
use psrt.Prelude.Bytes.{Bytes, beq_refl}
use psrt.Prelude.Assoc.{lookup, lookup-insert}
use psrt.Fault.{ok}
use psrt.PubSub.Submap.{ServerClient, SubMap}
use psrt.PubSub.Db.{ClientDb, data_of, offer, register_loop, register_client}

module _ {Map : Type 0} (S : SubMap Map) where
  register_loop-listed :
      (supply : List Bytes) (login addr : Bytes) (db : ClientDb Map) {c : ServerClient}
      → (register_loop S supply login addr db).0 ≡ ok c
      → lookup
          (data_of c (register_loop S supply login addr db).1).token
          (register_loop S supply login addr db).1.clients_by_token
        ≡ some c
  unfolding register_loop
  register_loop-listed [] login addr db h = cc
  register_loop-listed (token ∷ supply) login addr db {c} h =
      let c' = offer S token db in
      elim (Bool-cases (S.register_client c' db.submap).0) [
        | inl e ↦
            let same : c' ≡ c = ground (arith, h, e) in
            rw (sym same) (
              rw (e, register_loop)
                (ground (arith, lookup-insert token token c' db.clients_by_token, beq_refl token)))
        | inr n ↦
            rw (n, register_loop)
              (register_loop-listed supply login addr
                (record db { submap = (S.register_client c' db.submap).1 }) (ground (arith, h, n)))
      ]

  -- A client that was registered is listed under its token.
  pub register_client-listed :
      (login addr : Bytes) (db : ClientDb Map) {c : ServerClient}
      → (register_client S login addr db).0 ≡ ok c
      → lookup
          (data_of c (register_client S login addr db).1).token
          (register_client S login addr db).1.clients_by_token
        ≡ some c
  unfolding register_client
  register_client-listed login addr db h = register_loop-listed db.supply login addr db h

  register_loop-vacant :
      (supply : List Bytes) (login addr : Bytes) (db : ClientDb Map) {c : ServerClient}
      → (register_loop S supply login addr db).0 ≡ ok c
      → ((register_loop S supply login addr db).1.heap c.at).data_channel ≡ none
  unfolding register_loop
  register_loop-vacant [] login addr db h = cc
  register_loop-vacant (token ∷ supply) login addr db {c} h =
      let c' = offer S token db in
      elim (Bool-cases (S.register_client c' db.submap).0) [
        | inl e ↦
            let same : c' ≡ c = ground (arith, h, e) in
            rw (sym same) (rw (e, register_loop) (ground arith))
        | inr n ↦
            rw (n, register_loop)
              (register_loop-vacant supply login addr
                (record db { submap = (S.register_client c' db.submap).1 }) {c = c}
                (ground (arith, h, n)))
      ]

  -- A client that was just registered has no data channel.
  pub register_client-vacant :
      (login addr : Bytes) (db : ClientDb Map) {c : ServerClient}
      → (register_client S login addr db).0 ≡ ok c
      → ((register_client S login addr db).1.heap c.at).data_channel ≡ none
  unfolding register_client
  register_client-vacant login addr db h = register_loop-vacant db.supply login addr db h

module _ {Map : Type 0} (S : SubMap Map) where
  register_loop-channels :
      (supply : List Bytes) (login addr : Bytes) (db : ClientDb Map)
      → (register_loop S supply login addr db).1.channels ≡ db.channels
  unfolding register_loop
  register_loop-channels [] login addr db = refl
  register_loop-channels (token ∷ supply) login addr db =
      elim (Bool-cases (S.register_client (offer S token db) db.submap).0) [
        | inl e ↦ rw (e, register_loop) refl
        | inr n ↦
            rw (n, register_loop)
              (register_loop-channels supply login addr
                (record db { submap = (S.register_client (offer S token db) db.submap).1 }))
      ]

  -- Registering a client touches no channel.
  pub register_client-channels :
      (login addr : Bytes) (db : ClientDb Map)
      → (register_client S login addr db).1.channels ≡ db.channels
  unfolding register_client
  register_client-channels login addr db = register_loop-channels db.supply login addr db
