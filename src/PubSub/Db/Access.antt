-- ===== src/PubSub/Db/Access.antt =====
-- What the client database promises to its callers.
use psrt.Prelude.{
  ℕ, ◌≡◌, ◌⊎◌, ◌↔◌, true, false, ◌&&◌, none, some, [], ◌∷◌, arith, if◌then◌else◌, Bool-cases, inl,
  inr, Option-cases,
}
use psrt.Prelude.Bytes.{Bytes, beq, beq_iff, beq_refl}
use psrt.Prelude.Split.{split_on}
use psrt.Prelude.Assoc.{lookup, lookup-remove}
use psrt.Fault.{Error, ok, err, error_access, text}
use psrt.Topic.{slash, prepare_topic}
use psrt.Acl.{matches_chunks}
use psrt.PubSub.Submap.{ServerClient, SubMap, SubMapLaws, holds_digest}
use psrt.PubSub.Db.{
  ClientDb, data_of, set_data, attach, register_data_channel, unregister_client, subscribe,
  get_subscribers,
}
use psrt.PubSub.Db.Invariant.{WellFormed, IsLive}

module _ {Map : Type 0} where
  -- Offering a channel for a known token whose client has none registers that channel.
  pub register_data_channel-free :
      (token : Bytes) (channel : ℕ) (c : ServerClient) (db : ClientDb Map)
      → lookup token db.clients_by_token ≡ some c
      → (db.heap c.at).data_channel ≡ none
      → ((register_data_channel token channel db).0 ≡ ok (channel, c))
        × (((register_data_channel token channel db).1.heap c.at).data_channel ≡ some channel)
  unfolding register_data_channel attach
  register_data_channel-free token channel c db found free = (ground arith, ground arith)

  -- The database that such a request leaves.
  pub register_data_channel-attached :
      (token : Bytes) (channel : ℕ) (c : ServerClient) (db : ClientDb Map)
      → lookup token db.clients_by_token ≡ some c
      → (db.heap c.at).data_channel ≡ none
      → register_data_channel token channel db
        ≡ (ok (channel, c), set_data c (record (data_of c db) { data_channel = some channel }) db)
  unfolding register_data_channel attach
  register_data_channel-attached token channel c db found free = ground (arith, found, free)

  -- A refused request changes nothing; the others attach the channel.
  pub register_data_channel-cases :
      (token : Bytes) (ch : ℕ) (db : ClientDb Map)
      → ((e : Error) × (register_data_channel token ch db ≡ (err e, db)))
        ⊎ ((c : ServerClient) × (register_data_channel token ch db
              ≡ (ok (ch, c), set_data c (record (data_of c db) { data_channel = some ch }) db)))
  unfolding register_data_channel attach
  register_data_channel-cases token ch db = elim (Option-cases (lookup token db.clients_by_token)) [
    | inl unknown ↦
        inl (error_access (text "data channel access denied" ∷ []), ground (arith, unknown))
    | inr (c, found) ↦ elim (Option-cases (data_of c db).data_channel) [
      | inl free ↦ inr (c, ground (arith, found, free))
      | inr (old, taken) ↦ inl (
        error_access (text "Data channel is already registered" ∷ []),
        ground (arith, found, taken),
      )
    ]
  ]

  -- The channels themselves are left alone.
  pub register_data_channel-channels :
      (token : Bytes) (channel : ℕ) (db : ClientDb Map)
      → (register_data_channel token channel db).1.channels ≡ db.channels
  unfolding register_data_channel attach
  register_data_channel-channels token channel db = ground arith

  -- A token has at most one data channel: after a request for one has succeeded, the next request
  -- with the same token is refused with an access error and changes nothing.
  pub register_data_channel_once :
      (token : Bytes) (channel other : ℕ) (db : ClientDb Map) {r : ℕ × ServerClient}
      → (register_data_channel token channel db).0 ≡ ok r
      → register_data_channel token other (register_data_channel token channel db).1 ≡ (
        err (error_access (text "Data channel is already registered" ∷ [])),
        (register_data_channel token channel db).1,
      )
  unfolding register_data_channel attach
  register_data_channel_once token channel other db h = ground arith

module _ {Map : Type 0} (S : SubMap Map) (L : SubMapLaws S) where
  -- No digest that was unregistered is among the subscribers of a topic.
  pub unregister_client-unsubscribed :
      (c : ServerClient) (db : ClientDb Map) (topic : Bytes)
      → holds_digest c.digest (get_subscribers S topic (unregister_client S c db)) ≡ false
  unfolding unregister_client
  unregister_client-unsubscribed c db topic =
      elim (Bool-cases
        (holds_digest c.digest (S.get_subscribers topic (S.unregister_client c db.submap)))) [
          | inr e ↦ e
          | inl e ↦
              let (u, on, _) =
                L.subscription_of topic c.digest (S.unregister_client c db.submap) e in
              ground (arith, on, L.subscribed-unregister c db.submap c.digest u, beq_refl c.digest)
        ]

  -- Once a client of a well-formed database is unregistered, its token is refused a data channel
  -- with an access error, and it is among the subscribers of no topic.
  pub unregister_client-forgets :
      (c : ServerClient) (db : ClientDb Map)
      → IsLive S L c db
      → WellFormed S L db
      → (channel : ℕ) (topic : Bytes)
      → (register_data_channel (data_of c db).token channel (unregister_client S c db)
          ≡ (err (error_access (text "data channel access denied" ∷ [])), unregister_client S c db))
        × (holds_digest c.digest (get_subscribers S topic (unregister_client S c db)) ≡ false)
  unfolding register_data_channel unregister_client
  unregister_client-forgets c db live w channel topic =
      let token = (data_of c db).token in
      (
        ground (arith, lookup-remove token token db.clients_by_token, beq_refl token),
        unregister_client-unsubscribed c db topic,
      )

  -- After a registered client has subscribed to a topic, the subscribers of any topic are those
  -- of before, and this client where the prepared subscription, read as a mask, matches it.
  pub subscribe-get_subscribers :
      (max_depth : ℕ) (sent : Bytes) (c b : ServerClient) (db : ClientDb Map) {t : Bytes}
      → prepare_topic max_depth sent ≡ ok t
      → L.client_of db.submap c.digest ≡ some b
      → (topic d : Bytes)
      → (holds_digest d (get_subscribers S topic (subscribe S max_depth sent c db).1) ≡ true) ↔ (
          (holds_digest d (get_subscribers S topic db) ≡ true)
          ⊎ ((d ≡ c.digest) × (matches_chunks (split_on slash topic) (split_on slash t) ≡ true)))
  unfolding subscribe
  subscribe-get_subscribers max_depth sent c b db {t} prepared known topic d =
      rw (prepared, subscribe) (to, from)
    where
      now :
          (u : Bytes)
          → L.subscribed (S.subscribe t c db.submap) d u
            ≡ (if beq c.digest d && beq t u then true else L.subscribed db.submap d u)
      now u = L.subscribed-subscribe t u c b db.submap d known

      to :
          holds_digest d (S.get_subscribers topic (S.subscribe t c db.submap)) ≡ true
          → (holds_digest d (S.get_subscribers topic db.submap) ≡ true)
            ⊎ ((d ≡ c.digest) × (matches_chunks (split_on slash topic) (split_on slash t) ≡ true))
      to h =
          let (u, on, fits) = L.subscription_of topic d (S.subscribe t c db.submap) h in
          elim (Bool-cases (beq c.digest d && beq t u)) [
            | inl e ↦ inr (ground (arith, beq_iff c.digest d), ground (arith, fits, beq_iff t u))
            | inr n ↦ inl (L.subscriber_of topic u d db.submap (ground (arith, on, now u)) fits)
          ]

      from :
          (holds_digest d (S.get_subscribers topic db.submap) ≡ true)
            ⊎ ((d ≡ c.digest) × (matches_chunks (split_on slash topic) (split_on slash t) ≡ true))
          → holds_digest d (S.get_subscribers topic (S.subscribe t c db.submap)) ≡ true
      from (inl h) =
          let (u, on, fits) = L.subscription_of topic d db.submap h in
          L.subscriber_of topic u d (S.subscribe t c db.submap) (ground (arith, on, now u)) fits
      from (inr (same, fits)) =
          L.subscriber_of topic t d (S.subscribe t c db.submap)
            (ground (arith, now t, beq_iff c.digest d, beq_refl t)) fits
