-- ===== src/Push/Delivery.antt =====
-- Who gets a message that is pushed to the subscribers of its topic.
use psrt.Prelude.{
  ℕ, ◌<◌, ◌≡◌, ◌≢◌, refl, ap, ◌∙◌, true, false, some, List, [], ◌∷◌, ◌++◌, arith, if◌then◌else◌,
  All, Bool-cases, inl, inr,
}
use psrt.Prelude.Bytes.{Bytes, beq, beq_iff}
use psrt.PubSub.Submap.{ServerClient, SubMap, SubMapLaws, AreDistinct, holds_digest}
use psrt.PubSub.Store.{MessageFrame, is_full, send}
use psrt.PubSub.Db.{ClientDb, data_of, get_subscribers}
use psrt.PubSub.Db.Invariant.{WellFormed}
use psrt.Push.{message_frame, push_one, push_all, push_to_subscribers}
use psrt.Push.Queues.{push_one-WellFormed}
use psrt.Push.Following.{push_one-Follows, push_one-apart, push_one-own}

module _ {Map : Type 0} (S : SubMap Map) (L : SubMapLaws S) (x : ServerClient) (ch : ℕ) where
  open L use {client_of}

  -- `x` is registered, and no other client has its data channel.
  pub record Holds (db : ClientDb Map) : Type 0 where
    pub well_formed : WellFormed S L db
    pub registered : client_of db.submap x.digest ≡ some x
    pub alone : (p : ℕ) → p < db.next → (db.heap p).data_channel ≡ some ch → p ≡ x.at

  abbrev AreKnown : List ServerClient → ClientDb Map → Type 0
  AreKnown subscribers db = All (λ s. client_of db.submap s.digest ≡ some s) subscribers

  push_one-Holds :
      (message : MessageFrame) (s : ServerClient) (db : ClientDb Map)
      → Holds db
      → Holds (push_one message s (data_of s db).data_channel db)
  push_one-Holds message s db h =
      let f = push_one-Follows message s (data_of s db).data_channel db in
      record {
        well_formed = push_one-WellFormed S L message s (data_of s db).data_channel h.well_formed;
        registered = ap (λ m. client_of m x.digest) f.submap ∙ h.registered;
        alone = λ p small own. h.alone p (ground (arith, small, f.next)) (f.fewer p ch own);
      }

  -- A push to another registered client leaves `x` and its channel as they were.
  push_other :
      (message : MessageFrame) (s : ServerClient) (db : ClientDb Map)
      → Holds db
      → client_of db.submap s.digest ≡ some s
      → beq s.digest x.digest ≡ false
      → ((push_one message s (data_of s db).data_channel db).heap x.at ≡ db.heap x.at)
        × ((push_one message s (data_of s db).data_channel db).channels ch ≡ db.channels ch)
  push_other message s db h known other =
      let live = (h.well_formed.known s.digest s known).1 in
      let own = (h.well_formed.known x.digest x h.registered).1 in
      let placed = (h.well_formed.listed (data_of s db).token s live).allocated in
      let apart : s.at ≢ x.at =
        λ e. ground (arith, e, live, own, other, beq_iff s.digest x.digest) in
      push_one-apart message s x ch (data_of s db).data_channel db live apart
        (λ e. apart (h.alone s.at placed e))

  push_all-others :
      (message : MessageFrame) (subscribers : List ServerClient) (db : ClientDb Map)
      → Holds db
      → AreKnown subscribers db
      → holds_digest x.digest subscribers ≡ false
      → ((push_all message subscribers db).heap x.at ≡ db.heap x.at)
        × ((push_all message subscribers db).channels ch ≡ db.channels ch)
  unfolding push_all
  push_all-others message [] db h known absent = (refl, refl)
  push_all-others message (s ∷ subscribers) db h (k, known) absent =
      let db' = push_one message s (data_of s db).data_channel db in
      let one = push_other message s db h k (ground (arith, absent)) in
      let f = push_one-Follows message s (data_of s db).data_channel db in
      let rest =
        push_all-others message subscribers db' (push_one-Holds message s db h) (rw f.submap known)
          (ground (arith, absent)) in
      (rest.0 ∙ one.0, rest.1 ∙ one.1)

  push_all-reaches :
      (message : MessageFrame) (subscribers : List ServerClient) (db : ClientDb Map)
      → Holds db
      → AreKnown subscribers db
      → AreDistinct subscribers
      → (data_of x db).data_channel ≡ some ch
      → is_full (db.channels ch) ≡ false
      → holds_digest x.digest subscribers ≡ true
      → ((push_all message subscribers db).heap x.at ≡ db.heap x.at)
        × ((push_all message subscribers db).channels ch ≡ send message (db.channels ch))
  unfolding push_all
  push_all-reaches message [] db h known once attached room there = absurd (ground (arith, there))
  push_all-reaches message (s ∷ subscribers) db h (k, known) (first, once) attached room there =
      let db' = push_one message s (data_of s db).data_channel db in
      let f = push_one-Follows message s (data_of s db).data_channel db in
      let h' = push_one-Holds message s db h in
      let known' : AreKnown subscribers db' = rw f.submap known in
      elim (Bool-cases (beq s.digest x.digest)) [
        | inl same ↦
            let e : s ≡ x = ground (arith, k, h.registered, beq_iff s.digest x.digest, same) in
            let one = push_one-own message x ch db room in
            let to_x : db' ≡ push_one message x (some ch) db = rw (e, attached) refl in
            let rest =
              push_all-others message subscribers db' h' known'
                (ground (arith, first, beq_iff s.digest x.digest, same)) in
            (
              rest.0 ∙ ap (λ d. d.heap x.at) to_x ∙ one.0,
              rest.1 ∙ ap (λ d. d.channels ch) to_x ∙ one.1,
            )
        | inr other ↦
            let one = push_other message s db h k other in
            let rest =
              push_all-reaches message subscribers db' h' known' once
                (ap (λ d. d.data_channel) one.0 ∙ attached) (rw one.1 room)
                (ground (arith, there, other)) in
            (rest.0 ∙ one.0, rest.1 ∙ ap (send message) one.1)
      ]

module _ {Map : Type 0} (S : SubMap Map) (L : SubMapLaws S) where
  -- A message that is pushed to the subscribers of its topic goes behind what waits in the data
  -- channel of a registered client exactly if the client is among these subscribers, and the client
  -- keeps its channel, if the channel is open and has room and no other client has it.
  pub push_to_subscribers-delivers :
      (x : ServerClient) (ch : ℕ) (priority : ℕ) (topic message : Bytes) (timestamp : ℕ)
      (db : ClientDb Map)
      → Holds S L x ch db
      → (data_of x db).data_channel ≡ some ch
      → is_full (db.channels ch) ≡ false
      → (db.channels ch).is_open ≡ true
      → ((data_of x (
            push_to_subscribers
              (get_subscribers S topic db)
              priority
              topic
              message
              timestamp
              db)).data_channel
          ≡ some ch)
        × (((push_to_subscribers
                (get_subscribers S topic db)
                priority
                topic
                message
                timestamp
                db).channels
              ch).queue
            ≡ (if holds_digest x.digest (get_subscribers S topic db)
                then (db.channels ch).queue ++ message_frame priority topic message timestamp ∷ []
                else (db.channels ch).queue))
  unfolding push_to_subscribers send
  push_to_subscribers-delivers x ch priority topic message timestamp db h attached room is_on =
      let subscribers = get_subscribers S topic db in
      let frame = message_frame priority topic message timestamp in
      let known = L.subscribers_known topic db.submap in
      elim (Bool-cases (holds_digest x.digest subscribers)) [
        | inl there ↦
            let r =
              push_all-reaches S L x ch frame subscribers db h known
                (L.subscribers_distinct topic db.submap) attached room there in
            (
              ap (λ d. d.data_channel) r.0 ∙ attached,
              rw there (ap (λ c. c.queue) r.1 ∙ (ground (arith, is_on))),
            )
        | inr absent ↦
            let r = push_all-others S L x ch frame subscribers db h known absent in
            (ap (λ d. d.data_channel) r.0 ∙ attached, rw absent (ap (λ c. c.queue) r.1))
      ]
