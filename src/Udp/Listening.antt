-- ===== src/Udp/Listening.antt =====
-- src/server.rs: the loop of `handle_udp_listener`, over what its socket receives, and what it can
-- do to the server and to others.
use psrt.Prelude.{
  ℕ, zero, suc, ◌+◌, ◌≤◌, ◌≡◌, refl, true, Option, none, some, List, [], ◌∷◌, ◌++◌, if◌then◌else◌,
  ltb, length, take, arith, Bool-cases, Option-cases, inl, inr,
}
use psrt.Prelude.Bytes.{Bytes, beq}
use psrt.Prelude.Words.{le16}
use psrt.Fault.{Error}
use psrt.PubSub.Submap.{ServerClient, SubMap, SubMapLaws}
use psrt.PubSub.Db.{ClientDb, get_subscribers}
use psrt.Push.Queues.{push_to_subscribers-QueuesFit, push_to_subscribers-WellFormed}
use psrt.Control.Keeping.{IsSound}
use psrt.Server.{Settings}
use psrt.Keys.{Crypto}
use psrt.Guards.{Guards}
use psrt.Udp.{
  Shared, packet_head, open_packet, push_if_any, process_udp_packet, ack_code, ack_frame,
}
use psrt.Udp.Admission.{process_udp_packet-cases}

-- What `recv_from` gives: a packet, the address that it came from and the time, or an error.
pub data Arrival : Type 0 where
  received : Bytes → Bytes → ℕ → Arrival
  socket_error : Error → Arrival

-- The answers that were sent, with their addresses.
pub record Listener (Map : Type 0) : Type 0 where
  pub shared : Shared Map
  pub sent : List (Bytes × Bytes)

abbrev pub answer : Bytes → Option ℕ → List (Bytes × Bytes)
answer addr none = []
answer addr (some code) = (addr, ack_frame code) ∷ []

module _ {Map : Type 0} (S : SubMap Map) (C : Crypto) (cfg : Settings) (guards : Guards)
    (udp_frame_size : ℕ) where
  -- What does not fit the buffer is cut off.
  unfoldable pub on_arrival : Arrival → Listener Map → Listener Map
  unfolding process_udp_packet ack_code ack_frame
  on_arrival (socket_error e) l = l
  on_arrival (received packet addr timestamp) l =
      let r = process_udp_packet S C cfg guards (take udp_frame_size packet) timestamp l.shared in
      record { shared = r.1; sent = l.sent ++ answer addr (ack_code r.0) }

  unfoldable pub handle_udp_listener : List Arrival → Listener Map → Listener Map
  unfolding on_arrival
  handle_udp_listener [] l = l
  handle_udp_listener (a ∷ arrivals) l = handle_udp_listener arrivals (on_arrival a l)

-- The bytes that an address was sent, and those that came from it.
abbrev pub sent_to : Bytes → List (Bytes × Bytes) → ℕ
sent_to addr [] = 0
sent_to addr ((to, frame) ∷ sent) = (if beq to addr then length frame else 0) + sent_to addr sent

abbrev pub received_from : Bytes → List Arrival → ℕ
received_from addr [] = 0
received_from addr (received packet from timestamp ∷ arrivals) =
    (if beq from addr then length packet else 0) + received_from addr arrivals
received_from addr (socket_error e ∷ arrivals) = received_from addr arrivals

sent_to-append :
    (addr : Bytes) (a b : List (Bytes × Bytes))
    → sent_to addr (a ++ b) ≡ sent_to addr a + sent_to addr b
sent_to-append addr [] b = omega arith
sent_to-append addr ((to, frame) ∷ a) b = omega (arith, sent_to-append addr a b)

length-take_le_both {ℓ} : {A : Type ℓ} (n : ℕ) (xs : List A) → length (take n xs) ≤ length xs
length-take_le_both zero xs = omega arith
length-take_le_both (suc n) [] = omega arith
length-take_le_both (suc n) (x ∷ xs) = omega (arith, length-take_le_both n xs)

module _ {Map : Type 0} (S : SubMap Map) (C : Crypto) (cfg : Settings) (guards : Guards) where
  -- A packet of less than five bytes gets no answer.
  short_unanswered :
      (frame : Bytes) (timestamp : ℕ) (s : Shared Map)
      → ltb (length frame) 5 ≡ true
      → ack_code (process_udp_packet S C cfg guards frame timestamp s).0 ≡ none
  unfolding process_udp_packet open_packet packet_head ack_code
  short_unanswered frame timestamp s short = rw short refl

  answer_bound :
      (addr : Bytes) (n : ℕ) (packet from : Bytes) (timestamp : ℕ) (s : Shared Map)
      → sent_to addr
          (answer from (ack_code (process_udp_packet S C cfg guards (take n packet) timestamp s).0))
        ≤ (if beq from addr then length packet else 0)
  unfolding ack_frame le16
  answer_bound addr n packet from timestamp s =
      let code = ack_code (process_udp_packet S C cfg guards (take n packet) timestamp s).0 in
      elim (Bool-cases (ltb (length (take n packet)) 5)) [
        | inl short ↦ rw (short_unanswered (take n packet) timestamp s short) (omega arith)
        | inr long ↦
            let enough : 5 ≤ length packet = ground (arith, long, length-take_le_both n packet) in
            elim (Option-cases code) [
              | inl silent ↦ rw silent (omega arith)
              | inr (c, answered) ↦ rw answered (ground (arith, enough))
            ]
      ]

module _ {Map : Type 0} (S : SubMap Map) (L : SubMapLaws S) (C : Crypto) (cfg : Settings)
    (guards : Guards) where
  push_if_any-IsSound :
      (subscribers : List ServerClient) (priority : ℕ) (topic message : Bytes) (timestamp : ℕ)
      (db : ClientDb Map)
      → IsSound S L db
      → IsSound S L (push_if_any S C cfg guards subscribers priority topic message timestamp db)
  push_if_any-IsSound [] priority topic message timestamp db h = h
  push_if_any-IsSound (c ∷ subscribers) priority topic message timestamp db h = (
    push_to_subscribers-WellFormed S L (c ∷ subscribers) priority topic message timestamp h.0,
    push_to_subscribers-QueuesFit (c ∷ subscribers) priority topic message timestamp db h.1,
  )

  process_udp_packet-IsSound :
      (frame : Bytes) (timestamp : ℕ) (s : Shared Map)
      → IsSound S L s.db
      → IsSound S L (process_udp_packet S C cfg guards frame timestamp s).1.db
  process_udp_packet-IsSound frame timestamp s h =
      elim (process_udp_packet-cases S C cfg guards frame timestamp s) [
        | inr same ↦ rw same h
        | inl a ↦ rw a.effect (
            push_if_any-IsSound (get_subscribers S a.topic s.db) a.priority a.topic a.message
              timestamp s.db h)
      ]

  -- Whatever packets come to a UDP socket, and whatever errors it has between them, the database that
  -- was well formed and had its queues within their capacities is so afterwards; and the answers add
  -- no more bytes for any address than came from it.
  pub handle_udp_listener-IsSound :
      (udp_frame_size : ℕ) (arrivals : List Arrival) (l : Listener Map)
      → IsSound S L l.shared.db
      → IsSound S L (handle_udp_listener S C cfg guards udp_frame_size arrivals l).shared.db
        × ((addr : Bytes)
            → sent_to addr (handle_udp_listener S C cfg guards udp_frame_size arrivals l).sent
              ≤ sent_to addr l.sent + received_from addr arrivals)
  unfolding handle_udp_listener on_arrival
  handle_udp_listener-IsSound n [] l h = (h, λ addr. omega arith)
  handle_udp_listener-IsSound n (socket_error e ∷ arrivals) l h =
      handle_udp_listener-IsSound n arrivals l h
  handle_udp_listener-IsSound n (received packet from timestamp ∷ arrivals) l h =
      let r = process_udp_packet S C cfg guards (take n packet) timestamp l.shared in
      let next = answer from (ack_code r.0) in
      let rest =
        handle_udp_listener-IsSound n arrivals (record { shared = r.1; sent = l.sent ++ next })
          (process_udp_packet-IsSound (take n packet) timestamp l.shared h) in
      (
        rest.0,
        λ addr.
            let added = answer_bound S C cfg guards addr n packet from timestamp l.shared in
            omega (arith, rest.1 addr, sent_to-append addr l.sent next, added),
      )
