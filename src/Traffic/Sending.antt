-- ===== src/Traffic/Sending.antt =====
-- Publishing and pushing keep the invariant.
use psrt.Prelude.{
  ℕ, ◌<◌, ◌≡◌, refl, ap, sym, ◌∙◌, false, Option, none, some, List, [], ◌∷◌, ◌++◌, arith, All,
  Exists, here, there, imply-All, imply-Exists, All-append, All-members, All-both, append_assoc,
  Bool-cases, inl, inr, ◌==◌,
}
use psrt.Prelude.Bytes.{Bytes}
use mathlib.Core.Path.{subst}
use psrt.PubSub.Submap.{ServerClient, SubMap, SubMapLaws}
use psrt.PubSub.Store.{MessageFrame, Channel, is_full, send}
use psrt.PubSub.Db.{ClientDb, data_of, get_subscribers, abort_tasks, unregister_data_channel}
use psrt.PubSub.Db.Invariant.{WellFormed}
use psrt.Push.{message_frame, push_one}
use psrt.Push.Queues.{push_one-WellFormed, push_one-QueuesFit, channels-drop_channel}
use psrt.Push.Following.{push_one-Follows}
use psrt.Traffic.{Publication, Pushing, Traffic, is_accepted, noted, publishing, picking, pushed}
use psrt.Traffic.Invariant.{IsIn, Waits, Came, Invariant}

-- What is under way stays so when there are more publications.
Waits-later :
    (n : ℕ) (p : Pushing) (new : Publication) (published : List Publication) (s : ServerClient)
    → Waits n p published s
    → Waits n p (new ∷ published) s
Waits-later n p new published s (small, member, listed) = (small, member, there listed)

Came-later :
    (owner : ℕ → Option ℕ) (new : Publication) (published : List Publication) (ch : ℕ)
    (m : MessageFrame)
    → Came owner published ch m
    → Came owner (new ∷ published) ch m
Came-later owner new published ch m (inl e) = inl e
Came-later owner new published ch m (inr came) = inr (there came)

-- A push leaves the count of channels.
push_one-next_channel :
    {Map : Type 0} (message : MessageFrame) (s : ServerClient) (o : Option ℕ) (db : ClientDb Map)
    → (push_one message s o db).next_channel ≡ db.next_channel
unfolding push_one abort_tasks unregister_data_channel
push_one-next_channel message s none db = refl
push_one-next_channel message s (some dc) db = ground arith

-- The queue and the history of what a channel accepted grow by the same message.
push_one-in_order :
    {Map : Type 0} (message : MessageFrame) (s : ServerClient) (o : Option ℕ) (db : ClientDb Map)
    (taken accepted : ℕ → List MessageFrame) (ch : ℕ)
    → taken ch ++ (db.channels ch).queue ≡ accepted ch
    → taken ch ++ ((push_one message s o db).channels ch).queue
      ≡ noted o message db.channels accepted ch
unfolding push_one is_full send
push_one-in_order message s none db taken accepted ch h = h
push_one-in_order message s (some dc) db taken accepted ch h =
    elim (Bool-cases (is_full (db.channels dc))) [
      | inl full ↦
          rw (full, push_one) (ap (λ c. taken ch ++ (c ch).queue) (channels-drop_channel s db) ∙ h)
      | inr room ↦
          rw (room, push_one)
            (ground (arith, h, append_assoc (taken dc) (db.channels dc).queue (message ∷ [])))
    ]

pub noted-authentic :
    (owner : ℕ → Option ℕ) (published : List Publication) (message : MessageFrame) (o : Option ℕ)
    (channels : ℕ → Channel) (accepted : ℕ → List MessageFrame) (ch : ℕ)
    → ((dc : ℕ) → o ≡ some dc → Came owner published dc message)
    → All (Came owner published ch) (accepted ch)
    → All (Came owner published ch) (noted o message channels accepted ch)
noted-authentic owner published message none channels accepted ch came h = h
noted-authentic owner published message (some dc) channels accepted ch came h =
    elim (Bool-cases (is_accepted (channels dc))) [
      | inr refused ↦ rw refused h
      | inl sent ↦ elim (Bool-cases (dc == ch)) [
        | inr other ↦ rw (sent, other) h
        | inl same ↦
            let e : dc ≡ ch = ground (arith, same) in
            rw (sent, same)
              (rw e (
                All-append (Came owner published ch) (accepted ch) (message ∷ []) h
                  (subst (λ c. Came owner published c message) e (came dc refl), tt)))
      ]
    ]

pub noted-nil :
    (message : MessageFrame) (o : Option ℕ) (channels : ℕ → Channel)
    (accepted : ℕ → List MessageFrame) (ch : ℕ)
    → ((dc : ℕ) → o ≡ some dc → (dc == ch) ≡ false)
    → accepted ch ≡ []
    → noted o message channels accepted ch ≡ []
noted-nil message none channels accepted ch other h = h
noted-nil message (some dc) channels accepted ch other h = ground (arith, h, other dc refl)

module _ {Map : Type 0} (S : SubMap Map) (L : SubMapLaws S) where
  subscribers_placed :
      (topic : Bytes) (db : ClientDb Map)
      → WellFormed S L db
      → All (λ s. s.at < db.next) (get_subscribers S topic db)
  subscribers_placed topic db w =
      imply-All (λ s. L.client_of db.submap s.digest ≡ some s) (λ s. s.at < db.next)
        (λ s known.
          let live = (w.known s.digest s known).1 in
          (w.listed (data_of s db).token s live).allocated)
        (get_subscribers S topic db) (L.subscribers_known topic db.submap)

  pub publishing-Invariant :
      (i priority : ℕ) (topic message : Bytes) (timestamp : ℕ) (t : Traffic Map)
      → Invariant S L t
      → Invariant S L (publishing S L i priority topic message timestamp t)
  publishing-Invariant i priority topic message timestamp t h =
      let subscribers = get_subscribers S topic t.db in
      let new : Publication = record {
        topic = topic;
        frame = message_frame priority topic message timestamp;
        subscribers = subscribers;
      } in
      let p : Pushing = record { publication = new; chosen = none; left = subscribers } in
      let own : All (Waits t.db.next p (new ∷ t.published)) subscribers =
        imply-All (λ s. (s.at < t.db.next) × IsIn s subscribers)
          (Waits t.db.next p (new ∷ t.published)) (λ s (small, member). (small, member, here refl))
          subscribers
          (All-both (λ s. s.at < t.db.next) (λ s. IsIn s subscribers) subscribers
            (subscribers_placed topic t.db h.well_formed) (All-members subscribers)) in
      record {
        well_formed = h.well_formed;
        fits = h.fits;
        unborn = h.unborn;
        held = h.held;
        owned = h.owned;
        chosen_owned = λ j ch s e. elim (Bool-cases (i == j)) [
          | inl same ↦ absurd (ground (arith, e, same))
          | inr other ↦ h.chosen_owned j ch s (ground (arith, e, other))
        ];
        chosen_waits = λ j s o e. elim (Bool-cases (i == j)) [
          | inl same ↦ absurd (ground (arith, e, same))
          | inr other ↦ rw other (
              Waits-later t.db.next (t.pushing j) new t.published s
                (h.chosen_waits j s o (ground (arith, e, other))))
        ];
        left_wait = λ j. elim (Bool-cases (i == j)) [
          | inl same ↦ rw same own
          | inr other ↦ rw other (
              imply-All (Waits t.db.next (t.pushing j) t.published)
                (Waits t.db.next (t.pushing j) (new ∷ t.published))
                (Waits-later t.db.next (t.pushing j) new t.published) (t.pushing j).left
                (h.left_wait j))
        ];
        in_order = h.in_order;
        authentic = λ ch.
            imply-All (Came t.owner t.published ch) (Came t.owner (new ∷ t.published) ch)
              (Came-later t.owner new t.published ch) (t.accepted ch) (h.authentic ch);
      }

  pub picking-Invariant :
      (i : ℕ) (s : ServerClient) (rest : List ServerClient) (t : Traffic Map)
      → (t.pushing i).left ≡ s ∷ rest
      → Invariant S L t
      → Invariant S L (picking S L i s rest t)
  picking-Invariant i s rest t e h =
      let (first, behind) : All (Waits t.db.next (t.pushing i) t.published) (s ∷ rest) =
        rw e at (h.left_wait i) in
      record {
        well_formed = h.well_formed;
        fits = h.fits;
        unborn = h.unborn;
        held = h.held;
        owned = h.owned;
        chosen_owned = λ j ch c k. elim (Bool-cases (i == j)) [
          | inl same ↦
              let is_s : s ≡ c = ground (arith, k, same) in
              let its : (data_of s t.db).data_channel ≡ some ch = ground (arith, k, same) in
              h.owned s.at ch first.0 its ∙ ap (λ x. some x.at) is_s
          | inr other ↦ h.chosen_owned j ch c (ground (arith, k, other))
        ];
        chosen_waits = λ j c o k. elim (Bool-cases (i == j)) [
          | inl same ↦
              let is_s : s ≡ c = ground (arith, k, same) in
              rw same (subst (Waits t.db.next (t.pushing i) t.published) is_s first)
          | inr other ↦ rw other (h.chosen_waits j c o (ground (arith, k, other)))
        ];
        left_wait = λ j. elim (Bool-cases (i == j)) [
          | inl same ↦ rw same behind
          | inr other ↦ rw other (h.left_wait j)
        ];
        in_order = h.in_order;
        authentic = h.authentic;
      }

  -- The channel that was pushed to has its owner among the subscribers.
  pub pushed-Invariant :
      (i : ℕ) (s : ServerClient) (o : Option ℕ) (t : Traffic Map)
      → (t.pushing i).chosen ≡ some (s, o)
      → Invariant S L t
      → Invariant S L (pushed S L i s o t)
  pushed-Invariant i s o t e h =
      let p = t.pushing i in
      let frame = p.publication.frame in
      let f = push_one-Follows frame s o t.db in
      let (placed, member, listed) = h.chosen_waits i s o e in
      let mine : (dc : ℕ) → o ≡ some dc → t.owner dc ≡ some s.at =
        λ dc is_dc. h.chosen_owned i dc s (rw is_dc at e) in
      let came : (dc : ℕ) → o ≡ some dc → Came t.owner t.published dc frame = λ dc is_dc. inr (
        imply-Exists (λ q. q ≡ p.publication)
          (λ q. (q.frame ≡ frame) × Exists (λ c. t.owner dc ≡ some c.at) q.subscribers)
          (λ q same. (
            ap (λ x. x.frame) same,
            rw same (
                imply-Exists (λ c. c ≡ s) (λ c. t.owner dc ≡ some c.at)
                  (λ c is_s. mine dc is_dc ∙ ap (λ x. some x.at) (sym is_s))
                  p.publication.subscribers member),
          ))
          t.published listed) in
      record {
        well_formed = push_one-WellFormed S L frame s o h.well_formed;
        fits = push_one-QueuesFit frame s o t.db h.fits;
        unborn = λ ch late.
            let late_before = rw (push_one-next_channel frame s o t.db) at late in
            let (free, silent) = h.unborn ch late_before in
            (
              free,
              noted-nil frame o t.db.channels t.accepted ch
                  (λ dc is_dc. ground (arith, mine dc is_dc, free)) silent,
            );
        held = λ ch on.
            let (free, born) = h.held ch on in
            (free, omega (arith, born, push_one-next_channel frame s o t.db));
        owned = λ q ch small own. h.owned q ch (omega (arith, small, f.next)) (f.fewer q ch own);
        chosen_owned = λ j ch c k. elim (Bool-cases (i == j)) [
          | inl same ↦ absurd (ground (arith, k, same))
          | inr other ↦ h.chosen_owned j ch c (ground (arith, k, other))
        ];
        chosen_waits = λ j c r k. elim (Bool-cases (i == j)) [
          | inl same ↦ absurd (ground (arith, k, same))
          | inr other ↦ rw (f.next, other) (h.chosen_waits j c r (ground (arith, k, other)))
        ];
        left_wait = λ j. elim (Bool-cases (i == j)) [
          | inl same ↦ rw (f.next, same) (h.left_wait i)
          | inr other ↦ rw (f.next, other) (h.left_wait j)
        ];
        in_order = λ ch. push_one-in_order frame s o t.db t.taken t.accepted ch (h.in_order ch);
        authentic = λ ch.
            noted-authentic t.owner t.published frame o t.db.channels t.accepted ch came
              (h.authentic ch);
      }
