-- ===== src/Traffic/Attaching.antt =====
-- Calls on the database, and the making and registering of channels, keep the invariant.
use psrt.Prelude.{
  ℕ, ◌≤◌, ◌≡◌, refl, ◌∙◌, true, Option, some, List, [], arith, All, Exists, imply-All, imply-Exists,
  nil-of_append, Bool-cases, inl, inr, ◌==◌,
}
use psrt.Prelude.Bytes.{Bytes}
use psrt.PubSub.Submap.{ServerClient, SubMap, SubMapLaws}
use psrt.PubSub.Store.{MessageFrame, update}
use psrt.PubSub.Db.{ClientDb, new_channel}
use psrt.PubSub.Db.Access.{register_data_channel-cases}
use psrt.PubSub.Db.Invariant.{SameLinks-WellFormed, register_data_channel-WellFormed}
use psrt.Traffic.{Publication, Traffic, QuietCall, called, opened, attached}
use psrt.Traffic.Quiet.{QuietCall-KeepsChannels, QuietCall-WellFormed}
use psrt.Traffic.Invariant.{Waits, Came, Invariant}

-- More clients may be there.
pub Waits-more :
    (a b : ℕ) (p : psrt.Traffic.Pushing) (published : List Publication) (left : List ServerClient)
    → a ≤ b
    → All (Waits a p published) left
    → All (Waits b p published) left
Waits-more a b p published left h =
    imply-All (Waits a p published) (Waits b p published)
      (λ s (small, member, listed). (omega (arith, small, h), member, listed)) left

-- Channels that got an owner keep it.
pub Came-owner :
    (owner owner' : ℕ → Option ℕ) (published : List Publication) (ch : ℕ)
    → ((p : ℕ) → owner ch ≡ some p → owner' ch ≡ some p)
    → (messages : List MessageFrame) → All (Came owner published ch) messages
    → All (Came owner' published ch) messages
Came-owner owner owner' published ch more messages =
    imply-All (Came owner published ch) (Came owner' published ch) kept messages
  where
    kept : (m : MessageFrame) → Came owner published ch m → Came owner' published ch m
    kept m (inl e) = inl e
    kept m (inr came) = inr (
        imply-Exists (λ p. (p.frame ≡ m) × Exists (λ s. owner ch ≡ some s.at) p.subscribers)
          (λ p. (p.frame ≡ m) × Exists (λ s. owner' ch ≡ some s.at) p.subscribers)
          (λ p (same, e). (
            same,
            imply-Exists (λ s. owner ch ≡ some s.at) (λ s. owner' ch ≡ some s.at)
                (λ s own. more s.at own) p.subscribers e,
          ))
          published came)

module _ {Map : Type 0} (S : SubMap Map) (L : SubMapLaws S) where
  pub called-Invariant :
      (t : Traffic Map) {db : ClientDb Map}
      → QuietCall S L t.db db
      → Invariant S L t
      → Invariant S L (called S L db t)
  called-Invariant t {db} q h =
      let k = QuietCall-KeepsChannels S L q in
      record {
        well_formed = QuietCall-WellFormed S L q h.well_formed;
        fits = rw k.channels h.fits;
        unborn = λ ch late. h.unborn ch (rw k.next_channel at late);
        held = λ ch on. (rw k.next_channel (h.held ch on));
        owned = λ p ch small own.
            let (before, owned_before) = k.fewer p ch small own in h.owned p ch before owned_before;
        chosen_owned = h.chosen_owned;
        chosen_waits = λ i s o e.
            let (small, member, listed) = h.chosen_waits i s o e in
            (omega (arith, small, k.next), member, listed);
        left_wait = λ i.
            Waits-more t.db.next db.next (t.pushing i) t.published (t.pushing i).left k.next
              (h.left_wait i);
        in_order = λ ch. rw k.channels (h.in_order ch);
        authentic = h.authentic;
      }

  pub opened-Invariant :
      (capacity : ℕ) (t : Traffic Map) → Invariant S L t → Invariant S L (opened S L capacity t)
  unfolding new_channel
  opened-Invariant capacity t h =
      let now = t.db.next_channel in
      let (unowned, silent) = h.unborn now (omega arith) in
      let untaken : t.taken now ≡ [] =
        nil-of_append (t.taken now) (t.db.channels now).queue (h.in_order now ∙ silent) in
      record {
        well_formed =
            SameLinks-WellFormed S L {db = t.db}
              (record { table = refl; next = refl; tokens = λ k. refl; clients = λ k. refl })
              h.well_formed;
        fits = λ ch. ground (arith, h.fits ch);
        unborn = λ ch late. h.unborn ch (omega (arith, late));
        held = λ ch on. elim (Bool-cases (now == ch)) [
          | inl new ↦ ground (arith, new, unowned)
          | inr old ↦
              let before = h.held ch (ground (arith, on, old)) in
              (before.0, omega (arith, before.1))
        ];
        owned = h.owned;
        chosen_owned = h.chosen_owned;
        chosen_waits = h.chosen_waits;
        left_wait = h.left_wait;
        in_order = λ ch. ground (arith, h.in_order ch, untaken, silent);
        authentic = h.authentic;
      }

  pub attached-Invariant :
      (token : Bytes) (ch : ℕ) (t : Traffic Map)
      → t.is_held ch ≡ true
      → Invariant S L t
      → Invariant S L (attached S L token ch t)
  attached-Invariant token ch t on h =
      let (free, born) = h.held ch on in
      let wf = register_data_channel-WellFormed S L token ch h.well_formed in
      elim (register_data_channel-cases token ch t.db) [
        | inl (e, refused) ↦ rw refused (record {
          well_formed = h.well_formed;
          fits = h.fits;
          unborn = h.unborn;
          held = λ c on. h.held c (ground (arith, on));
          owned = h.owned;
          chosen_owned = h.chosen_owned;
          chosen_waits = h.chosen_waits;
          left_wait = h.left_wait;
          in_order = h.in_order;
          authentic = h.authentic;
        })
        | inr (c, done) ↦
            let owner' = update t.owner ch (some c.at) in
            let more : (j p : ℕ) → t.owner j ≡ some p → owner' j ≡ some p =
              λ j p own. ground (arith, own, free) in
            rw done (record {
              well_formed = rw done at wf;
              fits = h.fits;
              unborn = λ j late. ground (arith, h.unborn j late, born, late);
              held = λ j on. ground (arith, on, h.held j);
              owned = λ p j small own. ground (arith, own, h.owned p j small, free);
              chosen_owned = λ i j s e. more j s.at (h.chosen_owned i j s e);
              chosen_waits = h.chosen_waits;
              left_wait = h.left_wait;
              in_order = h.in_order;
              authentic = λ j.
                  Came-owner t.owner owner' t.published j (more j) (t.accepted j) (h.authentic j);
            })
      ]
