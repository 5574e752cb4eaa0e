-- ===== src/Traffic/Receiving.antt =====
-- What data streams take, their ends and the pings keep the invariant.
use psrt.Prelude.{ℕ, ◌≡◌, refl, false, some, List, [], ◌∷◌, ◌++◌, arith, append_assoc, inl}
use psrt.PubSub.Submap.{SubMap, SubMapLaws}
use psrt.PubSub.Store.{MessageFrame, Channel, update, is_full, send}
use psrt.PubSub.Db.Invariant.{SameLinks-WellFormed}
use psrt.Push.Queues.{send_fits}
use psrt.Traffic.{Traffic, noted, received, closed, pinged, beacon}
use psrt.Traffic.Invariant.{Invariant}
use psrt.Traffic.Sending.{noted-nil, noted-authentic}

module _ {Map : Type 0} (S : SubMap Map) (L : SubMapLaws S) where
  pub received-Invariant :
      (ch : ℕ) (message : MessageFrame) (rest : List MessageFrame) (t : Traffic Map)
      → (t.db.channels ch).queue ≡ message ∷ rest
      → Invariant S L t
      → Invariant S L (received S L ch message rest t)
  received-Invariant ch message rest t e h = record {
    well_formed =
        SameLinks-WellFormed S L {db = t.db}
          (record { table = refl; next = refl; tokens = λ k. refl; clients = λ k. refl })
          h.well_formed;
    fits = λ c. ground (arith, h.fits c, h.fits ch, e);
    unborn = h.unborn;
    held = h.held;
    owned = h.owned;
    chosen_owned = h.chosen_owned;
    chosen_waits = h.chosen_waits;
    left_wait = h.left_wait;
    in_order = λ c.
        ground
          (arith, h.in_order c, h.in_order ch, e, append_assoc (t.taken ch) (message ∷ []) rest);
    authentic = h.authentic;
  }

  pub closed-Invariant :
      (ch : ℕ) (t : Traffic Map) → Invariant S L t → Invariant S L (closed S L ch t)
  closed-Invariant ch t h = record {
    well_formed =
        SameLinks-WellFormed S L {db = t.db}
          (record { table = refl; next = refl; tokens = λ k. refl; clients = λ k. refl })
          h.well_formed;
    fits = λ c. ground (arith, h.fits c, h.fits ch);
    unborn = h.unborn;
    held = h.held;
    owned = h.owned;
    chosen_owned = h.chosen_owned;
    chosen_waits = h.chosen_waits;
    left_wait = h.left_wait;
    in_order = λ c. ground (arith, h.in_order c, h.in_order ch);
    authentic = h.authentic;
  }

  send-in_order :
      (message : MessageFrame) (dc : ℕ) (channels : ℕ → Channel)
      (taken accepted : ℕ → List MessageFrame) (ch : ℕ)
      → is_full (channels dc) ≡ false
      → taken ch ++ (channels ch).queue ≡ accepted ch
      → taken ch ++ (update channels dc (send message (channels dc)) ch).queue
        ≡ noted (some dc) message channels accepted ch
  unfolding send
  send-in_order message dc channels taken accepted ch room h =
      ground (arith, room, h, append_assoc (taken dc) (channels dc).queue (message ∷ []))

  pub pinged-Invariant :
      (ch p : ℕ) (t : Traffic Map)
      → t.owner ch ≡ some p
      → is_full (t.db.channels ch) ≡ false
      → Invariant S L t
      → Invariant S L (pinged S L ch t)
  pinged-Invariant ch p t mine room h = record {
    well_formed =
        SameLinks-WellFormed S L {db = t.db}
          (record { table = refl; next = refl; tokens = λ k. refl; clients = λ k. refl })
          h.well_formed;
    fits = λ c. ground (arith, h.fits c, send_fits beacon (t.db.channels ch) (h.fits ch) room);
    unborn = λ c late.
        let (free, silent) = h.unborn c late in
        (
          free,
          noted-nil beacon (some ch) t.db.channels t.accepted c
              (λ dc is_dc. ground (arith, mine, free, is_dc)) silent,
        );
    held = h.held;
    owned = h.owned;
    chosen_owned = h.chosen_owned;
    chosen_waits = h.chosen_waits;
    left_wait = h.left_wait;
    in_order = λ c. send-in_order beacon ch t.db.channels t.taken t.accepted c room (h.in_order c);
    authentic = λ c.
        noted-authentic t.owner t.published beacon (some ch) t.db.channels t.accepted c
          (λ dc is_dc. inl refl) (h.authentic c);
  }
