-- ===== src/Traffic/Invariant.antt =====
-- What holds of the server's tasks at every moment.
use psrt.Prelude.{
  ℕ, ◌<◌, ◌≤◌, ◌≡◌, ◌⊎◌, refl, true, Option, none, some, List, [], ◌++◌, arith, All, Exists,
}
use psrt.Prelude.Bytes.{Bytes}
use psrt.PubSub.Submap.{ServerClient, SubMap, SubMapLaws}
use psrt.PubSub.Store.{MessageFrame, ServerClientData}
use psrt.PubSub.Db.Invariant.{WellFormed, new_db-WellFormed}
use psrt.Push.Queues.{QueuesFit}
use psrt.Traffic.{Publication, Pushing, Traffic, new_traffic, beacon}

abbrev pub IsIn {ℓ} : {A : Type ℓ} → A → List A → Type ℓ
IsIn a xs = Exists (λ x. x ≡ a) xs

-- A message of a channel was published, and when it was, the channel's client was a subscriber of
-- its topic.
abbrev pub WasPublished : (ℕ → Option ℕ) → List Publication → ℕ → MessageFrame → Type 0
WasPublished owner published ch message =
    Exists (λ p. (p.frame ≡ message) × Exists (λ s. owner ch ≡ some s.at) p.subscribers) published

-- Or it is a beacon.
abbrev pub Came : (ℕ → Option ℕ) → List Publication → ℕ → MessageFrame → Type 0
Came owner published ch message = (message ≡ beacon) ⊎ WasPublished owner published ch message

-- A client that a task will push to.
abbrev pub Waits : ℕ → Pushing → List Publication → ServerClient → Type 0
Waits next p published s =
    (s.at < next) × IsIn s p.publication.subscribers × IsIn p.publication published

module _ {Map : Type 0} (S : SubMap Map) (L : SubMapLaws S) where
  pub record Invariant (t : Traffic Map) : Type 0 where
    pub well_formed : WellFormed S L t.db
    pub fits : QueuesFit t.db
    pub unborn : (ch : ℕ) → t.db.next_channel ≤ ch → (t.owner ch ≡ none) × (t.accepted ch ≡ [])
    pub held : (ch : ℕ) → t.is_held ch ≡ true → (t.owner ch ≡ none) × (ch < t.db.next_channel)
    pub owned :
        (p ch : ℕ) → p < t.db.next → (t.db.heap p).data_channel ≡ some ch → t.owner ch ≡ some p
    pub chosen_owned :
        (i ch : ℕ) (s : ServerClient)
        → (t.pushing i).chosen ≡ some (s, some ch)
        → t.owner ch ≡ some s.at
    pub chosen_waits :
        (i : ℕ) (s : ServerClient) (o : Option ℕ)
        → (t.pushing i).chosen ≡ some (s, o)
        → Waits t.db.next (t.pushing i) t.published s
    pub left_wait : (i : ℕ) → All (Waits t.db.next (t.pushing i) t.published) (t.pushing i).left
    pub in_order : (ch : ℕ) → t.taken ch ++ (t.db.channels ch).queue ≡ t.accepted ch
    pub authentic : (ch : ℕ) → All (Came t.owner t.published ch) (t.accepted ch)

  pub new_traffic-Invariant :
      (heap : ℕ → ServerClientData) (supply : List Bytes) → Invariant (new_traffic S L heap supply)
  new_traffic-Invariant heap supply = record {
    well_formed =
        new_db-WellFormed S L heap (λ ch. record { capacity = 0; queue = []; is_open = true })
          supply;
    fits = λ ch. omega arith;
    unborn = λ ch h. (refl, refl);
    held = λ ch h. absurd (ground (arith, h));
    owned = λ p ch small h. absurd (omega (arith, small));
    chosen_owned = λ i ch s h. absurd (ground (arith, h));
    chosen_waits = λ i s o h. absurd (ground (arith, h));
    left_wait = λ i. tt;
    in_order = λ ch. refl;
    authentic = λ ch. tt;
  }
