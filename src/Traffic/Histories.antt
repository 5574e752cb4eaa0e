-- ===== src/Traffic/Histories.antt =====
-- What the data channels carry, however the tasks of the server interleave.
use psrt.Prelude.{
  All, Bool, Bool-cases, List, Option, arith, false, if◌then◌else◌, inl, inr, length, none, refl,
  some, suc, true, zero, ℕ, ◌++◌, ◌<◌, ◌==◌, ◌≡◌, ◌≤◌,
}
use psrt.Prelude.Bytes.{Bytes}
use psrt.PubSub.Submap.{SubMap, SubMapLaws}
use psrt.PubSub.Store.{ServerClientData}
use psrt.Traffic.{
  Traffic, TrafficStep, calls, opens, attaches, publishes, picks, pushes, receives, closes, pings,
  TrafficReach, start, next, new_traffic,
}
use psrt.Traffic.Invariant.{Came, Invariant, new_traffic-Invariant}
use psrt.Traffic.Attaching.{called-Invariant, opened-Invariant, attached-Invariant}
use psrt.Traffic.Receiving.{received-Invariant, closed-Invariant, pinged-Invariant}
use psrt.Traffic.Sending.{publishing-Invariant, picking-Invariant, pushed-Invariant}

abbrev pub is_at : ℕ → Option ℕ → Bool
is_at ch none = false
is_at ch (some dc) = dc == ch

-- How many of the first `n` clients have the data channel.
abbrev pub holders : ℕ → (ℕ → ServerClientData) → ℕ → ℕ
holders zero heap ch = 0
holders (suc n) heap ch =
    if is_at ch (heap n).data_channel then suc (holders n heap ch) else holders n heap ch

some-of_is_at : (ch : ℕ) (o : Option ℕ) → is_at ch o ≡ true → o ≡ some ch
some-of_is_at ch none h = absurd (ground (arith, h))
some-of_is_at ch (some dc) h = ground (arith, h)

holders_none :
    (n : ℕ) (heap : ℕ → ServerClientData) (ch : ℕ)
    → ((p : ℕ) → p < n → is_at ch (heap p).data_channel ≡ false)
    → holders n heap ch ≡ 0
holders_none zero heap ch other = refl
holders_none (suc n) heap ch other =
    rw (other n (omega arith)) (holders_none n heap ch (λ p small. other p (omega (arith, small))))

-- A channel with one owner has one holder at most.
holders_one :
    (n : ℕ) (heap : ℕ → ServerClientData) (ch : ℕ) (owner : Option ℕ)
    → ((p : ℕ) → p < n → (heap p).data_channel ≡ some ch → owner ≡ some p)
    → holders n heap ch ≤ 1
holders_one zero heap ch owner owned = omega arith
holders_one (suc n) heap ch owner owned =
    let below : (p : ℕ) → p < n → (heap p).data_channel ≡ some ch → owner ≡ some p =
      λ p small. owned p (omega (arith, small)) in
    elim (Bool-cases (is_at ch (heap n).data_channel)) [
      | inr other ↦ rw (other) (holders_one n heap ch owner below)
      | inl mine ↦
          let last = owned n (omega arith) (some-of_is_at ch _ mine) in
          let others : (p : ℕ) → p < n → is_at ch (heap p).data_channel ≡ false = λ p small.
            elim (Bool-cases (is_at ch (heap p).data_channel)) [
              | inr other ↦ other
              | inl too ↦
                  absurd (ground (arith, last, below p small (some-of_is_at ch _ too), small))
            ] in
          rw (mine, holders_none n heap ch others) (omega arith)
    ]

module _ {Map : Type 0} (S : SubMap Map) (L : SubMapLaws S) where
  TrafficStep-Invariant :
      {a b : Traffic Map} → TrafficStep S L a b → Invariant S L a → Invariant S L b
  TrafficStep-Invariant {a} (calls q) h = called-Invariant S L a q h
  TrafficStep-Invariant {a} (opens capacity) h = opened-Invariant S L capacity a h
  TrafficStep-Invariant {a} (attaches token ch on) h = attached-Invariant S L token ch a on h
  TrafficStep-Invariant {a} (publishes i priority topic message timestamp idle done) h =
      publishing-Invariant S L i priority topic message timestamp a h
  TrafficStep-Invariant {a} (picks i s rest idle e) h = picking-Invariant S L i s rest a e h
  TrafficStep-Invariant {a} (pushes i s o e) h = pushed-Invariant S L i s o a e h
  TrafficStep-Invariant {a} (receives ch message rest e) h =
      received-Invariant S L ch message rest a e h
  TrafficStep-Invariant {a} (closes ch) h = closed-Invariant S L ch a h
  TrafficStep-Invariant {a} (pings ch p mine room) h = pinged-Invariant S L ch p a mine room h

  pub TrafficReach-Invariant :
      {a b : Traffic Map} → Invariant S L a → TrafficReach S L a b → Invariant S L b
  TrafficReach-Invariant h start = h
  TrafficReach-Invariant h (next r s) = TrafficStep-Invariant s (TrafficReach-Invariant h r)

  -- However the tasks interleave, from the start of the server: at most one client has a given data
  -- channel; no queue is longer than its capacity; what a data stream has taken out of its channel,
  -- followed by what waits there, is what was accepted into the channel, in this order, without a
  -- loss or a repetition; and each of these messages is a beacon, or was published when the client
  -- that the channel was registered for was among the subscribers of its topic.
  pub reachable-Histories :
      (heap : ℕ → ServerClientData) (supply : List Bytes) {t : Traffic Map}
      → TrafficReach S L (new_traffic S L heap supply) t
      → (ch : ℕ)
      → (holders t.db.next t.db.heap ch ≤ 1)
        × (length (t.db.channels ch).queue ≤ (t.db.channels ch).capacity)
        × (t.taken ch ++ (t.db.channels ch).queue ≡ t.accepted ch)
        × All (Came t.owner t.published ch) (t.accepted ch)
  reachable-Histories heap supply {t} r ch =
      let h = TrafficReach-Invariant (new_traffic-Invariant S L heap supply) r in
      (
        holders_one t.db.next t.db.heap ch (t.owner ch) (λ p. h.owned p ch),
        h.fits ch,
        h.in_order ch,
        h.authentic ch,
      )
