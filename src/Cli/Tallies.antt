-- ===== src/Cli/Tallies.antt =====
-- The counts that the option `--top` keeps, against the messages that came in.
use psrt.Prelude.{
  imply-All, ℕ, ◌+◌, ◌≡◌, refl, Bool, true, false, List, [], ◌∷◌, All, length, ◌||◌, if◌then◌else◌,
  arith, Bool-cases, inl, inr,
}
use psrt.Prelude.Bytes.{Bytes, beq, beq_iff}
use psrt.Client.Message.{Message}
use psrt.Cli.{
  TopicStat, new, counted, u64, u128, has_topic, count_in, insert_stat, precedes, count_message,
  Event, Top, start, is_early, on_message, run,
}

-- How many messages there were on a topic, and how many bytes they had.
abbrev pub times : Bytes → List Message → ℕ
times t [] = 0
times t (m ∷ ms) = (if beq m.topic t then 1 else 0) + times t ms

abbrev pub volume : Bytes → List Message → ℕ
volume t [] = 0
volume t (m ∷ ms) = (if beq m.topic t then length m.body else 0) + volume t ms

-- What a row has to show.
abbrev pub expected : Bool → Bytes → List Message → ℕ
expected false t ms = u64 (times t ms)
expected true t ms = u128 (volume t ms)

-- The row of a topic shows these numbers of messages and bytes.
abbrev pub Shows : (Bytes → ℕ) → (Bytes → ℕ) → TopicStat → Type 0
Shows n v s = (s.count ≡ u64 (n s.topic)) × (s.bytes ≡ u128 (v s.topic))

pub record Counts (n v : Bytes → ℕ) (stats : List TopicStat) : Type 0 where
  pub true_rows : All (Shows n v) stats
  pub no_others : (t : Bytes) → has_topic t stats ≡ false → (n t ≡ 0) × (v t ≡ 0)

-- The numbers with one more message.
abbrev pub more : Message → (Bytes → ℕ) → Bytes → ℕ
more m n t = n t + (if beq m.topic t then 1 else 0)

abbrev pub grown : Message → (Bytes → ℕ) → Bytes → ℕ
grown m v t = v t + (if beq m.topic t then length m.body else 0)

count_in-Shows :
    (m : Message) (n v : Bytes → ℕ) (stats : List TopicStat)
    → All (Shows n v) stats
    → All (Shows (more m n) (grown m v)) (count_in m.topic (length m.body) stats)
unfolding count_in
count_in-Shows m n v [] shows = tt
count_in-Shows m n v (s ∷ stats) ((c, b), shows) = elim (Bool-cases (beq s.topic m.topic)) [
  | inl same ↦
      let e = (beq_iff s.topic m.topic).0 same in
      rw same (
        (
          ground (arith, c, b, e, beq_iff m.topic s.topic),
          ground (arith, c, b, e, beq_iff m.topic s.topic),
        ),
        count_in-Shows m n v stats shows,
      )
  | inr other ↦ rw other (
    (
      ground (arith, c, other, beq_iff m.topic s.topic, beq_iff s.topic m.topic),
      ground (arith, b, other, beq_iff m.topic s.topic, beq_iff s.topic m.topic),
    ),
    count_in-Shows m n v stats shows,
  )
]

count_in-has_topic :
    (t topic : Bytes) (size : ℕ) (stats : List TopicStat)
    → has_topic t (count_in topic size stats) ≡ has_topic t stats
unfolding count_in has_topic
count_in-has_topic t topic size [] = refl
count_in-has_topic t topic size (s ∷ stats) = ground (arith, count_in-has_topic t topic size stats)

insert_stat-has_topic :
    (t : Bytes) (stat : TopicStat) (stats : List TopicStat)
    → has_topic t (insert_stat stat stats) ≡ (beq stat.topic t || has_topic t stats)
unfolding insert_stat has_topic
insert_stat-has_topic t stat [] = refl
insert_stat-has_topic t stat (s ∷ stats) = ground (arith, insert_stat-has_topic t stat stats)

-- A row that is put in shows what it has to, and the others are of other topics.
insert_stat-Shows :
    (n v : Bytes → ℕ) (stat : TopicStat) (stats : List TopicStat)
    → Shows n v stat
    → All (Shows n v) stats
    → All (Shows n v) (insert_stat stat stats)
unfolding insert_stat
insert_stat-Shows n v stat [] own shows = (own, tt)
insert_stat-Shows n v stat (s ∷ stats) own (first, shows) =
    elim (Bool-cases (precedes stat.topic s.topic)) [
      | inl before ↦ rw before (own, (first, shows))
      | inr after ↦ rw after (first, insert_stat-Shows n v stat stats own shows)
    ]

others-Shows :
    (m : Message) (n v : Bytes → ℕ) (stats : List TopicStat)
    → has_topic m.topic stats ≡ false
    → All (Shows n v) stats
    → All (Shows (more m n) (grown m v)) stats
unfolding has_topic
others-Shows m n v [] unknown shows = tt
others-Shows m n v (s ∷ stats) unknown ((c, b), shows) =
    let other : beq m.topic s.topic ≡ false =
      ground (arith, unknown, beq_iff m.topic s.topic, beq_iff s.topic m.topic) in
    let rest : has_topic m.topic stats ≡ false = ground (arith, unknown) in
    (ground (arith, c, b, other), others-Shows m n v stats rest shows)

pub count_message-Counts :
    (m : Message) (n v : Bytes → ℕ) (stats : List TopicStat)
    → Counts n v stats
    → Counts (more m n) (grown m v) (count_message m stats)
unfolding count_message
count_message-Counts m n v stats c = elim (Bool-cases (has_topic m.topic stats)) [
  | inl known ↦
      let no_others : (t : Bytes)
          → has_topic t (count_in m.topic (length m.body) stats) ≡ false
          → (more m n t ≡ 0) × (grown m v t ≡ 0) =
        λ t missing.
          let before : has_topic t stats ≡ false =
            rw (count_in-has_topic t m.topic (length m.body) stats) at missing in
          ground (arith, beq_iff m.topic t, known, before, c.no_others t before) in
      rw known
        (record { true_rows = count_in-Shows m n v stats c.true_rows; no_others = no_others })
  | inr unknown ↦
      let stat = counted (length m.body) (new m.topic) in
      let own : Shows (more m n) (grown m v) stat =
        ground (arith, c.no_others m.topic unknown, beq_iff m.topic m.topic) in
      let no_others : (t : Bytes)
          → has_topic t (insert_stat stat stats) ≡ false
          → (more m n t ≡ 0) × (grown m v t ≡ 0) =
        λ t missing.
          let both : (beq m.topic t || has_topic t stats) ≡ false =
            rw (insert_stat-has_topic t stat stats) at missing in
          let before : has_topic t stats ≡ false = ground (arith, both) in
          ground (arith, both, c.no_others t before) in
      rw unknown (record {
        true_rows =
            insert_stat-Shows (more m n) (grown m v) stat stats own
              (others-Shows m n v stats unknown c.true_rows);
        no_others = no_others;
      })
]

pub Counts-eq :
    (n v n' v' : Bytes → ℕ) (stats : List TopicStat)
    → ((t : Bytes) → n t ≡ n' t)
    → ((t : Bytes) → v t ≡ v' t)
    → Counts n v stats
    → Counts n' v' stats
Counts-eq n v n' v' stats en ev c = record {
  true_rows =
      imply-All (Shows n v) (Shows n' v')
        (λ s (a, b). (ground (arith, a, en s.topic), ground (arith, b, ev s.topic))) stats
        c.true_rows;
  no_others = λ t missing. ground (arith, c.no_others t missing, en t, ev t);
}

abbrev pub messages : List Event → List Message
messages [] = []
messages (e ∷ events) = e.message ∷ messages events

on_message-stats :
    (e : Event) (top : Top)
    → (on_message e top).topic_stats ≡ count_message e.message top.topic_stats
unfolding on_message
on_message-stats e top = elim (Bool-cases (is_early top.last_refresh e.checked_at)) [
  | inl early ↦ rw early refl
  | inr due ↦ rw due refl
]

pub run-Counts :
    (events : List Event) (n v : Bytes → ℕ) (top : Top)
    → Counts n v top.topic_stats
    → Counts
        (λ t. n t + times t (messages events))
        (λ t. v t + volume t (messages events))
        (run events top).topic_stats
unfolding run
run-Counts [] n v top c =
    Counts-eq n v (λ t. n t + 0) (λ t. v t + 0) top.topic_stats (λ t. omega arith)
      (λ t. omega arith) c
run-Counts (e ∷ events) n v top c =
    let m = e.message in
    let next : Counts (more m n) (grown m v) (on_message e top).topic_stats =
      rw (on_message-stats e top) (count_message-Counts m n v top.topic_stats c) in
    Counts-eq (λ t. more m n t + times t (messages events))
      (λ t. grown m v t + volume t (messages events)) (λ t. n t + times t (m ∷ messages events))
      (λ t. v t + volume t (m ∷ messages events)) (run events (on_message e top)).topic_stats
      (λ t. omega arith) (λ t. omega arith)
      (run-Counts events (more m n) (grown m v) (on_message e top) next)

pub start-Counts : Counts (λ t. 0) (λ t. 0) start.topic_stats
start-Counts = record { true_rows = tt; no_others = λ t missing. (refl, refl) }
