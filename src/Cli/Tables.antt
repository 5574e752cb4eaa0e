-- ===== src/Cli/Tables.antt =====
-- The tables that the option `--top` draws, against the messages that came in.
use psrt.Prelude.{
  imply-All, ℕ, zero, suc, ◌+◌, ◌-◌, ◌≤◌, ◌≡◌, refl, Bool, true, false, List, [], ◌∷◌, ◌++◌, All,
  length, take, if◌then◌else◌, arith, Bool-cases, inl, inr,
}
use psrt.Prelude.Bytes.{Bytes, beq}
use psrt.Client.Message.{Message}
use psrt.Cli.{
  TopicStat, has_topic, count_message, rank, sort_stats, rows, Event, start, is_early, on_message,
  run,
}
use psrt.Cli.Tallies.{
  times, volume, expected, Shows, more, grown, Counts, Counts-eq, count_message-Counts, messages,
  run-Counts, start-Counts,
}
use psrt.Cli.Sorting.{
  sort_stats-All, sort_stats-has_topic, sort_stats-IsDescending, left_out, take-All,
}

-- What a table tells of the messages so far.
pub record Tells (mode : Bool) (lines : ℕ) (seen : List Message) (table : List TopicStat)
    : Type 0 where
  pub fits : length table ≤ lines - 4
  pub true_rows :
      All
        (λ s. (s.count ≡ expected false s.topic seen) × (s.bytes ≡ expected true s.topic seen))
        table
  pub highest :
      (t : Bytes) → has_topic t table ≡ false → All (λ s. expected mode t seen ≤ rank mode s) table

length-take_le {ℓ} : {A : Type ℓ} (k : ℕ) (xs : List A) → length (take k xs) ≤ k
length-take_le zero xs = omega arith
length-take_le (suc k) [] = omega arith
length-take_le (suc k) (x ∷ xs) = omega (arith, length-take_le k xs)

shown_rank :
    (mode : Bool) (t : Bytes) (seen : List Message) (s : TopicStat)
    → Shows (λ x. times x seen) (λ x. volume x seen) s
    → s.topic ≡ t
    → rank mode s ≡ expected mode t seen
shown_rank false t seen s (c, b) e = rw e at c
shown_rank true t seen s (c, b) e = rw e at b

unseen_rank :
    (mode : Bool) (t : Bytes) (seen : List Message)
    → (times t seen ≡ 0) × (volume t seen ≡ 0)
    → expected mode t seen ≡ 0
unseen_rank false t seen (n, v) = rw n refl
unseen_rank true t seen (n, v) = rw v refl

unseen_below :
    (mode : Bool) (t : Bytes) (seen : List Message)
    → (times t seen ≡ 0) × (volume t seen ≡ 0)
    → (stats : List TopicStat) → All (λ s. expected mode t seen ≤ rank mode s) stats
unseen_below mode t seen none [] = tt
unseen_below mode t seen none (s ∷ stats) =
    (omega (arith, unseen_rank mode t seen none), unseen_below mode t seen none stats)

rows-Tells :
    (mode : Bool) (lines : ℕ) (seen : List Message) (stats : List TopicStat)
    → Counts (λ t. times t seen) (λ t. volume t seen) stats
    → Tells mode lines seen (rows mode lines stats)
unfolding rows
rows-Tells mode lines seen stats c =
    let n : Bytes → ℕ = λ t. times t seen in
    let v : Bytes → ℕ = λ t. volume t seen in
    let sorted = sort_stats mode stats in
    let k = lines - 4 in
    let all_shown = sort_stats-All mode (Shows n v) stats c.true_rows in
    record {
      fits = length-take_le k sorted;
      true_rows = take-All (Shows n v) k sorted all_shown;
      highest = λ t out. elim (Bool-cases (has_topic t sorted)) [
        | inl listed ↦
            left_out mode t (expected mode t seen) k sorted (sort_stats-IsDescending mode stats)
              (imply-All (Shows n v) (λ r. r.topic ≡ t → rank mode r ≡ expected mode t seen)
                (shown_rank mode t seen) sorted all_shown)
              listed out
        | inr missing ↦
            let none_seen = c.no_others t (rw (sort_stats-has_topic mode t stats) at missing) in
            unseen_below mode t seen none_seen (take k sorted)
      ];
    }

times-append :
    (t : Bytes) (ms : List Message) (m : Message)
    → times t (ms ++ m ∷ []) ≡ times t ms + (if beq m.topic t then 1 else 0)
times-append t [] m = omega arith
times-append t (n ∷ ms) m = omega (arith, times-append t ms m)

volume-append :
    (t : Bytes) (ms : List Message) (m : Message)
    → volume t (ms ++ m ∷ []) ≡ volume t ms + (if beq m.topic t then length m.body else 0)
volume-append t [] m = omega arith
volume-append t (n ∷ ms) m = omega (arith, volume-append t ms m)

-- Each message that is not early, behind any others, has a table drawn in front of the ones before.
-- It fits the terminal; each row has the number of messages that came in on its topic, modulo
-- 2 ^ 64, and the number of their bytes, modulo 2 ^ 128; and a topic that is left out has no higher
-- number, by the sort mode, than any row.
pub on_message-Tells :
    (events : List Event) (e : Event)
    → is_early (run events start).last_refresh e.checked_at ≡ false
    → (table : List TopicStat) × ((on_message e (run events start)).tables
        ≡ table ∷ (run events start).tables)
      × Tells e.sort_mode e.height (messages events ++ e.message ∷ []) table
unfolding on_message
on_message-Tells events e due =
    let top = run events start in
    let before = run-Counts events (λ t. 0) (λ t. 0) start start-Counts in
    let n : Bytes → ℕ = λ t. 0 + times t (messages events) in
    let v : Bytes → ℕ = λ t. 0 + volume t (messages events) in
    let seen = messages events ++ e.message ∷ [] in
    let stats = count_message e.message top.topic_stats in
    let after : Counts (λ t. times t seen) (λ t. volume t seen) stats =
      Counts-eq (more e.message n) (grown e.message v) (λ t. times t seen) (λ t. volume t seen)
        stats (λ t. omega (arith, times-append t (messages events) e.message))
        (λ t. omega (arith, volume-append t (messages events) e.message))
        (count_message-Counts e.message n v top.topic_stats before) in
    (rows e.sort_mode e.height stats, rw due refl, rows-Tells e.sort_mode e.height seen stats after)
