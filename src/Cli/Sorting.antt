-- ===== src/Cli/Sorting.antt =====
-- The order of the rows of a table, and what is left out of it.
use psrt.Prelude.{
  ℕ, zero, suc, ◌≤◌, ◌≡◌, refl, Bool, true, false, List, [], ◌∷◌, All, take, ltb, ◌||◌, arith,
  Bool-cases, inl, inr,
}
use psrt.Prelude.Bytes.{Bytes, beq, beq_iff}
use psrt.Cli.{TopicStat, has_topic, rank, place, sort_stats}

-- Sorting keeps the rows and puts the highest first.
module _ (mode : Bool) where
  abbrev Below : TopicStat → List TopicStat → Type 0
  Below s stats = All (λ t. rank mode t ≤ rank mode s) stats

  abbrev pub IsDescending : List TopicStat → Type 0
  IsDescending [] = Unit
  IsDescending (s ∷ stats) = Below s stats × IsDescending stats

  place-All :
      (P : TopicStat → Type 0) (s : TopicStat) (stats : List TopicStat)
      → P s
      → All P stats
      → All P (place mode s stats)
  unfolding place
  place-All P s [] p ps = (p, tt)
  place-All P s (t ∷ stats) p (q, ps) = elim (Bool-cases (ltb (rank mode s) (rank mode t))) [
    | inl later ↦ rw later (q, place-All P s stats p ps)
    | inr here ↦ rw here (p, (q, ps))
  ]

  pub sort_stats-All :
      (P : TopicStat → Type 0) (stats : List TopicStat)
      → All P stats
      → All P (sort_stats mode stats)
  unfolding sort_stats
  sort_stats-All P [] ps = tt
  sort_stats-All P (s ∷ stats) (p, ps) =
      place-All P s (sort_stats mode stats) p (sort_stats-All P stats ps)

  place-has_topic :
      (t : Bytes) (s : TopicStat) (stats : List TopicStat)
      → has_topic t (place mode s stats) ≡ (beq s.topic t || has_topic t stats)
  unfolding place has_topic
  place-has_topic t s [] = refl
  place-has_topic t s (r ∷ stats) = ground (arith, place-has_topic t s stats)

  pub sort_stats-has_topic :
      (t : Bytes) (stats : List TopicStat) → has_topic t (sort_stats mode stats) ≡ has_topic t stats
  unfolding sort_stats has_topic
  sort_stats-has_topic t [] = refl
  sort_stats-has_topic t (s ∷ stats) =
      ground (arith, place-has_topic t s (sort_stats mode stats), sort_stats-has_topic t stats)

  higher_bound :
      (s t : TopicStat) (stats : List TopicStat)
      → rank mode s ≤ rank mode t
      → Below s stats
      → Below t stats
  higher_bound s t [] h b = tt
  higher_bound s t (r ∷ stats) h (a, b) = (omega (arith, a, h), higher_bound s t stats h b)

  place-IsDescending :
      (s : TopicStat) (stats : List TopicStat)
      → IsDescending stats
      → IsDescending (place mode s stats)
  unfolding place
  place-IsDescending s [] d = (tt, tt)
  place-IsDescending s (t ∷ stats) (b, d) = elim (Bool-cases (ltb (rank mode s) (rank mode t))) [
    | inl later ↦
        let under : rank mode s ≤ rank mode t = ground (arith, later) in
        rw later
          (place-All (λ r. rank mode r ≤ rank mode t) s stats under b, place-IsDescending s stats d)
    | inr here ↦
        let under : rank mode t ≤ rank mode s = ground (arith, here) in
        rw here ((under, higher_bound t s stats under b), (b, d))
  ]

  pub sort_stats-IsDescending : (stats : List TopicStat) → IsDescending (sort_stats mode stats)
  unfolding sort_stats
  sort_stats-IsDescending [] = tt
  sort_stats-IsDescending (s ∷ stats) =
      place-IsDescending s (sort_stats mode stats) (sort_stats-IsDescending stats)

  -- The rows of one topic all show the same number, so a topic that is left out is not above a row.
  listed_bound :
      (t : Bytes) (e : ℕ) (s : TopicStat) (stats : List TopicStat)
      → Below s stats
      → All (λ r. r.topic ≡ t → rank mode r ≡ e) stats
      → has_topic t stats ≡ true
      → e ≤ rank mode s
  unfolding has_topic
  listed_bound t e s [] b q listed = absurd (ground (arith, listed))
  listed_bound t e s (r ∷ stats) (under, b) (own, q) listed = elim (Bool-cases (beq r.topic t)) [
    | inl same ↦ omega (arith, own ((beq_iff r.topic t).0 same), under)
    | inr other ↦ listed_bound t e s stats b q (ground (arith, other, listed))
  ]

  pub left_out :
      (t : Bytes) (e : ℕ) (k : ℕ) (stats : List TopicStat)
      → IsDescending stats
      → All (λ r. r.topic ≡ t → rank mode r ≡ e) stats
      → has_topic t stats ≡ true
      → has_topic t (take k stats) ≡ false
      → All (λ s. e ≤ rank mode s) (take k stats)
  unfolding has_topic
  left_out t e zero stats d q listed out = tt
  left_out t e (suc k) [] d q listed out = tt
  left_out t e (suc k) (s ∷ stats) (b, d) (own, q) listed out =
      let rest : has_topic t stats ≡ true = ground (arith, listed, out) in
      let gone : has_topic t (take k stats) ≡ false = ground (arith, out) in
      (listed_bound t e s stats b q rest, left_out t e k stats d q rest gone)

pub take-All {ℓ} :
    {A : Type ℓ} (P : A → Type 0) (k : ℕ) (xs : List A) → All P xs → All P (take k xs)
take-All P zero xs ps = tt
take-All P (suc k) [] ps = tt
take-All P (suc k) (x ∷ xs) (p, ps) = (p, take-All P k xs ps)
