-- ===== src/Topic/Squeeze.antt =====
-- An independent description of the loop of `prepare_topic`: one slash for each run of slashes.
use psrt.Prelude.{
  ℕ, zero, suc, ◌≤◌, ◌<◌, ◌≡◌, refl, sym, Bool, true, false, ◌&&◌, [], ◌∷◌, arith, ◌==◌, length,
}
use psrt.Prelude.Bytes.{Bytes}
use psrt.Topic.{slash, contains_double, replace_double, collapse}

abbrev pub starts_slash : Bytes → Bool
starts_slash [] = false
starts_slash (x ∷ r) = x == slash

-- A slash before a slash is left out.
unfoldable pub squeeze : Bytes → Bytes
squeeze [] = []
squeeze (x ∷ r) =
    let rest = squeeze r in elim (x == slash && starts_slash r) [ true ↦ rest | false ↦ x ∷ rest ]

pub squeeze-of_single : (t : Bytes) → contains_double t ≡ false → squeeze t ≡ t
unfolding squeeze contains_double
squeeze-of_single [] h = refl
squeeze-of_single (x ∷ []) h = ground arith
squeeze-of_single (x ∷ y ∷ r) h = ground (arith, squeeze-of_single (y ∷ r))

starts_slash-replace_double : (t : Bytes) → starts_slash (replace_double t) ≡ starts_slash t
unfolding replace_double
starts_slash-replace_double [] = refl
starts_slash-replace_double (x ∷ []) = refl
starts_slash-replace_double (x ∷ y ∷ r) = ground arith

-- Replacing pairs of slashes does not change what is left at the end.
squeeze-replace_double : (t : Bytes) → squeeze (replace_double t) ≡ squeeze t
unfolding squeeze replace_double
squeeze-replace_double [] = refl
squeeze-replace_double (x ∷ []) = refl
squeeze-replace_double (x ∷ y ∷ r) = ground (
  arith,
  squeeze-replace_double r,
  squeeze-replace_double (y ∷ r),
  starts_slash-replace_double r,
  starts_slash-replace_double (y ∷ r),
)

length-replace_double-le : (t : Bytes) → length (replace_double t) ≤ length t
unfolding replace_double
length-replace_double-le [] = omega arith
length-replace_double-le (x ∷ []) = omega arith
length-replace_double-le (x ∷ y ∷ r) =
    ground (arith, length-replace_double-le r, length-replace_double-le (y ∷ r))

-- Each round of the loop shortens the topic.
length-replace_double-lt :
    (t : Bytes) → contains_double t ≡ true → length (replace_double t) < length t
unfolding replace_double contains_double
length-replace_double-lt [] h = absurd (ground arith)
length-replace_double-lt (x ∷ []) h = absurd (ground arith)
length-replace_double-lt (x ∷ y ∷ r) h =
    ground (arith, length-replace_double-le r, length-replace_double-lt (y ∷ r))

empty_single : (t : Bytes) → length t ≤ 0 → contains_double t ≡ false
unfolding contains_double
empty_single [] h = refl
empty_single (x ∷ r) h = absurd (omega arith)

-- With the length as fuel the loop ends, and has squeezed every run of slashes.
pub collapse-eq-squeeze : (fuel : ℕ) (t : Bytes) → length t ≤ fuel → collapse fuel t ≡ squeeze t
unfolding collapse
collapse-eq-squeeze zero t h = sym (squeeze-of_single t (empty_single t h))
collapse-eq-squeeze (suc fuel) t h = ground (
  arith,
  collapse-eq-squeeze fuel (replace_double t),
  squeeze-replace_double t,
  length-replace_double-lt t,
  squeeze-of_single t,
)

pub contains_double-squeeze : (t : Bytes) → contains_double (squeeze t) ≡ false
unfolding squeeze contains_double
contains_double-squeeze [] = refl
contains_double-squeeze (x ∷ []) = ground arith
contains_double-squeeze (x ∷ y ∷ r) = ground (arith, contains_double-squeeze (y ∷ r))

pub squeeze-squeeze : (t : Bytes) → squeeze (squeeze t) ≡ squeeze t
squeeze-squeeze t = squeeze-of_single (squeeze t) (contains_double-squeeze t)
