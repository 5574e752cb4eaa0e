-- ===== src/Prelude/Split.antt =====
-- Splitting, joining and searching byte strings: `split`, `splitn(2, ..)`, `join`, `position`.
use Prim.Native.Nat.{ℕ, zero, suc, ◌+◌, ◌-◌, ◌≤◌}
use mathlib.Core.Path.{◌≡◌, refl, ap}
use mathlib.Core.Bool.{false}
use mathlib.Core.Logic.{◌≢◌, inl, inr}
use mathlib.Core.Option
use mathlib.Core.Option.{Option, none, some}
use mathlib.Core.List.{List, [], ◌∷◌, ◌++◌}
use native.Mathlib.Omega.{arith}
use psrt.Prelude.Tests.{◌==◌, if◌then◌else◌, Bool-cases}
use psrt.Prelude.Lists.{length, All, take, drop, length-take}
use psrt.Prelude.Bytes.{Bytes, has}

abbrev push_front : ℕ → List Bytes → List Bytes
push_front x [] = (x ∷ []) ∷ []
push_front x (p ∷ ps) = (x ∷ p) ∷ ps

-- `s.split(c)`: at least one part, and an empty one between two separators.
unfoldable pub split_on : ℕ → Bytes → List Bytes
split_on c [] = [] ∷ []
split_on c (x ∷ xs) = let parts = split_on c xs in if x == c then [] ∷ parts else push_front x parts

-- `parts.join(c)`.
unfoldable pub join : ℕ → List Bytes → Bytes
join c [] = []
join c (p ∷ []) = p
join c (p ∷ q ∷ ps) = p ++ c ∷ join c (q ∷ ps)

abbrev keep_front : ℕ → Bytes × Option Bytes → Bytes × Option Bytes
keep_front x (a, rest) = (x ∷ a, rest)

-- `s.splitn(2, c)`: the part before the first separator, and what follows it.
unfoldable pub splitn2 : ℕ → Bytes → Bytes × Option Bytes
splitn2 c [] = ([], none)
splitn2 c (x ∷ xs) =
    let parts = splitn2 c xs in if x == c then ([], some xs) else keep_front x parts

-- `s.iter().position(|n| *n == c)`.
unfoldable pub position : ℕ → Bytes → Option ℕ
position c [] = none
position c (x ∷ xs) = let later = position c xs in if x == c then some 0 else Option.map suc later

pub split_on-ne-nil : (c : ℕ) (s : Bytes) → split_on c s ≢ []
unfolding split_on
split_on-ne-nil c [] = cc
split_on-ne-nil c (x ∷ xs) = ground (arith, split_on-ne-nil c xs)

join-push_front : (c x : ℕ) (ps : List Bytes) → ps ≢ [] → join c (push_front x ps) ≡ x ∷ join c ps
unfolding join
join-push_front c x [] h = absurd (h refl)
join-push_front c x (p ∷ []) h = refl
join-push_front c x (p ∷ q ∷ ps) h = refl

join-nil : (c : ℕ) (ps : List Bytes) → ps ≢ [] → join c ([] ∷ ps) ≡ c ∷ join c ps
unfolding join
join-nil c [] h = absurd (h refl)
join-nil c (p ∷ ps) h = refl

pub join-split_on : (c : ℕ) (s : Bytes) → join c (split_on c s) ≡ s
unfolding split_on
join-split_on c [] = unfold join in refl
join-split_on c (x ∷ xs) = elim (Bool-cases (x == c)) [
  | inl e ↦
      rw (e, join-nil c (split_on c xs) (split_on-ne-nil c xs)) (ground (arith, join-split_on c xs))
  | inr n ↦
      rw (n, join-push_front c x (split_on c xs) (split_on-ne-nil c xs))
        (ap (◌∷◌ x) (join-split_on c xs))
]

-- Text with no separator is one part.
pub split_on_whole : (c : ℕ) (p : Bytes) → has c p ≡ false → split_on c p ≡ p ∷ []
unfolding split_on has
split_on_whole c [] h = refl
split_on_whole c (x ∷ p) h = ground (arith, split_on_whole c p)

pub split_on-append :
    (c : ℕ) (p s : Bytes) → has c p ≡ false → split_on c (p ++ c ∷ s) ≡ p ∷ split_on c s
unfolding split_on has
split_on-append c [] s h = ground arith
split_on-append c (x ∷ p) s h = ground (arith, split_on-append c p s)

-- Splitting what was joined gives the parts back, if no part holds the separator.
pub split_on-join :
    (c : ℕ) (p : Bytes) (ps : List Bytes)
    → All (λ q. has c q ≡ false) (p ∷ ps)
    → split_on c (join c (p ∷ ps)) ≡ p ∷ ps
unfolding join
split_on-join c p [] h = split_on_whole c p h.0
split_on-join c p (q ∷ ps) h =
    rw (split_on-append c p (join c (q ∷ ps)) h.0) (ap (◌∷◌ p) (split_on-join c q ps h.1))

All-push_front :
    (c x : ℕ) (ps : List Bytes)
    → (x == c) ≡ false
    → All (λ q. has c q ≡ false) ps
    → All (λ q. has c q ≡ false) (push_front x ps)
unfolding has
All-push_front c x [] n h = (ground arith, tt)
All-push_front c x (p ∷ ps) n h = (ground arith, h.1)

-- No part holds the separator.
pub All-split_on : (c : ℕ) (s : Bytes) → All (λ q. has c q ≡ false) (split_on c s)
unfolding split_on
All-split_on c [] = (unfold has in refl, tt)
All-split_on c (x ∷ xs) = elim (Bool-cases (x == c)) [
  | inl e ↦ rw e (unfold has in refl, All-split_on c xs)
  | inr n ↦ rw n (All-push_front c x (split_on c xs) n (All-split_on c xs))
]

pub splitn2-append : (c : ℕ) (a r : Bytes) → has c a ≡ false → splitn2 c (a ++ c ∷ r) ≡ (a, some r)
unfolding splitn2 has
splitn2-append c [] r h = ground arith
splitn2-append c (x ∷ a) r h = ground (arith, splitn2-append c a r)

pub position-append :
    (c : ℕ) (a r : Bytes) → has c a ≡ false → position c (a ++ c ∷ r) ≡ some (length a)
unfolding position has
position-append c [] r h = ground arith
position-append c (x ∷ a) r h = ground (arith, position-append c a r)

-- The first separator stands where `position` says, and none before it.
pub position-split :
    (c : ℕ) (s : Bytes) {n : ℕ}
    → position c s ≡ some n
    → (s ≡ take n s ++ c ∷ drop (suc n) s) × (has c (take n s) ≡ false) × (suc n ≤ length s)
unfolding position has
position-split c [] h = cc
position-split c (x ∷ s) {n = zero} h = elim (Bool-cases (x == c)) [
  | inl e ↦ (ground arith, refl, omega arith)
  | inr e ↦ absurd (ground arith)
]
position-split c (x ∷ s) {n = suc n} h = elim (Bool-cases (x == c)) [
  | inl e ↦ absurd (ground arith)
  | inr e ↦
      let (whole, none_before, fits) = position-split c s {n = n} (ground arith) in
      (ap (◌∷◌ x) whole, ground (arith, none_before), omega (arith, fits))
]

take-take-suc : {A : Type 0} (n : ℕ) (s : List A) → take n (take (suc n) s) ≡ take n s
take-take-suc zero s = refl
take-take-suc (suc n) [] = refl
take-take-suc (suc n) (x ∷ s) = ap (◌∷◌ x) (take-take-suc n s)

-- `truncate(len - 1)` after `split_off(n + 1)` leaves what stands before place `n`.
pub truncate-split_off :
    {A : Type 0} (n : ℕ) (s : List A)
    → suc n ≤ length s
    → take (length (take (n + 1) s) - 1) (take (n + 1) s) ≡ take n s
truncate-split_off n s h =
    let one : n + 1 ≡ suc n = omega arith in
    let len : length (take (suc n) s) - 1 ≡ n = omega (arith, length-take (suc n) s h) in
    rw (one, len) (take-take-suc n s)
