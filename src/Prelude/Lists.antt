-- ===== src/Prelude/Lists.antt =====
-- Lists measured and cut by native numbers, under the library's names, and two list predicates.
use Prim.Native.Nat.{ℕ, zero, suc, ◌+◌, ◌-◌, ◌≤◌}
use mathlib.Core.Path.{◌≡◌, refl, ap}
use mathlib.Core.Bool.{Bool, false, ◌||◌}
use mathlib.Core.List.{List, [], ◌∷◌, ◌++◌}
use native.Mathlib.Omega.{arith}

module _ {ℓ} {A : Type ℓ} where
  abbrev pub length : List A → ℕ
  length [] = 0
  length (x ∷ xs) = suc (length xs)

  abbrev pub take : ℕ → List A → List A
  take zero xs = []
  take (suc n) [] = []
  take (suc n) (x ∷ xs) = x ∷ take n xs

  abbrev pub drop : ℕ → List A → List A
  drop zero xs = xs
  drop (suc n) [] = []
  drop (suc n) (x ∷ xs) = drop n xs

  -- Some element passes the test.
  abbrev pub any : (A → Bool) → List A → Bool
  any p [] = false
  any p (x ∷ xs) = p x || any p xs

  pub length-append : (xs ys : List A) → length (xs ++ ys) ≡ length xs + length ys
  length-append [] ys = omega arith
  length-append (x ∷ xs) ys = omega (arith, length-append xs ys)

module _ {ℓ} {A : Type ℓ} where
  -- Cutting at the length of the first part gives the two parts back.
  pub take-append : (xs ys : List A) → take (length xs) (xs ++ ys) ≡ xs
  take-append [] ys = refl
  take-append (x ∷ xs) ys = ap (◌∷◌ x) (take-append xs ys)

  pub drop-append : (xs ys : List A) → drop (length xs) (xs ++ ys) ≡ ys
  drop-append [] ys = refl
  drop-append (x ∷ xs) ys = drop-append xs ys

  pub drop-suc-append : (a : List A) (c : A) (b : List A) → drop (suc (length a)) (a ++ c ∷ b) ≡ b
  drop-suc-append [] c b = refl
  drop-suc-append (x ∷ a) c b = drop-suc-append a c b

  pub take-append-drop : (n : ℕ) (xs : List A) → take n xs ++ drop n xs ≡ xs
  take-append-drop zero xs = refl
  take-append-drop (suc n) [] = refl
  take-append-drop (suc n) (x ∷ xs) = ap (◌∷◌ x) (take-append-drop n xs)

  pub length-drop : (n : ℕ) (xs : List A) → length (drop n xs) ≡ length xs - n
  length-drop zero xs = omega arith
  length-drop (suc n) [] = omega arith
  length-drop (suc n) (x ∷ xs) = omega (arith, length-drop n xs)

  pub length-take : (n : ℕ) (xs : List A) → n ≤ length xs → length (take n xs) ≡ n
  length-take zero xs h = refl
  length-take (suc n) [] h = omega arith
  length-take (suc n) (x ∷ xs) h = omega (arith, length-take n xs)

module _ {ℓ κ} {A : Type ℓ} (P : A → Type κ) where
  -- Every element has the property.
  abbrev pub All : List A → Type κ
  All [] = Unit
  All (x ∷ xs) = P x × All xs

  -- Some element has the property, and which one is kept.
  pub data Exists : List A → Type (ℓ ⊔ κ) where
    here : {x : A} {xs : List A} → P x → Exists (x ∷ xs)
    there : {x : A} {xs : List A} → Exists xs → Exists (x ∷ xs)

module _ {ℓ κ} {A : Type ℓ} where
  pub imply-All : (P Q : A → Type κ) → ((x : A) → P x → Q x) → (xs : List A) → All P xs → All Q xs
  imply-All P Q f [] ps = tt
  imply-All P Q f (x ∷ xs) (p, ps) = (f x p, imply-All P Q f xs ps)

  pub imply-Exists :
      (P Q : A → Type κ) → ((x : A) → P x → Q x) → (xs : List A) → Exists P xs → Exists Q xs
  imply-Exists P Q f [] e = elim e [ ]
  imply-Exists P Q f (x ∷ xs) (here p) = here (f x p)
  imply-Exists P Q f (x ∷ xs) (there e) = there (imply-Exists P Q f xs e)

  pub All-append : (P : A → Type κ) (xs ys : List A) → All P xs → All P ys → All P (xs ++ ys)
  All-append P [] ys ps qs = qs
  All-append P (x ∷ xs) ys (p, ps) qs = (p, All-append P xs ys ps qs)

  pub All-both : (P Q : A → Type κ) (xs : List A) → All P xs → All Q xs → All (λ x. P x × Q x) xs
  All-both P Q [] ps qs = tt
  All-both P Q (x ∷ xs) (p, ps) (q, qs) = ((p, q), All-both P Q xs ps qs)

-- Each element of a list stands in it.
pub All-members {ℓ} : {A : Type ℓ} (xs : List A) → All (λ x. Exists (λ y. y ≡ x) xs) xs
All-members [] = tt
All-members (x ∷ xs) = (
  here refl,
  imply-All (λ z. Exists (λ y. y ≡ z) xs) (λ z. Exists (λ y. y ≡ z) (x ∷ xs)) (λ z e. there e) xs
      (All-members xs),
)

pub nil-of_append {ℓ} : {A : Type ℓ} (xs ys : List A) → xs ++ ys ≡ [] → xs ≡ []
nil-of_append [] ys h = refl
nil-of_append (x ∷ xs) ys h = cc
