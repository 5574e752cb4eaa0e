-- ===== src/Exec/Yields.antt =====
-- What holds of the value and the state when an action succeeds.
use mathlib.Core.Path.{subst}
use psrt.Prelude.{ap, ◌≡◌}
use psrt.Fault.{Result, ok, err}
use psrt.Exec.{Exec, pure, continue, ◌>>=◌}

pub record Yields {ℓ} {S : Type ℓ} {A : Type ℓ} (Q : A → S → Type ℓ) (action : Exec S A)
    : Type ℓ where
  pub at : (s : S) (a : A) → (action s).0 ≡ ok a → Q a (action s).1

module _ {ℓ} {S A B : Type ℓ} {Q : B → S → Type ℓ} where
  Yields-continue :
      (r : Result A) (next : A → Exec S B) (s : S) (b : B)
      → ((a : A) → Yields Q (next a))
      → (continue r next s).0 ≡ ok b
      → Q b (continue r next s).1
  Yields-continue (ok a) next s b k h = (k a).at s b h
  Yields-continue (err e) next s b k h = absurd (cc h)

  -- A chain yields what its last action yields.
  pub Yields-bind :
      (action : Exec S A) (next : A → Exec S B)
      → ((a : A) → Yields Q (next a))
      → Yields Q (action >>= next)
  unfolding ◌>>=◌
  Yields-bind action next later = record {
    at = λ s b h. Yields-continue (action s).0 next (action s).1 b later h;
  }

module _ {ℓ} {S A : Type ℓ} {Q : A → S → Type ℓ} where
  pub Yields-pure : (a : A) → ((s : S) → Q a s) → Yields Q (pure a)
  unfolding pure
  Yields-pure a h = record { at = λ s b e. subst (λ x. Q x s) (ok-injective e) (h s) }
    where
      value : A → Result A → A
      value a (ok b) = b
      value a (err e) = a

      ok-injective : {b : A} → ok a ≡ ok b → a ≡ b
      ok-injective e = ap (value a) e
