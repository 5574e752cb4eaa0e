-- ===== src/Exec/Keeps.antt =====
-- What an action keeps true of the state, with a rule for each of its parts.
use psrt.Prelude.{Bool, true, false, if◌then◌else◌}
use psrt.Fault.{Error, Result, ok, err}
use psrt.Exec.{Exec, pure, raise, lift, gets, change, continue, ◌>>=◌}

-- `action` keeps `P`, whether it returns or fails.
pub record Keeps {ℓ} {S : Type ℓ} {A : Type ℓ} (P : S → Type ℓ) (action : Exec S A) : Type ℓ where
  pub at : (before : S) → P before → P (action before).1

module _ {ℓ} {S A : Type ℓ} {P : S → Type ℓ} where
  pub Keeps-change : (f : S → A × S) → ((s : S) → P s → P (f s).1) → Keeps P (change f)
  unfolding change
  Keeps-change f h = record { at = h }

  pub Keeps-if : (b : Bool) (m n : Exec S A) → Keeps P m → Keeps P n → Keeps P (if b then m else n)
  Keeps-if true m n km kn = km
  Keeps-if false m n km kn = kn

  pub Keeps-gets : (look : S → A) → Keeps P (gets look)
  unfolding gets
  Keeps-gets look = record { at = λ s kept. kept }

  pub Keeps-raise : (e : Error) → Keeps P (raise {A = A} e)
  unfolding raise
  Keeps-raise e = record { at = λ s kept. kept }

  pub Keeps-pure : (a : A) → Keeps P (pure a)
  unfolding pure
  Keeps-pure a = record { at = λ s kept. kept }

  pub Keeps-lift : (r : Result A) → Keeps P (lift r)
  unfolding lift
  Keeps-lift r = record { at = λ s kept. kept }

module _ {ℓ} {S A B : Type ℓ} {P : S → Type ℓ} where
  Keeps-continue :
      (r : Result A) (f : A → Exec S B) (s : S)
      → P s
      → ((a : A) → Keeps P (f a))
      → P (continue r f s).1
  Keeps-continue (ok a) f s h k = (k a).at s h
  Keeps-continue (err e) f s h k = h

  pub Keeps-bind :
      (action : Exec S A) (next : A → Exec S B)
      → Keeps P action
      → ((a : A) → Keeps P (next a))
      → Keeps P (action >>= next)
  unfolding ◌>>=◌
  Keeps-bind action next first later = record {
    at = λ s kept. Keeps-continue (action s).0 next (action s).1 (first.at s kept) later;
  }

pub ruleset keeps_rules = (Keeps-if, Keeps-bind, Keeps-pure, Keeps-gets, Keeps-lift, Keeps-raise)
