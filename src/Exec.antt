-- ===== src/Exec.antt =====
-- Fallible code that changes a state. What was written before an error stays written, so the state
-- comes back beside the error too.
pub mod Keeps
pub mod Yields
use psrt.Fault.{Error, Result, ok, err}

abbrev pub Exec {ℓ} : Type ℓ → Type ℓ → Type ℓ
Exec S A = S → Result A × S

module _ {ℓ} {S A : Type ℓ} where
  -- A change of the state that gives a value and cannot fail.
  pub change : (S → A × S) → Exec S A
  change f s = (ok (f s).0, (f s).1)

  pub gets : (S → A) → Exec S A
  gets f s = (ok (f s), s)

  -- `?` on a result that was computed without touching the state.
  pub lift : Result A → Exec S A
  lift r s = (r, s)

  pub raise : Error → Exec S A
  raise e s = (err e, s)

  pub pure : A → Exec S A
  pure a s = (ok a, s)

module _ {ℓ} {S A B : Type ℓ} where
  abbrev pub continue : Result A → (A → Exec S B) → Exec S B
  continue (ok a) f s = f a s
  continue (err e) f s = (err e, s)

  infixl 5 ◌>>=◌ ◌>>◌
  -- Opening this opens the actions above too.
  unfoldable pub ◌>>=◌ : Exec S A → (A → Exec S B) → Exec S B
  unfolding pure raise lift gets change
  ◌>>=◌ m f s = let r = m s in continue r.0 f r.1

  abbrev pub ◌>>◌ : Exec S A → Exec S B → Exec S B
  m >> k = m >>= λ _. k
