-- ===== src/Prelude/Assoc.antt =====
-- Maps with byte strings for keys (`HashMap`, `BTreeMap`), as association lists. The server and
-- the client library never use the order of such a map.
use mathlib.Core.Path.{◌≡◌}
use mathlib.Core.Option.{Option, none, some}
use mathlib.Core.List.{List, [], ◌∷◌}
use native.Mathlib.Omega.{arith}
use psrt.Prelude.Tests.{if◌then◌else◌}
use psrt.Prelude.Bytes.{Bytes, beq, beq_iff}

abbrev pub Assoc {ℓ} : Type ℓ → Type ℓ
Assoc V = List (Bytes × V)

module _ {ℓ} {V : Type ℓ} where
  -- `map.get(k)`.
  unfoldable pub lookup : Bytes → Assoc V → Option V
  unfolding beq
  lookup k [] = none
  lookup k ((j, v) ∷ m) = if beq j k then some v else lookup k m

  -- `map.remove(k)`.
  unfoldable pub remove : Bytes → Assoc V → Assoc V
  unfolding beq
  remove k [] = []
  remove k ((j, v) ∷ m) = let rest = remove k m in if beq j k then rest else (j, v) ∷ rest

  -- `map.insert(k, v)`: an earlier value is replaced.
  unfoldable pub insert : Bytes → V → Assoc V → Assoc V
  unfolding remove
  insert k v m = (k, v) ∷ remove k m

module _ {ℓ} {V : Type ℓ} where
  pub lookup-remove :
      (k j : Bytes) (m : Assoc V) → lookup j (remove k m) ≡ (if beq k j then none else lookup j m)
  unfolding lookup remove
  lookup-remove k j [] = ground arith
  lookup-remove k j ((i, v) ∷ m) =
      ground (arith, lookup-remove k j m, beq_iff i k, beq_iff i j, beq_iff k j)

  pub lookup-insert :
      (k j : Bytes) (v : V) (m : Assoc V)
      → lookup j (insert k v m) ≡ (if beq k j then some v else lookup j m)
  unfolding lookup insert
  lookup-insert k j v m = ground (arith, lookup-remove k j m)
