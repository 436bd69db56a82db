-- ===== src/Prelude/Maps.antt =====
-- Go's built-in `map` as an association list. Go leaves the order of iteration open: `keys` fixes
-- one, and the theorems speak of lookups and membership, which do not depend on it.
use mathlib.Core.Path.{◌≡◌, refl}
use mathlib.Core.Bool.{not}
use mathlib.Core.Option.{Option, none, some}
use mathlib.Core.List.{List, [], ◌∷◌}
use native.Mathlib.Omega.{arith}
use go_solid.Prelude.Tests.{if◌then◌else◌, Comparable, is_some, same_refl}
use go_solid.Prelude.Lists.{contains, keep}

abbrev pub GoMap {ℓ κ} : Type ℓ → Type κ → Type (ℓ ⊔ κ)
GoMap K V = List (K × V)

module _ {ℓ κ} {K : Type ℓ} {V : Type κ} where
  -- maps.Keys(m)
  abbrev pub keys : GoMap K V → List K
  keys [] = []
  keys ((k, v) ∷ m) = k ∷ keys m

module _ {ℓ κ} {K : Type ℓ} {V : Type κ} ⦃c : Comparable K⦄ where
  -- v, ok := m[k]
  unfoldable pub lookup : K → GoMap K V → Option V
  lookup k [] = none
  lookup k ((j, v) ∷ m) = if c.same j k then some v else lookup k m

  -- m[k] = v
  unfoldable pub insert : K → V → GoMap K V → GoMap K V
  insert k v [] = (k, v) ∷ []
  insert k v ((j, w) ∷ m) = if c.same j k then (k, v) ∷ m else (j, w) ∷ insert k v m

  -- delete(m, k)
  unfoldable pub delete : K → GoMap K V → GoMap K V
  delete k [] = []
  delete k ((j, w) ∷ m) = if c.same j k then delete k m else (j, w) ∷ delete k m

  pub lookup-insert :
      (k j : K) (v : V) (m : GoMap K V)
      → lookup j (insert k v m) ≡ (if c.same k j then some v else lookup j m)
  unfolding lookup insert
  lookup-insert k j v [] = refl
  lookup-insert k j v ((i, w) ∷ m) =
      ground (arith, c.same_iff k j, c.same_iff i k, c.same_iff i j, lookup-insert k j v m)

  pub lookup-delete :
      (k j : K) (m : GoMap K V) → lookup j (delete k m) ≡ (if c.same k j then none else lookup j m)
  unfolding lookup delete
  lookup-delete k j [] = ground arith
  lookup-delete k j ((i, w) ∷ m) =
      ground (arith, c.same_iff k j, c.same_iff i k, c.same_iff i j, lookup-delete k j m)

  pub lookup-insert_self : (k : K) (v : V) (m : GoMap K V) → lookup k (insert k v m) ≡ some v
  lookup-insert_self k v m = rw (lookup-insert k k v m, same_refl k)

  pub lookup-nil : (k : K) → lookup k [] ≡ none
  unfolding lookup
  lookup-nil k = refl

  -- A key is listed exactly when it is bound.
  pub contains-keys : (k : K) (m : GoMap K V) → contains k (keys m) ≡ is_some (lookup k m)
  unfolding lookup
  contains-keys k [] = refl
  contains-keys k ((j, v) ∷ m) = ground (arith, contains-keys k m, c.same_iff k j, c.same_iff j k)

  pub keys-delete :
      (k : K) (m : GoMap K V) → keys (delete k m) ≡ keep (λ j. not (c.same j k)) (keys m)
  unfolding delete
  keys-delete k [] = refl
  keys-delete k ((j, v) ∷ m) = ground (arith, keys-delete k m)

pub ruleset map_laws = (lookup-insert, lookup-delete, lookup-nil)
