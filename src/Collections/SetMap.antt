-- ===== src/Collections/SetMap.antt =====
-- internal/collections/setmap.go: SetMap, which holds no key without a member.
-- A set `map[V]struct{}` is a map into the type of one value; `Members` is its keys.
pub mod Laws
mod Tests
use go_solid.Prelude.{
  Bool, true, Option, none, some, List, [], GoMap, keys, lookup, insert, delete, keep, Comparable,
  is_empty, if◌then◌else◌,
}

abbrev pub Set {ℓ} : Type ℓ → Type ℓ
Set V = GoMap V (Unit {0})

abbrev pub SetMap {ℓ} : Type ℓ → Type ℓ → Type ℓ
SetMap K V = GoMap K (Set V)

module _ {ℓ} {K V : Type ℓ} ⦃c : Comparable K⦄ ⦃d : Comparable V⦄ where
  -- s[key], which is the empty set where the key is missing
  unfoldable pub set_at : SetMap K V → K → Set V
  set_at s key = elim (lookup key s) [ none ↦ [] | some set ↦ set ]

  unfoldable pub add : SetMap K V → K → V → SetMap K V
  add s key member = insert key (insert member tt (set_at s key)) s

  unfoldable pub remove : SetMap K V → K → V → SetMap K V
  remove s key member = elim (lookup key s) [
    | none ↦ s
    | some set ↦
        let rest = delete member set in if is_empty rest then delete key s else insert key rest s
  ]

  unfoldable pub drop : SetMap K V → K → SetMap K V
  drop s key = delete key s

  unfoldable pub members : SetMap K V → K → List V
  unfolding set_at
  members s key = keys (set_at s key)

  unfoldable pub members_of : SetMap K V → K → List V
  unfolding members
  members_of s key = if is_empty (set_at s key) then [] else members s key

  unfoldable pub keys_where : SetMap K V → (K → Bool) → List K
  keys_where s pred = keep pred (keys s)
