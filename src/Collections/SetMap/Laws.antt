-- ===== src/Collections/SetMap/Laws.antt =====
-- What the operations of internal/collections/setmap.go do to membership.
use go_solid.Prelude.{
  Bool, true, false, ◌&&◌, ◌||◌, not, none, some, [], ◌∷◌, keys, lookup, insert, delete, contains,
  Comparable, is_empty, is_some, arith, ◌≡◌, refl, lookup-insert, lookup-nil, lookup-delete,
  contains-keys, contains-keep, Option-cases, inl, inr,
}
use go_solid.Collections.SetMap.{
  Set, SetMap, set_at, add, remove, drop, members, members_of, keys_where,
}

module _ {ℓ} {V : Type ℓ} ⦃d : Comparable V⦄ where
  empty-lookup : (set : Set V) (v : V) → is_empty set ≡ true → lookup v set ≡ none
  empty-lookup [] v h = lookup-nil v
  empty-lookup (x ∷ set) v h = cc

  insert-not-empty : (set : Set V) (v : V) → is_empty (insert v tt set) ≡ false
  unfolding insert
  insert-not-empty [] v = refl
  insert-not-empty (x ∷ set) v = ground arith

module _ {ℓ} {K V : Type ℓ} ⦃c : Comparable K⦄ ⦃d : Comparable V⦄ where
  -- The member is in the set at the key.
  abbrev pub holds : SetMap K V → K → V → Bool
  holds s key member = contains member (members s key)

  -- No key is kept with an empty set behind it.
  abbrev pub IsCompact : SetMap K V → Type ℓ
  IsCompact s = (key : K) (set : Set V) → lookup key s ≡ some set → is_empty set ≡ false

  pub holds-lookup :
      (s : SetMap K V) (key : K) (member : V)
      → holds s key member ≡ is_some (lookup member (set_at s key))
  unfolding members
  holds-lookup s key member = contains-keys member (set_at s key)

  -- After `Add` a member is held exactly if it was, or is the one added under this key.
  pub holds-add :
      (s : SetMap K V) (key : K) (member : V) (k : K) (v : V)
      → holds (add s key member) k v ≡ (holds s k v || c.same key k && d.same member v)
  unfolding add set_at
  holds-add s key member k v = ground (
    arith,
    holds-lookup s k v,
    holds-lookup (add s key member) k v,
    lookup-insert key k (insert member tt (set_at s key)) s,
    lookup-insert member v tt (set_at s key),
    c.same_iff key k,
  )

  -- After `Remove` a member is held exactly if it was and is not the one removed from this key.
  pub holds-remove :
      (s : SetMap K V) (key : K) (member : V) (k : K) (v : V)
      → holds (remove s key member) k v ≡ (holds s k v && not (c.same key k && d.same member v))
  unfolding remove set_at
  holds-remove s key member k v = elim (Option-cases (lookup key s)) [
    | inl e ↦ ground (arith, e, holds-lookup s k v, c.same_iff key k, lookup-nil {V = Unit {0}} v)
    | inr (set, e) ↦ ground (
      arith,
      e,
      holds-lookup s k v,
      holds-lookup (remove s key member) k v,
      lookup-insert key k (delete member set) s,
      lookup-delete member v set,
      lookup-delete key k s,
      lookup-nil {V = Unit {0}} v,
      empty-lookup (delete member set) v,
      c.same_iff key k,
    )
  ]

  -- After `Drop` no member is held under the key, and all other keys are as they were.
  pub holds-drop :
      (s : SetMap K V) (key k : K) (v : V)
      → holds (drop s key) k v ≡ (not (c.same key k) && holds s k v)
  unfolding drop set_at
  holds-drop s key k v = ground (
    arith,
    holds-lookup s k v,
    holds-lookup (drop s key) k v,
    lookup-delete key k s,
    lookup-nil {V = Unit {0}} v,
  )

  pub contains-keys_where :
      (s : SetMap K V) (p : K → Bool) (k : K)
      → contains k (keys_where s p) ≡ (is_some (lookup k s) && p k)
  unfolding keys_where
  contains-keys_where s p k = ground (arith, contains-keep p k (keys s), contains-keys k s)

  pub members_of-members : (s : SetMap K V) (key : K) → members_of s key ≡ members s key
  unfolding members_of members
  members_of-members s key = ground arith

  pub add-IsCompact :
      (s : SetMap K V) (key : K) (member : V) → IsCompact s → IsCompact (add s key member)
  unfolding add
  add-IsCompact s key member h k set e = ground (
    arith,
    h k set,
    lookup-insert key k (insert member tt (set_at s key)) s,
    insert-not-empty (set_at s key) member,
  )

  -- `Remove` drops a key with its last member, so no key is left with an empty set.
  pub remove-IsCompact :
      (s : SetMap K V) (key : K) (member : V) → IsCompact s → IsCompact (remove s key member)
  unfolding remove
  remove-IsCompact s key member h k set e = elim (Option-cases (lookup key s)) [
    | inl absent ↦ ground (arith, absent, h k set)
    | inr (old, found) ↦
        ground
          (arith, found, h k set, lookup-delete key k s, lookup-insert key k (delete member old) s)
  ]

  pub drop-IsCompact : (s : SetMap K V) (key : K) → IsCompact s → IsCompact (drop s key)
  unfolding drop
  drop-IsCompact s key h k set e = ground (arith, h k set, lookup-delete key k s)
