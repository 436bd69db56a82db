-- ===== src/Prelude/Lists.antt =====
-- Lists measured by native numbers, and the Go `slices` functions that several parts use.
use Prim.Native.Nat.{ℕ, zero, suc, ◌+◌}
use mathlib.Core.Path.{◌≡◌, refl}
use mathlib.Core.Bool.{Bool, true, false, ◌&&◌, ◌||◌}
use mathlib.Core.List.{List, [], ◌∷◌, ◌++◌}
use native.Mathlib.Omega.{arith}
use go_solid.Prelude.Tests.{if◌then◌else◌, Comparable}

module _ {ℓ} {A : Type ℓ} where
  abbrev pub length : List A → ℕ
  length [] = 0
  length (x ∷ xs) = suc (length xs)

  pub length-append : (xs ys : List A) → length (xs ++ ys) ≡ length xs + length ys
  length-append [] ys = omega arith
  length-append (x ∷ xs) ys = omega (arith, length-append xs ys)

  abbrev pub take : ℕ → List A → List A
  take zero xs = []
  take (suc n) [] = []
  take (suc n) (x ∷ xs) = x ∷ take n xs

  abbrev pub drop : ℕ → List A → List A
  drop zero xs = xs
  drop (suc n) [] = []
  drop (suc n) (x ∷ xs) = drop n xs

  abbrev pub is_empty : List A → Bool
  is_empty [] = true
  is_empty (x ∷ xs) = false

  -- The elements that pass a test.
  abbrev pub keep : (A → Bool) → List A → List A
  keep p [] = []
  keep p (x ∷ xs) = if p x then x ∷ keep p xs else keep p xs

  abbrev pub any : (A → Bool) → List A → Bool
  any p [] = false
  any p (x ∷ xs) = p x || any p xs

  pub any-append : (p : A → Bool) (xs ys : List A) → any p (xs ++ ys) ≡ (any p xs || any p ys)
  any-append p [] ys = refl
  any-append p (x ∷ xs) ys = ground (arith, any-append p xs ys)

  abbrev pub all : (A → Bool) → List A → Bool
  all p [] = true
  all p (x ∷ xs) = p x && all p xs

  -- A predicate on every element, by recursion.
  abbrev pub All {κ} : (A → Type κ) → List A → Type κ
  All P [] = Unit
  All P (x ∷ xs) = P x × All P xs

  -- An element before those that it may stand before.
  abbrev pub insert_by : (A → A → Bool) → A → List A → List A
  insert_by le x [] = x ∷ []
  insert_by le x (y ∷ ys) = if le x y then x ∷ y ∷ ys else y ∷ insert_by le x ys

  -- slices.SortStableFunc, by `le x y` for "x is not after y"
  abbrev pub sort_by : (A → A → Bool) → List A → List A
  sort_by le [] = []
  sort_by le (x ∷ xs) = insert_by le x (sort_by le xs)

module _ {ℓ} {A : Type ℓ} ⦃c : Comparable A⦄ where
  -- slices.Contains
  abbrev pub contains : A → List A → Bool
  contains a [] = false
  contains a (x ∷ xs) = c.same a x || contains a xs

  pub contains-append :
      (a : A) (xs ys : List A) → contains a (xs ++ ys) ≡ (contains a xs || contains a ys)
  contains-append a [] ys = refl
  contains-append a (x ∷ xs) ys = ground (arith, contains-append a xs ys)

  abbrev pub IsUnique : List A → Type 0
  IsUnique [] = Unit
  IsUnique (x ∷ xs) = (contains x xs ≡ false) × IsUnique xs

  -- Keeping the elements that pass a test keeps exactly those members.
  pub contains-keep :
      (p : A → Bool) (a : A) (xs : List A) → contains a (keep p xs) ≡ (contains a xs && p a)
  contains-keep p a [] = refl
  contains-keep p a (x ∷ xs) = ground (arith, contains-keep p a xs, c.same_iff a x)

  contains-insert_by :
      (le : A → A → Bool) (a x : A) (xs : List A)
      → contains a (insert_by le x xs) ≡ (c.same a x || contains a xs)
  contains-insert_by le a x [] = refl
  contains-insert_by le a x (y ∷ ys) = ground (arith, contains-insert_by le a x ys)

  -- Sorting keeps the members.
  pub contains-sort_by :
      (le : A → A → Bool) (a : A) (xs : List A) → contains a (sort_by le xs) ≡ contains a xs
  contains-sort_by le a [] = refl
  contains-sort_by le a (x ∷ xs) =
      ground (arith, contains-insert_by le a x (sort_by le xs), contains-sort_by le a xs)
