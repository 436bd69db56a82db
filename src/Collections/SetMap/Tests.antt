-- ===== src/Collections/SetMap/Tests.antt =====
-- The laws of SetMap at a map of one key.
use go_solid.Prelude.{◌∷◌, [], ℕ, [], ◌∷◌, ◌≡◌, refl, nat_comparable, lookup, insert}
use go_solid.Collections.SetMap.{SetMap, add, set_at}

abbrev none_yet : SetMap ℕ ℕ
none_yet = []

abbrev one_member : SetMap ℕ ℕ
one_member = add none_yet 1 7

one_left : add none_yet 1 7 ≡ ((1, (7, tt) ∷ []) ∷ [])
unfolding add set_at lookup insert
one_left = refl
