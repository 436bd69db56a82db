-- ===== src/Types/Shape/Union.antt =====
-- splitTopLevelUnion of internal/types/shape.go.
use go_solid.Prelude.{
  Text, List, [], ◌∷◌, ◌++◌, ◌&&◌, ◌==◌, append_assoc, append-nil, ◌≡◌, refl, sym, ◌∙◌, arith, inl,
  inr, Bool-cases,
}
use go_solid.Types.Shape.{Depth, inside, moved, at_top, split_union, split_top_level_union}

-- The members, with the separator between them.
abbrev pub join_union : List Text → Text
join_union [] = []
join_union (m ∷ []) = m
join_union (m ∷ n ∷ ms) = m ++ b'|' ∷ join_union (n ∷ ms)

abbrev Nonempty : List Text → Type 0
Nonempty [] = ⊥
Nonempty (m ∷ ms) = Unit

split_union-Nonempty : (d : Depth) (member s : Text) → Nonempty (split_union d member s)
unfolding split_union
split_union-Nonempty d member [] = tt
split_union-Nonempty d member (c ∷ s) = ground (
  arith,
  split_union-Nonempty (moved c d) [] s,
  split_union-Nonempty (moved c d) (member ++ c ∷ []) s,
)

join-cons :
    (m : Text) (ms : List Text) → Nonempty ms → join_union (m ∷ ms) ≡ m ++ b'|' ∷ join_union ms
join-cons m [] some_member = ground arith
join-cons m (n ∷ ms) some_member = refl

join-split_union : (d : Depth) (member s : Text) → join_union (split_union d member s) ≡ member ++ s
unfolding split_union
join-split_union d member [] = sym (append-nil member)
join-split_union d member (c ∷ s) = elim (Bool-cases (c == b'|' && at_top d)) [
  | inl cut ↦
      rw (cut, split_union)
        (ground (
          arith,
          cut,
          join-cons member (split_union (moved c d) [] s) (split_union-Nonempty (moved c d) [] s),
          join-split_union (moved c d) [] s,
        ))
  | inr keep_on ↦
      rw (keep_on, split_union)
        (join-split_union (moved c d) (member ++ c ∷ []) s ∙ append_assoc member (c ∷ []) s)
]

-- The members that splitTopLevelUnion gives are the expression again, with separators between them.
pub join-split_top_level_union :
    (canonical : Text) → join_union (split_top_level_union canonical) ≡ canonical
unfolding split_top_level_union
join-split_top_level_union canonical = join-split_union (inside 0) [] canonical
