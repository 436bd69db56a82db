-- ===== src/Types/Tests.antt =====
-- The theorems on shapes at two fields, and runs of the functions on type expressions.
use go_solid.Prelude.{
  text_leb, trim_suffix, has_suffix, text, some, none, List, [], ◌∷◌, true, false, ◌≡◌, refl,
}
use go_solid.Types.Canonical.{canonical_ts, scan, advance, write, write_raw, drop_last_separators}
use go_solid.Types.Mapper.{
  JsonField, pick_field, union_after, has_top_level_union, array_of, or_null, object_literal,
}
use go_solid.Types.Shape.{
  Field, new_shape, compact, find_field, search_field, satisfies, violations, violations_of,
  violations_at, assignable_ts, assignable_canonical, split_top_level_union, split_union,
}

abbrev title : Field
title = record { name = text "title"; ts = text "string"; optional = false }

abbrev count : Field
count = record { name = text "count"; ts = text "number"; optional = true }

abbrev fields : List Field
fields = title ∷ count ∷ title ∷ []

program : Unit {0}
unfolding canonical_ts scan advance write write_raw drop_last_separators new_shape compact
    find_field search_field satisfies violations violations_of violations_at assignable_ts
    assignable_canonical split_top_level_union split_union text_leb trim_suffix pick_field
    union_after has_top_level_union array_of or_null object_literal has_suffix
program = tt

shape_made : (new_shape fields).fields ≡ (count ∷ title ∷ [])
unfolding program
shape_made = refl

canonical_spaces :
    canonical_ts (text "{ a : string , b : Foo Bar ; } // end") ≡ text "{a:string;b:Foo Bar}"
unfolding program
canonical_spaces = refl

union_kept : split_top_level_union (text "Map<a|b>|null") ≡ (text "Map<a|b>" ∷ text "null" ∷ [])
unfolding program
union_kept = refl

-- The ">" of an arrow counts as a closing bracket, so the union after it is not split.
union_arrow : split_top_level_union (text "()=>a|null") ≡ (text "()=>a|null" ∷ [])
unfolding program
union_arrow = refl

arrow_or_null : assignable_ts (text "(() => void) | null") (text "null") ≡ false
unfolding program
arrow_or_null = refl

abbrev plain : JsonField
plain = record { field = title; depth = 1; tagged = false }

abbrev named : JsonField
named = record { field = title; depth = 1; tagged = true }

abbrev deep : JsonField
deep = record { field = title; depth = 2; tagged = true }

picked_by_tag : pick_field (plain ∷ deep ∷ named ∷ []) ≡ some named
unfolding program
picked_by_tag = refl

picked_none : pick_field (named ∷ deep ∷ named ∷ []) ≡ none
unfolding program
picked_none = refl

array_of_union : array_of (text "string | null") ≡ text "(string | null)[]"
unfolding program
array_of_union = refl

or_null-once : or_null (or_null (text "number")) ≡ text "number | null"
unfolding program
or_null-once = refl

literal : object_literal (new_shape fields) ≡ text "{ count?: number; title: string }"
unfolding program
literal = refl
