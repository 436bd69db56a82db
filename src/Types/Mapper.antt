-- ===== src/Types/Mapper.antt =====
-- internal/types/mapper.go: the parts of the mapping of Go types that do not walk a type. reflect's
-- types, and the functions that walk them, are not modelled.
pub mod Fields
pub mod Tags
pub mod Walk
pub mod Props
pub mod Termination
pub mod Answers
pub mod Grouping
mod Tests
use go_solid.Prelude.{
  ℕ, suc, Text, text, text_eq, Option, none, some, List, [], ◌∷◌, ◌++◌, ◌&&◌, ◌||◌, not, Bool, true,
  false, keep, min, ◌==◌, ◌-◌, has_suffix, is_empty, join, map, if◌then◌else◌,
}
use go_solid.Types.Shape.{Field, Shape}

-- jsonField
pub record JsonField : Type 0 where
  pub field : Field
  pub depth : ℕ
  pub tagged : Bool

-- A group of one
abbrev pub only : List JsonField → Option JsonField
only (f ∷ []) = some f
only _ = none

abbrev pub or_else : Option JsonField → Option JsonField → Option JsonField
or_else (some f) other = some f
or_else none other = other

-- slices.MinFunc by depth, where there is a field
abbrev pub shallowest_of : ℕ → List JsonField → ℕ
shallowest_of depth [] = depth
shallowest_of depth (f ∷ fs) = shallowest_of (min depth f.depth) fs

abbrev pub shallowest : List JsonField → ℕ
shallowest [] = 0
shallowest (f ∷ fs) = shallowest_of f.depth fs

-- pickField
unfoldable pub pick_field : List JsonField → Option JsonField
pick_field group =
    let top = keep (λ f. f.depth == shallowest group) group in
    or_else (only group) (or_else (only top) (only (keep (λ f. f.tagged) top)))

-- orNull
unfoldable pub or_null : Text → Text
or_null ts = if has_suffix ts (text " | null") then ts else ts ++ text " | null"

-- hasTopLevelUnion, with the opening and the closing brackets counted apart: Go's depth, which may be
-- below zero, is their difference.
abbrev pub opening : ℕ → Bool
opening c = c == b'{' || c == b'(' || c == b'[' || c == b'<'

abbrev pub closing : ℕ → Bool
closing c = c == b'}' || c == b')' || c == b']' || c == b'>'

unfoldable pub union_after : ℕ → ℕ → Text → Bool
union_after opened closed [] = false
union_after opened closed (c ∷ ts) =
    if (c == b'|' || c == b'&') && opened == closed
    then true
    else union_after (if opening c then suc opened else opened)
        (if closing c then suc closed else closed) ts

unfoldable pub has_top_level_union : Text → Bool
unfolding union_after
has_top_level_union ts = union_after 0 0 ts

-- arrayOf
unfoldable pub array_of : Text → Text
unfolding has_top_level_union
array_of elem_type =
    if has_top_level_union elem_type
    then text "(" ++ elem_type ++ text ")[]"
    else elem_type ++ text "[]"

-- One member of an object literal
abbrev pub member_text : Field → Text
member_text f = f.name ++ (if f.optional then text "?" else []) ++ text ": " ++ f.ts

-- objectLiteral
unfoldable pub object_literal : Shape → Text
object_literal s =
    if is_empty s.fields
    then text "{}"
    else text "{ " ++ join (text "; ") (map member_text s.fields) ++ text " }"
