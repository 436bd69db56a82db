-- ===== src/Types/Shape/Lookup.antt =====
-- Lookup of internal/types/shape.go on what NewShape makes.
use go_solid.Prelude.{
  text_leb_refl, text_leb_antisym, text_leb, Text, text_eq, text_eq_iff, Option, none, some, List,
  [], ◌∷◌, true, false, All, insert_by, sort_by, if◌then◌else◌, ◌≡◌, refl, ◌∙◌, arith,
}
use go_solid.Types.Shape.{
  Field, before, compact, compact_after, new_shape, search_field, find_field,
}
use go_solid.Types.Shape.Order.{IsStrict, new_shape-IsStrict}

-- The first field of the name, in any order.
abbrev pub first_field : Text → List Field → Option Field
first_field name [] = none
first_field name (f ∷ fs) = if text_eq f.name name then some f else first_field name fs

first_field-insert_by :
    (name : Text) (x : Field) (fs : List Field)
    → first_field name (insert_by before x fs) ≡ first_field name (x ∷ fs)
first_field-insert_by name x [] = refl
first_field-insert_by name x (f ∷ fs) = ground (
  arith,
  first_field-insert_by name x fs,
  text_eq_iff f.name name,
  text_eq_iff x.name name,
  text_leb_refl name,
)

first_field-sort_by :
    (name : Text) (fs : List Field) → first_field name (sort_by before fs) ≡ first_field name fs
first_field-sort_by name [] = refl
first_field-sort_by name (f ∷ fs) =
    ground (arith, first_field-insert_by name f (sort_by before fs), first_field-sort_by name fs)

first_field-compact_after :
    (name other : Text) (fs : List Field)
    → text_eq other name ≡ false
    → first_field name (compact_after other fs) ≡ first_field name fs
unfolding compact_after
first_field-compact_after name other [] h = refl
first_field-compact_after name other (f ∷ fs) h = ground (
  arith,
  first_field-compact_after name other fs,
  first_field-compact_after name f.name fs,
  text_eq_iff other f.name,
)

first_field-compact :
    (name : Text) (fs : List Field) → first_field name (compact fs) ≡ first_field name fs
unfolding compact
first_field-compact name [] = refl
first_field-compact name (f ∷ fs) = ground (arith, first_field-compact_after name f.name fs)

first_field_absent :
    (name : Text) (f : Field) (fs : List Field)
    → text_leb name f.name ≡ true
    → All (λ g. (text_leb f.name g.name ≡ true) × (text_eq f.name g.name ≡ false)) fs
    → first_field name fs ≡ none
first_field_absent name f [] h above = refl
first_field_absent name f (g ∷ fs) h above = ground (
  arith,
  first_field_absent name f fs h above.1,
  above.0,
  text_eq_iff g.name name,
  text_eq_iff f.name g.name,
  text_leb_antisym name f.name h,
)

pub search_field-first_field :
    (name : Text) (fs : List Field) → IsStrict fs → search_field name fs ≡ first_field name fs
unfolding search_field
search_field-first_field name [] strict = refl
search_field-first_field name (f ∷ fs) strict = ground (
  arith,
  search_field-first_field name fs strict.1,
  first_field_absent name f fs,
  strict.0,
  text_eq_iff f.name name,
  text_leb_refl name,
)

-- Lookup in a new shape gives the first of the given fields that has the name, if one has.
pub find_field-new_shape :
    (fields : List Field) (name : Text)
    → find_field (new_shape fields) name ≡ first_field name fields
unfolding find_field new_shape
find_field-new_shape fields name =
    search_field-first_field name (compact (sort_by before fields)) (new_shape-IsStrict fields)
    ∙ first_field-compact name (sort_by before fields)
    ∙ first_field-sort_by name fields
