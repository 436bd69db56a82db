-- ===== src/Types/Shape.antt =====
-- internal/types/shape.go: the members of an object type, and whether one object can be supplied
-- where another is required.
pub mod Order
pub mod Lookup
pub mod Supply
pub mod Union
use go_solid.Prelude.{
  text_leb, ℕ, zero, suc, Text, text, text_eq, text_comparable, Option, none, some, List, [], ◌∷◌,
  ◌++◌, Bool, true, false, not, ◌&&◌, ◌||◌, ◌==◌, ltb, contains, all, is_empty, sort_by,
  if◌then◌else◌, ◌+◌,
}
use go_solid.Types.Canonical.{canonical_ts}

pub record Field : Type 0 where
  pub name : Text
  pub ts : Text
  pub optional : Bool

pub record Shape : Type 0 where
  pub fields : List Field

abbrev pub before : Field → Field → Bool
before a b = text_leb a.name b.name

-- slices.CompactFunc on names, after a field of the given name
unfoldable pub compact_after : Text → List Field → List Field
compact_after name [] = []
compact_after name (f ∷ fs) =
    if text_eq name f.name then compact_after name fs else f ∷ compact_after f.name fs

unfoldable pub compact : List Field → List Field
unfolding compact_after
compact [] = []
compact (f ∷ fs) = f ∷ compact_after f.name fs

-- NewShape
unfoldable pub new_shape : List Field → Shape
unfolding compact
new_shape fields = record { fields = compact (sort_by before fields) }

-- slices.BinarySearchFunc, as its documentation has it for sorted fields: the first field that is
-- not below the name, if it has the name.
unfoldable pub search_field : Text → List Field → Option Field
search_field name [] = none
search_field name (f ∷ fs) =
    if text_leb name f.name
    then (if text_eq f.name name then some f else none)
    else search_field name fs

-- Lookup
unfoldable pub find_field : Shape → Text → Option Field
unfolding search_field
find_field s name = search_field name s.fields

abbrev fingerprint_field : Field → Text
fingerprint_field f =
    f.name ++ (if f.optional then text "?" else []) ++ text ":" ++ canonical_ts f.ts

unfoldable pub fingerprint_of : List Field → Text
fingerprint_of [] = []
fingerprint_of (f ∷ []) = fingerprint_field f
fingerprint_of (f ∷ g ∷ fs) = fingerprint_field f ++ text ";" ++ fingerprint_of (g ∷ fs)

-- Fingerprint
unfoldable pub fingerprint : Shape → Text
unfolding fingerprint_of
fingerprint s = fingerprint_of s.fields

-- Equal
unfoldable pub shape_equal : Shape → Shape → Bool
unfolding fingerprint
shape_equal s other = text_eq (fingerprint s) (fingerprint other)

pub data ViolationKind : Type 0 where
  missing may_be_absent other_type : ViolationKind

-- ViolationKind.String
unfoldable pub kind_string : ViolationKind → Text
kind_string missing = text "missing"
kind_string may_be_absent = text "may-be-absent"
kind_string other_type = text "type"

pub record Violation : Type 0 where
  pub kind : ViolationKind
  pub field : Text
  pub want : Text
  pub got : Text

-- c opens a bracket, or closes one
abbrev pub opens : ℕ → Bool
opens c = c == b'{' || c == b'(' || c == b'[' || c == b'<'

abbrev pub closes : ℕ → Bool
closes c = c == b'}' || c == b')' || c == b']' || c == b'>'

-- `depth`, which may fall below zero: the brackets open, or the closings without an opening.
pub data Depth : Type 0 where
  inside : ℕ → Depth
  below : ℕ → Depth

abbrev pub deeper : Depth → Depth
deeper (inside n) = inside (suc n)
deeper (below zero) = inside 0
deeper (below (suc n)) = below n

abbrev pub shallower : Depth → Depth
shallower (inside zero) = below 0
shallower (inside (suc n)) = inside n
shallower (below n) = below (suc n)

abbrev pub at_top : Depth → Bool
at_top (inside zero) = true
at_top _ = false

abbrev pub moved : ℕ → Depth → Depth
moved c d = if opens c then deeper d else if closes c then shallower d else d

-- The loop of splitTopLevelUnion, with canonical[start:i] as the member that has begun.
unfoldable pub split_union : Depth → Text → Text → List Text
split_union d member [] = member ∷ []
split_union d member (c ∷ s) =
    let cut = c == b'|' && at_top d in
    let rest = split_union (moved c d) (if cut then [] else member ++ c ∷ []) s in
    if cut then member ∷ rest else rest

unfoldable pub split_top_level_union : Text → List Text
unfolding split_union
split_top_level_union canonical = split_union (inside 0) [] canonical

-- assignableTS on canonical expressions
unfoldable pub assignable_canonical : Text → Text → Bool
unfolding split_top_level_union
assignable_canonical target source =
    if text_eq target source
    then true
    else if text_eq target (text "unknown")
    then true
    else all (λ m. contains m (split_top_level_union target)) (split_top_level_union source)

-- assignableTS
unfoldable pub assignable_ts : Text → Text → Bool
unfolding assignable_canonical
assignable_ts target source = assignable_canonical (canonical_ts target) (canonical_ts source)

-- The body of the loop of Violations
unfoldable pub violations_at : Field → Option Field → List Violation
unfolding assignable_ts
violations_at want none =
    if want.optional
    then []
    else record { kind = missing; field = want.name; want = want.ts; got = [] } ∷ []
violations_at want (some got) =
    (if not want.optional && got.optional
      then record {
        kind = may_be_absent;
        field = want.name;
        want = text "always present";
        got = text "optional";
      }
        ∷ []
      else [])
    ++ (if assignable_ts want.ts got.ts
        then []
        else record { kind = other_type; field = want.name; want = want.ts; got = got.ts } ∷ [])

unfoldable pub violations_of : Shape → List Field → List Violation
unfolding violations_at find_field
violations_of source [] = []
violations_of source (want ∷ fields) =
    violations_at want (find_field source want.name) ++ violations_of source fields

-- Violations
unfoldable pub violations : Shape → Shape → List Violation
unfolding violations_of
violations target source =
    sort_by (λ a b. text_leb a.field b.field) (violations_of source target.fields)

-- Satisfies
unfoldable pub satisfies : Shape → Shape → Bool
unfolding violations
satisfies target source = is_empty (violations target source)
