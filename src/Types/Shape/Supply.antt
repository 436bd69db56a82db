-- ===== src/Types/Shape/Supply.antt =====
-- Violations and Satisfies of internal/types/shape.go.
use go_solid.Prelude.{
  text_leb, Text, text_eq, text_eq_iff, Option, none, some, List, [], ◌∷◌, ◌++◌, Bool, true, false,
  not, ◌&&◌, ◌||◌, All, all, is_empty, insert_by, sort_by, ◌≡◌, refl, ◌∙◌, ap, arith,
}
use go_solid.Types.Canonical.{canonical_ts}
use go_solid.Types.Shape.{
  Field, Shape, Violation, new_shape, find_field, assignable_ts, assignable_canonical,
  violations_at, violations_of, violations, satisfies,
}
use go_solid.Types.Shape.Order.{IsStrict, new_shape-IsStrict}
use go_solid.Types.Shape.Lookup.{first_field, search_field-first_field}

-- What a target's field asks of the field that is given for it, if one is.
abbrev pub supplied : Field → Option Field → Bool
supplied want none = want.optional
supplied want (some got) = (want.optional || not got.optional) && assignable_ts want.ts got.ts

is_empty-insert_by :
    (le : Violation → Violation → Bool) (x : Violation) (xs : List Violation)
    → is_empty (insert_by le x xs) ≡ false
is_empty-insert_by le x [] = refl
is_empty-insert_by le x (y ∷ ys) = ground arith

is_empty-sort_by :
    (le : Violation → Violation → Bool) (xs : List Violation)
    → is_empty (sort_by le xs) ≡ is_empty xs
is_empty-sort_by le [] = refl
is_empty-sort_by le (x ∷ xs) = is_empty-insert_by le x (sort_by le xs)

is_empty-append : (xs ys : List Violation) → is_empty (xs ++ ys) ≡ (is_empty xs && is_empty ys)
is_empty-append [] ys = refl
is_empty-append (x ∷ xs) ys = refl

violations_at-supplied :
    (want : Field) (got : Option Field) → is_empty (violations_at want got) ≡ supplied want got
unfolding violations_at
violations_at-supplied want none = ground arith
violations_at-supplied want (some got) = ground arith

violations_of-supplied :
    (source : Shape) (fields : List Field)
    → is_empty (violations_of source fields)
      ≡ all (λ want. supplied want (find_field source want.name)) fields
unfolding violations_of
violations_of-supplied source [] = refl
violations_of-supplied source (want ∷ fields) = ground (
  arith,
  is_empty-append (violations_at want (find_field source want.name)) (violations_of source fields),
  violations_at-supplied want (find_field source want.name),
  violations_of-supplied source fields,
)

-- A source satisfies a target exactly if, for every field of the target, the source has a field of
-- the name that is always present where it must be and whose type is assignable, or has none and
-- the field is optional.
pub satisfies-supplied :
    (target source : Shape)
    → satisfies target source
      ≡ all (λ want. supplied want (find_field source want.name)) target.fields
unfolding satisfies violations
satisfies-supplied target source =
    is_empty-sort_by _ (violations_of source target.fields)
    ∙ violations_of-supplied source target.fields

assignable_ts_refl : (t : Text) → assignable_ts t t ≡ true
unfolding assignable_ts assignable_canonical
assignable_ts_refl t = ground (arith, text_eq_iff (canonical_ts t) (canonical_ts t))

-- Fields that are each the first of their name in a list are supplied by that list.
supplied_self :
    (whole fs : List Field)
    → All (λ f. first_field f.name whole ≡ some f) fs
    → all (λ want. supplied want (first_field want.name whole)) fs ≡ true
supplied_self whole [] found = refl
supplied_self whole (f ∷ fs) found =
    ground (arith, found.0, supplied_self whole fs found.1, assignable_ts_refl f.ts)

first_field_skip :
    (f : Field) (whole fs : List Field)
    → All (λ g. (text_leb f.name g.name ≡ true) × (text_eq f.name g.name ≡ false)) fs
    → All (λ g. first_field g.name whole ≡ some g) fs
    → All (λ g. first_field g.name (f ∷ whole) ≡ some g) fs
first_field_skip f whole [] other found = tt
first_field_skip f whole (g ∷ fs) other found =
    (ground (arith, other.0, found.0), first_field_skip f whole fs other.1 found.1)

first_field_self : (fs : List Field) → IsStrict fs → All (λ f. first_field f.name fs ≡ some f) fs
first_field_self [] strict = tt
first_field_self (f ∷ fs) strict = (
  ground (arith, text_eq_iff f.name f.name),
  first_field_skip f fs fs strict.0 (first_field_self fs strict.1),
)

all-eq : (p q : Field → Bool) (fs : List Field) → ((f : Field) → p f ≡ q f) → all p fs ≡ all q fs
all-eq p q [] h = refl
all-eq p q (f ∷ fs) h = ground (arith, h f, all-eq p q fs h)

-- Every shape satisfies itself.
pub satisfies_refl : (fields : List Field) → satisfies (new_shape fields) (new_shape fields) ≡ true
unfolding find_field
satisfies_refl fields =
    let s = new_shape fields in
    let strict = new_shape-IsStrict fields in
    satisfies-supplied s s
    ∙ all-eq _ _ s.fields (λ f. ap (supplied f) (search_field-first_field f.name s.fields strict))
    ∙ supplied_self s.fields s.fields (first_field_self s.fields strict)
