-- ===== src/Types/Shape/Order.antt =====
-- NewShape of internal/types/shape.go: the order of its fields.
use go_solid.Prelude.{
  text_leb, text_leb_total, text_leb_trans, text_leb_antisym, Text, text_eq, text_eq_iff, List, [],
  ◌∷◌, true, false, All, insert_by, sort_by, ◌≡◌, arith, inl, inr, Bool-cases,
}
use go_solid.Types.Shape.{Field, before, compact, compact_after, new_shape}

-- No name is above a later one.
abbrev pub IsOrdered : List Field → Type 0
IsOrdered [] = Unit
IsOrdered (f ∷ fs) = All (λ g. text_leb f.name g.name ≡ true) fs × IsOrdered fs

-- Each name is below all later ones.
abbrev pub IsStrict : List Field → Type 0
IsStrict [] = Unit
IsStrict (f ∷ fs) =
    All (λ g. (text_leb f.name g.name ≡ true) × (text_eq f.name g.name ≡ false)) fs × IsStrict fs

Below : Text → List Field → Type 0
Below name = All (λ g. text_leb name g.name ≡ true)

Below-trans : (a b : Text) (fs : List Field) → text_leb a b ≡ true → Below b fs → Below a fs
unfolding Below
Below-trans a b [] h below = tt
Below-trans a b (f ∷ fs) h below =
    (text_leb_trans a b f.name h below.0, Below-trans a b fs h below.1)

Below-insert_by :
    (name : Text) (x : Field) (fs : List Field)
    → text_leb name x.name ≡ true
    → Below name fs
    → Below name (insert_by before x fs)
unfolding Below
Below-insert_by name x [] h below = (h, tt)
Below-insert_by name x (f ∷ fs) h below = elim (Bool-cases (before x f)) [
  | inl first ↦ rw first (h, below)
  | inr later ↦ rw later (below.0, Below-insert_by name x fs h below.1)
]

insert_by-IsOrdered :
    (x : Field) (fs : List Field) → IsOrdered fs → IsOrdered (insert_by before x fs)
unfolding Below
insert_by-IsOrdered x [] ordered = (tt, tt)
insert_by-IsOrdered x (f ∷ fs) ordered = elim (Bool-cases (before x f)) [
  | inl first ↦ rw first ((first, Below-trans x.name f.name fs first ordered.0), ordered)
  | inr later ↦ rw later (
    Below-insert_by f.name x fs (text_leb_total x.name f.name later) ordered.0,
    insert_by-IsOrdered x fs ordered.1,
  )
]

pub sort_by-IsOrdered : (fs : List Field) → IsOrdered (sort_by before fs)
sort_by-IsOrdered [] = tt
sort_by-IsOrdered (f ∷ fs) = insert_by-IsOrdered f (sort_by before fs) (sort_by-IsOrdered fs)

Above : Text → List Field → Type 0
Above name = All (λ g. (text_leb name g.name ≡ true) × (text_eq name g.name ≡ false))

Above-trans :
    (a b : Text) (fs : List Field)
    → text_leb a b ≡ true
    → text_eq a b ≡ false
    → Above b fs
    → Above a fs
unfolding Above
Above-trans a b [] h other above = tt
Above-trans a b (f ∷ fs) h other above = (
  (
    text_leb_trans a b f.name h above.0.0,
    ground (arith, text_eq_iff a f.name, text_eq_iff a b, text_leb_antisym a b h, above.0),
  ),
  Above-trans a b fs h other above.1,
)

compact_after-IsStrict :
    (name : Text) (fs : List Field)
    → Below name fs
    → IsOrdered fs
    → Above name (compact_after name fs) × IsStrict (compact_after name fs)
unfolding compact_after Below Above
compact_after-IsStrict name [] below ordered = (tt, tt)
compact_after-IsStrict name (f ∷ fs) below ordered = elim (Bool-cases (text_eq name f.name)) [
  | inl same ↦ rw same (compact_after-IsStrict name fs below.1 ordered.1)
  | inr other ↦
      let (above, strict) = compact_after-IsStrict f.name fs ordered.0 ordered.1 in
      rw other (
        ((below.0, other), Above-trans name f.name (compact_after f.name fs) below.0 other above),
        (above, strict),
      )
]

compact-IsStrict : (fs : List Field) → IsOrdered fs → IsStrict (compact fs)
unfolding compact Below Above
compact-IsStrict [] ordered = tt
compact-IsStrict (f ∷ fs) ordered = compact_after-IsStrict f.name fs ordered.0 ordered.1

-- The fields of a shape stand in the order of their names, and no name stands twice.
pub new_shape-IsStrict : (fields : List Field) → IsStrict (new_shape fields).fields
unfolding new_shape
new_shape-IsStrict fields = compact-IsStrict (sort_by before fields) (sort_by-IsOrdered fields)
