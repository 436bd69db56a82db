-- ===== src/Types/Mapper/Grouping.antt =====
-- structFields of internal/types/mapper.go: the fields that come out of the candidates.
use go_solid.Prelude.{
  Text, text_eq, text_eq_iff, text_comparable, Option, none, some, List, [], ◌∷◌, ◌++◌,
  append_assoc, append-nil, Bool, false, GoMap, lookup, insert, lookup-insert, keep, All,
  if◌then◌else◌, ◌≡◌, refl, sym, ◌∙◌, ap, arith, inl, inr, Bool-cases, Option-cases, subst,
}
use go_solid.Types.Shape.{Field, new_shape, find_field}
use go_solid.Types.Shape.Lookup.{first_field, find_field-new_shape}
use go_solid.Types.Mapper.{JsonField, pick_field}
use go_solid.Types.Mapper.Fields.{pick_field-Alone}
use go_solid.Types.Mapper.Walk.{group_of, group_at, by_name, onto_winners, winners_of, winners}

-- A candidate of a name
abbrev pub has_name : Text → JsonField → Bool
has_name name c = text_eq c.field.name name

abbrev pub field_of : Option JsonField → Option Field
field_of none = none
field_of (some c) = some c.field

-- No name stands twice, and the candidates under a name have it.
IsGrouped : GoMap Text (List JsonField) → Type 0
IsGrouped [] = Unit
IsGrouped ((name, group) ∷ m) =
    All (λ c. c.field.name ≡ name) group × (lookup name m ≡ none) × IsGrouped m

unused :
    (name other : Text) (group : List JsonField) (m : GoMap Text (List JsonField))
    → text_eq other name ≡ false
    → lookup other m ≡ none
    → (if text_eq name other then some group else lookup other m) ≡ none
unused name other group m differs new =
    ground (arith, text_eq_iff name other, text_eq_iff other name)

insert-IsGrouped :
    (name : Text) (group : List JsonField) (m : GoMap Text (List JsonField))
    → All (λ c. c.field.name ≡ name) group
    → IsGrouped m
    → IsGrouped (insert name group m)
unfolding IsGrouped insert lookup
insert-IsGrouped name group [] own rest = (own, refl, tt)
insert-IsGrouped name group ((other, g) ∷ m) own (own', new, rest) =
    elim (Bool-cases (text_eq other name)) [
      | inl same ↦
          rw same (own, subst (λ n. lookup n m ≡ none) ((text_eq_iff other name).0 same) new, rest)
      | inr differs ↦ rw differs (
        own',
        (lookup-insert name other group m ∙ unused name other group m differs new),
        insert-IsGrouped name group m own rest,
      )
    ]

All-snoc :
    {A : Type 0} (P : A → Type 0) (xs : List A) (x : A) → All P xs → P x → All P (xs ++ x ∷ [])
All-snoc P [] x h k = (k, tt)
All-snoc P (y ∷ xs) x h k = (h.0, All-snoc P xs x h.1 k)

group_at-named :
    (name : Text) (m : GoMap Text (List JsonField))
    → IsGrouped m
    → All (λ c. c.field.name ≡ name) (group_at name m)
unfolding IsGrouped lookup
group_at-named name [] h = tt
group_at-named name ((other, g) ∷ m) (own, new, rest) =
    let Named = λ (o : Option (List JsonField)). All (λ c. c.field.name ≡ name) (group_of o) in
    elim (Bool-cases (text_eq other name)) [
      | inl same ↦
          subst Named (sym (ap (λ (b : Bool). if b then some g else lookup name m) same))
            (subst (λ n. All (λ c. c.field.name ≡ n) g) ((text_eq_iff other name).0 same) own)
      | inr differs ↦
          subst Named (sym (ap (λ (b : Bool). if b then some g else lookup name m) differs))
            (group_at-named name m rest)
    ]

by_name-IsGrouped :
    (cs : List JsonField) (m : GoMap Text (List JsonField)) → IsGrouped m → IsGrouped (by_name cs m)
unfolding by_name
by_name-IsGrouped [] m h = h
by_name-IsGrouped (c ∷ cs) m h = by_name-IsGrouped cs _ (
    insert-IsGrouped c.field.name _ m
      (All-snoc _ (group_at c.field.name m) c (group_at-named c.field.name m h) refl) h)

kept_next :
    (name : Text) (c : JsonField) (cs : List JsonField) (m : GoMap Text (List JsonField))
    → group_of (
          if text_eq c.field.name name
          then some (group_at c.field.name m ++ c ∷ [])
          else lookup name m)
        ++ keep (has_name name) cs
      ≡ group_at name m ++ keep (has_name name) (c ∷ cs)
kept_next name c cs m = elim (Bool-cases (text_eq c.field.name name)) [
  | inl same ↦
      let same_name = (text_eq_iff c.field.name name).0 same in
      rw same (
        ap (λ n. (group_at n m ++ c ∷ []) ++ keep (has_name name) cs) same_name
        ∙ append_assoc (group_at name m) (c ∷ []) (keep (has_name name) cs))
  | inr differs ↦ rw differs refl
]

group_at-by_name :
    (name : Text) (cs : List JsonField) (m : GoMap Text (List JsonField))
    → group_at name (by_name cs m) ≡ group_at name m ++ keep (has_name name) cs
unfolding by_name
group_at-by_name name [] m = sym (append-nil (group_at name m))
group_at-by_name name (c ∷ cs) m =
    let own = c.field.name in
    let group = group_at own m ++ c ∷ [] in
    group_at-by_name name cs (insert own group m)
    ∙ ap (λ o. group_of o ++ keep (has_name name) cs) (lookup-insert own name group m)
    ∙ kept_next name c cs m

All-middle :
    {A : Type 0} (P : A → Type 0) (before after : List A) (x : A)
    → All P (before ++ x ∷ after)
    → P x
All-middle P [] after x h = h.0
All-middle P (y ∷ before) after x h = All-middle P before after x h.1

pick_field-named :
    (name : Text) (group : List JsonField) (w : JsonField)
    → All (λ c. c.field.name ≡ name) group
    → pick_field group ≡ some w
    → w.field.name ≡ name
pick_field-named name group w own h =
    let (before, after, e, b, a) = pick_field-Alone group w h in
    All-middle (λ c. c.field.name ≡ name) before after w
      (subst (All (λ c. c.field.name ≡ name)) e own)

abbrev or_field : Option Field → Option Field → Option Field
or_field none other = other
or_field (some f) other = some f

first_field-onto_winners :
    (name other : Text) (group : List JsonField) (fs : List Field)
    → All (λ c. c.field.name ≡ other) group
    → first_field name (onto_winners (pick_field group) fs) ≡ (
        if text_eq other name
        then or_field (field_of (pick_field group)) (first_field name fs)
        else first_field name fs)
first_field-onto_winners name other group fs own = elim (Option-cases (pick_field group)) [
  | inl nobody ↦ rw nobody (ground arith)
  | inr (w, picked) ↦ rw picked (rw (pick_field-named other group w own picked) refl)
]

pick_field-nil : pick_field [] ≡ none
unfolding pick_field
pick_field-nil = refl

or_field-none : (o : Option Field) → or_field o none ≡ o
or_field-none none = refl
or_field-none (some f) = refl

first_field-winners_of :
    (name : Text) (m : GoMap Text (List JsonField))
    → IsGrouped m
    → first_field name (winners_of m) ≡ field_of (pick_field (group_at name m))
unfolding winners_of IsGrouped lookup
first_field-winners_of name [] h = ap field_of (sym pick_field-nil)
first_field-winners_of name ((other, g) ∷ m) (own, new, rest) =
    let ih = first_field-winners_of name m rest in
    let found = field_of (pick_field g) in
    first_field-onto_winners name other g (winners_of m) own
    ∙ elim (Bool-cases (text_eq other name)) [
      | inl same ↦
          let absent = subst (λ n. lookup n m ≡ none) ((text_eq_iff other name).0 same) new in
          let none_later =
            ih ∙ ap (λ o. field_of (pick_field (group_of o))) absent ∙ ap field_of pick_field-nil in
          ap
            (λ (b : Bool).
              if b
              then or_field found (first_field name (winners_of m))
              else first_field name (winners_of m))
            same
          ∙ ap (or_field found) none_later
          ∙ or_field-none found
          ∙ ap
              (λ (b : Bool). field_of (pick_field (group_of (if b then some g else lookup name m))))
              (sym same)
      | inr differs ↦
          ap
            (λ (b : Bool).
              if b
              then or_field found (first_field name (winners_of m))
              else first_field name (winners_of m))
            differs
          ∙ ih
          ∙ ap
              (λ (b : Bool). field_of (pick_field (group_of (if b then some g else lookup name m))))
              (sym differs)
    ]

-- Lookup of a name in the shape of a struct, whatever candidates its walk has collected: the field that
-- pickField picks of the candidates of that name, in the order of the walk, and nothing where it picks none.
pub find_field-winners :
    (name : Text) (candidates : List JsonField)
    → find_field (new_shape (winners candidates)) name
      ≡ field_of (pick_field (keep (has_name name) candidates))
unfolding winners IsGrouped lookup
find_field-winners name candidates =
    find_field-new_shape (winners candidates) name
    ∙ first_field-winners_of name (by_name candidates []) (by_name-IsGrouped candidates [] tt)
    ∙ ap (λ group. field_of (pick_field group)) (group_at-by_name name candidates [])
