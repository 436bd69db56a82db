-- ===== src/Meta/Selector.antt =====
-- SplitSelector and JoinSelector of shared/meta/meta.go undo one another.
use go_solid.Prelude.{
  ℕ, Text, text_eq, text_eq_iff, none, some, [], ◌∷◌, ◌++◌, true, false, ◌≡◌, refl, ◌≢◌, all,
  contains_char, inl, inr, arith, if◌then◌else◌, Option-cases,
}
use go_solid.Meta.{
  export_selector, default_export, cut_last, split_selector, join_selector, is_identifier_part,
  valid_export_name,
}

pub cut_last_absent : (sep : ℕ) (s : Text) → contains_char sep s ≡ false → cut_last sep s ≡ none
unfolding cut_last
cut_last_absent sep [] h = refl
cut_last_absent sep (c ∷ s) h = ground (arith, cut_last_absent sep s)

-- A separator that does not occur in the rest is the last one.
cut_last-append :
    (sep : ℕ) (s t : Text) → contains_char sep t ≡ false → cut_last sep (s ++ sep ∷ t) ≡ some (s, t)
unfolding cut_last
cut_last-append sep [] t h = rw (cut_last_absent sep t h) (ground arith)
cut_last-append sep (c ∷ s) t h = rw (cut_last-append sep s t h)

cut_last-eq : (sep : ℕ) (s : Text) {a b : Text} → cut_last sep s ≡ some (a, b) → s ≡ a ++ sep ∷ b
unfolding cut_last
cut_last-eq sep [] {a} {b} h = cc
cut_last-eq sep (c ∷ s) {a} {b} h = elim (Option-cases (cut_last sep s)) [
  | inl e ↦ ground (arith, e)
  | inr (p, e) ↦ ground (arith, e, cut_last-eq sep s {a = p.0} {b = p.1})
]

part-no-selector :
    (s : Text) → all is_identifier_part s ≡ true → contains_char export_selector s ≡ false
unfolding is_identifier_part
part-no-selector [] h = refl
part-no-selector (c ∷ s) h = ground (arith, part-no-selector s)

pub valid-no-selector :
    (export : Text) → valid_export_name export ≡ true → contains_char export_selector export ≡ false
unfolding valid_export_name
valid-no-selector [] h = refl
valid-no-selector (c ∷ s) h = ground (arith, part-no-selector s)

-- Joining a file and an export that can be imported, and splitting the result, gives both back; the
-- default export comes back as the empty name.
pub split-join :
    (file export : Text)
    → contains_char export_selector file ≡ false
    → valid_export_name export ≡ true
    → split_selector (join_selector file export)
      ≡ (file, if text_eq export default_export then [] else export)
unfolding split_selector join_selector
split-join file export clean valid = ground (
  arith,
  cut_last-append export_selector file export,
  cut_last_absent export_selector file,
  valid-no-selector export,
  text_eq_iff export [],
)

pub split_absent :
    (name : Text) → contains_char export_selector name ≡ false → split_selector name ≡ (name, [])
unfolding split_selector
split_absent name h = ground (arith, cut_last_absent export_selector name h)

-- Splitting a name and joining the parts gives the name back, unless the name selects the default
-- export in so many words.
pub join-split :
    (name : Text) {file export : Text}
    → split_selector name ≡ (file, export)
    → export ≢ []
    → join_selector file export ≡ name
unfolding split_selector join_selector
join-split name {file} {export} h named = elim (Option-cases (cut_last export_selector name)) [
  | inl e ↦ ground (arith, e)
  | inr (p, e) ↦ ground (
    arith,
    e,
    cut_last-eq export_selector name {a = p.0} {b = p.1},
    text_eq_iff export [],
    text_eq_iff export default_export,
  )
]
