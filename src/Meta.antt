-- ===== src/Meta.antt =====
-- shared/meta/meta.go: the selector grammar. A qualified name is the path of a component file,
-- optionally followed by "#" and the export to take out of it.
pub mod Selector
mod Tests
use go_solid.Prelude.{
  ℕ, Text, text, text_eq, Option, none, some, List, [], ◌∷◌, ◌++◌, Bool, ◌&&◌, ◌||◌, leb, ◌==◌, all,
  if◌then◌else◌,
}

-- EXPORT_SELECTOR
abbrev pub export_selector : ℕ
export_selector = b'#'

-- DEFAULT_EXPORT
abbrev pub default_export : Text
default_export = text "default"

-- The parts of a text before and after the last occurrence of a character: strings.LastIndex and
-- the two slices around the index that it returns.
unfoldable pub cut_last : ℕ → Text → Option (Text × Text)
cut_last sep [] = none
cut_last sep (c ∷ s) = elim (cut_last sep s) [
  | some (before, after) ↦ some (c ∷ before, after)
  | none ↦ if c == sep then some ([], s) else none
]

unfoldable pub split_selector : Text → Text × Text
unfolding cut_last
split_selector name = elim (cut_last export_selector name) [
  | none ↦ (name, [])
  | some (file, export) ↦ (file, if text_eq export default_export then [] else export)
]

unfoldable pub join_selector : Text → Text → Text
join_selector file export =
    if text_eq export [] || text_eq export default_export
    then file
    else file ++ export_selector ∷ export

-- [A-Za-z_$]
unfoldable pub is_identifier_start : ℕ → Bool
is_identifier_start c =
    leb b'A' c && leb c b'Z' || leb b'a' c && leb c b'z' || c == b'_' || c == b'$'

-- [A-Za-z0-9_$]
unfoldable pub is_identifier_part : ℕ → Bool
unfolding is_identifier_start
is_identifier_part c = is_identifier_start c || leb b'0' c && leb c b'9'

-- The regular expression `jsIdentifier`, which matches a whole text.
unfoldable pub js_identifier : Text → Bool
unfolding is_identifier_part
js_identifier [] = Bool.false
js_identifier (c ∷ s) = is_identifier_start c && all is_identifier_part s

unfoldable pub valid_export_name : Text → Bool
unfolding js_identifier
valid_export_name export = text_eq export [] || js_identifier export
