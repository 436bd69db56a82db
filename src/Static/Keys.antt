-- ===== src/Static/Keys.antt =====
-- internal/static/sanitize.go, and claim of internal/static/manifest.go. What is a letter
-- or a digit, unicode.IsLetter and unicode.IsDigit, are parameters.
pub mod Identifiers
pub mod Claims
use go_solid.Prelude.{
  ℕ, Text, text, text_eq, text_comparable, Option, none, some, List, [], ◌∷◌, ◌++◌, Bool, true,
  false, ◌||◌, ◌==◌, GoMap, lookup, insert, trim_prefix, sort_by, if◌then◌else◌,
}

-- What two files that resolve to one key are refused with: who had it, who wants it, and the key.
pub record Collision : Type 0 where
  pub previous : Text
  pub wanted_by : Text
  pub at : Text

pub data Kind : Type 0 where
  directory file : Kind

abbrev pub kind_name : Kind → Text
kind_name directory = text "directory"
kind_name file = text "file"

abbrev pub claimed_by : Text → Kind → Text
claimed_by by kind = by ++ text " (" ++ kind_name kind ++ text ")"

-- claim, on what is claimed so far
unfoldable pub claim : GoMap Text Text → Text → Text → Kind → Option Collision × GoMap Text Text
claim claimed key by kind = elim (lookup key claimed) [
  | some previous ↦ (some (record { previous = previous; wanted_by = by; at = key }), claimed)
  | none ↦ (none, insert key (claimed_by by kind) claimed)
]

module _ (is_letter is_digit : ℕ → Bool) where
  unfoldable pub is_identifier_rune : ℕ → Bool
  is_identifier_rune r = r == b'_' || r == b'$' || is_letter r || is_digit r

  -- The loop of sanitize, for `underscored`
  unfoldable pub fold_runes : Bool → Text → Text
  unfolding is_identifier_rune
  fold_runes underscored [] = []
  fold_runes underscored (r ∷ name) =
      let fits = is_identifier_rune r in
      let rest = fold_runes (if fits then false else true) name in
      if fits then r ∷ rest else if underscored then rest else b'_' ∷ rest

  -- The end of sanitize
  unfoldable pub guard_first : Text → Text
  guard_first [] = text "_"
  guard_first (first ∷ out) = if is_digit first then b'_' ∷ first ∷ out else first ∷ out

  unfoldable pub sanitize : Text → Text
  unfolding fold_runes guard_first
  sanitize [] = []
  sanitize (r ∷ name) = guard_first (fold_runes false (r ∷ name))
