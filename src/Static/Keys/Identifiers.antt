-- ===== src/Static/Keys/Identifiers.antt =====
-- sanitize of internal/static/sanitize.go gives identifiers.
use go_solid.Prelude.{ℕ, Text, [], ◌∷◌, Bool, true, false, not, ◌&&◌, all, ◌≡◌, refl, arith}
use go_solid.Static.Keys.{is_identifier_rune, fold_runes, guard_first, sanitize}

module _ (is_letter is_digit : ℕ → Bool) where
  -- A name that JavaScript takes: no digit first, and only runes of identifiers.
  abbrev pub is_identifier : Text → Bool
  is_identifier [] = false
  is_identifier (r ∷ s) = not (is_digit r) && all (is_identifier_rune is_letter is_digit) (r ∷ s)

  fold_runes-all :
      (underscored : Bool) (name : Text)
      → all (is_identifier_rune is_letter is_digit) (fold_runes is_letter is_digit underscored name)
        ≡ true
  unfolding fold_runes is_identifier_rune
  fold_runes-all underscored [] = refl
  fold_runes-all underscored (r ∷ name) =
      ground (arith, fold_runes-all false name, fold_runes-all true name)

  guard_first_lem :
      (s : Text)
      → is_digit b'_' ≡ false
      → all (is_identifier_rune is_letter is_digit) s ≡ true
      → is_identifier (guard_first is_letter is_digit s) ≡ true
  unfolding guard_first is_identifier_rune
  guard_first_lem [] h fits = ground arith
  guard_first_lem (r ∷ s) h fits = ground arith

  -- Where "_" is not a digit, what sanitize makes of a name that is not empty is an identifier of
  -- JavaScript: no digit stands first, and every rune may stand in one.
  pub sanitize-is_identifier :
      (r : ℕ) (name : Text)
      → is_digit b'_' ≡ false
      → is_identifier (sanitize is_letter is_digit (r ∷ name)) ≡ true
  unfolding sanitize
  sanitize-is_identifier r name h =
      guard_first_lem (fold_runes is_letter is_digit false (r ∷ name)) h
        (fold_runes-all false (r ∷ name))

  fold_runes_same :
      (underscored : Bool) (s : Text)
      → all (is_identifier_rune is_letter is_digit) s ≡ true
      → fold_runes is_letter is_digit underscored s ≡ s
  unfolding fold_runes
  fold_runes_same underscored [] fits = refl
  fold_runes_same underscored (r ∷ s) fits = ground (arith, fold_runes_same false s)

  guard_first_same :
      (r : ℕ) (s : Text) → is_digit r ≡ false → guard_first is_letter is_digit (r ∷ s) ≡ (r ∷ s)
  unfolding guard_first
  guard_first_same r s h = ground arith

  -- A name that is an identifier already stays as it is.
  pub sanitize_same :
      (name : Text) → is_identifier name ≡ true → sanitize is_letter is_digit name ≡ name
  unfolding sanitize
  sanitize_same [] h = refl
  sanitize_same (r ∷ s) h = ground (arith, fold_runes_same false (r ∷ s), guard_first_same r s)
