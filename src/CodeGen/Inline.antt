-- ===== src/CodeGen/Inline.antt =====
-- inlineJS and inlineJSON of internal/code-gen/templateTemplating.go: a script cannot close its element.
use go_solid.Prelude.{
  Text, [], ◌∷◌, Bool, false, ◌&&◌, ◌||◌, ◌==◌, ◌≡◌, refl, arith, inl, inr, Bool-cases,
}
use go_solid.CodeGen.{folds_to, has_prefix_fold, script_close, inline_js, begins, inline_json}

-- Whether "</script" stands anywhere, whatever the case of its letters.
abbrev pub closes_script : Text → Bool
closes_script [] = false
closes_script (c ∷ s) = c == b'<' && has_prefix_fold script_close s || closes_script s

-- No character of the pattern is a "<", in any case.
abbrev IsPlain : Text → Type 0
IsPlain [] = Unit
IsPlain (p ∷ ps) = (folds_to p b'<' ≡ false) × IsPlain ps

prefix_fold-inline_js :
    (p s : Text) → IsPlain p → has_prefix_fold p (inline_js s) ≡ has_prefix_fold p s
unfolding inline_js
prefix_fold-inline_js [] s plain = refl
prefix_fold-inline_js (p ∷ ps) [] plain = refl
prefix_fold-inline_js (p ∷ ps) (c ∷ s) (first, plain) = elim (Bool-cases (c == b'<')) [
  | inl lt ↦ let e : c ≡ b'<' = ground arith in rw e (ground (arith, first))
  | inr other ↦ rw (other, inline_js) (rw (prefix_fold-inline_js ps s plain) refl)
]

-- What inlineJS gives holds no "</script", in any case of its letters.
pub closes_script-inline_js : (js : Text) → closes_script (inline_js js) ≡ false
unfolding inline_js
closes_script-inline_js [] = refl
closes_script-inline_js (c ∷ s) =
    let same : has_prefix_fold script_close (inline_js s) ≡ has_prefix_fold script_close s =
      prefix_fold-inline_js script_close s
        (refl, (refl, (refl, (refl, (refl, (refl, (refl, tt))))))) in
    ground (arith, same, closes_script-inline_js s)

abbrev pub closes_any : Text → Bool
closes_any [] = false
closes_any (c ∷ s) = c == b'<' && begins b'/' s || closes_any s

begins-inline_json : (s : Text) → begins b'/' (inline_json s) ≡ begins b'/' s
unfolding inline_json
begins-inline_json [] = refl
begins-inline_json (c ∷ s) = ground arith

-- What inlineJSON gives holds no "</" at all.
pub closes_any-inline_json : (json : Text) → closes_any (inline_json json) ≡ false
unfolding inline_json
closes_any-inline_json [] = refl
closes_any-inline_json (c ∷ s) = ground (arith, begins-inline_json s, closes_any-inline_json s)
