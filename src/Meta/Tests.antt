-- ===== src/Meta/Tests.antt =====
-- Runs of the selector functions, and the theorems at concrete selectors.
use go_solid.Prelude.{text, ◌≡◌, refl, []}
use go_solid.Meta.{split_selector}

split_named : split_selector (text "auth/LoginForm#Submit") ≡ (text "auth/LoginForm", text "Submit")
unfolding split_selector
split_named = refl

split_default : split_selector (text "auth/LoginForm#default") ≡ (text "auth/LoginForm", [])
unfolding split_selector
split_default = refl
