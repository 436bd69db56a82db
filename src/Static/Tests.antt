-- ===== src/Static/Tests.antt =====
-- The theorems on keys and on Resolve at small names, where the letters and digits are those of ASCII.
use go_solid.Static.Config.{StaticConfig}
use go_solid.Prelude.{
  false, none, Option, ℕ, text, text_comparable, some, List, [], ◌∷◌, Bool, leb, ◌&&◌, ◌||◌, lookup,
  ◌≡◌, refl,
}
use go_solid.Static.Keys.{directory, file, sanitize, fold_runes, guard_first, is_identifier_rune}
use go_solid.Static.Keys.Claims.{Claim}
use go_solid.Static.Manifest.{Asset, Manifest, dir, no_dirs, resolve}

abbrev letter : ℕ → Bool
letter c = leb b'a' c && leb c b'z' || leb b'A' c && leb c b'Z'

abbrev digit : ℕ → Bool
digit c = leb b'0' c && leb c b'9'

sanitize_dashes : sanitize letter digit (text "2-up--x") ≡ text "_2_up_x"
unfolding sanitize fold_runes guard_first is_identifier_rune
sanitize_dashes = refl

abbrev claims : List Claim
claims = (text "a", text "a/", directory) ∷ (text "a", text "a.js", file) ∷ []

abbrev logo : Asset
logo = record {
  rel = text "l.svg";
  path = text "/s/l.svg";
  url = text "/m/l.svg";
  mime = text "image/svg+xml";
  size = 0;
  content_hash = text "h";
  mem_cached = none;
}

abbrev manifest : Manifest
manifest = record {
  root = text "/s";
  mount_path = text "/m/";
  by_url = (text "/m/l.svg", logo) ∷ [];
  by_rel = [];
  tree = dir [] [] no_dirs [];
  sources = text "/s/l.svg" ∷ [];
}

logo_found : resolve (some manifest) (text "/l.svg") ≡ some logo
unfolding resolve lookup
logo_found = refl

abbrev bare_mount : Option StaticConfig
bare_mount = some (record {
  location = text "/s";
  ignore = none;
  mount_path = text "assets";
  disabled = false;
  inline_limit = 0;
})
