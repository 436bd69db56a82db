-- ===== src/Caching/DiskCache/Tests.antt =====
-- A cache on disk with small stand-ins for what it calls, and the theorems at runs of it.
use go_solid.Prelude.{
  Text, text, text_comparable, none, some, List, [], ◌∷◌, true, false, lookup, insert, delete, ◌≡◌,
  refl,
}
use go_solid.Sources.{ok}
use go_solid.Io.{Files, rename_loop, rename_over, replace_with, fill_and_replace, write_atomic}
use go_solid.Io.Fresh.{long_name, fine}
use go_solid.Collections.SetMap.{set_at, members}
use go_solid.Caching.{Rendered, CacheKey, safe_stem}
use go_solid.Caching.DiskCache.{
  Manifest, DiskCache, Outside, key_string, entry_stem, of_file, record_digests, digests_hold, load,
  locked_index, ensure_index,
}
use go_solid.Caching.DiskCache.Writing.{manifest_for, write_file, write_styles, store, invalidate}
use go_solid.Caching.DiskCache.Removing.{load-invalidate}

abbrev page : Rendered
page = record {
  html = [];
  css = text "p{}";
  js = text "run()";
  css_name = text "a.1.css";
  js_name = text "a.1.js";
  data_islands = [];
}

abbrev key : CacheKey
key = record { component = text "a"; root = text "m"; build = text "b" }

abbrev source : Files
source = (text "/c/a.tsx", record { content = text "x"; mode = 420 }) ∷ []

abbrev manifest : Manifest
manifest = record {
  component = text "a";
  minify = false;
  generated_at = text "now";
  key = text "a:am:mb:b";
  sources = (text "/c/a.tsx", text "sha256:x") ∷ [];
  artifact_js = text "a__a:am:mb:b.js";
  artifact_css = text "a__a:am:mb:b.css";
  served_js = text "a.1.js";
  served_css = text "a.1.css";
}

abbrev outside : Outside
outside = record {
  sha = λ s. s;
  size = λ s. s;
  now = text "now";
  encode = λ man. ok man.component;
  decode = λ bytes. some manifest;
  answers = λ fs path. fine;
  staged = long_name;
  normalize = λ s. s;
}

abbrev cache : DiskCache
cache = record {
  directory = text "/d";
  enabled = true;
  indexed = true;
  by_key = [];
  by_component = [];
}

program : Unit {0}
unfolding manifest_for key_string entry_stem safe_stem of_file record_digests digests_hold store
    write_file write_styles locked_index write_atomic fill_and_replace replace_with rename_over
    rename_loop lookup insert delete
program = tt

manifest_made : manifest_for outside source key false page (text "/c/a.tsx" ∷ []) ≡ manifest
unfolding program
manifest_made = refl

abbrev sources : List Text
sources = text "/c/a.tsx" ∷ []

-- The cache once it has an entry
abbrev with_entry : DiskCache
with_entry = record cache {
  by_key = (text "a:am:mb:b", text "/d/a__a:am:mb:b.meta.json") ∷ [];
  by_component = (text "a", (text "a:am:mb:b", tt) ∷ []) ∷ [];
}

load-invalidate_example :
    (load outside (invalidate outside with_entry source (text "a")).0 source key).0 ≡ none
unfolding ensure_index members set_at lookup key_string
load-invalidate_example = load-invalidate outside with_entry source source (text "a") key refl refl
