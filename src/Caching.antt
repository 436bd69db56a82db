-- ===== src/Caching.antt =====
-- internal/caching/shared.go and the cache keys of internal/caching/memcache.go.
pub mod MemCache
pub mod DiskCache
mod Tests
use go_solid.Prelude.{
  ℕ, Text, text, text_eq, text_eq_iff, text_comparable, Option, List, ◌++◌, ◌∷◌, [], map, Bool,
  true, ◌&&◌, ◌||◌, ◌==◌, has_prefix, GoMap, Comparable, ◌≡◌, ◌↔◌, arith, if◌then◌else◌,
}
use go_solid.Meta.{export_selector}
use go_solid.Paths.{separator}

pub record Rendered : Type 0 where
  pub html : Text
  pub css : Text
  pub js : Text
  pub css_name : Text
  pub js_name : Text
  pub data_islands : GoMap Text Text

pub record CacheKey : Type 0 where
  pub component : Text
  pub root : Text
  pub build : Text

abbrev pub key_eq : CacheKey → CacheKey → Bool
key_eq a b = text_eq a.component b.component && text_eq a.root b.root && text_eq a.build b.build

pub key_eq_iff : (a b : CacheKey) → (key_eq a b ≡ true) ↔ (a ≡ b)
key_eq_iff a b = ground (
  arith,
  text_eq_iff a.component b.component,
  text_eq_iff a.root b.root,
  text_eq_iff a.build b.build,
)

instance abbrev pub key_comparable : Comparable CacheKey
key_comparable = record { same = key_eq; same_iff = key_eq_iff }

-- NewMemCacheKey
unfoldable pub new_mem_cache_key : Text → Text → CacheKey
new_mem_cache_key component root = record { component = component; root = root; build = [] }

-- NewBuildCacheKey
unfoldable pub new_build_cache_key : Text → Text → Text → CacheKey
new_build_cache_key component root build = record {
  component = component;
  root = root;
  build = build;
}

-- componentIsInFile
unfoldable pub component_is_in_file : Text → Text → Bool
component_is_in_file component file =
    text_eq component file || has_prefix component (file ++ export_selector ∷ [])

-- One character of the replacer in SafeStem.
abbrev pub stem_char : ℕ → ℕ
stem_char c = if c == b'/' || c == separator || c == export_selector then b'_' else c

unfoldable pub safe_stem : Text → Text
safe_stem = map stem_char
