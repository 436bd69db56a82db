-- ===== src/Caching/Tests.antt =====
-- The theorems on the cache in memory, at a cache of two entries.
use go_solid.Prelude.{text, text_comparable, [], ◌∷◌, true, lookup, insert}
use go_solid.Collections.SetMap.{add, set_at}
use go_solid.Caching.{Rendered, CacheKey, key_comparable, component_is_in_file}
use go_solid.Caching.MemCache.{MemCache, new_mem_cache, get, put, puts, run, step}
use go_solid.Caching.MemCache.Index.{IsIndexed, run-IsIndexed}

abbrev page : Rendered
page = record {
  html = text "<p>";
  css = [];
  js = [];
  css_name = [];
  js_name = [];
  data_islands = [];
}

abbrev login : CacheKey
login = record { component = text "auth/Login"; root = text "r"; build = [] }

abbrev submit : CacheKey
submit = record { component = text "auth/Login#Submit"; root = text "r"; build = [] }

abbrev two_pages : MemCache
two_pages = run (new_mem_cache true) (puts login page ∷ puts submit page ∷ [])

two_pages-IsIndexed : IsIndexed two_pages
two_pages-IsIndexed = run-IsIndexed true (puts login page ∷ puts submit page ∷ [])

run-IsIndexed_example :
    IsIndexed (run (new_mem_cache true) (puts login page ∷ puts submit page ∷ []))
run-IsIndexed_example = run-IsIndexed true (puts login page ∷ puts submit page ∷ [])

program : Unit {0}
unfolding run step new_mem_cache put get add set_at lookup insert component_is_in_file
program = tt
