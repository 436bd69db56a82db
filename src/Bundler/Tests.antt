-- ===== src/Bundler/Tests.antt =====
-- The theorems on invalidation, at a bundler with one rendered page.
use go_solid.Prelude.{
  Text, text, text_comparable, Option, none, some, List, [], ◌∷◌, true, lookup, insert, ◌≡◌, refl,
}
use go_solid.Sources.{failed}
use go_solid.Caching.{Rendered, CacheKey, key_comparable}
use go_solid.Caching.MemCache.{MemCache, new_mem_cache, get, put, puts, run, step}
use go_solid.Caching.MemCache.Index.{IsIndexed, run-IsIndexed}
use go_solid.Caching.DiskCache.{Outside, new_disk_cache}
use go_solid.Collections.SetMap.{add, set_at, members, members_of}
use go_solid.DepIndex.{dependents_of}
use go_solid.Registry.{name_for_file}
use go_solid.Bundler.{Bundler, invalidate_for_source}
use go_solid.Bundler.Invalidation.{get-invalidate_for_source}

abbrev page : Rendered
page = record {
  html = [];
  css = [];
  js = text "run()";
  css_name = [];
  js_name = text "a.1.js";
  data_islands = [];
}

abbrev key : CacheKey
key = record { component = text "a"; root = text "m"; build = [] }

abbrev outside : Outside
outside = record {
  sha = λ s. s;
  size = λ s. s;
  now = [];
  encode = λ man. failed (text "full");
  decode = λ bytes. none;
  answers = λ fs path. record {
    create_temp = some (text "full");
    write = none;
    partial = [];
    close = none;
    chmod = none;
    mkdir_all = none;
    read_file = none;
    rename = λ n. none;
    remove = none;
  };
  staged = λ fs path. path;
  normalize = λ s. s;
}

abbrev rel : Text → Text → Option Text
rel root path = none

abbrev forget : Text → List Text → List Text
forget name log = name ∷ log

abbrev one_page : MemCache
one_page = run (new_mem_cache true) (puts key page ∷ [])

one_page-IsIndexed : IsIndexed one_page
one_page-IsIndexed = run-IsIndexed true (puts key page ∷ [])

abbrev bundler : Bundler (List Text)
bundler = record {
  registry = record { root = text "/c"; components = []; reactive = true };
  mem = one_page;
  disk = new_disk_cache (text "/w") true;
  files = [];
  index = (text "/c/lib.ts", (text "a", tt) ∷ []) ∷ [];
  checked = [];
}

held : get bundler.mem key ≡ some page
unfolding run step new_mem_cache put get add set_at lookup insert
held = refl

get-invalidate_for_source_example :
    get (invalidate_for_source outside rel forget bundler (text "/c/lib.ts")).mem key ≡ none
unfolding dependents_of members_of members set_at lookup name_for_file
get-invalidate_for_source_example =
    get-invalidate_for_source outside rel forget bundler (text "/c/lib.ts") key one_page-IsIndexed
