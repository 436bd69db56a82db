-- ===== src/Caching/MemCache.antt =====
-- internal/caching/memcache.go: the cache of rendered components in memory. The lock is not
-- modelled: each method is one step.
pub mod Index
use go_solid.Prelude.{
  ℕ, Text, text_comparable, Option, none, some, List, [], ◌∷◌, Bool, true, GoMap, lookup, insert,
  delete, if◌then◌else◌,
}
use go_solid.Collections.SetMap.{SetMap, add, drop, members, keys_where}
use go_solid.Caching.{Rendered, CacheKey, key_comparable, component_is_in_file}

pub record MemCache : Type 0 where
  pub entries : GoMap CacheKey Rendered
  pub by_name : SetMap Text CacheKey
  pub enabled : Bool

unfoldable pub new_mem_cache : Bool → MemCache
new_mem_cache enabled = record { entries = []; by_name = []; enabled = enabled }

unfoldable pub get : MemCache → CacheKey → Option Rendered
get c key = if c.enabled then lookup key c.entries else none

unfoldable pub put : MemCache → CacheKey → Rendered → MemCache
put c key r =
    if c.enabled
    then record c { entries = insert key r c.entries; by_name = add c.by_name key.component key }
    else c

-- The loop of InvalidateComponent
unfoldable pub delete_all : List CacheKey → GoMap CacheKey Rendered → GoMap CacheKey Rendered
delete_all [] m = m
delete_all (key ∷ ks) m = delete_all ks (delete key m)

unfoldable pub invalidate_component : MemCache → Text → MemCache
unfolding delete_all
invalidate_component c component = record c {
  entries = delete_all (members c.by_name component) c.entries;
  by_name = drop c.by_name component;
}

unfoldable pub components_in_file : MemCache → Text → List Text
components_in_file c file = keys_where c.by_name (λ name. component_is_in_file name file)

unfoldable pub clear : MemCache → MemCache
clear c = record c { entries = []; by_name = [] }

-- A call that changes the cache.
pub data Call : Type 0 where
  puts : CacheKey → Rendered → Call
  invalidates : Text → Call
  clears : Call

unfoldable pub step : MemCache → Call → MemCache
unfolding put invalidate_component clear
step c (puts key r) = put c key r
step c (invalidates component) = invalidate_component c component
step c clears = clear c

unfoldable pub run : MemCache → List Call → MemCache
unfolding step
run c [] = c
run c (call ∷ calls) = run (step c call) calls
