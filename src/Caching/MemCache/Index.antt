-- ===== src/Caching/MemCache/Index.antt =====
-- The index by component of internal/caching/memcache.go: it lists the entries of each component and
-- nothing else, so that invalidation reaches all of them.
use go_solid.Prelude.{
  Text, text_eq, text_eq_iff, text_comparable, none, some, List, [], ◌∷◌, Bool, true, ◌&&◌, GoMap,
  lookup, delete, contains, is_some, if◌then◌else◌, ◌≡◌, ◌↔◌, refl, arith, lookup-insert,
  lookup-delete, inl, inr, Option-cases, Bool-cases,
}
use go_solid.Collections.SetMap.{set_at, members}
use go_solid.Collections.SetMap.Laws.{
  holds, holds-add, holds-drop, IsCompact, add-IsCompact, drop-IsCompact, contains-keys_where,
}
use go_solid.Caching.{Rendered, CacheKey, key_eq, key_eq_iff, key_comparable, component_is_in_file}
use go_solid.Caching.MemCache.{
  MemCache, new_mem_cache, get, put, delete_all, invalidate_component, components_in_file, clear,
  Call, puts, invalidates, clears, step, run,
}

-- The index lists a key under a name exactly if the cache holds the key and it is of that component;
-- and it has no name without a key.
abbrev pub IsIndexed : MemCache → Type 0
IsIndexed c =
    ((name : Text) (key : CacheKey)
      → holds c.by_name name key ≡ (text_eq key.component name && is_some (lookup key c.entries)))
    × IsCompact c.by_name

lookup-delete_all :
    (ks : List CacheKey) (key : CacheKey) (m : GoMap CacheKey Rendered)
    → lookup key (delete_all ks m) ≡ (if contains key ks then none else lookup key m)
unfolding delete_all
lookup-delete_all [] key m = refl
lookup-delete_all (k ∷ ks) key m = ground (
  arith,
  lookup-delete_all ks key (delete k m),
  lookup-delete k key m,
  key_eq_iff k key,
  key_eq_iff key k,
)

put-IsIndexed :
    (c : MemCache) (key : CacheKey) (r : Rendered) → IsIndexed c → IsIndexed (put c key r)
unfolding put
put-IsIndexed c key r (listed, compact) = elim (Bool-cases c.enabled) [
  | inr off ↦ rw (off, put) (listed, compact)
  | inl on ↦
      rw (on, put)
        (
          λ name k. ground (
            arith,
            holds-add c.by_name key.component key name k,
            listed name k,
            lookup-insert key k r c.entries,
            key_eq_iff key k,
            text_eq_iff key.component name,
            text_eq_iff k.component name,
          ),
          add-IsCompact c.by_name key.component key compact,
        )
]

-- What the index lists under the name goes away, and nothing else.
lookup-invalidate_component :
    (c : MemCache) (component : Text) (key : CacheKey)
    → IsIndexed c
    → lookup key (invalidate_component c component).entries
      ≡ (if text_eq key.component component then none else lookup key c.entries)
unfolding invalidate_component
lookup-invalidate_component c component key (listed, compact) =
    ground
      (arith, lookup-delete_all (members c.by_name component) key c.entries, listed component key)

pub invalidate_component-IsIndexed :
    (c : MemCache) (component : Text) → IsIndexed c → IsIndexed (invalidate_component c component)
unfolding invalidate_component
invalidate_component-IsIndexed c component (listed, compact) = (
  λ name key. ground (
    arith,
    lookup-invalidate_component c component key (listed, compact),
    holds-drop c.by_name component name key,
    listed name key,
    text_eq_iff key.component component,
    text_eq_iff key.component name,
    text_eq_iff component name,
  ),
  drop-IsCompact c.by_name component compact,
)

empty-IsIndexed :
    (enabled : Bool) → IsIndexed (record { entries = []; by_name = []; enabled = enabled })
unfolding members set_at lookup
empty-IsIndexed enabled = (λ name key. ground arith, λ name set h. cc)

step-IsIndexed : (c : MemCache) (call : Call) → IsIndexed c → IsIndexed (step c call)
unfolding step clear
step-IsIndexed c (puts key r) ok = put-IsIndexed c key r ok
step-IsIndexed c (invalidates name) ok = invalidate_component-IsIndexed c name ok
step-IsIndexed c clears ok = empty-IsIndexed c.enabled

run_from : (c : MemCache) (calls : List Call) → IsIndexed c → IsIndexed (run c calls)
unfolding run
run_from c [] ok = ok
run_from c (call ∷ calls) ok = run_from (step c call) calls (step-IsIndexed c call ok)

-- Whatever calls a new cache meets, its index lists exactly the entries that it holds, each under
-- its own component, and no name without an entry.
pub run-IsIndexed :
    (enabled : Bool) (calls : List Call) → IsIndexed (run (new_mem_cache enabled) calls)
unfolding new_mem_cache
run-IsIndexed enabled calls = run_from (new_mem_cache enabled) calls (empty-IsIndexed enabled)

-- After InvalidateComponent on a cache whose index is right, a Get of any entry of that component
-- misses, and a Get of any other key gives what it gave.
pub get-invalidate_component :
    (c : MemCache) (component : Text) (key : CacheKey)
    → IsIndexed c
    → get (invalidate_component c component) key
      ≡ (if text_eq key.component component then none else get c key)
unfolding get invalidate_component
get-invalidate_component c component key ok =
    ground (arith, lookup-invalidate_component c component key ok)

-- After Put on an enabled cache, a Get of the key gives what was put, and of any other key what it
-- gave; a disabled cache gives nothing.
pub get-put :
    (c : MemCache) (key k : CacheKey) (r : Rendered)
    → get (put c key r) k ≡ (if c.enabled then if key_eq key k then some r else get c k else none)
unfolding get put
get-put c key k r = ground (arith, lookup-insert key k r c.entries)

held_key :
    (c : MemCache) (name : Text)
    → IsIndexed c
    → is_some (lookup name c.by_name) ≡ true
    → (key : CacheKey) × (key.component ≡ name) × (is_some (lookup key c.entries) ≡ true)
unfolding members set_at
held_key c name (listed, compact) h = elim (Option-cases (lookup name c.by_name)) [
  | inl e ↦ ground (arith, e)
  | inr ([], e) ↦ ground (arith, e, compact name [])
  | inr ((key, one) ∷ set, e) ↦
      let there : holds c.by_name name key ≡ true = ground (arith, e, key_eq_iff key key) in
      (
        key,
        ground (arith, there, listed name key, text_eq_iff key.component name),
        ground (arith, there, listed name key),
      )
]

is_some-listed :
    (c : MemCache) (name : Text) (key : CacheKey)
    → IsIndexed c
    → key.component ≡ name
    → is_some (lookup key c.entries) ≡ true
    → is_some (lookup name c.by_name) ≡ true
unfolding members set_at
is_some-listed c name key (listed, compact) e h = elim (Option-cases (lookup name c.by_name)) [
  | inl absent ↦ ground (arith, absent, listed name key, text_eq_iff key.component name)
  | inr (set, found) ↦ ground (arith, found)
]

-- In a cache whose index is right, ComponentsInFile gives exactly the components of the file, or of
-- an export in it, that have an entry.
pub contains-components_in_file :
    (c : MemCache) (file name : Text)
    → IsIndexed c
    → (contains name (components_in_file c file) ≡ true) ↔ (
        (component_is_in_file name file ≡ true)
        × (key : CacheKey) × (key.component ≡ name)
        × (is_some (lookup key c.entries) ≡ true))
unfolding components_in_file
contains-components_in_file c file name ok =
    let exact = contains-keys_where c.by_name (λ n. component_is_in_file n file) name in
    (
      λ h.
          let (key, e, held) = held_key c name ok (ground (arith, exact)) in
          (ground (arith, exact), key, e, held),
      λ (inside, key, e, h). ground (arith, exact, is_some-listed c name key ok e h),
    )
