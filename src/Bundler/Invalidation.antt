-- ===== src/Bundler/Invalidation.antt =====
-- bundler.go: what invalidateForSource leaves in the memory cache.
use go_solid.Prelude.{
  Text, text_eq, text_eq_iff, any, text_comparable, Option, none, some, List, [], ◌∷◌, ◌||◌, Bool,
  true, false, lookup, is_some, contains, if◌then◌else◌, ◌≡◌, refl, sym, ◌∙◌, ap, subst, arith,
}
use go_solid.Io.{Files}
use go_solid.Caching.{Rendered, CacheKey, key_comparable, component_is_in_file}
use go_solid.Collections.SetMap.Laws.{contains-keys_where}
use go_solid.Caching.MemCache.{MemCache, get, components_in_file, invalidate_component}
use go_solid.Caching.MemCache.Index.{
  IsIndexed, invalidate_component-IsIndexed, get-invalidate_component, contains-components_in_file,
}
use go_solid.Caching.DiskCache.{DiskCache, Outside, ensure_index, disk_components_in_file}
use go_solid.DepIndex.{dependents_of, record_sources}
use go_solid.DepIndex.Dependents.{dependents_of-record_sources}
use go_solid.Registry.{name_for_file}
use go_solid.Bundler.{
  Bundler, invalidate_one, invalidate_each, invalidate_on_disk, invalidate_component_file,
  invalidate_named, invalidate_for_source,
}

abbrev sweep : List Text → MemCache → MemCache
sweep [] m = m
sweep (name ∷ names) m = sweep names (invalidate_component m name)

sweep-IsIndexed : (names : List Text) (m : MemCache) → IsIndexed m → IsIndexed (sweep names m)
sweep-IsIndexed [] m ok = ok
sweep-IsIndexed (name ∷ names) m ok =
    sweep-IsIndexed names (invalidate_component m name) (invalidate_component-IsIndexed m name ok)

get-sweep :
    (names : List Text) (m : MemCache) (key : CacheKey)
    → IsIndexed m
    → get (sweep names m) key ≡ (if contains key.component names then none else get m key)
get-sweep [] m key ok = refl
get-sweep (name ∷ names) m key ok = ground (
  arith,
  get-sweep names (invalidate_component m name) key (invalidate_component-IsIndexed m name ok),
  get-invalidate_component m name key ok,
)

-- What is in no entry is not found.
get-missing :
    (m : MemCache) (key : CacheKey)
    → is_some (get m key) ≡ true
    → is_some (lookup key m.entries) ≡ true
unfolding get
get-missing m key h = ground arith

itself_inside : (c file : Text) → text_eq c file ≡ true → component_is_in_file c file ≡ true
unfolding component_is_in_file
itself_inside c file h = ground arith

-- Three tests, each of names in the file, of which one has every name that is held.
in_file :
    (itself other listed inside : Bool) (o : Option Rendered)
    → (itself ≡ true → inside ≡ true)
    → (other ≡ true → inside ≡ true)
    → (listed ≡ true → inside ≡ true)
    → (inside ≡ true → is_some o ≡ true → listed ≡ true)
    → (if itself then none else if other then none else if listed then none else o)
      ≡ (if inside then none else o)
in_file itself other listed inside o a b c d = ground arith

module _ {T : Type 0} (outside : Outside) (rel : Text → Text → Option Text)
    (forget : Text → T → T) where
  invalidate_each-mem :
      (names : List Text) (b : Bundler T)
      → (invalidate_each outside rel forget names b).mem ≡ sweep names b.mem
  unfolding invalidate_each invalidate_one
  invalidate_each-mem [] b = refl
  invalidate_each-mem (name ∷ names) b =
      invalidate_each-mem names (invalidate_one outside rel forget b name)

  invalidate_each-registry :
      (names : List Text) (b : Bundler T)
      → (invalidate_each outside rel forget names b).registry ≡ b.registry
  unfolding invalidate_each invalidate_one
  invalidate_each-registry [] b = refl
  invalidate_each-registry (name ∷ names) b =
      invalidate_each-registry names (invalidate_one outside rel forget b name)

  -- What the file's names in the cache on disk are
  disk_names_inside :
      (dc : DiskCache) (fs : Files) (file c : Text)
      → contains c (disk_components_in_file outside dc fs file).0 ≡ true
      → component_is_in_file c file ≡ true
  unfolding disk_components_in_file
  disk_names_inside dc fs file c h = ground (
    arith,
    contains-keys_where (ensure_index outside dc fs).by_component
        (λ component. component_is_in_file component file) c,
  )

  -- The names that invalidateComponentFile takes from the caches, in the order of its loops
  abbrev mem_names : Bundler T → Text → List Text
  mem_names b file = components_in_file b.mem file

  abbrev disk_names : Bundler T → Text → List Text
  disk_names b file =
      let first = invalidate_each outside rel forget (mem_names b file) b in
      (disk_components_in_file outside first.disk first.files file).0

  invalidate_component_file-mem :
      (b : Bundler T) (file : Text)
      → (invalidate_component_file outside rel forget b file).mem
        ≡ invalidate_component (sweep (disk_names b file) (sweep (mem_names b file) b.mem)) file
  unfolding invalidate_component_file invalidate_on_disk invalidate_one
  invalidate_component_file-mem b file =
      ap (λ m. invalidate_component m file)
        (invalidate_each-mem (disk_names b file) _
          ∙ ap (sweep (disk_names b file)) (invalidate_each-mem (mem_names b file) b))

  get-swept_file :
      (m : MemCache) (file : Text) (names : List Text) (key : CacheKey)
      → IsIndexed m
      → (contains key.component names ≡ true → component_is_in_file key.component file ≡ true)
      → get (invalidate_component (sweep names (sweep (components_in_file m file) m)) file) key
        ≡ (if component_is_in_file key.component file then none else get m key)
  get-swept_file m file names key ok inside =
      let L1 = components_in_file m file in
      let ok1 = sweep-IsIndexed L1 m ok in
      let listed = contains-components_in_file m file key.component ok in
      let ok2 = sweep-IsIndexed names (sweep L1 m) ok1 in
      get-invalidate_component (sweep names (sweep L1 m)) file key ok2
      ∙ ap (λ o. if text_eq key.component file then none else o)
          (get-sweep names (sweep L1 m) key ok1
            ∙ ap (λ o. if contains key.component names then none else o) (get-sweep L1 m key ok))
      ∙ in_file _ _ _ _ (get m key) (itself_inside key.component file) inside (λ h. (listed.0 h).0)
          (λ f held. listed.1 (f, key, refl, get-missing m key held))

  get-invalidate_component_file :
      (b : Bundler T) (file : Text) (key : CacheKey)
      → IsIndexed b.mem
      → get (invalidate_component_file outside rel forget b file).mem key
        ≡ (if component_is_in_file key.component file then none else get b.mem key)
  get-invalidate_component_file b file key ok =
      ap (λ m. get m key) (invalidate_component_file-mem b file)
      ∙ get-swept_file b.mem file (disk_names b file) key ok
          (disk_names_inside _ _ file key.component)

  -- Whether a component is in the file that the registry names for a path.
  abbrev pub is_in_named : Option Text → Text → Bool
  is_in_named none c = false
  is_in_named (some file) c = component_is_in_file c file

  get-invalidate_named :
      (b : Bundler T) (named : Option Text) (key : CacheKey)
      → IsIndexed b.mem
      → get (invalidate_named outside rel forget b named).mem key
        ≡ (if is_in_named named key.component then none else get b.mem key)
  get-invalidate_named b none key ok = refl
  get-invalidate_named b (some file) key ok = get-invalidate_component_file b file key ok

  -- In a bundler whose memory cache has a right index, after the invalidation for a source file a Get
  -- of a key misses if its component depends on the file, by the dependency index, or is the one
  -- that the registry names for the file, or an export of it; a Get of any other key gives what it
  -- gave.
  pub get-invalidate_for_source :
      (b : Bundler T) (path : Text) (key : CacheKey)
      → IsIndexed b.mem
      → get (invalidate_for_source outside rel forget b path).mem key ≡ (
          if contains key.component (dependents_of outside.normalize b.index path)
            || is_in_named (name_for_file rel b.registry path) key.component
          then none
          else get b.mem key)
  unfolding invalidate_for_source
  get-invalidate_for_source b path key ok =
      let names = dependents_of outside.normalize b.index path in
      let after = invalidate_each outside rel forget names b in
      let swept = invalidate_each-mem names b in
      let ok1 : IsIndexed after.mem =
        subst IsIndexed (sym swept) (sweep-IsIndexed names b.mem ok) in
      get-invalidate_named after (name_for_file rel after.registry path) key ok1
      ∙ ap
          (λ r.
            if is_in_named (name_for_file rel r path) key.component
            then none
            else get after.mem key)
          (invalidate_each-registry names b)
      ∙ ap (λ o. if is_in_named (name_for_file rel b.registry path) key.component then none else o)
          (ap (λ m. get m key) swept ∙ get-sweep names b.mem key ok)
      ∙ ground arith

  -- The same, for a component and a source that Record has just put in the index: in a bundler whose
  -- memory cache has a right index, a Get of any key of the component misses after the
  -- invalidation for a file that is one of the recorded sources, up to normalization.
  pub get-invalidate-record :
      (b : Bundler T) (component path : Text) (sources : List Text) (key : CacheKey)
      → IsIndexed b.mem
      → key.component ≡ component
      → any (λ src. text_eq (outside.normalize src) (outside.normalize path)) sources ≡ true
      → let recorded = record b {
        index = record_sources outside.normalize b.index component sources;
      } in
        get (invalidate_for_source outside rel forget recorded path).mem key ≡ none
  get-invalidate-record b component path sources key ok same inside =
      let recorded = record b {
        index = record_sources outside.normalize b.index component sources;
      } in
      get-invalidate_for_source recorded path key ok
      ∙ ground (
        arith,
        text_eq_iff component key.component,
        dependents_of-record_sources outside.normalize b.index component sources path key.component,
      )
