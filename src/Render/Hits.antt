-- ===== src/Render/Hits.antt =====
-- compiledArtifact of render.go: what it ends in is in the memory cache, and is found there again.
use go_solid.Prelude.{
  Text, text_comparable, Option, none, some, true, ◌≡◌, refl, sym, ◌∙◌, ap, inl, inr, Option-cases,
  same_refl, arith,
}
use go_solid.Component.{Component}
use go_solid.CodeGen.{or_text}
use go_solid.Registry.{find}
use go_solid.Caching.{Rendered, CacheKey, new_build_cache_key, key_comparable}
use go_solid.Caching.MemCache.{MemCache, get, put}
use go_solid.Caching.MemCache.Index.{get-put}
use go_solid.Networking.Events.{registry_lookup_failure}
use go_solid.Render.{DiskLayer, Engine, Settings, RenderData, World, done, ◌>>=◌, go_on, pure}
use go_solid.Render.Steps.{or_report}
use go_solid.Render.Compile.{
  build_artifact, keep_artifact, use_or_build, search_caches, from_disk, cached_or_built,
  compiled_artifact, key_for, root_for, bundle_component,
}
use go_solid.Render.Effects.{Effects, Builds}
use go_solid.Render.Ends.{Ends, bind-Ends, anyhow, both-Ends, report-Ends}
use go_solid.Render.Paths.{cached_or_built-Post}

put_enabled : (m : MemCache) (key : CacheKey) (r : Rendered) → (put m key r).enabled ≡ m.enabled
unfolding put
put_enabled m key r = ground arith

get-put_self :
    (m : MemCache) (key : CacheKey) (r : Rendered)
    → (put m key r).enabled ≡ true
    → get (put m key r) key ≡ some r
get-put_self m key r on =
    let enabled : m.enabled ≡ true = sym (put_enabled m key r) ∙ on in
    rw (get-put m key key r, enabled, same_refl key) refl

module _ {D : Type 0} where
  -- The settings of a world that no render changes.
  abbrev pub Same : World D → World D → Type 0
  Same w w' = (w'.registry ≡ w.registry) × (w'.mem.enabled ≡ w.mem.enabled)

  pub Same-Effects : Effects Same Same
  Same-Effects = record {
    stay = λ w. (refl, refl);
    lost = λ h. h;
    then_ok = λ h k. (k.0 ∙ h.0, k.1 ∙ h.1);
    then_lost = λ h k. (k.0 ∙ h.0, k.1 ∙ h.1);
    on_report = λ w r t e f. (refl, refl);
    on_response = λ w r. (refl, refl);
  }

  pub Same-Builds : (disk : DiskLayer D) (normalize : Text → Text) → Builds disk normalize Same
  Same-Builds disk normalize = record {
    on_built = λ w entries. (refl, refl);
    on_index = λ w component sources. (refl, refl);
    on_miss = λ w key. (refl, refl);
    on_load = λ w key cached found. (refl, put_enabled w.mem key cached);
    on_store = λ w key artifact after bare. (refl, put_enabled w.mem key artifact);
  }

  -- The artifact is in the memory cache, if that is enabled.
  abbrev pub Holds : CacheKey → Rendered → World D → Type 0
  Holds key artifact w = w.mem.enabled ≡ true → get w.mem key ≡ some artifact

  abbrev FoundHolds : CacheKey → Option Rendered × World D → Type 0
  FoundHolds key (some cached, w) = Holds key cached w
  FoundHolds key (none, w) = Unit

module _ {D Props : Type 0} (disk : DiskLayer D) (engine : Engine Props) (settings : Settings) where
  build-Holds :
      (call : RenderData Props) (comp : Component) (key : CacheKey) (w : World D)
      → Ends (Holds key) (build_artifact disk engine settings call comp key w)
  unfolding build_artifact keep_artifact
  build-Holds call comp key w =
      bind-Ends w _ _ (anyhow (or_report call registry_lookup_failure _ w)) λ verified w1 _.
        bind-Ends w1 _ _ (anyhow (bundle_component disk engine settings call verified w1))
          λ bundled w2 _. record { ends = get-put_self w2.mem key bundled.0 }

  from_disk-Holds :
      (key : CacheKey) (w : World D) → FoundHolds key (from_disk disk engine settings key w)
  unfolding from_disk
  from_disk-Holds key w = elim (Option-cases (disk.load w.disk key).0) [
    | inl missing ↦ rw (missing, from_disk) tt
    | inr (cached, found) ↦ rw (found, from_disk) (get-put_self w.mem key cached)
  ]

  search-Holds :
      (key : CacheKey) (w : World D) → FoundHolds key (search_caches disk engine settings key w)
  unfolding search_caches
  search-Holds key w = elim (Option-cases (get w.mem key)) [
    | inl missing ↦ rw (missing, search_caches) (from_disk-Holds key w)
    | inr (cached, found) ↦ rw (found, search_caches) (λ on. found)
  ]

  use_or_build-Holds :
      (call : RenderData Props) (comp : Component) (key : CacheKey)
      (found : Option Rendered × World D)
      → FoundHolds key found
      → Ends (Holds key) (use_or_build disk engine settings call comp key found)
  use_or_build-Holds call comp key (some cached, w1) h = record { ends = h }
  use_or_build-Holds call comp key (none, w1) h = build-Holds call comp key w1

  cached_or_built-Holds :
      (call : RenderData Props) (comp : Component) (key : CacheKey) (w : World D)
      → Ends (Holds key) (cached_or_built disk engine settings call comp key w)
  unfolding cached_or_built
  cached_or_built-Holds call comp key w = use_or_build-Holds call comp key _ (search-Holds key w)

  -- The artifact that compiledArtifact ended in, as the cache has it.
  abbrev pub Kept : RenderData Props → Text × Rendered → World D → Type 0
  Kept call (root, artifact) w =
      (comp : Component) × (find w.registry call.component ≡ some comp)
      × (root_for disk engine settings call comp ≡ root)
      × Holds (key_for disk engine settings call comp) artifact w

  pub compiled-Holds :
      (call : RenderData Props) (w : World D)
      → Ends (Kept call) (compiled_artifact disk engine settings call w)
  unfolding compiled_artifact
  compiled-Holds call w = elim (Option-cases (find w.registry call.component)) [
    | inl missing ↦ rw (missing, compiled_artifact) (report-Ends call registry_lookup_failure _ w)
    | inr (comp, found) ↦
        rw (found, compiled_artifact)
          (let key = key_for disk engine settings call comp in
            bind-Ends w _ _
              (both-Ends w _
                (cached_or_built-Post disk engine settings Same-Effects
                  (Same-Builds disk engine.normalize) call comp key w)
                (cached_or_built-Holds call comp key w))
              λ artifact w1 h. record {
                ends = (comp, ap (λ r. find r call.component) h.1.0 ∙ found, refl, h.0);
              })
  ]

  hit :
      (call : RenderData Props) (comp : Component) (key : CacheKey) (artifact : Rendered)
      (w : World D)
      → get w.mem key ≡ some artifact
      → cached_or_built disk engine settings call comp key w ≡ (done artifact, w)
  unfolding cached_or_built search_caches
  hit call comp key artifact w held = rw (held, cached_or_built, search_caches) refl

  hit_compiled :
      (call : RenderData Props) (comp : Component) (artifact : Rendered) (w : World D)
      → find w.registry call.component ≡ some comp
      → get w.mem (key_for disk engine settings call comp) ≡ some artifact
      → compiled_artifact disk engine settings call w
        ≡ (done (root_for disk engine settings call comp, artifact), w)
  unfolding compiled_artifact ◌>>=◌
  hit_compiled call comp artifact w found held =
      rw (found, compiled_artifact)
        (ap (λ r. go_on r (λ a. pure (root_for disk engine settings call comp, a)))
          (hit call comp (key_for disk engine settings call comp) artifact w held))

  -- The second time, for the same component and root, it changes nothing.
  pub compiled_again :
      (call again : RenderData Props) (root : Text) (artifact : Rendered) (w : World D)
      → again.component ≡ call.component
      → again.root ≡ call.root
      → w.mem.enabled ≡ true
      → Kept call (root, artifact) w
      → compiled_artifact disk engine settings again w ≡ (done (root, artifact), w)
  compiled_again call again root artifact w same_name same_root on (comp, found, mounts, held) =
      let roots : root_for disk engine settings again comp ≡ root =
        ap (λ r. or_text r comp.mount_root_id) same_root ∙ mounts in
      let keys_ : key_for disk engine settings again comp ≡ key_for disk engine settings call comp =
        λ i.
          new_build_cache_key (same_name i) (or_text (same_root i) comp.mount_root_id)
            settings.build_id in
      hit_compiled again comp artifact w (ap (find w.registry) same_name ∙ found)
        (ap (get w.mem) keys_ ∙ held on)
      ∙ ap (λ r. (done (r, artifact), w)) roots
