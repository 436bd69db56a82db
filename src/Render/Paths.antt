-- ===== src/Render/Paths.antt =====
-- The relations of Render/Effects along compiledArtifact and render0, up to the dispatch of the response.
use go_solid.Prelude.{
  Text, text_comparable, Option, none, some, [], ◌∷◌, ◌++◌, Bool, true, false, refl, Option-cases,
  inl, inr, if◌then◌else◌,
}
use go_solid.Component.{Component}
use go_solid.Registry.{find}
use go_solid.Sources.{failed}
use go_solid.Caching.{Rendered, CacheKey}
use go_solid.Caching.MemCache.{get}
use go_solid.Networking.Events.{
  implements, props_marshaling_failure, registry_lookup_failure, entry_generation_failure,
  temp_entry_write_failure, comp_bundling_failure, comp_props_insufficient_failure,
  anonymous_source_failure,
}
use go_solid.Render.{Bundle, DiskLayer, Engine, Settings, RenderData, World, Step}
use go_solid.Render.Steps.{or_report}
use go_solid.Render.Compile.{
  not_registered, from_disk, search_caches, package_bundle, run_esbuild, index_bundle,
  bundle_component, keep_artifact, build_artifact, use_or_build, cached_or_built, key_for,
  compiled_artifact,
}
use go_solid.Render.Respond.{response_for, unless_faulty, checked_response}
use go_solid.Render.Effects.{
  IsBare, Effects, Builds, Any, Post, prepend, bind, wrapped-Post, here-Post, reported,
  or_report-Post, respond-Post,
}

module _ {D Props : Type 0} (disk : DiskLayer D) (engine : Engine Props) (settings : Settings)
    {R F : World D → World D → Type 0} (laws : Effects R F)
    (more : Builds disk engine.normalize R) where
  run_esbuild-Post :
      (call : RenderData Props) (entry : Text) (w : World D)
      → Post R F Any w (run_esbuild disk engine settings call entry w)
  unfolding run_esbuild implements
  run_esbuild-Post call entry w =
      prepend laws w _ _ (more.on_built w (w.built ++ entry ∷ []))
        (or_report-Post laws call comp_bundling_failure _ _ refl)

  index_bundle-Post :
      (call : RenderData Props) (bundle : Bundle) (w : World D)
      → Post R F (λ made. IsBare made.0) w (index_bundle disk engine settings call bundle w)
  unfolding index_bundle package_bundle
  index_bundle-Post call bundle w =
      here-Post laws _ w _ (refl, refl) (more.on_index w call.component bundle.sources)

  if-Post :
      {A : Type 0} {V : A → Type 0} (b : Bool) (m n : Step D A) (w : World D)
      → Post R F V w (m w)
      → Post R F V w (n w)
      → Post R F V w ((if b then m else n) w)
  if-Post true m n w p q = p
  if-Post false m n w p q = q

  bundle_component-Post :
      (call : RenderData Props) (comp : Component) (w : World D)
      → Post R F (λ made. IsBare made.0) w (bundle_component disk engine settings call comp w)
  unfolding bundle_component or_report implements
  bundle_component-Post call comp w =
      if-Post settings.generation_disabled _ _ w (reported laws call comp_bundling_failure _ w refl)
        (bind laws w _ _ (or_report-Post laws call entry_generation_failure _ w refl) λ source w1 _.
          bind laws w1 _ _ (or_report-Post laws call entry_generation_failure _ w1 refl)
            λ entry w2 _.
              bind laws w2 _ _ (or_report-Post laws call entry_generation_failure _ w2 refl)
                λ content w3 _.
                  bind laws w3 _ _ (or_report-Post laws call temp_entry_write_failure _ w3 refl)
                    λ path w4 _.
                      bind laws w4 _ _ (run_esbuild-Post call path w4)
                        λ bundle w5 _. index_bundle-Post call bundle w5)

  build_artifact-Post :
      (call : RenderData Props) (comp : Component) (key : CacheKey) (w : World D)
      → Post R F Any w (build_artifact disk engine settings call comp key w)
  unfolding build_artifact keep_artifact implements
  build_artifact-Post call comp key w =
      bind laws w _ _ (or_report-Post laws call registry_lookup_failure _ w refl) λ verified w1 _.
        bind laws w1 _ _ (bundle_component-Post call verified w1) λ bundled w2 bare.
          here-Post laws _ w2 _ tt
            (more.on_store w2 key bundled.0 (disk.store w2.disk key bundled.0 bundled.1).0 bare)

  from_disk_keeps : (key : CacheKey) (w : World D) → R w (from_disk disk engine settings key w).1
  unfolding from_disk
  from_disk_keeps key w = elim (Option-cases (disk.load w.disk key).0) [
    | inl missing ↦ rw (missing, from_disk) (more.on_miss w key)
    | inr (cached, found) ↦ rw (found, from_disk) (more.on_load w key cached found)
  ]

  search_caches_keeps :
      (key : CacheKey) (w : World D) → R w (search_caches disk engine settings key w).1
  unfolding search_caches
  search_caches_keeps key w = elim (Option-cases (get w.mem key)) [
    | inl missing ↦ rw (missing, search_caches) (from_disk_keeps key w)
    | inr (cached, found) ↦ rw (found, search_caches) (laws.stay w)
  ]

  use_or_build-Post :
      (call : RenderData Props) (comp : Component) (key : CacheKey) (w : World D)
      (found : Option Rendered × World D)
      → R w found.1
      → Post R F Any w (use_or_build disk engine settings call comp key found)
  use_or_build-Post call comp key w (some cached, w1) h = here-Post laws cached w w1 tt h
  use_or_build-Post call comp key w (none, w1) h =
      prepend laws w w1 _ h (build_artifact-Post call comp key w1)

  pub cached_or_built-Post :
      (call : RenderData Props) (comp : Component) (key : CacheKey) (w : World D)
      → Post R F Any w (cached_or_built disk engine settings call comp key w)
  unfolding cached_or_built
  cached_or_built-Post call comp key w =
      use_or_build-Post call comp key w _ (search_caches_keeps key w)

  compiled_artifact-Post :
      (call : RenderData Props) (w : World D)
      → Post R F Any w (compiled_artifact disk engine settings call w)
  unfolding compiled_artifact implements
  compiled_artifact-Post call w = elim (Option-cases (find w.registry call.component)) [
    | inl e ↦
        rw (e, compiled_artifact)
          (or_report-Post laws call registry_lookup_failure
            (failed (not_registered disk engine settings w call.component)) w refl)
    | inr (comp, e) ↦
        rw (e, compiled_artifact)
          (bind laws w _ _
            (cached_or_built-Post call comp (key_for disk engine settings call comp) w)
            λ artifact w1 _. here-Post laws _ w1 w1 tt (laws.stay w1))
  ]

  response_for-Post :
      (call : RenderData Props) (w : World D)
      → Post R F Any w (response_for disk engine settings call w)
  unfolding response_for implements
  response_for-Post call w =
      bind laws w _ _ (or_report-Post laws call props_marshaling_failure _ w refl) λ json w1 _.
        bind laws w1 _ _ (wrapped-Post laws _ w1 _ (compiled_artifact-Post call w1))
          λ compiled w2 _. respond-Post disk engine settings laws call json compiled.0 compiled.1 w2

  unless_faulty-Post :
      (call : RenderData Props) (source types : Option Text) (w : World D)
      → Post R F Any w (unless_faulty disk engine settings call source types w)
  unfolding implements
  unless_faulty-Post call (some e) types w =
      or_report-Post laws call anonymous_source_failure (failed e) w refl
  unless_faulty-Post call none (some e) w =
      or_report-Post laws call comp_props_insufficient_failure (failed e) w refl
  unless_faulty-Post call none none w = response_for-Post call w

  -- Up to the dispatch of the response, a render keeps to the relations.
  pub checked_response-Post :
      (call : RenderData Props) (w : World D)
      → Post R F Any w (checked_response disk engine settings call w)
  unfolding checked_response
  checked_response-Post call w = unless_faulty-Post call call.source_fault call.types_fault w
