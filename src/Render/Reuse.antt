-- ===== src/Render/Reuse.antt =====
-- render0 of render.go, twice: what the first builds, the second finds.
use go_solid.Prelude.{
  Text, text_comparable, Option, none, some, true, ◌≡◌, refl, sym, ◌∙◌, ap, subst, inl, inr,
  Option-cases,
}
use go_solid.Sources.{Result, ok, failed}
use go_solid.Caching.{Rendered, key_comparable}
use go_solid.Networking.Events.{
  EventType, props_marshaling_failure, anonymous_source_failure, comp_props_insufficient_failure,
  new_failure, implements, failure_event,
}
use go_solid.Render.{
  DiskLayer, Engine, Settings, RenderData, World, Answer, done, fails, panics, Step, ◌>>=◌, wrapped,
}
use go_solid.Render.Steps.{or_fail, emit_event, or_report}
use go_solid.Render.Respond.{response_for, unless_faulty, checked_response, render0, marshal_props}
use go_solid.Render.Effects.{Post}
use go_solid.Render.Ends.{weaken, map-Post, ends_at, refine-Post}
use go_solid.Render.Hits.{Kept, compiled_again}
use go_solid.Render.Effects.{bind, reported, respond-Post}
use go_solid.Render.Behind.{
  IsMadeFrom, Untouched, Untouched-Effects, transmit-Untouched, responds, render0-IsBehind,
}

-- What a response that there is has of another one.
abbrev pub HasAssetsOf : Rendered → Answer Rendered → Type 0
HasAssetsOf first (done second) = IsMadeFrom first second
HasAssetsOf first (fails e) = Unit
HasAssetsOf first (panics d) = Unit

-- The artifact with a response's own parts
abbrev restyled : Rendered → Rendered → Rendered
restyled resp artifact = record artifact { html = resp.html; data_islands = resp.data_islands }

module _ {D : Type 0} where
  -- A step after one that may be reported, where the report keeps to the relation.
  report_bind :
      {A B Props : Type 0} {V : B → Type 0} (call : RenderData Props) (t : EventType) (r : Result A)
      (next : A → Step D B) (w : World D)
      → implements t failure_event ≡ true
      → ((a : A) → Post Untouched Untouched V w (next a w))
      → Post Untouched Untouched V w ((or_report call t r >>= next) w)
  unfolding or_report ◌>>=◌
  report_bind call t (ok a) next w f k = k a
  report_bind call t (failed e) next w f k =
      bind Untouched-Effects w (emit_event call e (new_failure t e)) next
        (reported Untouched-Effects {V = λ a. ⊥} call t e w f) (λ a w' no_value. absurd no_value)

  conclude :
      (artifact first : Rendered) (w : World D) (r : Answer Rendered × World D)
      → IsMadeFrom artifact first
      → Post Untouched Untouched (IsMadeFrom artifact) w r
      → (r.1.built ≡ w.built) × (r.1.mem ≡ w.mem) × HasAssetsOf first r.0
  conclude artifact first w (done second, w') made p =
      (p.follows.1.2, p.follows.1.1, p.follows.0 ∙ ap (restyled second) (sym made))
  conclude artifact first w (fails e, w') made p = (p.follows.2, p.follows.1, tt)
  conclude artifact first w (panics d, w') made p = (p.follows.2, p.follows.1, tt)

module _ {D Props : Type 0} (disk : DiskLayer D) (engine : Engine Props) (settings : Settings) where
  -- A render for the same component and root as one whose artifact is kept
  module _ (call again : RenderData Props) (root : Text) (artifact : Rendered)
      (same_name : again.component ≡ call.component) (same_root : again.root ≡ call.root) where
    response_for_again :
        (w : World D)
        → w.mem.enabled ≡ true
        → Kept disk engine settings call (root, artifact) w
        → Post Untouched Untouched
            (IsMadeFrom artifact)
            w
            (response_for disk engine settings again w)
    unfolding response_for ◌>>=◌ wrapped implements
    response_for_again w on kept =
        report_bind again props_marshaling_failure (marshal_props disk engine settings again.props)
          _ w refl
          λ json.
            rw
              (compiled_again disk engine settings call again root artifact w same_name same_root on
                kept)
              (refine-Post w _
                (respond-Post disk engine settings Untouched-Effects again json root artifact w)
                (weaken _ (responds disk engine settings again json root artifact w)
                  λ resp w1 h. h.0))

    unless_faulty_again :
        (source types : Option Text) (w : World D)
        → w.mem.enabled ≡ true
        → Kept disk engine settings call (root, artifact) w
        → Post Untouched Untouched
            (IsMadeFrom artifact)
            w
            (unless_faulty disk engine settings again source types w)
    unfolding or_report implements
    unless_faulty_again (some e) types w on kept =
        reported Untouched-Effects again anonymous_source_failure e w refl
    unless_faulty_again none (some e) w on kept =
        reported Untouched-Effects again comp_props_insufficient_failure e w refl
    unless_faulty_again none none w on kept = response_for_again w on kept

    render0-Kept :
        (w : World D)
        → w.mem.enabled ≡ true
        → Kept disk engine settings call (root, artifact) w
        → Post Untouched Untouched (IsMadeFrom artifact) w (render0 disk engine settings again w)
    unfolding render0 checked_response or_fail
    render0-Kept w on kept = elim (Option-cases again.cancelled) [
      | inl e ↦
          rw (e, render0)
            (bind Untouched-Effects w _ _
              (unless_faulty_again again.source_fault again.types_fault w on kept)
              λ resp w1 made.
                map-Post w1 _ (transmit-Untouched engine.quote again resp w1)
                  λ r same. subst (IsMadeFrom artifact) (sym same) made)
      | inr (error, e) ↦ rw (e, render0) (record { follows = (refl, refl, refl) })
    ]

  -- With the memory cache enabled, after a render that gave a response, a render for the same
  -- component and root, whatever else it asks for, calls esbuild no more and leaves the memory cache
  -- as it is, and the response that it gives, if any, has the script, the styles and the names of
  -- the first.
  pub render0_again :
      (call again : RenderData Props) (w : World D) (first : Rendered)
      → again.component ≡ call.component
      → again.root ≡ call.root
      → w.mem.enabled ≡ true
      → (render0 disk engine settings call w).0 ≡ done first
      → let w1 = (render0 disk engine settings call w).1 in
        let (answer, w2) = render0 disk engine settings again w1 in
        (w2.built ≡ w1.built) × (w2.mem ≡ w1.mem) × HasAssetsOf first answer
  render0_again call again w first same_name same_root on answered =
      let ((root, artifact, made, kept), enabled) =
        ends_at (render0 disk engine settings call w) first
          (render0-IsBehind disk engine settings call w) answered in
      conclude artifact first _ _ made (
        render0-Kept call again root artifact same_name same_root
          (render0 disk engine settings call w).1 (enabled ∙ on) kept)
