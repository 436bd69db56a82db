-- ===== src/Render/Behind.antt =====
-- render0 of render.go: the artifact behind a response, which is in the memory cache.
use go_solid.Prelude.{
  Text, text_comparable, Option, none, some, GoMap, ◌≡◌, refl, sym, ◌∙◌, ap, subst, inl, inr,
  Option-cases,
}
use go_solid.Registry.{find}
use go_solid.Sources.{Result, ok, failed}
use go_solid.Caching.{Rendered, key_comparable}
use go_solid.Caching.MemCache.{get}
use go_solid.Networking.Events.{
  props_marshaling_failure, anonymous_source_failure, comp_props_insufficient_failure,
}
use go_solid.Networking.HandlerMap.{Outcome, err, panic}
use go_solid.Render.{DiskLayer, Engine, Settings, RenderData, World, done}
use go_solid.Render.Steps.{told, tell, transmit, or_fail, or_report, with_html}
use go_solid.Render.Compile.{key_for}
use go_solid.Render.Respond.{
  respond, assemble_response, response_for, unless_faulty, checked_response, render0, server_markup,
}
use go_solid.Render.Effects.{Effects, Post}
use go_solid.Render.Ends.{
  Ends, bind-Ends, wrapped-Ends, anyhow, Anyhow, both-Ends, weaken, Post-Ends, report-Ends,
}
use go_solid.Render.Paths.{checked_response-Post}
use go_solid.Render.Hits.{Kept, Same-Effects, Same-Builds, compiled-Holds}
use go_solid.Render.Effects.{respond-Post}

-- What a response has of the artifact that it was made from.
abbrev pub IsMadeFrom : Rendered → Rendered → Type 0
IsMadeFrom artifact resp =
    resp ≡ record artifact { html = resp.html; data_islands = resp.data_islands }

module _ {D : Type 0} where
  -- What the steps that build nothing leave as it was.
  abbrev pub Untouched : World D → World D → Type 0
  Untouched w w' = (w'.registry ≡ w.registry) × (w'.mem ≡ w.mem) × (w'.built ≡ w.built)

  pub Untouched-Effects : Effects Untouched Untouched
  Untouched-Effects = record {
    stay = λ w. (refl, refl, refl);
    lost = λ h. h;
    then_ok = λ h k. (k.0 ∙ h.0, k.1 ∙ h.1, k.2 ∙ h.2);
    then_lost = λ h k. (k.0 ∙ h.0, k.1 ∙ h.1, k.2 ∙ h.2);
    on_report = λ w r t e f. (refl, refl, refl);
    on_response = λ w r. (refl, refl, refl);
  }

  told-Untouched :
      (resp : Rendered) (o : Outcome) (f : Text → Text) (w w' : World D)
      → Untouched w w'
      → Post Untouched Untouched (λ r. r ≡ resp) w (told (done resp) o f, w')
  told-Untouched resp Outcome.ok f w w' h = record { follows = (refl, h) }
  told-Untouched resp (err e) f w w' h = record { follows = h }
  told-Untouched resp (panic d) f w w' h = record { follows = h }

  pub transmit-Untouched :
      {Props : Type 0} (quote : Text → Text) (call : RenderData Props) (resp : Rendered)
      (w : World D)
      → Post Untouched Untouched (λ r. r ≡ resp) w (transmit quote call resp w)
  unfolding transmit tell
  transmit-Untouched quote call resp w = elim (Option-cases call.request) [
    | inl e ↦ rw (e, transmit) (record { follows = (refl, (refl, refl, refl)) })
    | inr (request, e) ↦ rw (e, transmit) (told-Untouched resp _ _ w _ (refl, refl, refl))
  ]

  assembled :
      (artifact : Rendered) (islands : GoMap Text Text) (html : Result Text) (w : World D)
      → Ends
          (λ resp w'. IsMadeFrom artifact resp)
          (or_fail (with_html (record artifact { data_islands = islands }) html) w)
  unfolding or_fail
  assembled artifact islands (ok html) w = record { ends = refl }
  assembled artifact islands (failed e) w = record { ends = tt }

module _ {D Props : Type 0} (disk : DiskLayer D) (engine : Engine Props) (settings : Settings) where
  pub responds :
      (call : RenderData Props) (json root : Text) (artifact : Rendered) (w : World D)
      → Ends
          (λ resp w'. IsMadeFrom artifact resp × Untouched w w')
          (respond disk engine settings call json root artifact w)
  unfolding respond assemble_response
  responds call json root artifact w =
      both-Ends w _ (respond-Post disk engine settings Untouched-Effects call json root artifact w)
        (bind-Ends w _ _ (anyhow _) λ islands w1 _.
          bind-Ends {P = Anyhow} w1 _ _
            (anyhow (done (server_markup disk engine settings call json w1), w1))
            λ markup w2 _. wrapped-Ends _ w2 _ (assembled artifact islands _ w2))

  -- The artifact behind a response is kept.
  abbrev pub IsBehind : RenderData Props → Rendered → World D → Type 0
  IsBehind call resp w =
      (root : Text) × (artifact : Rendered) × IsMadeFrom artifact resp
      × Kept disk engine settings call (root, artifact) w

  Kept-Untouched :
      (call : RenderData Props) (made : Text × Rendered) (w w' : World D)
      → Kept disk engine settings call made w
      → Untouched w w'
      → Kept disk engine settings call made w'
  Kept-Untouched call made w w' (comp, found, mounts, held) h = (
    comp,
    ap (λ r. find r call.component) h.0 ∙ found,
    mounts,
    λ on.
        ap (λ m. get m (key_for disk engine settings call comp)) h.1
        ∙ held (ap (λ m. m.enabled) (sym h.1) ∙ on),
  )

  response_for-IsBehind :
      (call : RenderData Props) (w : World D)
      → Ends (IsBehind call) (response_for disk engine settings call w)
  unfolding response_for
  response_for-IsBehind call w =
      bind-Ends w _ _ (anyhow (or_report call props_marshaling_failure _ w)) λ json w1 _.
        bind-Ends w1 _ _ (wrapped-Ends _ w1 _ (compiled-Holds disk engine settings call w1))
          λ compiled w2 kept.
            weaken _ (responds call json compiled.0 compiled.1 w2) λ resp w3 h.
              (compiled.0, compiled.1, h.0, Kept-Untouched call compiled w2 w3 kept h.1)

  unless_faulty-IsBehind :
      (call : RenderData Props) (source types : Option Text) (w : World D)
      → Ends (IsBehind call) (unless_faulty disk engine settings call source types w)
  unless_faulty-IsBehind call (some e) types w = report-Ends call anonymous_source_failure e w
  unless_faulty-IsBehind call none (some e) w = report-Ends call comp_props_insufficient_failure e w
  unless_faulty-IsBehind call none none w = response_for-IsBehind call w

  checked-IsBehind :
      (call : RenderData Props) (w : World D)
      → Ends (IsBehind call) (checked_response disk engine settings call w)
  unfolding checked_response
  checked-IsBehind call w = unless_faulty-IsBehind call call.source_fault call.types_fault w

  pub render0-IsBehind :
      (call : RenderData Props) (w : World D)
      → Ends
          (λ resp w'. IsBehind call resp w' × (w'.mem.enabled ≡ w.mem.enabled))
          (render0 disk engine settings call w)
  unfolding render0 or_fail
  render0-IsBehind call w = elim (Option-cases call.cancelled) [
    | inl e ↦
        rw (e, render0)
          (bind-Ends w _ _
            (both-Ends w _
              (checked_response-Post disk engine settings Same-Effects
                (Same-Builds disk engine.normalize) call w)
              (checked-IsBehind call w))
            λ resp w1 ((root, artifact, made, kept), same).
              weaken _ (Post-Ends w1 _ (transmit-Untouched engine.quote call resp w1)) λ r w2 h. (
                subst (λ r. IsBehind call r w2) (sym h.0)
                    (root, artifact, made, Kept-Untouched call (root, artifact) w1 w2 kept h.1),
                ap (λ m. m.enabled) h.1.1 ∙ same.1,
              ))
    | inr (error, e) ↦ rw (e, render0) (record { ends = tt })
  ]
