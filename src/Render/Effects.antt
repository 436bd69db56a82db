-- ===== src/Render/Effects.antt =====
-- What holds along every path of render.go: two relations on the state, for a step that succeeds and
-- for one that does not, are followed from the smallest steps to a whole render.
use go_solid.Prelude.{
  Text, text_comparable, some, List, [], ◌∷◌, ◌++◌, true, ◌≡◌, Option-cases, inl, inr,
}
use go_solid.Sources.{Result, ok, failed}
use go_solid.Caching.{Rendered, CacheKey}
use go_solid.Caching.MemCache.{put}
use go_solid.DepIndex.{record_sources}
use go_solid.Networking.Events.{EventType, implements, failure_event, new_failure}
use go_solid.Networking.HandlerMap.{Outcome, err, panic, dispatch}
use go_solid.Networking.Response.{Response}
use go_solid.Render.{
  DiskLayer, Engine, Settings, Islands, Middleware, RenderData, World, Answer, done, fails, panics,
  Step, go_on, wrap, wrapped, ◌>>=◌,
}
use go_solid.Render.Steps.{
  told, tell, emit_event, or_report, run_middleware, exec_middleware, or_fail,
}
use go_solid.Render.Respond.{server_markup, respond}

-- An artifact as bundleComponent packages it: without the parts of a response.
abbrev pub IsBare : Rendered → Type 0
IsBare r = (r.html ≡ []) × (r.data_islands ≡ [])

-- The laws of a relation on success and of one on failure, for the steps that build nothing.
pub record Effects {D : Type 0} (R F : World D → World D → Type 0) : Type 0 where
  pub stay : (w : World D) → R w w
  pub lost : {w w' : World D} → R w w' → F w w'
  pub then_ok : {w w' w'' : World D} → R w w' → R w' w'' → R w w''
  pub then_lost : {w w' w'' : World D} → R w w' → F w' w'' → F w w''
  pub on_report :
      (w : World D) (r : Response) (t : EventType) (e : Text)
      → implements t failure_event ≡ true
      → F w (record w { response = r; dispatched = w.dispatched ++ new_failure t e ∷ [] })
  pub on_response : (w : World D) (r : Response) → R w (record w { response = r })

-- The laws for the steps that write to the bundler's state.
pub record Builds {D : Type 0} (disk : DiskLayer D) (normalize : Text → Text)
    (R : World D → World D → Type 0) : Type 0 where
  pub on_built : (w : World D) (entries : List Text) → R w (record w { built = entries })
  pub on_index :
      (w : World D) (component : Text) (sources : List Text)
      → R w (record w { index = record_sources normalize w.index component sources })
  pub on_miss : (w : World D) (key : CacheKey) → R w (record w { disk = (disk.load w.disk key).1 })
  pub on_load :
      (w : World D) (key : CacheKey) (cached : Rendered)
      → (disk.load w.disk key).0 ≡ some cached
      → R w (record w { disk = (disk.load w.disk key).1; mem = put w.mem key cached })
  pub on_store :
      (w : World D) (key : CacheKey) (artifact : Rendered) (after : D)
      → IsBare artifact
      → R w (record w { mem = put w.mem key artifact; disk = after })

abbrev pub Any : {A : Type 0} → A → Type 0
Any a = Unit

module _ {D : Type 0} (R F : World D → World D → Type 0) where
  abbrev Follows : {A : Type 0} → (A → Type 0) → World D → Answer A × World D → Type 0
  Follows V w (done a, w') = V a × R w w'
  Follows V w (fails e, w') = F w w'
  Follows V w (panics d, w') = F w w'

  pub record Post {A : Type 0} (V : A → Type 0) (w : World D) (r : Answer A × World D)
      : Type 0 where
    pub follows : Follows V w r

module _ {D : Type 0} {R F : World D → World D → Type 0} (laws : Effects R F) where
  pub prepend :
      {A : Type 0} {V : A → Type 0} (w w' : World D) (r : Answer A × World D)
      → R w w'
      → Post R F V w' r
      → Post R F V w r
  prepend w w' (done a, w'') h p = record { follows = (p.follows.0, laws.then_ok h p.follows.1) }
  prepend w w' (fails e, w'') h p = record { follows = laws.then_lost h p.follows }
  prepend w w' (panics d, w'') h p = record { follows = laws.then_lost h p.follows }

  go_on-Post :
      {A B : Type 0} {V : A → Type 0} {U : B → Type 0} (w : World D) (r : Answer A × World D)
      (next : A → Step D B)
      → Post R F V w r
      → ((a : A) (w' : World D) → V a → Post R F U w' (next a w'))
      → Post R F U w (go_on r next)
  go_on-Post w (done a, w') next p k = prepend w w' (next a w') p.follows.1 (k a w' p.follows.0)
  go_on-Post w (fails e, w') next p k = record { follows = p.follows }
  go_on-Post w (panics d, w') next p k = record { follows = p.follows }

  pub bind :
      {A B : Type 0} {V : A → Type 0} {U : B → Type 0} (w : World D) (m : Step D A)
      (next : A → Step D B)
      → Post R F V w (m w)
      → ((a : A) (w' : World D) → V a → Post R F U w' (next a w'))
      → Post R F U w ((m >>= next) w)
  unfolding ◌>>=◌
  bind w m next p k = go_on-Post w (m w) next p k

  wrap-Post :
      {A : Type 0} {V : A → Type 0} (before : Text) (w : World D) (r : Answer A × World D)
      → Post R F V w r
      → Post R F V w (wrap before r)
  wrap-Post before w (done a, w') p = p
  wrap-Post before w (fails e, w') p = record { follows = p.follows }
  wrap-Post before w (panics d, w') p = p

  pub wrapped-Post :
      {A : Type 0} {V : A → Type 0} (before : Text) (w : World D) (m : Step D A)
      → Post R F V w (m w)
      → Post R F V w (wrapped before m w)
  unfolding wrapped
  wrapped-Post before w m p = wrap-Post before w (m w) p

  pub here-Post :
      {A : Type 0} {V : A → Type 0} (a : A) (w w' : World D)
      → V a
      → R w w'
      → Post R F V w (done a, w')
  here-Post a w w' v h = record { follows = (v, h) }

  told-Post :
      {A : Type 0} {V : A → Type 0} (w w' : World D) (e : Text) (o : Outcome) (f : Text → Text)
      → F w w'
      → Post R F V w (told (fails e) o f, w')
  told-Post w w' e Outcome.ok f h = record { follows = h }
  told-Post w w' e (err d) f h = record { follows = h }
  told-Post w w' e (panic d) f h = record { follows = h }

  pub reported :
      {A Props : Type 0} {V : A → Type 0} (call : RenderData Props) (t : EventType) (e : Text)
      (w : World D)
      → implements t failure_event ≡ true
      → Post R F V w (emit_event {A = A} call e (new_failure t e) w)
  unfolding emit_event tell
  reported call t e w f = elim (Option-cases call.request) [
    | inl missing ↦ rw missing (record { follows = laws.lost (laws.stay w) })
    | inr (request, present) ↦ rw present (
        told-Post w _ e (dispatch request.handlers (new_failure t e) w.response).0 (λ d. d)
          (laws.on_report w (dispatch request.handlers (new_failure t e) w.response).1 t e f))
  ]

  pub or_report-Post :
      {A Props : Type 0} (call : RenderData Props) (t : EventType) (r : Result A) (w : World D)
      → implements t failure_event ≡ true
      → Post R F Any w (or_report call t r w)
  unfolding or_report
  or_report-Post call t (ok a) w f = here-Post a w w tt (laws.stay w)
  or_report-Post call t (failed e) w f = reported call t e w f

  run_middleware-Post :
      (fns : List Middleware) (islands : Islands) (w : World D)
      → Post R F Any w (run_middleware fns islands w)
  unfolding run_middleware
  run_middleware-Post [] islands w = here-Post islands w w tt (laws.stay w)
  run_middleware-Post (fn ∷ fns) islands w =
      let after = fn islands w.response in
      let h = laws.on_response w after.2 in
      elim (Option-cases after.0) [
        | inl e ↦ rw e (prepend w _ _ h (run_middleware-Post fns after.1 _))
        | inr (error, e) ↦ rw e (record { follows = laws.lost h })
      ]

  exec_middleware-Post :
      {Props : Type 0} (call : RenderData Props) (islands : Islands) (w : World D)
      → Post R F Any w (exec_middleware call islands w)
  unfolding exec_middleware
  exec_middleware-Post call islands w = elim (Option-cases call.request) [
    | inl e ↦ rw e (here-Post islands w w tt (laws.stay w))
    | inr (request, e) ↦ rw e (run_middleware-Post request.middleware islands w)
  ]

  pub or_fail-Post : {A : Type 0} (r : Result A) (w : World D) → Post R F Any w (or_fail r w)
  unfolding or_fail
  or_fail-Post (ok a) w = here-Post a w w tt (laws.stay w)
  or_fail-Post (failed e) w = record { follows = laws.lost (laws.stay w) }

module _ {D Props : Type 0} (disk : DiskLayer D) (engine : Engine Props) (settings : Settings)
    {R F : World D → World D → Type 0} (laws : Effects R F) where
  pub respond-Post :
      (call : RenderData Props) (json root : Text) (artifact : Rendered) (w : World D)
      → Post R F Any w (respond disk engine settings call json root artifact w)
  unfolding respond
  respond-Post call json root artifact w =
      bind laws w _ _ (wrapped-Post laws _ w _ (exec_middleware-Post laws call _ w)) λ islands w1 _.
        bind laws {V = Any} w1 _ _
          (here-Post laws (server_markup disk engine settings call json w1) w1 w1 tt (laws.stay w1))
          λ markup w2 _. wrapped-Post laws _ w2 _ (or_fail-Post laws _ w2)
