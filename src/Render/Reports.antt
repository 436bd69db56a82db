-- ===== src/Render/Reports.antt =====
-- render.go: which events a render dispatches.
use go_solid.Prelude.{
  Text, text_comparable, Option, none, some, List, [], ◌∷◌, ◌++◌, true, ◌≡◌, refl, sym, ◌∙◌, ap,
  subst, ◌⊎◌, inl, inr, Option-cases, append-nil,
}
use go_solid.Networking.Events.{
  Event, plain, implements, failure_event, new_failure, transmit_rendered_template,
  new_transmit_rendered_template,
}
use go_solid.Caching.{Rendered}
use go_solid.Networking.HandlerMap.{Outcome, err, panic}
use go_solid.Render.{
  DiskLayer, Engine, Settings, Request, RenderData, World, Answer, done, fails, panics, ◌>>=◌,
  go_on,
}
use go_solid.Render.Steps.{told, tell, transmit, or_fail}
use go_solid.Render.Respond.{checked_response, render0}
use go_solid.Render.Effects.{Effects, Builds, Any, Post}
use go_solid.Render.Paths.{checked_response-Post}

-- At most one event was dispatched, and it has the property.
abbrev pub AtMostOne : (Event → Type 0) → List Event → List Event → Type 0
AtMostOne P before after =
    (after ≡ before) ⊎ ((event : Event) × P event × (after ≡ before ++ event ∷ []))

abbrev pub IsFailure : Event → Type 0
IsFailure event = implements event.dynamic.base failure_event ≡ true

module _ {D : Type 0} where
  abbrev Silent : World D → World D → Type 0
  Silent w w' = w'.dispatched ≡ w.dispatched

  abbrev Failed : World D → World D → Type 0
  Failed w w' = AtMostOne IsFailure w.dispatched w'.dispatched

  Silent-Effects : Effects Silent Failed
  unfolding new_failure
  Silent-Effects = record {
    stay = λ w. refl;
    lost = λ h. inl h;
    then_ok = λ h k. k ∙ h;
    then_lost =
        λ {w} {w'} {w''} h k. subst (λ before. AtMostOne IsFailure before w''.dispatched) h k;
    on_report = λ w r t e f. inr (new_failure t e, f, refl);
    on_response = λ w r. refl;
  }

  Silent-Builds : (disk : DiskLayer D) (normalize : Text → Text) → Builds disk normalize Silent
  Silent-Builds disk normalize = record {
    on_built = λ w entries. refl;
    on_index = λ w component sources. refl;
    on_miss = λ w key. refl;
    on_load = λ w key cached found. refl;
    on_store = λ w key artifact after bare. refl;
  }

-- A failure, or the transmission of a response
abbrev pub IsFinal : Event → Type 0
IsFinal event = IsFailure event ⊎ (event.dynamic ≡ plain transmit_rendered_template)

-- What a render has dispatched, by its answer.
abbrev pub response_events : Option Request → Rendered → List Event
response_events none resp = []
response_events (some request) resp = new_transmit_rendered_template resp.html ∷ []

abbrev pub IsTold : Option Request → List Event → List Event → Answer Rendered → Type 0
IsTold request before after (done resp) = after ≡ before ++ response_events request resp
IsTold request before after (fails e) = AtMostOne IsFinal before after
IsTold request before after (panics d) = AtMostOne IsFinal before after

IsFailure-IsFinal :
    (before after : List Event) → AtMostOne IsFailure before after → AtMostOne IsFinal before after
IsFailure-IsFinal before after (inl h) = inl h
IsFailure-IsFinal before after (inr (event, f, h)) = inr (event, inl f, h)

module _ {D Props : Type 0} (disk : DiskLayer D) (engine : Engine Props) (settings : Settings) where
  told-IsTold :
      (request : Request) (resp : Rendered) (o : Outcome) (f : Text → Text)
      (before after : List Event)
      → after ≡ before ++ new_transmit_rendered_template resp.html ∷ []
      → IsTold (some request) before after (told (done resp) o f)
  unfolding new_transmit_rendered_template
  told-IsTold request resp Outcome.ok f before after h = h
  told-IsTold request resp (err e) f before after h = inr (_, inr refl, h)
  told-IsTold request resp (panic d) f before after h = inr (_, inr refl, h)

  transmit-IsTold :
      (call : RenderData Props) (resp : Rendered) (before : List Event) (w : World D)
      → w.dispatched ≡ before
      → let (answer, w') = transmit engine.quote call resp w in
        IsTold call.request before w'.dispatched answer
  unfolding transmit tell
  transmit-IsTold call resp before w h = elim (Option-cases call.request) [
    | inl e ↦ rw (e, transmit) (h ∙ sym (append-nil before))
    | inr (request, e) ↦
        rw (e, transmit)
          (told-IsTold request resp _ _ before _
            (ap (λ es. es ++ new_transmit_rendered_template resp.html ∷ []) h))
  ]

  finished :
      (call : RenderData Props) (w : World D) (r : Answer Rendered × World D)
      → Post Silent Failed Any w r
      → let (answer, w') = go_on r (transmit engine.quote call) in
        IsTold call.request w.dispatched w'.dispatched answer
  finished call w (done resp, w1) p = transmit-IsTold call resp w.dispatched w1 p.follows.1
  finished call w (fails e, w1) p = IsFailure-IsFinal w.dispatched w1.dispatched p.follows
  finished call w (panics d, w1) p = IsFailure-IsFinal w.dispatched w1.dispatched p.follows

  -- A render that gives a response has dispatched its transmission, or nothing where it is for no
  -- request; one that fails, or panics, has dispatched nothing, or one event, which is a failure or
  -- the transmission.
  pub render0-IsTold :
      (call : RenderData Props) (w : World D)
      → let (answer, w') = render0 disk engine settings call w in
        IsTold call.request w.dispatched w'.dispatched answer
  unfolding render0 ◌>>=◌ or_fail
  render0-IsTold call w = elim (Option-cases call.cancelled) [
    | inl e ↦
        rw (e, render0)
          (finished call w (checked_response disk engine settings call w) (
            checked_response-Post disk engine settings Silent-Effects
              (Silent-Builds disk engine.normalize) call w))
    | inr (error, e) ↦ rw (e, render0) (inl refl)
  ]
