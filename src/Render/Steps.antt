-- ===== src/Render/Steps.antt =====
-- The smallest steps of render.go. A dispatch is one of the HandlerMap that the
-- request carries, and the log of the errors that it replaces is not modelled.
use go_solid.Prelude.{Text, text, text_comparable, Option, none, some, List, [], ◌∷◌, ◌++◌}
use go_solid.Sources.{Result, ok, failed}
use go_solid.Caching.{Rendered}
use go_solid.Networking.Events.{EventType, Event, new_failure, new_transmit_rendered_template}
use go_solid.Networking.HandlerMap.{Outcome, err, panic, dispatch}
use go_solid.Render.{Islands, Middleware, Request, RenderData, Answer, done, fails, panics, Step}

-- What a dispatch makes of the answer that it stood for.
abbrev pub told : {A : Type 0} → Answer A → Outcome → (Text → Text) → Answer A
told a Outcome.ok f = a
told a (err e) f = fails (f e)
told a (panic d) f = panics d

module _ {D : Type 0} where
  -- The dispatch of an event, with what it leaves of an answer.
  unfoldable pub tell : {A : Type 0} → Request → Event → Answer A → (Text → Text) → Step D A
  tell request event a f w =
      let (outcome, response) = dispatch request.handlers event w.response in
      (told a outcome f, record w { response = response; dispatched = w.dispatched ++ event ∷ [] })

  -- The loop of execMiddleware
  unfoldable pub run_middleware : List Middleware → Islands → Step D Islands
  run_middleware [] islands w = (done islands, w)
  run_middleware (fn ∷ fns) islands w =
      let (e, islands', response) = fn islands w.response in
      elim e [
        | some e ↦ (fails e, record w { response = response })
        | none ↦ run_middleware fns islands' (record w { response = response })
      ]

module _ {D Props : Type 0} where
  -- emitEvent
  unfoldable pub emit_event : {A : Type 0} → RenderData Props → Text → Event → Step D A
  unfolding tell
  emit_event call e event w = elim call.request [
    | none ↦ (fails e, w)
    | some request ↦ tell request event (fails e) (λ d. d) w
  ]

  -- `return nil, data.emitEvent(err, events.New…Failure(err))`, where there is an error
  unfoldable pub or_report : {A : Type 0} → RenderData Props → EventType → Result A → Step D A
  unfolding emit_event
  or_report call t (ok a) w = (done a, w)
  or_report call t (failed e) w = emit_event call e (new_failure t e) w

  -- The dispatch that ends a render
  unfoldable pub transmit : (Text → Text) → RenderData Props → Rendered → Step D Rendered
  unfolding tell
  transmit quote call resp w = elim call.request [
    | none ↦ (done resp, w)
    | some request ↦
        tell request (new_transmit_rendered_template resp.html) (done resp)
          (λ e. text "go_solid#Render: transmit " ++ quote call.component ++ text ": " ++ e) w
  ]

  -- execMiddleware
  unfoldable pub exec_middleware : RenderData Props → Islands → Step D Islands
  unfolding run_middleware
  exec_middleware call islands w = elim call.request [
    | none ↦ (done islands, w)
    | some request ↦ run_middleware request.middleware islands w
  ]

-- An error, where there is one, as a Result with what there is otherwise.
abbrev pub unless : {A : Type 0} → A → Option Text → Result A
unless a none = ok a
unless a (some e) = failed e

-- fmt.Errorf("… %w", err)
abbrev pub expanded : {A : Type 0} → Text → Result A → Result A
expanded before (ok a) = ok a
expanded before (failed e) = failed (before ++ e)

abbrev pub with_html : Rendered → Result Text → Result Rendered
with_html resp (ok html) = ok (record resp { html = html })
with_html resp (failed e) = failed e

-- `return nil, err`, with no event
unfoldable pub or_fail : {D A : Type 0} → Result A → Step D A
or_fail (ok a) w = (done a, w)
or_fail (failed e) w = (fails e, w)
