-- ===== src/Networking/Response/Wiring.antt =====
-- The default responders of internal/networking/requestBehaviourBuilder.go, and what each event of
-- the library puts on the wire.
use go_solid.Prelude.{
  ℕ, Text, text, none, some, List, [], ◌∷◌, true, lookup, insert, contains, ◌≡◌, refl, subst, ◌∙◌,
  ap, arith, if◌then◌else◌,
}
use go_solid.Networking.Events.{
  EventType, rtype_comparable, Event, plain, type_eq, event_type_comparable, concrete, http_code_of,
  dynamic_ancestry, implements, anonymous_source_failure, transmit_rendered_template, base_event,
}
use go_solid.Networking.Events.Ancestry.{anonymous-ancestry}
use go_solid.Networking.HandlerMap.{
  Outcome, ok, err, panic, Handler, HandlerMap, narrowing, after, run, chain_at, dispatch_along,
  dispatch,
}
use go_solid.Networking.HandlerMap.Dispatch.{chains, dispatch-chains}
use go_solid.Networking.Response.{
  Response, Write, Writer, outcome_of, header, write_header, body, commit_status, status_of,
  responder_for, if_bound, new_handlers, default_failure_handler, default_transmit_handler,
  default_development_failure_handler, new_response,
}

-- The calls that an event's built-in responder makes on the writer, given the status it sends.
abbrev pub transcript : Event → ℕ → List Write
transcript event status =
    if type_eq event.dynamic.base transmit_rendered_template
    then header (text "Content-Type") (text "text/html; charset=utf-8")
      ∷ write_header status
      ∷ body event.html
      ∷ []
    else write_header status ∷ body event.error_text ∷ []

abbrev pub IsEmitted : Event → Type 0
IsEmitted event = (event.dynamic.pointers ≡ 0) × (contains event.dynamic.base concrete ≡ true)

status_of-http_code_of : (event : Event) (n : ℕ) → status_of event n ≡ http_code_of event
unfolding status_of http_code_of
status_of-http_code_of event n = ground arith

abbrev pub by_value : EventType → ℕ → Text → Text → Event
by_value t code error_text html = record {
  dynamic = plain t;
  http_code = code;
  error_text = error_text;
  html = html;
}

-- What the last Write returned, and the response after the calls.
abbrev pub content_type : Write
content_type = header (text "Content-Type") (text "text/html; charset=utf-8")

abbrev pub answered : Event → Writer → ℕ → Outcome × Response
answered event w status =
    if type_eq event.dynamic.base transmit_rendered_template
    then (
      outcome_of (w (content_type ∷ write_header status ∷ []) event.html),
      record { writer = some w; status_written = true; written = transcript event status },
    )
    else (
      outcome_of (w (write_header status ∷ []) event.error_text),
      record { writer = some w; status_written = true; written = transcript event status },
    )

-- The responder that the switch of defaultResponderFor picks, and the type it narrows to.
abbrev pub picked : EventType → Handler Response
picked t = elim (responder_for t) [ none ↦ λ e r. (ok, r) | some h ↦ h ]

responders-alone :
    (t : EventType) (code : ℕ) (error_text html : Text)
    → contains t concrete ≡ true
    → chains new_handlers (dynamic_ancestry (by_value t code error_text html))
      ≡ (some (if_bound (picked t)) ∷ [])
unfolding new_handlers dynamic_ancestry lookup insert chain_at responder_for
responders-alone base_event code error_text html h = cc
responders-alone t code error_text html h = ground arith

pub after-ok : {S : Type 0} (r : Outcome × S) → after r (λ s. (ok, s)) ≡ r
after-ok (ok, s) = refl
after-ok (err e, s) = refl
after-ok (panic d, s) = refl

run-alone :
    {S : Type 0} (h : Handler S) (event : Event) (s : S) → run (some h ∷ []) event s ≡ h event s
unfolding run
run-alone h event s = after-ok (h event s)

dispatch-picked :
    (t : EventType) (code : ℕ) (error_text html : Text) (r : Response)
    → contains t concrete ≡ true
    → let event = by_value t code error_text html in
      dispatch new_handlers event r ≡ if_bound (picked t) event r
dispatch-picked t code error_text html r h =
    let event = by_value t code error_text html in
    dispatch-chains new_handlers event r
    ∙ ap (λ c. run c event r) (responders-alone t code error_text html h)
    ∙ run-alone (if_bound (picked t)) event r

picked-answered :
    (t : EventType) (code : ℕ) (error_text html : Text) (w : Writer)
    → contains t concrete ≡ true
    → let event = by_value t code error_text html in
      if_bound (picked t) event (new_response (some w)) ≡ answered event w (http_code_of event)
unfolding if_bound responder_for narrowing new_response commit_status default_failure_handler
    default_development_failure_handler default_transmit_handler implements
picked-answered base_event code error_text html w h = cc
picked-answered transmit_rendered_template code error_text html w h =
    rw (status_of-http_code_of (by_value transmit_rendered_template code error_text html) 200) refl
picked-answered t code error_text html w h =
    let own = status_of-http_code_of (by_value t code error_text html) 500 in cc

pub by_value-event :
    (event : Event)
    → event.dynamic.pointers ≡ 0
    → by_value event.dynamic.base event.http_code event.error_text event.html ≡ event
by_value-event event h =
    let e : plain event.dynamic.base ≡ event.dynamic = ground arith in
    ap (λ d. record event { dynamic = d }) e

-- An event of a concrete type, passed by value to the handlers of a new request, is answered in
-- full by the responder of its type: the Content-Type where it is a page, the status that the event
-- asks for, then the page or the error's text; dispatch returns what the last Write returned.
pub dispatch-answered :
    (event : Event) (w : Writer)
    → IsEmitted event
    → dispatch new_handlers event (new_response (some w)) ≡ answered event w (http_code_of event)
dispatch-answered event w (value, known) =
    let t = event.dynamic.base in
    subst (λ e. dispatch new_handlers e (new_response (some w)) ≡ answered e w (http_code_of e))
      (by_value-event event value)
      (dispatch-picked t event.http_code event.error_text event.html (new_response (some w)) known
        ∙ picked-answered t event.http_code event.error_text event.html w known)

-- Whatever handlers a map holds, a failure of an inline component reaches none of them: dispatch
-- returns nil and leaves the state as it was.
pub dispatch-anonymous :
    {S : Type 0} (m : HandlerMap S) (event : Event) (s : S)
    → event.dynamic.base ≡ anonymous_source_failure
    → dispatch m event s ≡ (ok, s)
unfolding dispatch dispatch_along
dispatch-anonymous m event s h = rw (anonymous-ancestry event h) refl
