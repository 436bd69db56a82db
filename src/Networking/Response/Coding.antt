-- ===== src/Networking/Response/Coding.antt =====
-- CodeUpon of shared/networking/requestBehaviourBuilder.go, before the default responders.
use go_solid.Prelude.{
  ℕ, Text, some, List, [], ◌∷◌, true, lookup, insert, contains, ◌≡◌, refl, subst, ◌∙◌, ap, arith,
  if◌then◌else◌,
}
use go_solid.Networking.Events.{
  EventType, rtype_comparable, Event, plain, type_eq, event_type_comparable, concrete,
  dynamic_ancestry, implements, transmit_rendered_template, base_event,
}
use go_solid.Networking.HandlerMap.{
  Outcome, ok, HandlerMap, done, narrowing, narrowable_to, after, run, chain_at, dispatch,
}
use go_solid.Networking.HandlerMap.Dispatch.{chains, dispatch-chains}
use go_solid.Networking.Response.{
  Response, Write, Writer, write_header, body, commit_status, responder_for, if_bound, or_same,
  new_handlers, default_failure_handler, default_transmit_handler,
  default_development_failure_handler, new_response, code_upon,
}
use go_solid.Networking.Response.Wiring.{
  IsEmitted, by_value, by_value-event, after-ok, picked, content_type,
}

-- CodeUpon on the handlers of a new request
abbrev pub coded : EventType → ℕ → HandlerMap Response
coded t status = or_same new_handlers (code_upon (plain t) status new_handlers)

code_upon-done :
    (t : EventType) (status : ℕ) → code_upon (plain t) status new_handlers ≡ done (coded t status)
unfolding code_upon
code_upon-done t status = refl

-- The responder of type t after the status has been sent.
abbrev code_first : EventType → ℕ → Event → Response → Outcome × Response
code_first t status event r = if_bound (picked t) event (commit_status status r).0

coded-chain :
    (t : EventType) (status code : ℕ) (error_text html : Text) (r : Response)
    → contains t concrete ≡ true
    → let event = by_value t code error_text html in
      run (chains (coded t status) (dynamic_ancestry event)) event r
      ≡ after (code_first t status event r) (λ s. (ok, s))
unfolding new_handlers dynamic_ancestry lookup insert chain_at responder_for code_upon run narrowing
    narrowable_to
coded-chain base_event status code error_text html r h = cc
coded-chain t status code error_text html r h = ground arith

-- The calls where the status is sent before the responder sets its headers.
abbrev pub coded_transcript : Event → ℕ → List Write
coded_transcript event status =
    if type_eq event.dynamic.base transmit_rendered_template
    then write_header status ∷ content_type ∷ body event.html ∷ []
    else write_header status ∷ body event.error_text ∷ []

coded-written :
    (t : EventType) (status code : ℕ) (error_text html : Text) (w : Writer)
    → contains t concrete ≡ true
    → let event = by_value t code error_text html in
      (code_first t status event (new_response (some w))).1.written ≡ coded_transcript event status
unfolding if_bound responder_for narrowing new_response commit_status default_failure_handler
    default_development_failure_handler default_transmit_handler implements
coded-written base_event status code error_text html w h = cc
coded-written t status code error_text html w h = ground arith

-- CodeUpon for a concrete event of a new request is accepted, and dispatch of such an event then
-- sends that status and no other, before everything else. A page's Content-Type comes after it.
pub code_upon-written :
    (event : Event) (status : ℕ) (w : Writer)
    → IsEmitted event
    → (code_upon event.dynamic status new_handlers ≡ done (coded event.dynamic.base status))
      × ((dispatch (coded event.dynamic.base status) event (new_response (some w))).1.written
          ≡ coded_transcript event status)
code_upon-written event status w (value, known) =
    let t = event.dynamic.base in
    let e = by_value t event.http_code event.error_text event.html in
    let r = new_response (some w) in
    subst
      (λ event'.
        (code_upon event'.dynamic status new_handlers ≡ done (coded event'.dynamic.base status))
        × ((dispatch (coded event'.dynamic.base status) event' r).1.written
            ≡ coded_transcript event' status))
      (by_value-event event value)
      (
        code_upon-done t status,
        ap (λ x. x.1.written)
              (dispatch-chains (coded t status) e r
                ∙ coded-chain t status event.http_code event.error_text event.html r known
                ∙ after-ok (code_first t status e r))
            ∙ coded-written t status event.http_code event.error_text event.html w known,
      )
