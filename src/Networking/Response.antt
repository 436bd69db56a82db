-- ===== src/Networking/Response.antt =====
-- internal/networking/requestBehaviourBuilder.go and shared/networking/requestBehaviourBuilder.go:
-- the response to one request, its default responders, and the handlers that a caller adds.
pub mod Status
pub mod Wiring
pub mod Coding
pub mod Order
use go_solid.Prelude.{
  ℕ, Text, text, Option, none, some, List, [], ◌∷◌, ◌++◌, Bool, true, false, ◌&&◌, not, ◌==◌,
  if◌then◌else◌, is_some,
}
use go_solid.Networking.Events.{
  EventType, Event, RType, plain, type_eq, is_interface, implements, concrete, http_code_of,
  transmit_rendered_template, comp_props_insufficient_failure, failure_event, success_event,
  development_failure_event,
}
use go_solid.Networking.HandlerMap.{
  Outcome, ok, err, panic, Handler, Chain, HandlerMap, HandlerMode, replace, prefix, postfix,
  Registered, done, panics, narrowable_to, narrowing, add_type, add, dispatch,
}

-- A call on the http.ResponseWriter.
pub data Write : Type 0 where
  header : Text → Text → Write
  write_header : ℕ → Write
  body : Text → Write

-- The writer's own behaviour is not under this repository: it gives the error that a Write returns,
-- if any, for the calls before it and the bytes.
abbrev pub Writer : Type 0
Writer = List Write → Text → Option Text

-- RequestBehaviour without its handlers and request: W, statusWritten, and the calls made on W.
pub record Response : Type 0 where
  pub writer : Option Writer
  pub status_written : Bool
  pub written : List Write

abbrev pub emit : Write → Response → Response
emit w r = record r { written = r.written ++ w ∷ [] }

abbrev pub outcome_of : Option Text → Outcome
outcome_of none = ok
outcome_of (some e) = err e

-- `_, err := rb.W.Write(...); return err`. The default handlers run only where W is set.
abbrev pub write_body : Text → Response → Outcome × Response
write_body content r = elim r.writer [
  | none ↦ (ok, r)
  | some w ↦ (outcome_of (w r.written content), emit (body content) r)
]

unfoldable pub commit_status : ℕ → Response → Response × Bool
commit_status code this =
    if this.status_written
    then (this, false)
    else if is_some this.writer
    then (emit (write_header code) (record this { status_written = true }), true)
    else (this, false)

-- statusOf(event, fallback)
unfoldable pub status_of : Event → ℕ → ℕ
unfolding http_code_of
status_of event fallback = if http_code_of event == 0 then fallback else http_code_of event

-- defaultFailureHandler; its `assume` asks for failure_event
unfoldable pub default_failure_handler : Handler Response
unfolding commit_status status_of
default_failure_handler event r =
    write_body event.error_text (commit_status (status_of event 500) r).0

-- defaultDevelopmentFailureHandler; its `assume` asks for CompPropsInsufficientFailureEvent itself
unfoldable pub default_development_failure_handler : Handler Response
unfolding commit_status status_of
default_development_failure_handler event r =
    write_body event.error_text (commit_status (status_of event 500) r).0

unfoldable pub default_success_handler : Handler Response
unfolding commit_status status_of
default_success_handler event r = (ok, (commit_status (status_of event 200) r).0)

unfoldable pub default_transmit_handler : Handler Response
unfolding commit_status status_of
default_transmit_handler event r =
    let headed = emit (header (text "Content-Type") (text "text/html; charset=utf-8")) r in
    write_body event.html (commit_status (status_of event 200) headed).0

-- The responder behind its `assume`, which panics where the event is not of the type it asks for.
unfoldable pub responder_for : EventType → Option (Handler Response)
unfolding narrowing implements
responder_for t =
    if is_interface t
    then none
    else if type_eq t transmit_rendered_template
    then some (narrowing (plain transmit_rendered_template) default_transmit_handler)
    else if type_eq t comp_props_insufficient_failure
    then some
        (narrowing (plain comp_props_insufficient_failure) default_development_failure_handler)
    else if implements t failure_event
    then some (narrowing (plain failure_event) default_failure_handler)
    else if implements t success_event
    then some default_success_handler
    else none

-- The closure of NewRequestData: nothing is written where no writer was bound.
unfoldable pub if_bound : Handler Response → Handler Response
if_bound respond event r = if is_some r.writer then respond event r else (ok, r)

abbrev or_same : HandlerMap Response → Registered (HandlerMap Response) → HandlerMap Response
or_same m (done m') = m'
or_same m (panics e) = m

-- The loop of NewRequestData over EVENTS.Concrete
unfoldable pub with_responders : List EventType → HandlerMap Response → HandlerMap Response
unfolding responder_for if_bound add_type
with_responders [] m = m
with_responders (t ∷ ts) m = elim (responder_for t) [
  | none ↦ with_responders ts m
  | some respond ↦
      with_responders ts
        (or_same m (add_type (some m) (some (plain t)) (some (if_bound respond)) replace))
]

-- The handlers of NewRequestData
unfoldable pub new_handlers : HandlerMap Response
unfolding with_responders
new_handlers = with_responders concrete []

-- NewRequestData(w, r), for a writer that is there or not
unfoldable pub new_response : Option Writer → Response
new_response writer = record { writer = writer; status_written = false; written = [] }

-- UponSpecialized and Upon
unfoldable pub upon_specialized :
    HandlerMode → RType → Handler Response → HandlerMap Response → Registered (HandlerMap Response)
unfolding add
upon_specialized mode t fn m = add (some m) t fn mode

unfoldable pub upon :
    RType → Handler Response → HandlerMap Response → Registered (HandlerMap Response)
unfolding upon_specialized
upon = upon_specialized postfix

-- CodeUpon
unfoldable pub code_upon : RType → ℕ → HandlerMap Response → Registered (HandlerMap Response)
unfolding add commit_status
code_upon t status m = add (some m) t (λ event r. (ok, (commit_status status r).0)) prefix
