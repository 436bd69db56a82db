-- ===== src/Networking/Response/Order.antt =====
-- The handlers of a request in internal/networking/requestBehaviourBuilder.go and CodeUpon of
-- shared/networking/requestBehaviourBuilder.go: the order of what they write, over any events.
use go_solid.Prelude.{
  ℕ, Option, some, List, [], ◌∷◌, lookup-nil, ◌≡◌, is_some, refl, subst, arith, inl, inr,
  Option-cases, Bool-cases,
}
use go_solid.Networking.Events.{
  EventType, RType, rtype_comparable, Event, plain, event_type_comparable, concrete,
  comp_props_insufficient_failure, transmit_rendered_template, base_event,
}
use go_solid.Networking.HandlerMap.{
  ok, Handler, HandlerMap, replace, prefix, Registered, done, panics, narrowing, add_type, add,
  dispatch,
}
use go_solid.Networking.Response.{
  Response, Writer, commit_status, responder_for, if_bound, or_same, with_responders, new_handlers,
  default_failure_handler, default_transmit_handler, default_development_failure_handler,
  new_response, code_upon,
}
use go_solid.Networking.HandlerMap.{Chain}
use go_solid.Networking.HandlerMap.Filing.{
  IsFiled, Keeps, put_handler-IsFiled, dispatch-Keeps, narrowing-Keeps,
}
use go_solid.Networking.Response.{or_same}
use go_solid.Networking.HandlerMap.{put_handler}
use go_solid.Networking.Events.{
  development_failure_event, failure_event, success_event, comp_props_insufficient_failure,
}
use go_solid.Networking.Response.Status.{
  IsOrderly, OnBound, default_failure_handler-OnBound, default_development_failure_handler-OnBound,
  default_transmit_handler-OnBound, narrowing-OnBound, commit_status-IsOrderly,
}

abbrev Orderly : RType → Option (Handler Response) → Type 0
Orderly = Keeps IsOrderly

if_bound-Orderly :
    (key : RType) (h : Handler Response) → OnBound h → Orderly key (some (if_bound h))
unfolding if_bound
if_bound-Orderly key h keeps event r orderly = elim (Bool-cases (is_some r.writer)) [
  | inl bound ↦ rw bound (keeps event r bound orderly)
  | inr unbound ↦ rw unbound orderly
]

responder_for-OnBound :
    (t : EventType) (h : Handler Response) → responder_for t ≡ some h → OnBound h
unfolding responder_for
responder_for-OnBound base_event h e = cc
responder_for-OnBound development_failure_event h e = cc
responder_for-OnBound failure_event h e = cc
responder_for-OnBound success_event h e = cc
responder_for-OnBound transmit_rendered_template h e =
    let same : narrowing (plain transmit_rendered_template) default_transmit_handler ≡ h = cc in
    subst OnBound same (
      narrowing-OnBound (plain transmit_rendered_template) default_transmit_handler
        default_transmit_handler-OnBound)
responder_for-OnBound comp_props_insufficient_failure h e =
    let same : narrowing (plain comp_props_insufficient_failure) default_development_failure_handler
        ≡ h =
      cc in
    subst OnBound same (
      narrowing-OnBound (plain comp_props_insufficient_failure) default_development_failure_handler
        default_development_failure_handler-OnBound)
responder_for-OnBound t h e =
    let same : narrowing (plain failure_event) default_failure_handler ≡ h = cc in
    subst OnBound same (
      narrowing-OnBound (plain failure_event) default_failure_handler
        default_failure_handler-OnBound)

or_same-IsFiled :
    (m : HandlerMap Response) (result : Registered (HandlerMap Response))
    → IsFiled Orderly m
    → ((m' : HandlerMap Response) → result ≡ done m' → IsFiled Orderly m')
    → IsFiled Orderly (or_same m result)
or_same-IsFiled m (done m') filed next = next m' refl
or_same-IsFiled m (panics e) filed next = filed

with_responders-IsFiled :
    (ts : List EventType) (m : HandlerMap Response)
    → IsFiled Orderly m
    → IsFiled Orderly (with_responders ts m)
unfolding with_responders add_type
with_responders-IsFiled [] m filed = filed
with_responders-IsFiled (t ∷ ts) m filed = elim (Option-cases (responder_for t)) [
  | inl e ↦ rw (e, with_responders) (with_responders-IsFiled ts m filed)
  | inr (respond, e) ↦
      let key = plain t in
      let next = or_same m (put_handler m key (if_bound respond) replace) in
      rw (e, with_responders)
        (with_responders-IsFiled ts next (
          or_same-IsFiled m (put_handler m key (if_bound respond) replace) filed (λ m'.
            put_handler-IsFiled Orderly m m' key (if_bound respond) replace filed
              (if_bound-Orderly key respond (responder_for-OnBound t respond e)))))
]

-- CodeUpon for each pair, as a caller chains them, on the handlers of a new request.
abbrev pub with_codes : List (RType × ℕ) → HandlerMap Response → HandlerMap Response
with_codes [] m = m
with_codes ((t, status) ∷ codes) m = with_codes codes (or_same m (code_upon t status m))

-- Dispatch of several events, whatever each returns.
abbrev pub dispatch_all : HandlerMap Response → List Event → Response → Response
dispatch_all m [] r = r
dispatch_all m (event ∷ events) r = dispatch_all m events (dispatch m event r).1

code_upon-IsFiled :
    (t : RType) (status : ℕ) (m : HandlerMap Response)
    → IsFiled Orderly m
    → IsFiled Orderly (or_same m (code_upon t status m))
unfolding code_upon add add_type
code_upon-IsFiled t status m filed =
    let handler : Handler Response = λ event r. (ok, (commit_status status r).0) in
    or_same-IsFiled m (code_upon t status m) filed (λ m'.
      put_handler-IsFiled Orderly m m' t (narrowing t handler) prefix filed
        (narrowing-Keeps IsOrderly t handler (λ event r. commit_status-IsOrderly status r)))

with_codes-IsFiled :
    (codes : List (RType × ℕ)) (m : HandlerMap Response)
    → IsFiled Orderly m
    → IsFiled Orderly (with_codes codes m)
with_codes-IsFiled [] m filed = filed
with_codes-IsFiled ((t, status) ∷ codes) m filed =
    with_codes-IsFiled codes (or_same m (code_upon t status m)) (code_upon-IsFiled t status m filed)

dispatch_all-IsOrderly :
    (m : HandlerMap Response) (events : List Event) (r : Response)
    → IsFiled Orderly m
    → IsOrderly r
    → IsOrderly (dispatch_all m events r)
dispatch_all-IsOrderly m [] r filed orderly = orderly
dispatch_all-IsOrderly m (event ∷ events) r filed orderly =
    dispatch_all-IsOrderly m events (dispatch m event r).1 filed
      (dispatch-Keeps IsOrderly m event r filed orderly)

-- A request whose writer is bound or not, whose handlers are the default ones and any CodeUpon calls,
-- and which has had any events dispatched to it, has sent at most one status, none after it was
-- recorded as sent, and no body before the status; and has sent none where no writer was bound.
pub responses-IsOrderly :
    (writer : Option Writer) (codes : List (RType × ℕ)) (events : List Event)
    → IsOrderly (dispatch_all (with_codes codes new_handlers) events (new_response writer))
unfolding new_handlers new_response
responses-IsOrderly writer codes events =
    dispatch_all-IsOrderly (with_codes codes new_handlers) events (new_response writer)
      (with_codes-IsFiled codes new_handlers (
        with_responders-IsFiled concrete []
          (λ key chain h. ground (arith, lookup-nil {V = Chain Response} key, h))))
      (refl, λ sent. cc)
