-- ===== src/Networking/Response/Status.antt =====
-- CommitStatus of shared/networking/requestBehaviourBuilder.go: what reaches the writer over the whole
-- life of a request.
use go_solid.Prelude.{
  ℕ, Text, text, Option, none, some, List, [], ◌∷◌, ◌++◌, Bool, true, false, ◌≡◌, is_some, arith,
  inl, inr, Option-cases, Bool-cases,
}
use go_solid.Networking.Events.{RType, rtype_comparable, Event, event_type_comparable}
use go_solid.Networking.HandlerMap.{Handler, narrowing, narrowable_to}
use go_solid.Networking.Response.{
  write_body, Response, Write, emit, header, write_header, body, commit_status, status_of,
  default_failure_handler, default_transmit_handler, default_development_failure_handler,
}
use go_solid.Networking.HandlerMap.{narrowable_to}
use go_solid.Networking.Response.{default_success_handler}

-- The protocol of a response: one status, and no body before it. The state is whether the status has
-- been sent, and none is a breach.
abbrev pub phase : Bool → List Write → Option Bool
phase sent [] = some sent
phase sent (header key value ∷ ws) = phase sent ws
phase false (write_header code ∷ ws) = phase true ws
phase true (write_header code ∷ ws) = none
phase false (body content ∷ ws) = none
phase true (body content ∷ ws) = phase true ws

-- The writer has seen what the response says.
abbrev pub IsOrderly : Response → Type 0
IsOrderly r =
    (phase false r.written ≡ some r.status_written)
    × (r.status_written ≡ true → is_some r.writer ≡ true)

phase-append :
    (sent now : Bool) (ws vs : List Write)
    → phase sent ws ≡ some now
    → phase sent (ws ++ vs) ≡ phase now vs
phase-append sent now [] vs h = ground arith
phase-append sent now (header key value ∷ ws) vs h = phase-append sent now ws vs h
phase-append false now (write_header code ∷ ws) vs h = phase-append true now ws vs h
phase-append true now (write_header code ∷ ws) vs h = cc
phase-append false now (body content ∷ ws) vs h = cc
phase-append true now (body content ∷ ws) vs h = phase-append true now ws vs h

pub commit_status-IsOrderly :
    (code : ℕ) (r : Response) → IsOrderly r → IsOrderly (commit_status code r).0
unfolding commit_status
commit_status-IsOrderly code r (seen, there) = elim (Bool-cases r.status_written) [
  | inl sent ↦ ground arith
  | inr unsent ↦ elim (Bool-cases (is_some r.writer)) [
    | inl bound ↦
        ground (arith, phase-append false r.status_written r.written (write_header code ∷ []) seen)
    | inr unbound ↦ ground arith
  ]
]

commit_status-sent :
    (code : ℕ) (r : Response)
    → is_some r.writer ≡ true
    → (commit_status code r).0.status_written ≡ true
unfolding commit_status
commit_status-sent code r bound = ground arith

write_body-IsOrderly :
    (content : Text) (r : Response)
    → IsOrderly r
    → r.status_written ≡ true
    → IsOrderly (write_body content r).1
write_body-IsOrderly content r (seen, there) sent = elim (Option-cases r.writer) [
  | inl e ↦ ground (arith, e)
  | inr (w, e) ↦
      ground (arith, e, phase-append false r.status_written r.written (body content ∷ []) seen)
]

-- The handler keeps the order where a writer is bound.
abbrev pub OnBound : Handler Response → Type 0
OnBound h =
    (event : Event) (r : Response) → is_some r.writer ≡ true → IsOrderly r → IsOrderly (h event r).1

pub default_failure_handler-OnBound : OnBound default_failure_handler
unfolding default_failure_handler
default_failure_handler-OnBound event r bound orderly =
    let code = status_of event 500 in
    write_body-IsOrderly event.error_text (commit_status code r).0
      (commit_status-IsOrderly code r orderly) (commit_status-sent code r bound)

pub default_development_failure_handler-OnBound : OnBound default_development_failure_handler
unfolding default_development_failure_handler
default_development_failure_handler-OnBound event r bound orderly =
    let code = status_of event 500 in
    write_body-IsOrderly event.error_text (commit_status code r).0
      (commit_status-IsOrderly code r orderly) (commit_status-sent code r bound)

default_success_handler-OnBound : OnBound default_success_handler
unfolding default_success_handler
default_success_handler-OnBound event r bound orderly =
    commit_status-IsOrderly (status_of event 200) r orderly

pub default_transmit_handler-OnBound : OnBound default_transmit_handler
unfolding default_transmit_handler
default_transmit_handler-OnBound event r bound (seen, there) =
    let code = status_of event 200 in
    let headed = emit (header (text "Content-Type") (text "text/html; charset=utf-8")) r in
    write_body-IsOrderly event.html (commit_status code headed).0
      (commit_status-IsOrderly code headed
        (phase-append false r.status_written r.written _ seen, there))
      (commit_status-sent code headed bound)

pub narrowing-OnBound : (t : RType) (h : Handler Response) → OnBound h → OnBound (narrowing t h)
unfolding narrowing
narrowing-OnBound t h keeps event r bound orderly =
    elim (Bool-cases (narrowable_to event.dynamic t)) [
      | inl fits ↦ rw fits (keeps event r bound orderly)
      | inr other ↦ rw other orderly
    ]
