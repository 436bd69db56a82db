-- ===== src/Networking/Tests.antt =====
-- The theorems on events and responses at a page, a failure and a writer that takes every byte.
use go_solid.Prelude.{suc, ℕ, text, none, some, [], ◌∷◌, ◌≡◌, refl, lookup, insert}
use go_solid.Networking.Events.{
  Event, plain, new_failure, new_transmit_rendered_template, http_code_of, anonymous_source_failure,
  comp_bundling_failure, failure_event, dynamic_ancestry, event_type_comparable,
}
use go_solid.Networking.HandlerMap.{
  ok, Handler, HandlerMap, replace, done, narrowing, put_handler, dispatch, run, chain_at,
}
use go_solid.Networking.HandlerMap.Filing.{put_handler-IsFiled}
use go_solid.Networking.HandlerMap.Narrowing.{
  NoPanic, Fits, IsWired, narrowing-Fits, dispatch-NoPanic,
}
use go_solid.Networking.Response.{Writer, new_response, new_handlers, code_upon}
use go_solid.Networking.Response.Wiring.{answered, dispatch-answered, dispatch-anonymous}
use go_solid.Networking.Response.Coding.{coded, coded_transcript, code_upon-written}
use go_solid.Networking.Response.Status.{IsOrderly}
use go_solid.Networking.Response.Order.{with_codes, dispatch_all, responses-IsOrderly}

abbrev quiet : Writer
quiet calls content = none

program : Unit {0}
unfolding new_transmit_rendered_template new_failure http_code_of put_handler narrowing chain_at
    lookup insert dispatch new_handlers new_response
program = tt

abbrev page : Event
page = new_transmit_rendered_template (text "<p>")

abbrev failure : Event
failure = new_failure comp_bundling_failure (text "no such import")

abbrev inline_failure : Event
inline_failure = new_failure anonymous_source_failure (text "no export")

dispatch-answered_example :
    dispatch new_handlers page (new_response (some quiet)) ≡ answered page quiet 200
unfolding new_transmit_rendered_template http_code_of
dispatch-answered_example = dispatch-answered page quiet (refl, refl)

dispatch-anonymous_example :
    dispatch new_handlers inline_failure (new_response (some quiet))
    ≡ (ok, new_response (some quiet))
unfolding new_failure
dispatch-anonymous_example =
    dispatch-anonymous new_handlers inline_failure (new_response (some quiet)) refl

code_upon-written_example :
    (code_upon (plain comp_bundling_failure) 503 new_handlers
      ≡ done (coded comp_bundling_failure 503))
    × ((dispatch (coded comp_bundling_failure 503) failure (new_response (some quiet))).1.written
        ≡ coded_transcript failure 503)
unfolding new_failure
code_upon-written_example = code_upon-written failure 503 quiet (refl, refl)

responses-IsOrderly_example : IsOrderly (
    dispatch_all
      (with_codes ((plain failure_event, 503) ∷ []) new_handlers)
      (failure ∷ page ∷ [])
      (new_response (some quiet)))
responses-IsOrderly_example =
    responses-IsOrderly (some quiet) ((plain failure_event, 503) ∷ []) (failure ∷ page ∷ [])

-- A handler that counts the events it meets.
abbrev counting : Handler ℕ
counting event n = (ok, suc n)

abbrev counters : HandlerMap ℕ
counters = (plain failure_event, some (narrowing (plain failure_event) counting) ∷ []) ∷ []

nothing-IsWired : IsWired {S = ℕ} []
unfolding lookup
nothing-IsWired key chain h = cc

counters-IsWired : IsWired counters
unfolding put_handler insert
counters-IsWired =
    put_handler-IsFiled Fits [] counters (plain failure_event)
      (narrowing (plain failure_event) counting) replace nothing-IsWired
      (narrowing-Fits (plain failure_event) counting (λ event n has. tt)) refl

dispatch-NoPanic_example : NoPanic (dispatch counters failure 0).0
unfolding new_failure
dispatch-NoPanic_example = dispatch-NoPanic counters failure 0 counters-IsWired refl

counted : dispatch counters failure 0 ≡ (ok, 1)
unfolding program dispatch dynamic_ancestry run
counted = refl
