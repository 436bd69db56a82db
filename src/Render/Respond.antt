-- ===== src/Render/Respond.antt =====
-- render0 of render.go, from the faults to the dispatch of the response, in its order.
use go_solid.Prelude.{Text, text, text_comparable, Option, none, some, [], insert, if◌then◌else◌}
use go_solid.Registry.{find}
use go_solid.Sources.{Result, ok, failed}
use go_solid.Caching.{Rendered}
use go_solid.Networking.Events.{
  props_marshaling_failure, comp_props_insufficient_failure, anonymous_source_failure,
}
use go_solid.CodeGen.{document, derive_props_mount_id}
use go_solid.Render.{
  DiskLayer, Engine, Settings, Islands, RenderData, World, Step, pure, ◌>>=◌, wrapped,
}
use go_solid.Render.Steps.{or_report, transmit, exec_middleware, expanded, with_html, or_fail}
use go_solid.Render.Compile.{compiled_artifact}

module _ {D Props : Type 0} (disk : DiskLayer D) (engine : Engine Props) (settings : Settings) where
  -- marshalProps
  unfoldable pub marshal_props : Option Props → Result Text
  marshal_props none = ok (text "{}")
  marshal_props (some props) =
      expanded (text "go_solid#Render: marshal props: ") (engine.marshal props)

  -- serverMarkup
  unfoldable pub server_markup : RenderData Props → Text → World D → Text
  server_markup call json w =
      if settings.server_rendering
      then elim (find w.registry call.component) [
        | none ↦ []
        | some comp ↦ elim (engine.markup comp json) [ none ↦ [] | some markup ↦ markup ]
      ]
      else []

  -- assembleResponse
  unfoldable pub assemble_response :
      RenderData Props → Text → Rendered → Islands → Text → Result Rendered
  assemble_response call root artifact islands markup =
      let resp = record artifact { data_islands = islands } in
      with_html resp (
        engine.html_template
          (document call.head resp root (engine.hmr_script call.component) markup))

  -- render0 from the artifact on, up to the dispatch of the response
  unfoldable pub respond : RenderData Props → Text → Text → Rendered → Step D Rendered
  unfolding exec_middleware
  respond call json root artifact = do
    islands ←
        wrapped (text "[go-solid]: Error during execution of middleware: ")
          (exec_middleware call (insert (derive_props_mount_id root) json []))
    markup ← λ w. pure (server_markup call json w) w
    wrapped (text "[go-solid]: Error while assembling response: ")
        (or_fail (assemble_response call root artifact islands markup))

  -- render0 from the props on, up to the dispatch of the response
  unfoldable pub response_for : RenderData Props → Step D Rendered
  unfolding or_report compiled_artifact respond
  response_for call = do
    json ← or_report call props_marshaling_failure (marshal_props call.props)
    compiled ←
        wrapped (text "[go-solid]: Error during artifact compilation: ")
          (compiled_artifact disk engine settings call)
    respond call json compiled.0 compiled.1

  -- The faults that were held until the render: the source's, then the types'.
  abbrev pub unless_faulty : RenderData Props → Option Text → Option Text → Step D Rendered
  unless_faulty call (some e) types = or_report call anonymous_source_failure (failed e)
  unless_faulty call none (some e) = or_report call comp_props_insufficient_failure (failed e)
  unless_faulty call none none = response_for call

  unfoldable pub checked_response : RenderData Props → Step D Rendered
  unfolding or_report response_for
  checked_response call = unless_faulty call call.source_fault call.types_fault

  unfoldable pub render0 : RenderData Props → Step D Rendered
  unfolding checked_response transmit
  render0 call = elim call.cancelled [
    | some e ↦ or_fail (failed e)
    | none ↦ checked_response call >>= transmit engine.quote call
  ]
