-- ===== src/Ssr/Renderer.antt =====
-- internal/ssr/renderer.go and shared/ssr/config.go: the first paint of a component. A nil *Renderer and a nil
-- *SSRConfig are none; bytes.Buffer, whose writes cannot fail, is the text that has been written.
pub mod Escaping
pub mod Strictness
use go_solid.Prelude.{
  ℕ, Text, text, Option, none, some, List, [], ◌∷◌, ◌++◌, ◌&&◌, not, Bool, true, false, GoMap, map,
  if◌then◌else◌,
}
use go_solid.Component.{Component}
use go_solid.Sources.{Reader, Result, ok, failed}
use go_solid.Ssr.{
  Compiler, Red, Segment, static, hole, attribute, unknown, Fault, needs_client, not_evaluated,
  unknown_segment, Outcome, fine, refused,
}
use go_solid.Ssr.Programs.{Held, count_found, forget, get}

pub record SsrConfig : Type 0 where
  pub disabled : Bool
  pub strict : Bool

-- Active and IsStrict of a config
unfoldable pub is_active : Option SsrConfig → Bool
is_active none = false
is_active (some cfg) = not cfg.disabled

unfoldable pub is_strict : Option SsrConfig → Bool
is_strict none = false
is_strict (some cfg) = not cfg.disabled && cfg.strict

pub record Renderer (Program : Type 0) : Type 0 where
  pub cfg : Option SsrConfig
  pub programs : GoMap Text (Held Program)

-- A string of Unrenderable: the text of an error, or a code with its reason
pub data Reason : Type 0 where
  of_fault : Fault → Reason
  of_red : Red → Reason

module _ {Program : Type 0} where
  unfoldable pub new_renderer : Option SsrConfig → Renderer Program
  new_renderer cfg = record { cfg = cfg; programs = [] }

  -- Active
  unfoldable pub active : Option (Renderer Program) → Bool
  unfolding is_active
  active none = false
  active (some r) = is_active r.cfg

  -- Invalidate
  unfoldable pub invalidate : Text → Option (Renderer Program) → Option (Renderer Program)
  unfolding forget
  invalidate component none = none
  invalidate component (some r) = some (record r { programs = forget component r.programs })

module _ {Tree Program Plan Value Props : Type 0}
    (compiler : Compiler Tree Program Plan Value Props) where
  -- value, with writeSegment's case of a hole
  abbrev pub shown_value : Option Text → Text
  shown_value none = []
  shown_value (some s) = compiler.escape_text s

  -- writeAttribute
  unfoldable pub write_attribute : Text → Bool → Value → Text
  write_attribute name bool v =
      if bool
      then (if not (compiler.truthy v) then [] else text " " ++ name)
      else if compiler.absent v
      then []
      else if compiler.is_false v
      then []
      else text " "
        ++ name
        ++ text "=\""
        ++ compiler.escape_attr (compiler.to_string v)
        ++ text "\""

  -- writeSegment: what it writes, or its error
  abbrev pub evaluated : Result Value → (Value → Text) → Outcome Text
  evaluated (failed e) write = refused (not_evaluated e)
  evaluated (ok v) write = fine (write v)

  unfoldable pub write_segment : Segment Plan → Props → Outcome Text
  unfolding write_attribute
  write_segment (static html) props = fine html
  write_segment (hole plan) props =
      evaluated (compiler.eval plan props) (λ v. shown_value (compiler.display v))
  write_segment (attribute name bool plan) props =
      evaluated (compiler.eval plan props) (write_attribute name bool)
  write_segment unknown props = refused unknown_segment

  -- The loop of render, with the text that the rest writes
  abbrev pub written : Outcome Text → Outcome Text → Outcome Text
  written (refused e) rest = refused e
  written (fine s) (refused e) = refused e
  written (fine s) (fine rest) = fine (s ++ rest)

  unfoldable pub write_segments : List (Segment Plan) → Props → Outcome Text
  unfolding write_segment
  write_segments [] props = fine []
  write_segments (seg ∷ segs) props = written (write_segment seg props) (write_segments segs props)

  unfoldable pub render : Program → Props → Outcome Text
  unfolding write_segments
  render program props =
      if not (compiler.green program)
      then refused (needs_client (count_found (compiler.red program)))
      else write_segments (compiler.segments program) props

  abbrev pub render_outcome : Outcome Program → Props → Outcome Text
  render_outcome (refused e) props = refused e
  render_outcome (fine program) props = render program props

  -- Markup, of a renderer that is not nil and a component that is not nil
  unfoldable pub markup :
      Reader → Component → Props → Renderer Program → Outcome Text × Renderer Program
  unfolding get render is_active
  markup reader comp props r =
      if not (is_active r.cfg)
      then (fine [], r)
      else let (out, programs) = get compiler reader comp r.programs in
        (render_outcome out props, record r { programs = programs })

  abbrev pub reasons_of : Outcome Program → List Reason
  reasons_of (refused e) = of_fault e ∷ []
  reasons_of (fine program) =
      if compiler.green program then [] else map of_red (compiler.red program)

  unfoldable pub unrenderable :
      Reader → Component → Renderer Program → List Reason × Renderer Program
  unfolding get is_active
  unrenderable reader comp r =
      if not (is_active r.cfg)
      then ([], r)
      else let (out, programs) = get compiler reader comp r.programs in
        (reasons_of out, record r { programs = programs })

  -- OnPrepare: the error is the list of its reasons.
  abbrev pub unless_none : List Reason × Renderer Program → Option (List Reason) × Renderer Program
  unless_none ([], r) = (none, r)
  unless_none (reasons, r) = (some reasons, r)

  unfoldable pub on_prepare :
      Reader → Component → Renderer Program → Option (List Reason) × Renderer Program
  unfolding unrenderable is_strict
  on_prepare reader comp r =
      if not (is_strict r.cfg) then (none, r) else unless_none (unrenderable reader comp r)

  abbrev pub inert_outcome : Outcome Program → Bool
  inert_outcome (refused e) = false
  inert_outcome (fine program) = compiler.inert program

  unfoldable pub inert : Reader → Component → Renderer Program → Bool × Renderer Program
  unfolding get is_active
  inert reader comp r =
      if not (is_active r.cfg)
      then (false, r)
      else let (out, programs) = get compiler reader comp r.programs in
        (inert_outcome out, record r { programs = programs })
