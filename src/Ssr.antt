-- ===== src/Ssr.antt =====
-- internal/ssr: server-side rendering. The compiler, a third-party package, is a parameter: a record of what
-- its functions answer. The texts of the errors, which fmt makes, are not modelled: a Fault has their
-- arguments.
pub mod Programs
pub mod Renderer
mod Tests
use go_solid.Prelude.{ℕ, Text, Option, List, Bool}
use go_solid.Sources.{Result}

-- A component that tsx.Components finds
pub record Found (Program : Type 0) : Type 0 where
  pub name : Text
  pub default : Bool
  pub program : Program

-- What the compiler could not describe
pub record Red : Type 0 where
  pub code : Text
  pub reason : Text

-- What the switch of writeSegment sees in a segment
pub data Segment (Plan : Type 0) : Type 0 where
  static : Text → Segment Plan
  hole : Plan → Segment Plan
  attribute : Text → Bool → Plan → Segment Plan
  unknown : Segment Plan

-- The compiler: Parse and tsx.Components, the methods and fields of solid.Program, and the functions that
-- the writing of a segment calls. `absent` is `v == nil || v == solid.Undef`, and `is_false` that a value
-- is the Boolean false.
pub record Compiler (Tree Program Plan Value Props : Type 0) : Type 0 where
  pub parse : Text → Text → Option Tree
  pub components : Tree → List (Found Program)
  pub green : Program → Bool
  pub inert : Program → Bool
  pub red : Program → List Red
  pub segments : Program → List (Segment Plan)
  pub eval : Plan → Props → Result Value
  pub display : Value → Option Text
  pub truthy : Value → Bool
  pub absent : Value → Bool
  pub is_false : Value → Bool
  pub to_string : Value → Text
  pub escape_text : Text → Text
  pub escape_attr : Text → Text

pub data Fault : Type 0 where
  stat_failed read_failed : Text → Text → Fault
  unparsed no_component : Text → Fault
  unknown_export : Text → Text → Fault
  no_default : Text → ℕ → Fault
  needs_client : ℕ → Fault
  not_evaluated : Text → Fault
  unknown_segment : Fault

-- A value, or an error
pub data Outcome (A : Type 0) : Type 0 where
  fine : A → Outcome A
  refused : Fault → Outcome A
