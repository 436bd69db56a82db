-- ===== src/Render.antt =====
-- render.go, with searchCaches and FromDisk of bundler.go: one render, from the faults found at Prepare
-- to the response. A step is a function of the state of the bundler and of the request; it ends in a
-- value, in an error, or in the panic of a handler.
pub mod Steps
pub mod Compile
pub mod Respond
pub mod Effects
pub mod Paths
pub mod Reports
pub mod Purity
pub mod Ends
pub mod Hits
pub mod Behind
pub mod Reuse
pub mod OnDisk
mod Tests
use go_solid.Prelude.{ℕ, Text, text_comparable, Option, List, [], ◌++◌, Bool, GoMap}
use go_solid.Component.{Component}
use go_solid.Registry.{Registry}
use go_solid.Sources.{Reader, Result}
use go_solid.Caching.{Rendered, CacheKey}
use go_solid.Caching.MemCache.{MemCache}
use go_solid.DepIndex.{DependencyIndex}
use go_solid.Networking.Events.{Event}
use go_solid.Networking.HandlerMap.{Defect, HandlerMap}
use go_solid.Networking.Response.{Response}
use go_solid.CodeGen.{Document, EntryData}

-- What esbuild.BundleEntry gives.
pub record Bundle : Type 0 where
  pub js : Text
  pub css : Text
  pub sources : List Text

-- The cache on disk, as the bundler uses it: D is its state and that of the files.
pub record DiskLayer (D : Type 0) : Type 0 where
  pub load : D → CacheKey → Option Rendered × D
  pub store : D → CacheKey → Rendered → List Text → D × Option Text

-- What the render calls outside the modules modelled here: marshal is json.Marshal of the value behind
-- the props' pointers; verify_export is Checker.VerifyComponentExport; write_entry is
-- esbuild.WriteTempEntry; bundle_entry is esbuild.BundleEntry; markup is Renderer.Markup with the props
-- read again; the templates are text/template's; quote and short are strconv.Quote and hashing.Short.
pub record Engine (Props : Type 0) : Type 0 where
  pub marshal : Props → Result Text
  pub verify_export : Component → Option Text
  pub write_entry : Text → Result Text
  pub bundle_entry : Text → Result Bundle
  pub markup : Component → Text → Option Text
  pub js_template : EntryData → Result Text
  pub html_template : Document → Result Text
  pub hmr_script : Text → Text
  pub quote : Text → Text
  pub short : Text → ℕ → Text
  pub normalize : Text → Text

-- The settings that a render reads, and bundler.sources.
pub record Settings : Type 0 where
  pub build_id : Text
  pub generation_disabled : Bool
  pub server_rendering : Bool
  pub sources : Reader

-- LimitedAccessView: the islands, which middleware puts data into.
abbrev pub Islands : Type 0
Islands = GoMap Text Text

abbrev pub Middleware : Type 0
Middleware = Islands → Response → Option Text × Islands × Response

-- RequestBehaviour without its response
pub record Request : Type 0 where
  pub handlers : HandlerMap Response
  pub middleware : List Middleware

-- renderData: where no value stands behind the props' pointers, props is none; cancelled is the
-- context's error.
pub record RenderData (Props : Type 0) : Type 0 where
  pub cancelled : Option Text
  pub component : Text
  pub props : Option Props
  pub root : Text
  pub head : Text
  pub request : Option Request
  pub types_fault : Option Text
  pub source_fault : Option Text

-- The state: the bundler's, the request's response, and two ghosts, the events that were dispatched
-- and the entries that esbuild was called on.
pub record World (D : Type 0) : Type 0 where
  pub registry : Registry
  pub mem : MemCache
  pub disk : D
  pub index : DependencyIndex
  pub response : Response
  pub dispatched : List Event
  pub built : List Text

pub data Answer (A : Type 0) : Type 0 where
  done : A → Answer A
  fails : Text → Answer A
  panics : Defect → Answer A

abbrev pub Step : Type 0 → Type 0 → Type 0
Step D A = World D → Answer A × World D

module _ {D : Type 0} where
  abbrev pub pure : {A : Type 0} → A → Step D A
  pure a w = (done a, w)

  abbrev pub go_on : {A B : Type 0} → Answer A × World D → (A → Step D B) → Answer B × World D
  go_on (done a, w) next = next a w
  go_on (fails e, w) next = (fails e, w)
  go_on (panics d, w) next = (panics d, w)

  infixl 5 ◌>>=◌
  unfoldable pub ◌>>=◌ : {A B : Type 0} → Step D A → (A → Step D B) → Step D B
  (m >>= next) w = go_on (m w) next

  -- fmt.Errorf("…: %s", err)
  abbrev pub wrap : {A : Type 0} → Text → Answer A × World D → Answer A × World D
  wrap before (done a, w) = (done a, w)
  wrap before (fails e, w) = (fails (before ++ e), w)
  wrap before (panics d, w) = (panics d, w)

  unfoldable pub wrapped : {A : Type 0} → Text → Step D A → Step D A
  wrapped before m w = wrap before (m w)
