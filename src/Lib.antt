-- ===== src/Lib.antt =====
-- go-solid: a library that serves SolidJS components from a Go server. This development models its
-- core, from the Go code, and proves what makes each part correct.
--
-- The parts, and the file that models each:
--   Prelude: tests on the native numbers, lists, Text for Go's strings, GoMap for Go's maps.
--   Paths: what is used of path/filepath, for POSIX.
--   Meta (shared/meta/meta.go): SplitSelector, JoinSelector, ValidExportName.
--   Component (shared/registry/registry.go): Component, NewComponent, WithExport, MountRootIDFor.
--   Registry (internal/registry.go): the state is the root, the map of components and whether a
--     watcher runs. AddFile, RemoveFile, Adopt, Lookup are functions from state to state and result;
--   Registry.Walk has Reload over the tree that filepath.WalkDir meets, Registry.Reactive the
--     callbacks of MakeReactive and runs of calls. A bundler adopts and looks up components here.
--   Collections.SetMap (internal/collections/setmap.go): the multimap of the dependency index.
--   Networking.Events (shared/networking/events/events.go): the events, their categories and the
--     ancestry that init builds, computed by the same passes.
--   Networking.HandlerMap (shared/networking/handlermap.go): chains of handlers filed under types. A
--     handler is a function of the event and a state; its result is nil, an error, or a panic.
--   Networking.Response (internal/networking/requestBehaviourBuilder.go and
--     shared/networking/requestBehaviourBuilder.go): the default responders over the calls made on the
--     http.ResponseWriter, CommitStatus and CodeUpon. Dispatch of Networking.HandlerMap runs them.
--   Caching and Caching.MemCache (internal/caching/shared.go, internal/caching/memcache.go): the cache
--     of rendered components, with the SetMap that indexes its keys by component.
--   DepIndex (internal/depindex.go): the components that depend on a source file, a SetMap.
--   Hmr (internal/hmr/hmr.go, internal/hmr/watching.go, internal/watching/debounce.go): one state for
--     the Watcher, its Debouncer and the Hub's connections. Moves is the step relation of the threads:
--     enqueue and Arm are two steps, as are the expiry of the timer, `fire` and the callback.
--   Types.Canonical (internal/types/canonical.go): CanonicalTS, one pass over the text with a mode for
--     the loop that is running.
--   Types.Shape (internal/types/shape.go): NewShape, Lookup, Violations, Satisfies, assignableTS.
--   Static.Scan (internal/static/manifest.go): BuildManifest, over a directory as an inductive tree of what
--     os.ReadDir and os.ReadFile answer; Static.Serving (internal/static/registry.go): the handler.
--   Ssr (internal/ssr): Ssr.Programs is the cache of the programs, Ssr.Renderer the renderer (with
--     shared/ssr/config.go); the compiler is a record of what its functions answer.
--   Watching (internal/watching/directoryWatcher.go): the watcher of a tree, whose callbacks act on the
--     state of whoever it is made for; Watching.Reactive is the registry's (internal/registry.go).
--   Types.Mapper (internal/types/mapper.go): the mapping of Go types. A reflect.Type is a number, and the
--     record Reflect says what reflect tells of it. The functions that call one another are the fields of
--     a record Walk; walk makes it by recursion on fuel, the depth of nested calls. Types.Mapper.Tags is
--     parseJSONTag, Types.Mapper.Props is ShapeOfType and ShapeOfValue.
--   Types.Cache (internal/types/cache.go): the cache of extractions, in memory and over the files of Io.
--     The reader of the sources is an argument of each operation, as it is at that time.
--   Sources (internal/sources/sources.go): Reader is a record of three functions; Memory and Overlay
--     make readers.
--   Static (internal/static/sanitize.go, internal/static/manifest.go): sanitize, claim and Resolve,
--     with the settings of shared/static/config.go.
--   Io (internal/io/atomic.go): writeAtomic, renameOver and WriteIfChanged over a map of files. The
--     loop of renameOver has its hundred attempts as fuel, which is the bound of the code.
--   CodeGen (internal/code-gen/templateTemplating.go): the data of the templates, and the inlining of
--     scripts and islands.
--   Render (render.go, FromDisk and searchCaches of bundler.go): the state is what the bundler holds
--     and the response of the request, with two ghosts, the events dispatched and the entries built.
--     Render.Steps, Render.Compile and Render.Respond follow render0 in its order; a step ends in a
--     value, an error or a handler's panic. Render.Effects carries a relation from the small steps to
--     a whole render, and Render.Ends what a step ends in. The cache on disk is an interface (DiskLayer),
--     and esbuild, the templates and the type checker are an Engine.
--   Caching.DiskCache (internal/caching/diskcache.go, internal/hashing/digest.go): the state is the index
--     of the cache, with the files of Io beside it. Caching.DiskCache.Writing has Put and
--     InvalidateComponent; each write is WriteAtomic of Io. Render.OnDisk puts it behind a render.
--   Bundler (bundler.go): the invalidation that New gives to the watchers, over the registry, both
--     caches and the dependency index.
--   Networking.Head (internal/networking/html.go, SetHTMLHeadSegment of internal/networking/defaults.go):
--     the builder of a document's head, with Go's maps as lists in the order of one iteration.
--
-- Bounds: Text is a list of code points without a limit on its length. Every loop of the code is over
-- a list, a text or a tree, or has a bound of its own, but for the walk of Types.Mapper over Go types:
-- it has fuel, the depth of nested calls, and runs out of it only where the code would recurse that
-- deep; Types.Mapper.Termination says how much is enough. The loop of ShapeOfValue has a count of its
-- rounds beside it, since a value may lead back to itself.
--
-- Not modelled: locks, since each method is one step; the type checker, of which Render has only the
-- calls, as it has of the server-side renderer; the rebuild of the generated module of static files;
-- the goroutine of a directory watcher; the changes that middleware may make to the handlers of its
-- request, since it changes the islands and the response here; esbuild, the Solid compiler and the
-- TypeScript parser, which are other people's programs; templates of generated text; logging.
-- strings.ToLower is modelled on ASCII letters; filepath.Rel, the digests, json and the errors of the
-- http.ResponseWriter are parameters.
mod Prelude
pub mod Meta
pub mod Collections
pub mod Paths
pub mod Component
pub mod Caching
pub mod DepIndex
pub mod Hmr
pub mod Sources
pub mod Io
pub mod Static
pub mod CodeGen
pub mod Types
pub mod Ssr
pub mod Watching
pub mod Bundler
pub mod Render
pub mod Registry
pub mod Networking
