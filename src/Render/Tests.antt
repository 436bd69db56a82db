-- ===== src/Render/Tests.antt =====
-- The pipeline with a small engine and a small disk, and the theorems at runs of it.
use go_solid.Prelude.{
  Text, text, text_comparable, Option, none, some, [], ◌∷◌, true, false, GoMap, lookup, insert, ◌≡◌,
  refl, arith,
}
use go_solid.Sources.{failed, ok}
use go_solid.Caching.{Rendered, CacheKey, key_comparable, safe_stem, new_build_cache_key}
use go_solid.Caching.MemCache.{new_mem_cache, get, put}
use go_solid.Networking.Events.{
  new_transmit_rendered_template, dynamic_ancestry, ancestry, ancestry_of, sort_by_parents, place,
  parents, implements, deref,
}
use go_solid.Render.{
  DiskLayer, Engine, Settings, Middleware, RenderData, World, done, ◌>>=◌, wrapped,
}
use go_solid.Render.Steps.{or_report, exec_middleware, run_middleware, transmit, tell, or_fail}
use go_solid.Render.Compile.{
  compiled_artifact, cached_or_built, search_caches, from_disk, build_artifact, bundle_component,
  run_esbuild, index_bundle, package_bundle, keep_artifact,
}
use go_solid.Render.Respond.{
  render0, checked_response, response_for, respond, assemble_response, server_markup, marshal_props,
}
use go_solid.Registry.{find}
use go_solid.Meta.{split_selector, cut_last}
use go_solid.CodeGen.{entry_data, document, derive_props_mount_id}
use go_solid.Networking.HandlerMap.{dispatch, dispatch_along, run, chain_at}
use go_solid.Render.Effects.{IsBare}
use go_solid.Render.Reports.{render0-IsTold, IsTold}
use go_solid.Caching.DiskCache.{
  DiskCache, Outside, new_disk_cache, load, ensure_index, index_all, listed, key_string, load_at,
  entry_stem, record_digests,
}
use go_solid.Caching.DiskCache.Writing.{store, manifest_for, write_file}
use go_solid.Io.{Files, write_atomic}
use go_solid.Render.OnDisk.{on_disk, render0-on_disk-IsBare}
use go_solid.Render.Reuse.{render0_again, HasAssetsOf}

abbrev stripped : Option Rendered → Option Rendered
stripped none = none
stripped (some r) = some (record r { html = []; data_islands = [] })

abbrev shelf : DiskLayer (GoMap CacheKey Rendered)
shelf = record {
  load = λ d key. (stripped (lookup key d), d);
  store = λ d key r sources. (insert key r d, none);
}

abbrev engine : Engine Text
engine = record {
  marshal = λ props. ok props;
  verify_export = λ comp. none;
  write_entry = λ content. ok (text "/tmp/e.tsx");
  bundle_entry =
      λ entry. ok (record { js = text "run()"; css = []; sources = text "/c/a.tsx" ∷ [] });
  markup = λ comp json. none;
  js_template = λ entry. ok entry.comp_name;
  html_template = λ doc. ok doc.head;
  hmr_script = λ component. [];
  quote = λ s. s;
  short = λ s n. text "0";
  normalize = λ s. s;
}

abbrev settings : Settings
settings = record {
  build_id = text "b";
  generation_disabled = false;
  server_rendering = false;
  sources = record {
    read = λ path. ok (record { content = text "c"; stamp = []; inline = false });
    stamp_of = λ path. ok [];
    digest_of = λ path. none;
  };
}

abbrev world : World (GoMap CacheKey Rendered)
world = record {
  registry = record {
    root = text "/c";
    components =
        (
          text "a",
          record {
            name = text "a";
            path = text "/c/a.tsx";
            ext = text ".tsx";
            export = [];
            mount_root_id = text "m";
          },
        )
        ∷ [];
    reactive = false;
  };
  mem = new_mem_cache true;
  disk = [];
  index = [];
  response = record { writer = none; status_written = false; written = [] };
  dispatched = [];
  built = [];
}

-- Middleware that adds an island of the user's
abbrev add_user : Middleware
add_user islands r = (none, insert (text "user") (text "1") islands, r)

abbrev call : RenderData Text
call = record {
  cancelled = none;
  component = text "a";
  props = some (text "{}");
  root = [];
  head = text "<title>";
  request = some (record { handlers = []; middleware = add_user ∷ [] });
  types_fault = none;
  source_fault = none;
}

abbrev page : Rendered
page = record {
  html = text "<title>";
  css = [];
  js = text "run()";
  css_name = [];
  js_name = text "a.0.js";
  data_islands = (text "props-m", text "{}") ∷ (text "user", text "1") ∷ [];
}

-- The key of the render's artifact, and the artifact
abbrev key : CacheKey
key = record { component = text "a"; root = text "m"; build = text "b" }

abbrev artifact : Rendered
artifact = record page { html = []; data_islands = [] }

rendered :
    ((render0 shelf engine settings call world).0 ≡ done page)
    × (lookup key (render0 shelf engine settings call world).1.mem.entries ≡ some artifact)
unfolding render0 checked_response response_for respond assemble_response server_markup
    marshal_props compiled_artifact cached_or_built search_caches from_disk build_artifact
    bundle_component run_esbuild index_bundle package_bundle keep_artifact or_report exec_middleware
    run_middleware transmit tell ◌>>=◌ wrapped or_fail new_mem_cache get put lookup insert find
    split_selector cut_last safe_stem entry_data derive_props_mount_id
    new_transmit_rendered_template dispatch dispatch_along dynamic_ancestry ancestry ancestry_of
    sort_by_parents place parents implements deref run chain_at document new_build_cache_key
rendered = (refl, refl)

render0-IsTold_example :
    let (answer, w) = render0 shelf engine settings call world in
    IsTold call.request [] w.dispatched answer
render0-IsTold_example = render0-IsTold shelf engine settings call world

render0_again_example :
    let other = record call { props = none; request = none } in
    let w1 = (render0 shelf engine settings call world).1 in
    let (answer, w2) = render0 shelf engine settings other w1 in
    (w2.built ≡ w1.built) × (w2.mem ≡ w1.mem) × HasAssetsOf page answer
unfolding new_mem_cache
render0_again_example =
    render0_again shelf engine settings call (record call { props = none; request = none }) world
      page refl refl refl rendered.0

-- What a cache on disk calls, on a disk that is full
abbrev outside : Outside
outside = record {
  sha = λ s. s;
  size = λ s. s;
  now = [];
  encode = λ man. failed (text "full");
  decode = λ bytes. none;
  answers = λ fs path. record {
    create_temp = some (text "full");
    write = none;
    partial = [];
    close = none;
    chmod = none;
    mkdir_all = none;
    read_file = none;
    rename = λ n. none;
    remove = none;
  };
  staged = λ fs path. path;
  normalize = λ s. s;
}

abbrev small_world : World (DiskCache × Files)
small_world = record {
  registry = world.registry;
  mem = new_mem_cache true;
  disk = (new_disk_cache (text "/w") true, []);
  index = [];
  response = world.response;
  dispatched = [];
  built = [];
}

rendered_on_disk :
    lookup key (render0 (on_disk outside false) engine settings call small_world).1.mem.entries
    ≡ some artifact
unfolding render0 checked_response response_for respond assemble_response server_markup
    marshal_props compiled_artifact cached_or_built search_caches from_disk build_artifact
    bundle_component run_esbuild index_bundle package_bundle keep_artifact or_report exec_middleware
    run_middleware transmit tell ◌>>=◌ wrapped or_fail new_mem_cache get put lookup insert find
    split_selector cut_last safe_stem entry_data derive_props_mount_id
    new_transmit_rendered_template dispatch dispatch_along dynamic_ancestry ancestry ancestry_of
    sort_by_parents place parents implements deref run chain_at document new_build_cache_key load
    store ensure_index index_all listed key_string load_at entry_stem manifest_for record_digests
    write_file write_atomic new_disk_cache
rendered_on_disk = refl

render0-on_disk-IsBare_example : IsBare artifact
unfolding new_mem_cache lookup
render0-on_disk-IsBare_example =
    render0-on_disk-IsBare outside false engine settings call small_world
      (λ key r h. absurd (ground arith)) key artifact rendered_on_disk
