-- ===== src/Static/Serving.antt =====
-- The Handler of internal/static/registry.go: how a request for a static file is answered. What
-- http.Error, http.NotFound and http.ServeContent do with what they are called with is not modelled.
pub mod Safety
mod Tests
use go_solid.Prelude.{
  Text, text, text_eq, text_comparable, Option, none, some, List, [], ◌∷◌, ◌++◌, ◌&&◌, not, Bool,
  ◌||◌, not, Bool, true, false, take, if◌then◌else◌,
}
use go_solid.Static.Manifest.{Asset, Manifest, resolve}

abbrev pub Headers : Type 0
Headers = List (Text × Text)

-- How the handler ends, with the headers that it has set: http.Error with 405, http.NotFound, or
-- http.ServeContent of a name and a content
pub data Answer : Type 0 where
  not_allowed : Headers → Answer
  not_found : Headers → Answer
  serve_content : Headers → Text → Text → Answer

-- strconv.Quote, of a text of hexadecimal digits
abbrev pub quote : Text → Text
quote s = text "\"" ++ s ++ text "\""

abbrev pub asset_headers : Asset → Headers
asset_headers asset =
    (text "Content-Type", asset.mime)
    ∷ (text "ETag", quote (take 16 asset.content_hash))
    ∷ (text "Cache-Control", text "public, max-age=31536000, immutable")
    ∷ (text "X-Content-Type-Options", text "nosniff")
    ∷ []

-- os.Open, where the asset is not in memory: `files` gives what a file holds now.
abbrev pub served : (Text → Option Text) → Asset → Answer
served files asset = elim asset.mem_cached [
  | some body ↦ serve_content (asset_headers asset) asset.rel body
  | none ↦ elim (files asset.path) [
    | none ↦ not_found (asset_headers asset)
    | some body ↦ serve_content (asset_headers asset) asset.rel body
  ]
]

abbrev pub is_read : Text → Bool
is_read method = text_eq method (text "GET") || text_eq method (text "HEAD")

-- Handler
unfoldable pub handle : Option Manifest → (Text → Option Text) → Text → Text → Answer
unfolding resolve
handle manifest files method path =
    if not (is_read method)
    then not_allowed ((text "Allow", text "GET, HEAD") ∷ [])
    else elim (resolve manifest path) [ none ↦ not_found [] | some asset ↦ served files asset ]
