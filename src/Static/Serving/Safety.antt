-- ===== src/Static/Serving/Safety.antt =====
-- internal/static: what the handler of the static files answers with, after a scan.
use go_solid.Prelude.{
  Text, text_eq, text_eq_iff, text_comparable, Option, none, some, List, [], ◌∷◌, ◌++◌, true, ◌≡◌,
  ◌⊎◌, sym, ◌∙◌, ap, subst, arith, inl, inr, Bool-cases, Option-cases,
}
use go_solid.Static.Config.{StaticConfig}
use go_solid.Static.Manifest.{Asset, Manifest, resolve, StandsFor, resolve-by_url}
use go_solid.Static.Scan.{Folder, Outside, done}
use go_solid.Static.Scan.Walk.{build_manifest}
use go_solid.Static.Scan.Listing.{shown, last_with, build_manifest-shown}
use go_solid.Static.Serving.{Headers, serve_content, asset_headers, served, is_read, handle}

-- An element of a list
abbrev pub Within : Asset → List Asset → Type 0
Within a assets = (before after : List Asset) × (assets ≡ before ++ a ∷ after)

last_with-Within :
    (of : Asset → Text) (v : Text) (assets : List Asset) (a : Asset)
    → last_with of v assets ≡ some a
    → Within a assets × (of a ≡ v)
last_with-Within of v [] a h = absurd (ground arith)
last_with-Within of v (b ∷ assets) a h = elim (Option-cases (last_with of v assets)) [
  | inr (later, e) ↦
      let ((before, after, same), at) = last_with-Within of v assets a (ground (arith, e)) in
      ((b ∷ before, after, ap (λ x. b ∷ x) same), at)
  | inl absent ↦ elim (Bool-cases (text_eq (of b) v)) [
    | inl here ↦
        let same : b ≡ a = ground (arith, absent, here) in
        (([], assets, ap (λ x. x ∷ assets) same), ap of (sym same) ∙ (text_eq_iff (of b) v).0 here)
    | inr other ↦ absurd (ground (arith, absent, other))
  ]
]

-- What ServeContent is called with: the asset's name and headers, and its bytes in memory or in its file.
abbrev pub Serves : (Text → Option Text) → Asset → Headers → Text → Text → Type 0
Serves files a headers name body =
    (headers ≡ asset_headers a)
    × (name ≡ a.rel)
    × ((a.mem_cached ≡ some body) ⊎ ((a.mem_cached ≡ none) × (files a.path ≡ some body)))

served-Serves :
    (files : Text → Option Text) (a : Asset) (headers : Headers) (name body : Text)
    → served files a ≡ serve_content headers name body
    → Serves files a headers name body
served-Serves files a headers name body h = elim (Option-cases a.mem_cached) [
  | inr (held, e) ↦ (ground (arith, e), ground (arith, e), inl (ground (arith, e)))
  | inl absent ↦ elim (Option-cases (files a.path)) [
    | inl gone ↦ absurd (ground (arith, absent, gone))
    | inr (now, e) ↦ (
      ground (arith, absent, e),
      ground (arith, absent, e),
      inr (absent, ground (arith, absent, e)),
    )
  ]
]

-- For a manifest that BuildManifest has returned without an error: where the handler serves a content, the method is GET or HEAD and
-- the content is that of a file of the scanned directory that was not hidden, from memory or from the file as
-- it is now, under the headers of that file; and the request's path is the file's URL, or is not below the
-- mount and is the URL without the mount.
pub handle-Serves :
    (o : Outside) (cfg : StaticConfig) (folder : Folder) (m : Manifest) (files : Text → Option Text)
    (method path : Text) (headers : Headers) (name body : Text)
    → build_manifest o cfg folder ≡ done m
    → handle (some m) files method path ≡ serve_content headers name body
    → (is_read method ≡ true)
      × (a : Asset) × Within a (shown o cfg folder)
      × StandsFor m path a.url
      × Serves files a headers name body
unfolding handle
handle-Serves o cfg folder m files method path headers name body built h =
    elim (Bool-cases (is_read method)) [
      | inr refused ↦ absurd (ground (arith, refused))
      | inl read ↦ elim (Option-cases (resolve (some m) path)) [
        | inl absent ↦ absurd (ground (arith, read, absent))
        | inr (a, found) ↦
            let (url, stands, at) = resolve-by_url m path a found in
            let (in_urls, in_rels, sources) = build_manifest-shown o cfg folder m url built in
            let (within, same) =
              last_with-Within (λ b. b.url) url (shown o cfg folder) a (sym in_urls ∙ at) in
            let answer : served files a ≡ serve_content headers name body =
              ground (arith, read, found) in
            (
              read,
              a,
              within,
              subst (StandsFor m path) (sym same) stands,
              served-Serves files a headers name body answer,
            )
      ]
    ]
