-- ===== src/Static/Serving/Tests.antt =====
-- A scan of a small directory, and requests for its files.
use go_solid.Prelude.{
  Text, text, text_eq, text_leb, text_comparable, has_suffix, trim_suffix, lookup, insert, Option,
  none, some, [], ◌∷◌, true, false, if◌then◌else◌, ◌≡◌, refl,
}
use go_solid.Paths.{base, ext_from, file_ext}
use go_solid.Sources.{ok}
use go_solid.Static.Config.{
  StaticConfig, with_slashes, effective_mount_path, effective_ignore, effective_inline_limit,
}
use go_solid.Static.Keys.{claim, sanitize, fold_runes, guard_first, is_identifier_rune}
use go_solid.Static.Manifest.{
  Asset, leaf, by_extension, dir, no_dirs, sub, Manifest, StandsFor, resolve,
}
use go_solid.Static.Scan.{
  Folder, readable, no_nodes, node, file_node, dir_node, collision, done, stopped, Outside,
  insert_dir, sort_dirs, known_type, media_type, described, check_name, split_extensions, entry_for,
  file_entries, finish, scan_file,
}
use go_solid.Static.Scan.Walk.{walk_folder, shown_folder, build_manifest}
use go_solid.Static.Scan.Listing.{shown, last_with, build_manifest-shown}
use go_solid.Static.Serving.{serve_content, not_found, asset_headers, is_read, handle}
use go_solid.Static.Serving.Safety.{Within, Serves, handle-Serves}

program : Unit {0}
unfolding ext_from file_ext base with_slashes effective_mount_path effective_ignore
    effective_inline_limit claim sanitize fold_runes guard_first is_identifier_rune resolve
    insert_dir sort_dirs known_type media_type described check_name split_extensions entry_for
    file_entries finish scan_file walk_folder shown_folder build_manifest handle has_suffix
    trim_suffix text_leb lookup insert
program = tt

abbrev outside : Outside
outside = record {
  matches = λ pattern name. some (text_eq pattern name);
  short = λ s n. text "0123456789abcdef0";
  type_by_extension = λ ext. if text_eq ext (text ".svg") then text "image/svg+xml" else [];
  parse_media_type = λ t. none;
  is_letter = λ c. true;
  is_digit = λ c. false;
}

abbrev config : StaticConfig
config = record {
  location = text "/s";
  ignore = some (text "x.map" ∷ []);
  mount_path = text "m";
  disabled = false;
  inline_limit = 3;
}

abbrev folder : Folder
folder = readable (
    node (file_node (text ".env") (ok (text "secret"))) (
      node
        (dir_node (text "img")
          (readable (node (file_node (text "a.svg") (ok (text "<a>"))) no_nodes)))
        (node (file_node (text "b.bin") (ok (text "long")))
          (node (file_node (text "x.map") (ok [])) no_nodes))))

abbrev picture : Asset
picture = record {
  rel = text "img/a.svg";
  path = text "/s/img/a.svg";
  url = text "/m/img/a.01234567.svg";
  mime = text "image/svg+xml";
  size = 3;
  content_hash = text "0123456789abcdef0";
  mem_cached = some (text "<a>");
}

abbrev binary : Asset
binary = record {
  rel = text "b.bin";
  path = text "/s/b.bin";
  url = text "/m/b.01234567.bin";
  mime = text "application/octet-stream";
  size = 4;
  content_hash = text "0123456789abcdef0";
  mem_cached = none;
}

abbrev manifest : Manifest
manifest = record {
  root = text "/s";
  mount_path = text "/m/";
  by_url = (picture.url, picture) ∷ (binary.url, binary) ∷ [];
  by_rel = (picture.rel, picture) ∷ (binary.rel, binary) ∷ [];
  tree =
      dir [] [] (sub (dir (text "img") (text "img") no_dirs (leaf (text "a") picture ∷ [])) no_dirs)
        (leaf (text "b") binary ∷ []);
  sources = text "/s/b.bin" ∷ text "/s/img/a.svg" ∷ [];
}

built : build_manifest outside config folder ≡ done manifest
unfolding program
built = refl

-- A file beside a directory of the same key
collides :
    build_manifest outside config (
      readable (
        node
          (dir_node (text "a") (readable no_nodes))
          (node (file_node (text "a.svg") (ok [])) no_nodes)))
    ≡ stopped (
        collision
          (record { previous = text "a/ (directory)"; wanted_by = text "a.svg"; at = text "a" }))
unfolding program
collides = refl

-- Two files that share a key get their extensions for keys.
grouped :
    entry_for outside (text "a") (picture ∷ record picture { rel = text "img/a.PNG" } ∷ [])
    ≡ done (
        by_extension
          (text "a")
          ((text "PNG", record picture { rel = text "img/a.PNG" }) ∷ (text "svg", picture) ∷ []))
unfolding program
grouped = refl

build_manifest-shown_example :
    (lookup (text "/m/b.01234567.bin") manifest.by_url
      ≡ last_with (λ a. a.url) (text "/m/b.01234567.bin") (shown outside config folder))
    × (lookup (text "/m/b.01234567.bin") manifest.by_rel
        ≡ last_with (λ a. a.rel) (text "/m/b.01234567.bin") (shown outside config folder))
    × (manifest.sources ≡ text "/s/b.bin" ∷ text "/s/img/a.svg" ∷ [])
unfolding program
build_manifest-shown_example =
    build_manifest-shown outside config folder manifest (text "/m/b.01234567.bin") built

-- What the files hold later
abbrev files : Text → Option Text
files path = if text_eq path (text "/s/b.bin") then some (text "now") else none

streamed :
    handle (some manifest) files (text "GET") (text "/b.01234567.bin")
    ≡ serve_content (asset_headers binary) (text "b.bin") (text "now")
unfolding program
streamed = refl

hidden : handle (some manifest) files (text "GET") (text "/m/.env") ≡ not_found []
unfolding program
hidden = refl

handle-Serves_example :
    (is_read (text "GET") ≡ true)
    × (a : Asset) × Within a (shown outside config folder)
    × StandsFor manifest (text "/b.01234567.bin") a.url
    × Serves files a (asset_headers binary) (text "b.bin") (text "now")
handle-Serves_example =
    handle-Serves outside config folder manifest files (text "GET") (text "/b.01234567.bin")
      (asset_headers binary) (text "b.bin") (text "now") built streamed
