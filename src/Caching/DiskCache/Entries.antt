-- ===== src/Caching/DiskCache/Entries.antt =====
-- internal/caching/diskcache.go: the files that a Put writes.
use go_solid.Prelude.{
  text_eq-append, Text, text, text_eq, text_comparable, Option, none, some, [], ◌++◌, ◌&&◌, not,
  Bool, true, false, lookup, if◌then◌else◌, ◌≡◌, refl, ◌∙◌, ap, arith,
}
use go_solid.Sources.{ok}
use go_solid.Io.{Files}
use go_solid.Io.Replacing.{replacement, lookup-write_atomic}
use go_solid.Caching.{Rendered}
use go_solid.Caching.DiskCache.{Manifest, DiskCache, Outside, manifest_ext}
use go_solid.Caching.DiskCache.Writing.{write_file, next_write, write_styles, Stored}

-- What os.CreateTemp gives: a name that no file has, and not the path's.
abbrev pub GivesFresh : Outside → Type 0
GivesFresh outside =
    (fs : Files) (path : Text)
    → (lookup (outside.staged fs path) fs ≡ none) × (text_eq (outside.staged fs path) path ≡ false)

-- json.Unmarshal reads what json.Marshal wrote of a manifest.
abbrev pub ReadsBack : Outside → Manifest → Type 0
ReadsBack outside man =
    (bytes : Text) → outside.encode man ≡ ok bytes → outside.decode bytes ≡ some man

-- One file was written.
abbrev Wrote : Text → Text → Files → Files → Type 0
Wrote path bytes fs after =
    (q : Text)
    → lookup q after ≡ (if text_eq path q then some (replacement bytes 0) else lookup q fs)

module _ (outside : Outside) where
  write_file-Wrote :
      (path bytes : Text) (fs : Files)
      → GivesFresh outside
      → (write_file outside path bytes fs).1 ≡ none
      → Wrote path bytes fs (write_file outside path bytes fs).0
  unfolding write_file
  write_file-Wrote path bytes fs fresh fine q =
      let os = outside.answers fs path in
      let staged = outside.staged fs path in
      let written =
        lookup-write_atomic os staged path bytes 0 fs q (fresh fs path).1 (fresh fs path).0
          (ground (arith, fine)) in
      rw (written, fine) refl

  pub next_write-fine :
      (dc : DiskCache) (w : Files × Option Text) (next : Files → Stored outside)
      → (next_write outside dc w next).2 ≡ none
      → (w.1 ≡ none) × (next_write outside dc w next ≡ next w.0)
  next_write-fine dc (fs, some e) next h = absurd (ground arith)
  next_write-fine dc (fs, none) next h = (refl, refl)

  -- The files after the writes of an entry, in their order
  abbrev pub after_js : Text → Rendered → Files → Files
  after_js base r fs = (write_file outside (base ++ text ".js") r.js fs).0

  abbrev pub after_css : Text → Rendered → Files → Files
  after_css base r fs = (write_styles outside base r (after_js base r fs)).0

  abbrev pub after_all : Text → Text → Rendered → Files → Files
  after_all base bytes r fs =
      (write_file outside (base ++ manifest_ext) bytes (after_css base r fs)).0

  -- An entry whose files are there, with these bytes for its manifest.
  abbrev pub AreThere : Text → Text → Rendered → Files → Type 0
  AreThere base bytes r fs =
      (lookup (base ++ manifest_ext) fs ≡ some (replacement bytes 0))
      × (lookup (base ++ text ".js") fs ≡ some (replacement r.js 0))
      × (text_eq r.css [] ≡ false → lookup (base ++ text ".css") fs ≡ some (replacement r.css 0))

  -- What a write leaves of another file with the same stem, and of its own.
  write_beside :
      (base ext x bytes : Text) (fs : Files)
      → GivesFresh outside
      → (write_file outside (base ++ ext) bytes fs).1 ≡ none
      → lookup (base ++ x) (write_file outside (base ++ ext) bytes fs).0
        ≡ (if text_eq ext x then some (replacement bytes 0) else lookup (base ++ x) fs)
  write_beside base ext x bytes fs fresh fine =
      write_file-Wrote (base ++ ext) bytes fs fresh fine (base ++ x)
      ∙ ap (λ b. if b then some (replacement bytes 0) else lookup (base ++ x) fs)
          (text_eq-append base ext x)

  unless_empty :
      (b : Bool) (base x : Text) (r : Rendered) (fs : Files)
      → let w : Files × Option Text =
          if b then (fs, none) else write_file outside (base ++ text ".css") r.css fs in
        GivesFresh outside
        → w.1 ≡ none
        → lookup (base ++ x) w.0 ≡ (
            if not b && text_eq (text ".css") x
            then some (replacement r.css 0)
            else lookup (base ++ x) fs)
  unless_empty true base x r fs fresh fine = refl
  unless_empty false base x r fs fresh fine = write_beside base (text ".css") x r.css fs fresh fine

  write_styles-beside :
      (base x : Text) (r : Rendered) (fs : Files)
      → GivesFresh outside
      → (write_styles outside base r fs).1 ≡ none
      → lookup (base ++ x) (write_styles outside base r fs).0 ≡ (
          if not (text_eq r.css []) && text_eq (text ".css") x
          then some (replacement r.css 0)
          else lookup (base ++ x) fs)
  unfolding write_styles
  write_styles-beside base x r fs fresh fine =
      unless_empty (text_eq r.css []) base x r fs fresh fine

  pub after_all-AreThere :
      (base bytes : Text) (r : Rendered) (fs : Files)
      → GivesFresh outside
      → (write_file outside (base ++ text ".js") r.js fs).1 ≡ none
      → (write_styles outside base r (after_js base r fs)).1 ≡ none
      → (write_file outside (base ++ manifest_ext) bytes (after_css base r fs)).1 ≡ none
      → AreThere base bytes r (after_all base bytes r fs)
  after_all-AreThere base bytes r fs fresh js css man =
      let js_there = write_beside base (text ".js") (text ".js") r.js fs fresh js in
      let js_kept = write_styles-beside base (text ".js") r (after_js base r fs) fresh css in
      let css_there = write_styles-beside base (text ".css") r (after_js base r fs) fresh css in
      let there =
        λ (x : Text). write_beside base manifest_ext x bytes (after_css base r fs) fresh man in
      (
        there manifest_ext,
        there (text ".js") ∙ ground (arith, js_kept, js_there),
        λ styled. there (text ".css") ∙ css_there ∙ rw styled refl,
      )
