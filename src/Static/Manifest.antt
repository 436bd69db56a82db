-- ===== src/Static/Manifest.antt =====
-- internal/static/manifest.go: the manifest, and Resolve, which says what a request path can reach.
use go_solid.Prelude.{
  ℕ, List, Text, text, text_comparable, Option, none, some, ◌++◌, false, GoMap, lookup, has_prefix,
  trim_prefix, if◌then◌else◌, ◌≡◌, ◌⊎◌, refl, arith, inl, inr, Option-cases, Bool-cases,
}

pub record Asset : Type 0 where
  pub rel : Text
  pub path : Text
  pub url : Text
  pub mime : Text
  pub size : ℕ
  pub content_hash : Text
  pub mem_cached : Option Text

-- Entry: one asset, or several by their extensions, each with its key
pub data Entry : Type 0 where
  leaf : Text → Asset → Entry
  by_extension : Text → List (Text × Asset) → Entry

abbrev pub entry_key : Entry → Text
entry_key (leaf key asset) = key
entry_key (by_extension key assets) = key

-- Dir: the name, the relative path, the directories and the files
mutual
  pub data Dir : Type 0 where
    dir : Text → Text → Dirs → List Entry → Dir

  pub data Dirs : Type 0 where
    no_dirs : Dirs
    sub : Dir → Dirs → Dirs

abbrev pub dir_name : Dir → Text
dir_name (dir name rel dirs files) = name

pub record Manifest : Type 0 where
  pub root : Text
  pub mount_path : Text
  pub by_url : GoMap Text Asset
  pub by_rel : GoMap Text Asset
  pub tree : Dir
  pub sources : List Text

unfoldable pub resolve : Option Manifest → Text → Option Asset
resolve none path = none
resolve (some m) path = elim (lookup path m.by_url) [
  | some asset ↦ some asset
  | none ↦
      if has_prefix path m.mount_path
      then none
      else lookup (m.mount_path ++ trim_prefix path (text "/")) m.by_url
]

-- The URL that a request path stands for: itself, or itself below the mount.
abbrev pub StandsFor : Manifest → Text → Text → Type 0
StandsFor m path url =
    (url ≡ path)
    ⊎ ((has_prefix path m.mount_path ≡ false) × (url ≡ m.mount_path ++ trim_prefix path (text "/")))

-- What Resolve gives is in the manifest, under the request's path or, where that is not below the
-- mount, under the path below the mount.
pub resolve-by_url :
    (m : Manifest) (path : Text) (asset : Asset)
    → resolve (some m) path ≡ some asset
    → (url : Text) × StandsFor m path url × (lookup url m.by_url ≡ some asset)
unfolding resolve
resolve-by_url m path asset h = elim (Option-cases (lookup path m.by_url)) [
  | inr (found, e) ↦ (path, inl refl, ground (arith, e, h))
  | inl absent ↦ elim (Bool-cases (has_prefix path m.mount_path)) [
    | inl below ↦ ground (arith, absent, below, h)
    | inr above ↦ (
      m.mount_path ++ trim_prefix path (text "/"),
      inr (above, refl),
      ground (arith, absent, above, h),
    )
  ]
]
