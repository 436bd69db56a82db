-- ===== src/Static/Config.antt =====
-- shared/static/config.go: the settings of the static files, and what they resolve to. A nil config
-- is none, and so is a nil list of patterns. InlineLimit is not
-- negative here.
use go_solid.Prelude.{
  ℕ, Text, text, text_eq, Option, none, some, List, [], ◌∷◌, ◌++◌, Bool, true, false, not, ◌&&◌,
  ◌==◌, has_prefix, has_suffix, if◌then◌else◌, ◌≡◌, refl, arith, inl, inr, Bool-cases,
}

pub record StaticConfig : Type 0 where
  pub location : Text
  pub ignore : Option (List Text)
  pub mount_path : Text
  pub disabled : Bool
  pub inline_limit : ℕ

-- DEFAULT_IGNORE
abbrev pub default_ignore : List Text
default_ignore =
    text ".DS_Store"
    ∷ text "Thumbs.db"
    ∷ text ".gitkeep"
    ∷ text ".gitignore"
    ∷ text "*.map"
    ∷ text "desktop.ini"
    ∷ []

-- DEFAULT_MOUNT_PATH and DEFAULT_INLINE_LIMIT
abbrev pub default_mount_path : Text
default_mount_path = text "/__go_solid_static__/"

abbrev pub default_inline_limit : ℕ
default_inline_limit = 262144

unfoldable pub active : Option StaticConfig → Bool
active none = false
active (some cfg) = not cfg.disabled && not (text_eq cfg.location [])

-- The two guards at the end of EffectiveMountPath
unfoldable pub with_slashes : Text → Text
with_slashes path =
    let rooted = if has_prefix path (text "/") then path else text "/" ++ path in
    if has_suffix rooted (text "/") then rooted else rooted ++ text "/"

unfoldable pub effective_mount_path : Option StaticConfig → Text
unfolding with_slashes
effective_mount_path none = with_slashes default_mount_path
effective_mount_path (some cfg) =
    with_slashes (if text_eq cfg.mount_path [] then default_mount_path else cfg.mount_path)

unfoldable pub effective_ignore : Option StaticConfig → List Text
effective_ignore none = default_ignore
effective_ignore (some cfg) = elim cfg.ignore [ none ↦ default_ignore | some ignore ↦ ignore ]

unfoldable pub effective_inline_limit : Option StaticConfig → ℕ
effective_inline_limit none = default_inline_limit
effective_inline_limit (some cfg) =
    if cfg.inline_limit == 0 then default_inline_limit else cfg.inline_limit

slash-suffix : (s : Text) → has_suffix (s ++ text "/") (text "/") ≡ true
unfolding has_suffix
slash-suffix [] = refl
slash-suffix (c ∷ s) = ground (arith, slash-suffix s)

prefix-append :
    (s : Text) → has_prefix s (text "/") ≡ true → has_prefix (s ++ text "/") (text "/") ≡ true
prefix-append [] h = refl
prefix-append (c ∷ s) h = h

slashes :
    (s : Text)
    → has_prefix (with_slashes s) (text "/") && has_suffix (with_slashes s) (text "/") ≡ true
unfolding with_slashes
slashes s = elim (Bool-cases (has_prefix s (text "/"))) [
  | inl rooted ↦ ground (arith, rooted, slash-suffix s, prefix-append s)
  | inr bare ↦ ground (arith, bare, slash-suffix (text "/" ++ s), prefix-append (text "/" ++ s))
]

-- Whatever is configured, the mount path in effect begins and ends with a slash.
pub effective_mount_path-slashes :
    (cfg : Option StaticConfig)
    → (has_prefix (effective_mount_path cfg) (text "/") ≡ true)
      × (has_suffix (effective_mount_path cfg) (text "/") ≡ true)
unfolding effective_mount_path
effective_mount_path-slashes none = ground (arith, slashes default_mount_path)
effective_mount_path-slashes (some cfg) =
    ground
      (arith, slashes (if text_eq cfg.mount_path [] then default_mount_path else cfg.mount_path))
