-- ===== src/Paths.antt =====
-- What the program uses of Go's path/filepath, for the POSIX separator. Rel, which also needs the
-- working directory of the process, is a parameter where it is used.
use go_solid.Prelude.{
  ℕ, ◌+◌, Text, Option, none, some, [], ◌∷◌, ◌&&◌, not, leb, ◌==◌, map, contains_char,
  if◌then◌else◌,
}

abbrev pub separator : ℕ
separator = b'/'

-- strings.ToLower, on the letters of ASCII
abbrev pub lower_char : ℕ → ℕ
lower_char c = if leb b'A' c && leb c b'Z' then c + 32 else c

abbrev pub to_lower : Text → Text
to_lower = map lower_char

-- The part of the last path element from its last dot on, if it has a dot.
unfoldable pub ext_from : Text → Option Text
ext_from [] = none
ext_from (c ∷ s) = elim (ext_from s) [
  | some e ↦ some e
  | none ↦ if c == b'.' && not (contains_char separator s) then some (c ∷ s) else none
]

-- filepath.Ext
unfoldable pub file_ext : Text → Text
unfolding ext_from
file_ext path = elim (ext_from path) [ none ↦ [] | some e ↦ e ]

-- filepath.Base and path.Base, of a path that is not empty and has no separator last: what stands after
-- the last separator
unfoldable pub base : Text → Text
base [] = []
base (c ∷ s) = if contains_char separator (c ∷ s) then base s else c ∷ s
