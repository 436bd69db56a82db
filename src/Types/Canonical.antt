-- ===== src/Types/Canonical.antt =====
-- internal/types/canonical.go: the form in which type expressions are compared. The loops over an
-- index are one pass over the text, whose Mode says which loop is running.
use go_solid.Prelude.{
  ℕ, Text, text, [], ◌∷◌, ◌++◌, Bool, true, false, ◌&&◌, ◌||◌, leb, ◌==◌, trim_suffix,
  if◌then◌else◌,
}

unfoldable pub is_space : ℕ → Bool
is_space c = c == 32 || c == 9 || c == 10 || c == 13 || c == 12 || c == 11

unfoldable pub is_word : ℕ → Bool
is_word c =
    c == b'_'
    || c == b'$'
    || leb b'a' c && leb c b'z'
    || leb b'A' c && leb c b'Z'
    || leb b'0' c && leb c b'9'

-- b, prev and pending
pub record Output : Type 0 where
  pub written : Text
  pub prev : ℕ
  pub pending : Bool

-- WriteRune and the assignment of prev
unfoldable pub write_raw : ℕ → Output → Output
write_raw c o = record { written = o.written ++ c ∷ []; prev = c; pending = o.pending }

-- The closure `write`
unfoldable pub write : ℕ → Output → Output
unfolding write_raw is_word
write c o =
    if o.pending && is_word o.prev && is_word c
    then write_raw c (record { written = o.written ++ 32 ∷ []; prev = o.prev; pending = false })
    else write_raw c (record o { pending = false })

-- The loop that the next character belongs to. `opening` and `closing` stand before the second
-- character of the marks of a comment.
pub data Mode : Type 0 where
  code line opening block closing : Mode
  quoted escaped : ℕ → Mode

abbrev next_is : ℕ → Text → Bool
next_is c [] = false
next_is c (d ∷ s) = c == d

abbrev more : Text → Bool
more [] = false
more (c ∷ s) = true

abbrev pause : Output → Output
pause o = record o { pending = true }

-- What one character does, given the text after it.
unfoldable pub advance : Mode → Output → ℕ → Text → Mode × Output
unfolding write write_raw is_space
advance code o c s =
    if c == b'/' && next_is b'/' s
    then (line, pause o)
    else if c == b'/' && next_is b'*' s
    then (opening, pause o)
    else if c == 34 || c == 39 || c == 96
    then (quoted c, write c o)
    else if c == b','
    then (code, write b';' o)
    else if is_space c
    then (code, pause o)
    else (code, write c o)
advance line o c s = if c == 10 then (code, o) else (line, o)
advance opening o c s = (block, o)
advance block o c s = if c == b'*' && next_is b'/' s then (closing, o) else (block, o)
advance closing o c s = (code, o)
advance (quoted q) o c s =
    if c == 92 && more s
    then (escaped q, write_raw c o)
    else if c == q
    then (code, write_raw c o)
    else (quoted q, write_raw c o)
advance (escaped q) o c s = (quoted q, write_raw c o)

unfoldable pub scan : Mode → Output → Text → Text
unfolding advance
scan m o [] = o.written
scan m o (c ∷ s) = let (next, after) = advance m o c s in scan next after s

-- strings.ReplaceAll(s, ";}", "}")
unfoldable pub drop_last_separators : Text → Text
drop_last_separators [] = []
drop_last_separators (c ∷ s) =
    if c == b';' && next_is b'}' s then drop_last_separators s else c ∷ drop_last_separators s

unfoldable pub canonical_ts : Text → Text
unfolding scan drop_last_separators
canonical_ts s =
    trim_suffix
      (drop_last_separators (scan code (record { written = []; prev = 0; pending = false }) s))
      (text ";")
