-- ===== src/Io/Tests.antt =====
-- The theorems on writes, where the first attempt to rename is refused.
use go_solid.Prelude.{
  ℕ, zero, suc, Text, text, text_comparable, Option, none, some, [], ◌∷◌, true, not, is_some, all,
  ltb, leb, length, lookup, insert, delete, ◌≡◌, refl,
}
use go_solid.Io.{
  Files, Answers, rename_loop, rename_over, replace_with, fill_and_replace, write_atomic,
}
use go_solid.Io.Replacing.{lookup-write_atomic}
use go_solid.Io.Retrying.{some_attempt, rename_over-attempts}

abbrev busy_once : ℕ → Option Text
busy_once zero = some (text "busy")
busy_once (suc n) = none

abbrev os : Answers
os = record {
  create_temp = none;
  write = none;
  partial = [];
  close = none;
  chmod = none;
  mkdir_all = none;
  read_file = none;
  rename = busy_once;
  remove = none;
}

abbrev old : Files
old = (text "/a", record { content = text "old"; mode = 420 }) ∷ []

program : Unit {0}
unfolding rename_loop rename_over replace_with fill_and_replace write_atomic lookup insert delete
program = tt

write_new :
    (write_atomic os (text "/t") (text "/a") (text "new") 420 old)
    ≡ ((text "/a", record { content = text "new"; mode = 420 }) ∷ [], none)
unfolding program
write_new = refl

lookup-write_atomic_example :
    lookup (text "/a") (write_atomic os (text "/t") (text "/a") (text "new") 420 old).0
    ≡ some (record { content = text "new"; mode = 420 })
unfolding program
lookup-write_atomic_example =
    lookup-write_atomic os (text "/t") (text "/a") (text "new") 420 old (text "/a") refl refl refl

rename_over-attempts_example :
    (is_some (rename_over busy_once).1 ≡ not (some_attempt busy_once 100 0))
    × (all (λ p. ltb p 20000) (rename_over busy_once).0 ≡ true)
    × (leb (length (rename_over busy_once).0) 100 ≡ true)
rename_over-attempts_example = rename_over-attempts busy_once
