-- ===== src/Ssr/Programs.antt =====
-- internal/ssr/programs.go: the programs of the components, held until the file behind them changes. The
-- reader of the sources is an argument of each operation, as it is at that time; the lock is not modelled.
pub mod Holding
pub mod Freshness
use go_solid.Prelude.{
  ℕ, suc, Text, text_eq, text_comparable, Option, none, some, List, [], ◌∷◌, not, Bool, true, false,
  GoMap, lookup, insert, delete, if◌then◌else◌,
}
use go_solid.Component.{Component}
use go_solid.Sources.{Reader, ok, failed}
use go_solid.Ssr.{
  Found, Compiler, Fault, stat_failed, read_failed, unparsed, no_component, unknown_export,
  no_default, Outcome, fine, refused,
}

-- len, of a list of components
abbrev pub count_found {ℓ} : {A : Type ℓ} → List A → ℕ
count_found [] = 0
count_found (x ∷ xs) = suc (count_found xs)

-- entry
pub record Held (Program : Type 0) : Type 0 where
  pub stamp : Text
  pub outcome : Outcome Program

module _ {Program : Type 0} where
  -- The loop over the components that looks for the export of a selector
  unfoldable pub named : Text → Text → List (Found Program) → Outcome Program
  named path want [] = refused (unknown_export path want)
  named path want (f ∷ found) =
      if text_eq f.name want then fine f.program else named path want found

  -- The loop that looks for the default export
  unfoldable pub first_default : List (Found Program) → Option Program
  first_default [] = none
  first_default (f ∷ found) = if f.default then some f.program else first_default found

  -- What is returned where no component is the default export
  abbrev pub sole : Text → List (Found Program) → Outcome Program
  sole path (f ∷ []) = fine f.program
  sole path found = refused (no_default path (count_found found))

  unfoldable pub choose : Text → Text → List (Found Program) → Outcome Program
  unfolding named first_default
  choose path want [] = refused (no_component path)
  choose path want found =
      if not (text_eq want [])
      then named path want found
      else elim (first_default found) [ none ↦ sole path found | some program ↦ fine program ]

  -- forget
  unfoldable pub forget : Text → GoMap Text (Held Program) → GoMap Text (Held Program)
  forget component entries = delete component entries

module _ {Tree Program Plan Value Props : Type 0}
    (compiler : Compiler Tree Program Plan Value Props) where
  -- analyze, from the source's text
  unfoldable pub analyze_text : Text → Text → Text → Outcome Program
  unfolding choose
  analyze_text path want content = elim (compiler.parse path content) [
    | none ↦ refused (unparsed path)
    | some tree ↦ choose path want (compiler.components tree)
  ]

  unfoldable pub analyze : Reader → Component → Outcome Program
  unfolding analyze_text
  analyze reader comp = elim (reader.read comp.path) [
    | failed e ↦ refused (read_failed comp.path e)
    | ok source ↦ analyze_text comp.path comp.export source.content
  ]

  -- The part of get after the locked read: the entry is analyzed again and kept.
  abbrev pub renew :
      Reader
      → Component
      → Text
      → GoMap Text (Held Program)
      → Outcome Program × GoMap Text (Held Program)
  renew reader comp current entries =
      let program = analyze reader comp in
      (program, insert comp.name (record { stamp = current; outcome = program }) entries)

  abbrev pub held_or_renew :
      Reader
      → Component
      → Text
      → GoMap Text (Held Program)
      → Option (Held Program)
      → Outcome Program × GoMap Text (Held Program)
  held_or_renew reader comp current entries none = renew reader comp current entries
  held_or_renew reader comp current entries (some hit) =
      if text_eq hit.stamp current
      then (hit.outcome, entries)
      else renew reader comp current entries

  unfoldable pub get :
      Reader → Component → GoMap Text (Held Program) → Outcome Program × GoMap Text (Held Program)
  unfolding analyze
  get reader comp entries = elim (reader.stamp_of comp.path) [
    | failed e ↦ (refused (stat_failed comp.path e), entries)
    | ok current ↦ held_or_renew reader comp current entries (lookup comp.name entries)
  ]
