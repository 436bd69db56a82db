-- ===== src/Ssr/Programs/Holding.antt =====
-- get of internal/ssr/programs.go: what an answer leaves, and the answer after it.
use go_solid.Prelude.{
  Text, Option, text_eq, text_eq_refl, text_eq-eq, text_comparable, none, some, GoMap, lookup,
  lookup-insert_self, if_cases, ◌≡◌, refl, sym, subst, ◌∙◌, ap, arith,
}
use go_solid.Component.{Component}
use go_solid.Sources.{Reader, ok, failed}
use go_solid.Ssr.{Compiler, stat_failed, read_failed, Outcome, refused}
use go_solid.Ssr.Programs.{Held, analyze, renew, held_or_renew, get}

module _ {Tree Program Plan Value Props : Type 0}
    (compiler : Compiler Tree Program Plan Value Props) where
  pub get-failed :
      (reader : Reader) (comp : Component) (entries : GoMap Text (Held Program)) (e : Text)
      → reader.stamp_of comp.path ≡ failed e
      → get compiler reader comp entries ≡ (refused (stat_failed comp.path e), entries)
  unfolding get
  get-failed reader comp entries e gone = rw (gone, get) refl

  pub get-stamped :
      (reader : Reader) (comp : Component) (entries : GoMap Text (Held Program)) (stamp : Text)
      → reader.stamp_of comp.path ≡ ok stamp
      → get compiler reader comp entries
        ≡ held_or_renew compiler reader comp stamp entries (lookup comp.name entries)
  unfolding get
  get-stamped reader comp entries stamp now = rw (now, get) refl

  -- What an answer leaves under the component's name
  abbrev Holds : Text → Text → Outcome Program × GoMap Text (Held Program) → Type 0
  Holds name stamp after = lookup name after.1 ≡ some (record { stamp = stamp; outcome = after.0 })

  held_or_renew-Holds :
      (reader : Reader) (comp : Component) (stamp : Text) (entries : GoMap Text (Held Program))
      (there : Option (Held Program))
      → lookup comp.name entries ≡ there
      → Holds comp.name stamp (held_or_renew compiler reader comp stamp entries there)
  held_or_renew-Holds reader comp stamp entries none is_there =
      lookup-insert_self comp.name _ entries
  held_or_renew-Holds reader comp stamp entries (some hit) is_there =
      if_cases (Holds comp.name stamp) (text_eq hit.stamp stamp) (hit.outcome, entries)
        (renew compiler reader comp stamp entries)
        (λ fresh.
          is_there
          ∙ ap (λ (s : Text). some (record { stamp = s; outcome = hit.outcome }))
              (text_eq-eq hit.stamp stamp fresh))
        (λ stale. lookup-insert_self comp.name _ entries)

  -- What get has answered it answers again for the stamp that the source had then, whatever the reader can read.
  pub get_again :
      (reader later : Reader) (comp : Component) (entries : GoMap Text (Held Program))
      (stamp : Text)
      → reader.stamp_of comp.path ≡ ok stamp
      → later.stamp_of comp.path ≡ ok stamp
      → (get compiler later comp (get compiler reader comp entries).1).0
        ≡ (get compiler reader comp entries).0
  get_again reader later comp entries stamp now then_too =
      let after = get compiler reader comp entries in
      let kept : Holds comp.name stamp after =
        subst (Holds comp.name stamp) (sym (get-stamped reader comp entries stamp now))
          (held_or_renew-Holds reader comp stamp entries (lookup comp.name entries) refl) in
      ap (λ (out : Outcome Program × GoMap Text (Held Program)). out.0)
        (get-stamped later comp after.1 stamp then_too
          ∙ ap (held_or_renew compiler later comp stamp after.1) kept)
      ∙ ground (arith, text_eq_refl stamp)

  -- Where a cache that holds nothing for a component is asked for it, and its source can be stamped and not
  -- read, the next call answers that failure, whatever can be read then, if the stamp is the same.
  pub get-read_failed :
      (reader later : Reader) (comp : Component) (entries : GoMap Text (Held Program))
      (stamp e : Text)
      → lookup comp.name entries ≡ none
      → reader.stamp_of comp.path ≡ ok stamp
      → reader.read comp.path ≡ failed e
      → later.stamp_of comp.path ≡ ok stamp
      → (get compiler later comp (get compiler reader comp entries).1).0
        ≡ refused (read_failed comp.path e)
  unfolding analyze
  get-read_failed reader later comp entries stamp e nothing now unread then_too =
      get_again reader later comp entries stamp now then_too
      ∙ ap (λ (out : Outcome Program × GoMap Text (Held Program)). out.0)
          (get-stamped reader comp entries stamp now
            ∙ ap (held_or_renew compiler reader comp stamp entries) nothing)
      ∙ rw (unread, analyze) refl
