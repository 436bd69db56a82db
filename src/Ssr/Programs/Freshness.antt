-- ===== src/Ssr/Programs/Freshness.antt =====
-- get of internal/ssr/programs.go against an analysis each time.
use go_solid.Prelude.{
  Text, Option, text_eq, text_eq-eq, text_comparable, none, some, List, [], ◌∷◌, GoMap, lookup,
  insert, lookup-insert, lookup-delete, lookup-nil, ◌≡◌, refl, sym, subst, ◌∙◌, ap, arith, inl, inr,
  Bool-cases, if_cases,
}
use go_solid.Component.{Component}
use go_solid.Sources.{Source, Reader, ok, failed, Result-cases}
use go_solid.Ssr.{Compiler, stat_failed, Outcome, refused}
use go_solid.Ssr.Programs.Holding.{get-failed, get-stamped}
use go_solid.Ssr.Programs.{Held, forget, analyze_text, analyze, renew, held_or_renew, get}

-- What a new cache meets
pub data Step : Type 0 where
  asked : Reader → Component → Step
  forgotten : Text → Step

module _ {Tree Program Plan Value Props : Type 0}
    (compiler : Compiler Tree Program Plan Value Props) where
  abbrev pub run : List Step → GoMap Text (Held Program) → GoMap Text (Held Program)
  run [] entries = entries
  run (asked reader comp ∷ steps) entries = run steps (get compiler reader comp entries).1
  run (forgotten name ∷ steps) entries = run steps (forget name entries)

  -- get without a cache: a source that can be stamped is analyzed.
  abbrev pub uncached : Reader → Component → Outcome Program
  uncached reader comp = elim (reader.stamp_of comp.path) [
    | failed e ↦ refused (stat_failed comp.path e)
    | ok stamp ↦ analyze compiler reader comp
  ]

  module _ (path_of export_of : Text → Text) (text_at : Text → Text → Text) where
    -- The component of a name stays in one file and selects one export, and the reader reads what it has stamped:
    -- the text that a stamp stands for.
    abbrev pub IsTold : Step → Type 0
    IsTold (forgotten name) = Unit
    IsTold (asked reader comp) =
        (comp.path ≡ path_of comp.name)
        × (comp.export ≡ export_of comp.name)
        × ((stamp : Text)
            → reader.stamp_of comp.path ≡ ok stamp
            → (source : Source) × (reader.read comp.path ≡ ok source)
              × (source.content ≡ text_at comp.path stamp))

    abbrev pub AllTold : List Step → Type 0
    AllTold [] = Unit
    AllTold (step ∷ steps) = IsTold step × AllTold steps

    -- What the file of a name gives when its stamp is the given one
    abbrev meant : Text → Text → Outcome Program
    meant name stamp =
        analyze_text compiler (path_of name) (export_of name) (text_at (path_of name) stamp)

    abbrev IsRight : GoMap Text (Held Program) → Type 0
    IsRight entries =
        (name : Text) (held : Held Program)
        → lookup name entries ≡ some held
        → held.outcome ≡ meant name held.stamp

    analyze-meant :
        (reader : Reader) (comp : Component) (stamp : Text)
        → IsTold (asked reader comp)
        → reader.stamp_of comp.path ≡ ok stamp
        → analyze compiler reader comp ≡ meant comp.name stamp
    unfolding analyze
    analyze-meant reader comp stamp (path, export, reads) now =
        let (source, read, content) = reads stamp now in ground (arith, read, content, path, export)

    insert-IsRight :
        (name : Text) (new : Held Program) (entries : GoMap Text (Held Program))
        → new.outcome ≡ meant name new.stamp
        → IsRight entries
        → IsRight (insert name new entries)
    insert-IsRight name new entries fits right other held there =
        let found = sym (lookup-insert name other new entries) ∙ there in
        elim (Bool-cases (text_eq name other)) [
          | inl same ↦
              let is_new : some new ≡ some held = ground (arith, same, found) in
              let is_name : name ≡ other = text_eq-eq name other same in
              let is_held : new ≡ held =
                ap (λ (o : Option (Held Program)). elim o [ none ↦ new | some h ↦ h ]) is_new in
              subst (λ h. h.outcome ≡ meant other h.stamp) is_held
                (subst (λ n. new.outcome ≡ meant n new.stamp) is_name fits)
          | inr differs ↦ right other held (ground (arith, differs, found))
        ]

    -- The given answer, and entries that are right
    abbrev Answers : Outcome Program → Outcome Program × GoMap Text (Held Program) → Type 0
    Answers out after = IsRight after.1 × (after.0 ≡ out)

    held_or_renew-Answers :
        (reader : Reader) (comp : Component) (stamp : Text) (entries : GoMap Text (Held Program))
        (there : Option (Held Program))
        → IsTold (asked reader comp)
        → reader.stamp_of comp.path ≡ ok stamp
        → IsRight entries
        → lookup comp.name entries ≡ there
        → Answers
            (analyze compiler reader comp)
            (held_or_renew compiler reader comp stamp entries there)
    held_or_renew-Answers reader comp stamp entries none told now right is_there =
        (insert-IsRight comp.name _ entries (analyze-meant reader comp stamp told now) right, refl)
    held_or_renew-Answers reader comp stamp entries (some hit) told now right is_there =
        if_cases (Answers (analyze compiler reader comp)) (text_eq hit.stamp stamp)
          (hit.outcome, entries) (renew compiler reader comp stamp entries)
          (λ fresh. (
            right,
            right comp.name hit is_there
                ∙ ap (meant comp.name) (text_eq-eq hit.stamp stamp fresh)
                ∙ sym (analyze-meant reader comp stamp told now),
          ))
          (λ stale. (
            insert-IsRight comp.name _ entries (analyze-meant reader comp stamp told now) right,
            refl,
          ))

    get-Answers :
        (reader : Reader) (comp : Component) (entries : GoMap Text (Held Program))
        → IsTold (asked reader comp)
        → IsRight entries
        → Answers (uncached reader comp) (get compiler reader comp entries)
    get-Answers reader comp entries told right = elim (Result-cases (reader.stamp_of comp.path)) [
      | inl (e, gone) ↦
          subst (Answers (uncached reader comp))
            (sym (get-failed compiler reader comp entries e gone)) (right, rw (gone, uncached) refl)
      | inr (stamp, now) ↦
          let (kept, same) =
            held_or_renew-Answers reader comp stamp entries (lookup comp.name entries) told now
              right refl in
          subst (Answers (uncached reader comp))
            (sym (get-stamped compiler reader comp entries stamp now))
            (kept, same ∙ rw (now, uncached) refl)
    ]

    forget-IsRight :
        (name : Text) (entries : GoMap Text (Held Program))
        → IsRight entries
        → IsRight (forget name entries)
    unfolding forget
    forget-IsRight name entries right other held there =
        right other held (ground (arith, lookup-delete name other entries, there))

    run-IsRight :
        (steps : List Step) (entries : GoMap Text (Held Program))
        → AllTold steps
        → IsRight entries
        → IsRight (run steps entries)
    run-IsRight [] entries told right = right
    run-IsRight (asked reader comp ∷ steps) entries (now, told) right =
        run-IsRight steps (get compiler reader comp entries).1 told
          (get-Answers reader comp entries now right).0
    run-IsRight (forgotten name ∷ steps) entries (now, told) right =
        run-IsRight steps (forget name entries) told (forget-IsRight name entries right)

    -- Whatever calls of get and forget a new cache has met, get then answers what an analysis of the source answers, or the failure to
    -- stamp it: where each of those components stays in its file with its export, and every reader, that of this call too, reads
    -- what it stamps, as the text that the stamp stands for.
    pub get-uncached :
        (steps : List Step) (reader : Reader) (comp : Component)
        → AllTold steps
        → IsTold (asked reader comp)
        → (get compiler reader comp (run steps [])).0 ≡ uncached reader comp
    get-uncached steps reader comp told now =
        (get-Answers reader comp (run steps []) now (
          run-IsRight steps [] told (λ name held there.
            absurd (ground (arith, lookup-nil {V = Held Program} name, there))))).1
