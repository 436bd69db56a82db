-- ===== src/Io/Replacing.antt =====
-- writeAtomic of internal/io/atomic.go: all or nothing, and what becomes of the temporary file.
use go_solid.Prelude.{
  ℕ, Text, text_eq, text_eq_iff, text_comparable, Option, none, some, [], false, lookup, insert,
  delete, lookup-insert, lookup-delete, is_some, not, ◌&&◌, Bool, sym, subst, ap, ◌∙◌, ◌==◌,
  if◌then◌else◌, ◌≡◌, refl, arith, inl, inr, Option-cases, Bool-cases,
}
use go_solid.Io.{
  File, Files, Answers, temp_mode, rename_over, replace_with, moved, discarded, fill_and_replace,
  write_atomic,
}

-- The file that a write which succeeds leaves.
abbrev pub replacement : Text → ℕ → File
replacement bytes mode = record { content = bytes; mode = if mode == 0 then temp_mode else mode }

-- The files after, less the temporary one: the path has been replaced if there is no error, and then the
-- temporary file is gone; all else is as it was.
abbrev Replaced : Text → Text → File → Files → Files × Option Text → Type 0
Replaced staged path file fs result =
    ((q : Text)
      → lookup q (delete staged result.0) ≡ (
          if not (is_some result.1) && text_eq path q
          then some file
          else lookup q (delete staged fs)))
    × (result.1 ≡ none → lookup staged result.0 ≡ none)

replace_with-Replaced :
    (os : Answers) (staged path : Text) (file : File) (fs full : Files)
    → text_eq staged path ≡ false
    → ((q : Text) → lookup q full ≡ (if text_eq staged q then some file else lookup q fs))
    → Replaced staged path file fs (replace_with os staged path full)
unfolding replace_with
replace_with-Replaced os staged path file fs full other full_is =
    elim (Option-cases (rename_over os.rename).1) [
      | inr (e, refused) ↦
          rw (refused, replace_with)
            (
              λ q.
                  ground (arith, lookup-delete staged q full, lookup-delete staged q fs, full_is q),
              λ fine. absurd (ground arith),
            )
      | inl done ↦
          let taken : moved staged path full ≡ delete staged (insert path file full) =
            ground (arith, full_is staged, text_eq_iff staged staged) in
          let run : replace_with os staged path full
              ≡ (delete staged (insert path file full), none) =
            rw (done, replace_with) (ap (λ (after : Files). (after, none)) taken) in
          subst (Replaced staged path file fs) (sym run) (
            λ q. ground (
              arith,
              full_is q,
              lookup-delete staged q (delete staged (insert path file full)),
              lookup-delete staged q (insert path file full),
              lookup-delete staged q fs,
              lookup-insert path q file full,
              text_eq_iff staged q,
              text_eq_iff path q,
              text_eq_iff staged path,
            ),
            λ fine. ground (
              arith,
              lookup-delete staged staged (insert path file full),
              text_eq_iff staged staged,
            ),
          )
    ]

-- The files differ in the temporary one alone.
Beside : Text → Files → Files → Type 0
Beside staged a fs = (q : Text) → text_eq staged q ≡ false → lookup q a ≡ lookup q fs

insert-Beside :
    (staged : Text) (file : File) (a fs : Files)
    → Beside staged a fs
    → Beside staged (insert staged file a) fs
unfolding Beside
insert-Beside staged file a fs same q other =
    ground (arith, same q other, lookup-insert staged q file a)

failed-Replaced :
    (staged path e : Text) (file : File) (a fs : Files)
    → Beside staged a fs
    → Replaced staged path file fs (a, some e)
unfolding Beside
failed-Replaced staged path e file a fs same = (
  λ q. ground (arith, same q, lookup-delete staged q a, lookup-delete staged q fs),
  λ fine. absurd (ground arith),
)

insert-full :
    (staged : Text) (file : File) (a fs : Files) (q : Text)
    → Beside staged a fs
    → lookup q (insert staged file a) ≡ (if text_eq staged q then some file else lookup q fs)
unfolding Beside
insert-full staged file a fs q same = ground (arith, same q, lookup-insert staged q file a)

fill_and_replace-Replaced :
    (os : Answers) (staged path bytes : Text) (mode : ℕ) (started fs : Files)
    → text_eq staged path ≡ false
    → Beside staged started fs
    → Replaced staged path
        (replacement bytes mode)
        fs
        (fill_and_replace os staged path bytes mode started)
unfolding fill_and_replace
fill_and_replace-Replaced os staged path bytes mode started fs other same =
    let file = replacement bytes mode in
    let plain : File = record { content = bytes; mode = temp_mode } in
    let full = insert staged plain started in
    let beside = insert-Beside staged plain started fs same in
    elim (Option-cases os.write) [
      | inr (e, refused) ↦
          rw (refused, fill_and_replace)
            (failed-Replaced staged path e file _ fs (insert-Beside staged _ started fs same))
      | inl wrote ↦ elim (Option-cases os.close) [
        | inr (e, refused) ↦
            rw (wrote, fill_and_replace)
              (rw refused (failed-Replaced staged path e file full fs beside))
        | inl closed ↦ elim (Bool-cases (mode == 0)) [
          | inl no_mode ↦
              rw (wrote, fill_and_replace)
                (rw closed (
                  rw no_mode (
                    replace_with-Replaced os staged path plain fs full other
                      (λ q. insert-full staged plain started fs q same))))
          | inr has_mode ↦ elim (Option-cases os.chmod) [
            | inr (e, refused) ↦
                rw (wrote, fill_and_replace)
                  (rw closed (
                    rw has_mode (
                      rw refused (
                        failed-Replaced staged path e (record { content = bytes; mode = mode }) full
                          fs beside))))
            | inl changed ↦
                let final : File = record { content = bytes; mode = mode } in
                rw (wrote, fill_and_replace)
                  (rw closed (
                    rw has_mode (
                      rw changed (
                        replace_with-Replaced os staged path final fs (insert staged final full)
                          other (λ q. insert-full staged final full fs q beside)))))
          ]
        ]
      ]
    ]

-- The deferred removal, where it is not of the name in question, or is not refused, or has nothing to do
lookup-discarded :
    (refused : Option Text) (staged : Text) (after : Files) (q : Text)
    → (text_eq staged q && is_some refused && is_some (lookup staged after)) ≡ false
    → lookup q (discarded refused staged after) ≡ lookup q (delete staged after)
lookup-discarded none staged after q free = refl
lookup-discarded (some e) staged after q free = elim (Option-cases (lookup staged after)) [
  | inl gone ↦ ground (arith, gone, lookup-delete staged q after, text_eq_iff staged q)
  | inr (f, there) ↦ ground (arith, there, free, lookup-delete staged q after)
]

discards :
    (staged : Text) (refused : Bool) (after : Files) (fault : Option Text) (q : Text)
    → (fault ≡ none → lookup staged after ≡ none)
    → (text_eq staged q && refused && is_some fault) ≡ false
    → (text_eq staged q && refused && is_some (lookup staged after)) ≡ false
discards staged refused after none q gone free = rw (gone refl) free
discards staged refused after (some e) q gone free = ground (arith, free)

discarded-Replaced :
    (refused : Option Text) (staged path : Text) (file : File) (fs : Files)
    (out : Files × Option Text) (q : Text)
    → lookup staged fs ≡ none
    → Replaced staged path file fs out
    → (text_eq staged q && is_some refused && is_some out.1) ≡ false
    → lookup q (discarded refused staged out.0)
      ≡ (if not (is_some out.1) && text_eq path q then some file else lookup q fs)
discarded-Replaced refused staged path file fs (after, fault) q fresh (replaced, gone) free =
    lookup-discarded refused staged after q
      (discards staged (is_some refused) after fault q gone free)
    ∙ replaced q
    ∙ ground (arith, fresh, lookup-delete staged q fs, text_eq_iff staged q)

-- For a temporary name other than the path, that no file has: an atomic write leaves what any name holds as
-- it was, except that the path holds the bytes, with the mode asked for, exactly if there is no error.
-- Of the temporary name itself this is so if there is no error or the deferred removal is not refused.
pub lookup-write_atomic :
    (os : Answers) (staged path bytes : Text) (mode : ℕ) (fs : Files) (q : Text)
    → text_eq staged path ≡ false
    → lookup staged fs ≡ none
    → (text_eq staged q
        && is_some os.remove
        && is_some (write_atomic os staged path bytes mode fs).1)
      ≡ false
    → let (after, fault) = write_atomic os staged path bytes mode fs in
      lookup q after ≡ (
        if not (is_some fault) && text_eq path q
        then some (replacement bytes mode)
        else lookup q fs)
unfolding write_atomic Beside
lookup-write_atomic os staged path bytes mode fs q other fresh free =
    elim (Option-cases os.create_temp) [
      | inr (e, refused) ↦ rw (refused, write_atomic) refl
      | inl made ↦
          let empty : File = record { content = []; mode = temp_mode } in
          let started = insert staged empty fs in
          let out = fill_and_replace os staged path bytes mode started in
          let run : write_atomic os staged path bytes mode fs
              ≡ (discarded os.remove staged out.0, out.1) =
            rw (made, write_atomic) refl in
          subst
            (λ (done : Files × Option Text). lookup q done.0 ≡ (
              if not (is_some done.1) && text_eq path q
              then some (replacement bytes mode)
              else lookup q fs))
            (sym run)
            (discarded-Replaced os.remove staged path (replacement bytes mode) fs out q fresh
              (fill_and_replace-Replaced os staged path bytes mode started fs other
                (insert-Beside staged empty fs fs (λ p h. refl)))
              (ap
                  (λ (done : Files × Option Text).
                    text_eq staged q && is_some os.remove && is_some done.1)
                  (sym run)
                ∙ free))
    ]
