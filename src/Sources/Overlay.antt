-- ===== src/Sources/Overlay.antt =====
-- Overlay of internal/sources/sources.go, as New of bundler.go makes it: a Memory over another reader.
use go_solid.Prelude.{
  Text, text_eq, text_comparable, Option, none, some, List, [], ◌∷◌, lookup, lookup-insert,
  lookup-nil, if◌then◌else◌, ◌≡◌, refl, ◌∙◌, arith, inl, inr, Option-cases,
}
use go_solid.Sources.{
  Source, Result, ok, failed, Reader, MemorySources, put, memory, read_memory, overlay, first_of,
  first_digest, reads, stamps,
}
use go_solid.Sources.Memory.{held_as, puts}

-- The text of the last of several Puts under a path
abbrev pub last_put : List (Text × Text) → Text → Option Text
last_put [] path = none
last_put ((p, content) ∷ calls) path = elim (last_put calls path) [
  | some later ↦ some later
  | none ↦ if text_eq p path then some content else none
]

first_of-last :
    {A : Type 0} (e path : Text) (r : Result A) → first_of (failed e ∷ r ∷ []) none path ≡ r
unfolding first_of
first_of-last e path (ok a) = refl
first_of-last e path (failed f) = refl

first_digest-one : (r : Reader) (path : Text) → first_digest (r ∷ []) path ≡ r.digest_of path
unfolding first_digest
first_digest-one r path = elim (Option-cases (r.digest_of path)) [
  | inl e ↦ rw (e, first_digest) refl
  | inr (d, e) ↦ rw (e, first_digest) refl
]

module _ (digest : Text → Text) where
  -- What the Memory holds for the last text
  abbrev held_after : Option Text → Option Source → Option Source
  held_after none before = before
  held_after (some content) before = some (held_as digest content)

  lookup-puts :
      (calls : List (Text × Text)) (m : MemorySources) (path : Text)
      → lookup path (puts digest calls m) ≡ held_after (last_put calls path) (lookup path m)
  unfolding put
  lookup-puts [] m path = refl
  lookup-puts ((p, content) ∷ calls) m path =
      lookup-puts calls (put digest m p content) path
      ∙ ground (arith, lookup-insert p path (held_as digest content) m)

  -- For any calls of Put on a new Memory, over any reader: the Overlay reads a path that was put as the text last put
  -- there, inline, with its digest for the stamp, and Stamp and Digest give that digest; for every other
  -- path Read, Stamp and Digest are those of the other reader, its errors included.
  pub overlay-puts :
      (calls : List (Text × Text)) (disk : Reader) (path : Text)
      → let reader = overlay (memory (puts digest calls []) ∷ disk ∷ []) in
        (reader.read path ≡ elim (last_put calls path) [
          | none ↦ disk.read path
          | some content ↦ ok (held_as digest content)
        ])
        × (reader.stamp_of path ≡ elim (last_put calls path) [
          | none ↦ disk.stamp_of path
          | some content ↦ ok (digest content)
        ])
        × (reader.digest_of path ≡ elim (last_put calls path) [
          | none ↦ disk.digest_of path
          | some content ↦ some (digest content)
        ])
  unfolding overlay memory read_memory first_of first_digest
  overlay-puts calls disk path =
      let held = lookup-puts calls [] path in
      elim (Option-cases (last_put calls path)) [
        | inl never ↦
            let missing : lookup path (puts digest calls []) ≡ none =
              held ∙ ground (arith, never, lookup-nil {V = Source} path) in
            rw never (
              rw (missing, overlay, reads, memory, read_memory)
                  (first_of-last _ path (disk.read path)),
              rw (missing, overlay, stamps, memory, read_memory)
                  (first_of-last _ path (disk.stamp_of path)),
              rw (missing, overlay, first_digest, memory, read_memory) (first_digest-one disk path),
            )
        | inr (content, put_last) ↦
            let there : lookup path (puts digest calls []) ≡ some (held_as digest content) =
              held ∙ ground (arith, put_last) in
            rw put_last (
              rw (there, overlay, reads, memory, read_memory) refl,
              rw (there, overlay, stamps, memory, read_memory) refl,
              rw (there, overlay, first_digest, memory, read_memory) refl,
            )
      ]
