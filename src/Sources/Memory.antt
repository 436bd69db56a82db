-- ===== src/Sources/Memory.antt =====
-- Memory of internal/sources/sources.go: what it holds after several calls of Put.
use go_solid.Prelude.{
  Text, text_comparable, some, List, [], ◌∷◌, true, lookup, lookup-insert, lookup-nil, ◌≡◌, arith,
  inl, inr, Option-cases,
}
use go_solid.Sources.{Source, ok, MemorySources, put, read_memory, memory}

module _ (digest : Text → Text) where
  -- The source that Put holds for a text.
  abbrev pub held_as : Text → Source
  held_as content = record { content = content; stamp = digest content; inline = true }

  -- Several calls of Put, each with a path and a text.
  abbrev pub puts : List (Text × Text) → MemorySources → MemorySources
  puts [] m = m
  puts ((path, content) ∷ calls) m = puts calls (put digest m path content)

  abbrev IsStamped : MemorySources → Type 0
  IsStamped m =
      (path : Text) (s : Source)
      → lookup path m ≡ some s
      → (s.stamp ≡ digest s.content) × (s.inline ≡ true)

  puts-IsStamped :
      (calls : List (Text × Text)) (m : MemorySources) → IsStamped m → IsStamped (puts calls m)
  unfolding put
  puts-IsStamped [] m stamped = stamped
  puts-IsStamped ((path, content) ∷ calls) m stamped =
      puts-IsStamped calls (put digest m path content)
        (λ p s h. ground (arith, h, stamped p s, lookup-insert path p (held_as content) m))

  -- Whatever has been put in a new Memory, the source that it reads is inline, and its stamp and its
  -- digest are the digest of its text.
  pub memory-stamp :
      (calls : List (Text × Text)) (path : Text) (s : Source)
      → (memory (puts calls [])).read path ≡ ok s
      → (s.inline ≡ true)
        × (s.stamp ≡ digest s.content)
        × ((memory (puts calls [])).stamp_of path ≡ ok (digest s.content))
        × ((memory (puts calls [])).digest_of path ≡ some (digest s.content))
  unfolding memory read_memory
  memory-stamp calls path s h =
      let m = puts calls [] in
      elim (Option-cases (lookup path m)) [
        | inl e ↦ ground (arith, e, h)
        | inr (t, e) ↦
            let stamped =
              puts-IsStamped calls [] (λ p u k. ground (arith, lookup-nil {V = Source} p, k)) path t
                e in
            ground (arith, e, h, stamped)
      ]
