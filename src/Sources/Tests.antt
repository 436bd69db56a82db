-- ===== src/Sources/Tests.antt =====
-- The theorems on sources at a memory of one text, whose digest is the text itself.
use go_solid.Prelude.{some, none, Text, text, text_comparable, [], ◌∷◌, ◌≡◌, lookup, insert}
use go_solid.Sources.{
  Reader, ok, failed, MemorySources, put, read_memory, memory, overlay, first_of, first_digest,
}
use go_solid.Sources.Memory.{puts, held_as}
use go_solid.Sources.Overlay.{overlay-puts}

abbrev same : Text → Text
same content = content

abbrev path : Text
path = text "/a.tsx"

abbrev one_source : MemorySources
one_source = puts same ((path, text "x") ∷ []) []

program : Unit {0}
unfolding put read_memory memory overlay first_of first_digest lookup insert
program = tt

-- A file system in which nothing can be read
abbrev nowhere : Reader
nowhere = record { read = λ p. failed p; stamp_of = λ p. ok p; digest_of = λ p. none }

overlay-puts_example :
    let reader = overlay (memory (puts same ((path, text "x") ∷ []) []) ∷ nowhere ∷ []) in
    (reader.read path ≡ ok (held_as same (text "x")))
    × (reader.stamp_of path ≡ ok (text "x"))
    × (reader.digest_of path ≡ some (text "x"))
overlay-puts_example = overlay-puts same ((path, text "x") ∷ []) nowhere path
