-- ===== src/Io.antt =====
-- internal/io/atomic.go: the write that replaces a file or leaves it untouched. Answers says what the
-- operating system answers to each call.
pub mod Replacing
pub mod Retrying
pub mod Fresh
mod Tests
use go_solid.Prelude.{
  ℕ, zero, suc, ◌*◌, Text, text_eq, text_comparable, Option, none, some, List, [], ◌∷◌, Bool, true,
  false, GoMap, lookup, insert, delete, ltb, ◌==◌, if◌then◌else◌,
}

pub record File : Type 0 where
  pub content : Text
  pub mode : ℕ

abbrev pub Files : Type 0
Files = GoMap Text File

-- The error of each call, if it fails; what a failed Write has written; the error of each attempt of
-- os.Rename; and that of the deferred os.Remove, which nobody reads.
pub record Answers : Type 0 where
  pub create_temp : Option Text
  pub write : Option Text
  pub partial : Text
  pub close : Option Text
  pub chmod : Option Text
  pub mkdir_all : Option Text
  pub read_file : Option Text
  pub rename : ℕ → Option Text
  pub remove : Option Text

-- os.CreateTemp makes files that their owner can read and write.
abbrev pub temp_mode : ℕ
temp_mode = 384

-- renameOver's loop, with the attempts left, in microseconds: the pauses it makes, and its error
unfoldable pub rename_loop : (ℕ → Option Text) → ℕ → ℕ → ℕ → List ℕ × Option Text
rename_loop rename zero attempt backoff = ([], none)
rename_loop rename (suc left) attempt backoff =
    let (pauses, fault) =
      rename_loop rename left (suc attempt) (if ltb backoff 10000 then backoff * 2 else backoff) in
    elim (rename attempt) [
      | none ↦ ([], none)
      | some e ↦ if left == 0 then ([], some e) else (backoff ∷ pauses, fault)
    ]

-- renameOver
unfoldable pub rename_over : (ℕ → Option Text) → List ℕ × Option Text
rename_over rename = rename_loop rename 100 0 250

-- The rename itself, where the last attempt succeeds
abbrev pub moved : Text → Text → Files → Files
moved from to fs = elim (lookup from fs) [ none ↦ fs | some f ↦ delete from (insert to f fs) ]

-- writeAtomic from the rename on
unfoldable pub replace_with : Answers → Text → Text → Files → Files × Option Text
unfolding rename_over
replace_with os staged path fs = elim (rename_over os.rename).1 [
  | some e ↦ (fs, some e)
  | none ↦ (moved staged path fs, none)
]

-- writeAtomic once the temporary file is made, up to its deferred os.Remove
unfoldable pub fill_and_replace : Answers → Text → Text → Text → ℕ → Files → Files × Option Text
unfolding replace_with
fill_and_replace os staged path bytes mode fs = elim os.write [
  | some e ↦ (insert staged (record { content = os.partial; mode = temp_mode }) fs, some e)
  | none ↦
      let full = insert staged (record { content = bytes; mode = temp_mode }) fs in
      elim os.close [
        | some e ↦ (full, some e)
        | none ↦ if mode == 0 then replace_with os staged path full else elim os.chmod [
          | some e ↦ (full, some e)
          | none ↦
              replace_with os staged path
                (insert staged (record { content = bytes; mode = mode }) full)
        ]
      ]
]

-- The deferred os.Remove
abbrev pub discarded : Option Text → Text → Files → Files
discarded none staged fs = delete staged fs
discarded (some e) staged fs = fs

-- writeAtomic, for the name that os.CreateTemp picks
unfoldable pub write_atomic : Answers → Text → Text → Text → ℕ → Files → Files × Option Text
unfolding fill_and_replace
write_atomic os staged path bytes mode fs = elim os.create_temp [
  | some e ↦ (fs, some e)
  | none ↦
      let (after, fault) =
        fill_and_replace os staged path bytes mode
          (insert staged (record { content = []; mode = temp_mode }) fs) in
      (discarded os.remove staged after, fault)
]

-- os.ReadFile, and bytes.Equal on what it gives
abbrev pub readable : Answers → Text → Files → Option File
readable os path fs = elim os.read_file [ some e ↦ none | none ↦ lookup path fs ]

abbrev pub has_bytes : Option File → Text → Bool
has_bytes none bytes = false
has_bytes (some f) bytes = text_eq f.content bytes

-- WriteIfChanged from os.MkdirAll on
abbrev pub write_made : Option Text → Files → Files × Option Text → Files × Bool × Option Text
write_made (some e) fs (after, fault) = (fs, false, some e)
write_made none fs (after, fault) = (after, true, fault)

-- WriteIfChanged: whether it wrote, and its error. A file that cannot be read is written.
unfoldable pub write_if_changed :
    Answers → Text → Text → Text → ℕ → Files → Files × Bool × Option Text
unfolding write_atomic
write_if_changed os staged path bytes mode fs =
    if has_bytes (readable os path fs) bytes
    then (fs, false, none)
    else write_made os.mkdir_all fs (write_atomic os staged path bytes mode fs)
