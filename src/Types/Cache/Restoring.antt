-- ===== src/Types/Cache/Restoring.antt =====
-- Get and Put of internal/types/cache.go: what a Get finds after a Put.
use go_solid.Prelude.{
  is_some, ℕ, all, Text, text_eq, text_eq_iff, text_comparable, Option, none, some, [], Bool, true,
  false, ◌&&◌, GoMap, lookup, insert, lookup-insert_self, if_true, if◌then◌else◌, ◌≡◌, ◌⊎◌, refl,
  sym, ◌∙◌, ap, arith, inl, inr, Bool-cases, Option-cases,
}
use go_solid.Sources.{Result, ok, failed, Reader}
use go_solid.Io.{
  File, Files, Answers, readable, has_bytes, write_made, write_atomic, write_if_changed,
}
use go_solid.Io.Replacing.{replacement, lookup-write_atomic}
use go_solid.Types.Cache.Keeping.{kept, restored, restored-unchanged}
use go_solid.Types.Cache.Recording.{
  recorded_of, unchanged, stamp_at, stamps_hold-unchanged, stamps_for-total,
}
use go_solid.Types.Cache.{
  Extraction, Entry, MemEntry, TypeCache, Outside, NameError, CacheError, publish_fault,
  valid_component_name, persists, stamps_hold, digests_hold, stamps_for, remember, digests,
  entry_for, extraction_of, path_of, fresh_entry, decode_file, read, get_from, get, publish,
  write_digested, write, put_named, put,
}

-- A file with the bytes is there.
abbrev Holds : Text → Text → Files → Type 0
Holds path bytes fs = (f : File) × (lookup path fs ≡ some f) × (f.content ≡ bytes)

readable-Holds :
    (fault : Option Text) (path bytes : Text) (fs : Files)
    → has_bytes (elim fault [ some e ↦ none | none ↦ lookup path fs ]) bytes ≡ true
    → Holds path bytes fs
readable-Holds (some e) path bytes fs same = absurd (ground arith)
readable-Holds none path bytes fs same = elim (Option-cases (lookup path fs)) [
  | inl missing ↦ absurd (ground (arith, missing))
  | inr (f, there) ↦ (f, there, (text_eq_iff f.content bytes).0 (ground (arith, there)))
]

-- Without an error, WriteIfChanged leaves the bytes at the path, whether it wrote or not.
write_if_changed-Holds :
    (os : Answers) (staged path bytes : Text) (mode : ℕ) (fs : Files)
    → text_eq staged path ≡ false
    → lookup staged fs ≡ none
    → (write_if_changed os staged path bytes mode fs).2 ≡ none
    → Holds path bytes (write_if_changed os staged path bytes mode fs).0
unfolding write_if_changed
write_if_changed-Holds os staged path bytes mode fs other fresh fine =
    elim (Bool-cases (has_bytes (readable os path fs) bytes)) [
      | inl same ↦
          let (f, there, content) = readable-Holds os.read_file path bytes fs same in
          (f, rw same there, content)
      | inr differs ↦ elim (Option-cases os.mkdir_all) [
        | inr (e, refused) ↦ absurd (ground (arith, differs, refused))
        | inl made ↦
            let wrote : (write_atomic os staged path bytes mode fs).1 ≡ none =
              ground (arith, differs, made) in
            (
              replacement bytes mode,
              ap
                    (λ (b : Bool).
                      lookup path
                        (if b
                          then (fs, false, none)
                          else write_made os.mkdir_all fs
                              (write_atomic os staged path bytes mode fs)).0)
                    differs
                  ∙ ap
                      (λ m.
                        lookup path (write_made m fs (write_atomic os staged path bytes mode fs)).0)
                      made
                  ∙ lookup-write_atomic os staged path bytes mode fs path other fresh
                      (ground (arith, other))
                  ∙ ground (arith, wrote, text_eq_iff path path),
              refl,
            )
      ]
    ]

-- What os.CreateTemp gives: a name that no file has, and not the path's.
abbrev pub GivesFresh : Outside → Type 0
GivesFresh outside =
    (fs : Files) (path : Text)
    → (lookup (outside.staged fs path) fs ≡ none) × (text_eq (outside.staged fs path) path ≡ false)

-- json.Unmarshal reads what json.Marshal wrote of an entry.
abbrev pub ReadsBack : Outside → Entry → Type 0
ReadsBack outside stored =
    (bytes : Text) → outside.encode stored ≡ ok bytes → outside.decode bytes ≡ some stored

both {ℓ} :
    {A : Type ℓ} (a b : Bool) (x : Option A)
    → (if a then (if b then x else none) else none) ≡ (if a && b then x else none)
both true b x = refl
both false b x = refl

module _ (outside : Outside) where
  fault_free :
      (fault : Option Text)
      → elim fault as (λ o. Option CacheError) [ none ↦ none | some e ↦ some (publish_fault e) ]
        ≡ none
      → fault ≡ none
  fault_free none h = refl
  fault_free (some e) h = absurd (ground arith)

  published :
      (c : TypeCache) (fs : Files) (component : Text) (stored : Entry) (encoded : Result Text)
      → GivesFresh outside
      → ((bytes : Text) → encoded ≡ ok bytes → outside.decode bytes ≡ some stored)
      → (publish outside c fs component encoded).1 ≡ none
      → decode_file outside
          (lookup (path_of outside c component) (publish outside c fs component encoded).0)
        ≡ some stored
  published c fs component stored (failed e) fresh reads fine = absurd (ground arith)
  published c fs component stored (ok raw) fresh reads fine =
      let path = path_of outside c component in
      let (f, there, content) =
        write_if_changed-Holds (outside.answers fs path) (outside.staged fs path) path raw 420 fs
          (fresh fs path).1 (fresh fs path).0 (fault_free _ fine) in
      ap (decode_file outside) there ∙ ap outside.decode content ∙ reads raw refl

  fresh_entry-some :
      (reader : Reader) (stored : Entry)
      → fresh_entry outside reader (some stored)
        ≡ (if digests_hold reader stored.sources then some (extraction_of stored) else none)
  unfolding digests_hold
  fresh_entry-some reader stored = ground arith

  read-kept :
      (c : TypeCache) (reader : Reader) (later : Files) (component : Text) (stored : Entry)
      → decode_file outside (lookup (path_of outside c component) later) ≡ some stored
      → read outside c reader later component ≡ (
          if persists c && digests_hold reader stored.sources
          then some (extraction_of stored)
          else none)
  unfolding read
  read-kept c reader later component stored kept =
      ap (λ o. if persists c then fresh_entry outside reader o else none) kept
      ∙ ap (λ o. if persists c then o else none) (fresh_entry-some reader stored)
      ∙ both (persists c) (digests_hold reader stored.sources) (some (extraction_of stored))

  -- A write that returns no error, and a read of the file that it left
  write_digested-read :
      (c : TypeCache) (reader : Reader) (fs later : Files) (component : Text) (x : Extraction)
      (recorded : Text ⊎ GoMap Text Text)
      → GivesFresh outside
      → ReadsBack outside (entry_for component (recorded_of recorded) x)
      → persists c ≡ true
      → (write_digested outside c fs component x recorded).1 ≡ none
      → lookup (path_of outside c component) later
        ≡ lookup (path_of outside c component) (write_digested outside c fs component x recorded).0
      → read outside c reader later component ≡ (
          if persists c && digests_hold reader (recorded_of recorded)
          then some (extraction_of (entry_for component (recorded_of recorded) x))
          else none)
  unfolding entry_for
  write_digested-read c reader fs later component x (inl path) fresh reads on fine kept =
      absurd (ground arith)
  write_digested-read c reader fs later component x (inr recorded) fresh reads on fine kept =
      let stored = entry_for component recorded x in
      read-kept c reader later component stored (
        ap (decode_file outside) kept
        ∙ published c fs component stored (outside.encode stored) fresh reads fine)

  write-read :
      (c : TypeCache) (reader later_reader : Reader) (fs later : Files) (component : Text)
      (x : Extraction)
      → GivesFresh outside
      → ReadsBack outside (entry_for component (recorded_of (digests reader x.sources [])) x)
      → (write outside c reader fs component x).1 ≡ none
      → lookup (path_of outside c component) later
        ≡ lookup (path_of outside c component) (write outside c reader fs component x).0
      → read outside c later_reader later component ≡ restored c reader later_reader component x
  unfolding write read
  write-read c reader later_reader fs later component x fresh reads fine kept =
      elim (Bool-cases (persists c)) [
        | inr off ↦ ground (arith, off)
        | inl on ↦
            let digested = digests reader x.sources [] in
            let run : write outside c reader fs component x
                ≡ write_digested outside c fs component x digested =
              if_true (persists c) _ _ on in
            write_digested-read c later_reader fs later component x digested fresh reads on
              (ap (λ (out : Files × Option CacheError). out.1) (sym run) ∙ fine)
              (kept
                ∙ ap
                    (λ (out : Files × Option CacheError).
                      lookup (path_of outside c component) out.0)
                    run)
      ]

  -- What a Put that returns no error has done
  put-fine :
      (e : Option NameError) (c : TypeCache) (reader : Reader) (fs : Files) (component : Text)
      (x : Extraction)
      → (put_named outside e c reader fs component x).2 ≡ none
      → ((write outside c reader fs component x).1 ≡ none)
        × (put_named outside e c reader fs component x
            ≡ (remember c reader component x, (write outside c reader fs component x).0, none))
  put-fine (some e) c reader fs component x fine = absurd (ground arith)
  put-fine none c reader fs component x fine = (
    fine,
    ap
        (λ (fault : Option CacheError).
          (remember c reader component x, (write outside c reader fs component x).0, fault))
        fine,
  )

  remember-stamped :
      (c : TypeCache) (reader : Reader) (component : Text) (x : Extraction)
      (stamps : GoMap Text Text)
      → stamps_for reader x.sources [] ≡ some stamps
      → remember c reader component x
        ≡ record c { mem = insert component (record { extraction = x; stamps = stamps }) c.mem }
  unfolding remember
  remember-stamped c reader component x stamps stamped = ground (arith, stamped)

  get_from-hit :
      (c : TypeCache) (reader : Reader) (component : Text) (hit : MemEntry)
      (stored : Option Extraction)
      → (get_from outside c reader component (some hit) stored).0
        ≡ (if stamps_hold reader hit.stamps then some hit.extraction else stored)
  unfolding stamps_hold
  get_from-hit c reader component hit none = ground arith
  get_from-hit c reader component hit (some x) = ground arith

  pub get_from-miss :
      (c : TypeCache) (reader : Reader) (component : Text) (stored : Option Extraction)
      → (get_from outside c reader component none stored).0 ≡ stored
  get_from-miss c reader component none = refl
  get_from-miss c reader component (some x) = refl

  -- Where os.CreateTemp gives names that no file has, and json reads back the entry that it wrote: after a
  -- Put that returns no error, of an extraction whose sources can all be stamped, a Get gives the
  -- extraction itself if there are sources and each has the stamp that it had. Otherwise, as long as the
  -- file of the component stays as it is, it gives the extraction with its fields as NewShape orders them and its
  -- sources sorted, each once, if the cache has a root and there are sources and each has the digest that
  -- it had, and misses if not.
  pub get-put :
      (c : TypeCache) (reader later_reader : Reader) (fs later : Files) (component : Text)
      (x : Extraction)
      → GivesFresh outside
      → ReadsBack outside (entry_for component (recorded_of (digests reader x.sources [])) x)
      → all (λ path. is_some (stamp_at reader path)) x.sources ≡ true
      → (put outside c reader fs component x).2 ≡ none
      → lookup (path_of outside c component) later
        ≡ lookup (path_of outside c component) (put outside c reader fs component x).1
      → (get outside (put outside c reader fs component x).0 later_reader later component).0 ≡ (
          if unchanged (stamp_at reader) (stamp_at later_reader) x.sources
          then some x
          else if persists c && unchanged reader.digest_of later_reader.digest_of x.sources
          then some (kept x)
          else none)
  unfolding put get
  get-put c reader later_reader fs later component x fresh reads stampable fine kept =
      let (stamps, stamped) = stamps_for-total reader x.sources [] stampable in
      let hit : MemEntry = record { extraction = x; stamps = stamps } in
      let (wrote, done_) = put-fine (valid_component_name component) c reader fs component x fine in
      let stored = read outside c later_reader later component in
      let with_hit = record c { mem = insert component hit c.mem } in
      ap
        (λ (out : TypeCache × Files × Option CacheError).
          (get outside out.0 later_reader later component).0)
        done_
      ∙ ap (λ (d : TypeCache). (get outside d later_reader later component).0)
          (remember-stamped c reader component x stamps stamped)
      ∙ ap (λ o. (get_from outside with_hit later_reader component o stored).0)
          (lookup-insert_self component hit c.mem)
      ∙ get_from-hit with_hit later_reader component hit stored
      ∙ ap (λ b. if b then some x else stored)
          (stamps_hold-unchanged reader later_reader x.sources stamps stamped)
      ∙ ap
          (λ o. if unchanged (stamp_at reader) (stamp_at later_reader) x.sources then some x else o)
          (write-read c reader later_reader fs later component x fresh reads wrote (
              kept
              ∙ ap
                  (λ (out : TypeCache × Files × Option CacheError).
                    lookup (path_of outside c component) out.1)
                  done_)
            ∙ restored-unchanged c reader later_reader component x)

  -- Where os.CreateTemp gives names that no file has, and json reads back the entry that it wrote: a Get of
  -- a new cache on the root, after a Put of another one that returned no error and as long as the file of
  -- the component stays as it is, gives the extraction with its fields as NewShape orders them and its sources sorted,
  -- each once, if the cache has a root and there are sources and each has the digest that it had, and
  -- misses if not.
  pub get-restart :
      (c : TypeCache) (reader later_reader : Reader) (fs later : Files) (component : Text)
      (x : Extraction)
      → GivesFresh outside
      → ReadsBack outside (entry_for component (recorded_of (digests reader x.sources [])) x)
      → (put outside c reader fs component x).2 ≡ none
      → lookup (path_of outside c component) later
        ≡ lookup (path_of outside c component) (put outside c reader fs component x).1
      → (get outside (record c { mem = [] }) later_reader later component).0 ≡ (
          if persists c && unchanged reader.digest_of later_reader.digest_of x.sources
          then some (kept x)
          else none)
  unfolding put get lookup
  get-restart c reader later_reader fs later component x fresh reads fine kept =
      let (wrote, done_) = put-fine (valid_component_name component) c reader fs component x fine in
      get_from-miss (record c { mem = [] }) later_reader component
        (read outside c later_reader later component)
      ∙ write-read c reader later_reader fs later component x fresh reads wrote (
          kept
          ∙ ap
              (λ (out : TypeCache × Files × Option CacheError).
                lookup (path_of outside c component) out.1)
              done_)
      ∙ restored-unchanged c reader later_reader component x
