-- ===== src/TagReader/Collect.antt =====
-- What read_dir of src/indexers/music/tag_reader.c collects.
use mod_mp.Base.{
  if◌then◌else◌, Bool-cases, Option-cases, length, length-append, Bytes, ℕ, ◌+◌, ◌≡◌, refl, sym, ap,
  ◌∙◌, ◌⊎◌, inl, inr, true, false, Option, none, some, List, [], ◌∷◌, ◌++◌, append-nil,
  append_assoc, arith,
}
use mathlib.Core.Path.{ap₂}
use mathlib.Core.Option.{some-injective}
use mod_mp.Apr.{Apr}
use mod_mp.TagReader.{
  FileEntry, Directory, unreadable, readable, Entries, no_more, entry_then, Entry, directory,
  regular, other, Walk, get_file_ext, is_visible, child_path, add_file, read_dir, read_entries,
  read_entry,
}

-- Every directory that is not hidden can be opened.
unfoldable mutual
  pub IsReadable : Directory → Type 0
  IsReadable (unreadable rv text) = ⊥
  IsReadable (readable entries) = AreReadable entries

  pub AreReadable : Entries → Type 0
  AreReadable no_more = Unit
  AreReadable (entry_then e rest) = IsReadableEntry e × AreReadable rest

  pub IsReadableEntry : Entry → Type 0
  IsReadableEntry (directory name d) =
      let inner = IsReadable d in if is_visible name then inner else Unit
  IsReadableEntry (regular name mtime) = Unit
  IsReadableEntry (other name) = Unit

-- One sequence of entries behind another.
abbrev pub followed_by : Entries → Entries → Entries
followed_by no_more rest = rest
followed_by (entry_then e before) rest = entry_then e (followed_by before rest)

module _ (apr : Apr) where
  -- The regular files below a directory, in the order of the entries, without those below a
  -- hidden directory.
  unfoldable mutual
    pub files_in : Bytes → Directory → List FileEntry
    files_in dir_path (unreadable rv text) = []
    files_in dir_path (readable entries) = files_among dir_path entries

    pub files_among : Bytes → Entries → List FileEntry
    files_among dir_path no_more = []
    files_among dir_path (entry_then e rest) = files_of dir_path e ++ files_among dir_path rest

    pub files_of : Bytes → Entry → List FileEntry
    files_of dir_path (directory name d) =
        let inner = files_in (child_path apr dir_path name) d in
        if is_visible name then inner else []
    files_of dir_path (regular name mtime) =
        record {
          path = child_path apr dir_path name;
          type = get_file_ext apr (child_path apr dir_path name);
          mtime = mtime;
        }
        ∷ []
    files_of dir_path (other name) = []

  -- A walk that found these files as well.
  unfoldable pub with_files : Walk → List FileEntry → Walk
  with_files w found = record w { files = w.files ++ found; count = w.count + length found }

  with_files-append :
      (w : Walk) (xs ys : List FileEntry)
      → with_files (with_files w xs) ys ≡ with_files w (xs ++ ys)
  unfolding with_files
  with_files-append w xs ys =
      ap₂ (λ f c. record w { files = f; count = c }) (append_assoc w.files xs ys)
        (omega (arith, length-append xs ys))

  with_files-nil : (w : Walk) → with_files w [] ≡ w
  unfolding with_files
  with_files-nil w =
      ap₂ (λ f c. record w { files = f; count = c }) (append-nil w.files) (omega arith)

  read_entries-step :
      (dir_path : Bytes) (e : Entry) (rest : Entries) (w next : Walk)
      → read_entry apr dir_path e w ≡ some next
      → read_entries apr dir_path (entry_then e rest) w ≡ read_entries apr dir_path rest next
  unfolding read_dir
  read_entries-step dir_path e rest w next h =
      ap
        (λ r. elim r as (λ _. Option Walk) [
          | none ↦ none
          | some here ↦ read_entries apr dir_path rest here
        ])
        h

  read_entries-fault :
      (dir_path : Bytes) (e : Entry) (rest : Entries) (w : Walk)
      → read_entry apr dir_path e w ≡ none
      → read_entries apr dir_path (entry_then e rest) w ≡ none
  unfolding read_entries
  read_entries-fault dir_path e rest w h =
      ap
        (λ o. elim o as (λ _. Option Walk) [
          | none ↦ none
          | some here ↦ read_entries apr dir_path rest here
        ])
        h

  mutual
    unfolding read_dir IsReadable files_in with_files add_file

    read_dir-readable :
        (dir_path : Bytes) (d : Directory) (w : Walk)
        → IsReadable d
        → w.at_last ≡ true
        → read_dir apr dir_path d w ≡ some (with_files w (files_in dir_path d))
    read_dir-readable dir_path (unreadable rv text) w h a = absurd h
    read_dir-readable dir_path (readable entries) w h a =
        read_entries-readable dir_path entries w h a

    read_entries-readable :
        (dir_path : Bytes) (entries : Entries) (w : Walk)
        → AreReadable entries
        → w.at_last ≡ true
        → read_entries apr dir_path entries w ≡ some (with_files w (files_among dir_path entries))
    read_entries-readable dir_path no_more w h a = ap some (sym (with_files-nil w))
    read_entries-readable dir_path (entry_then e rest) w h a =
        let here = read_entry-readable dir_path e w h.0 a in
        let behind =
          read_entries-readable dir_path rest (with_files w (files_of dir_path e)) h.1 a in
        read_entries-step dir_path e rest w (with_files w (files_of dir_path e)) here
        ∙ (behind ∙ ap some (with_files-append w (files_of dir_path e) (files_among dir_path rest)))

    read_entry-readable :
        (dir_path : Bytes) (e : Entry) (w : Walk)
        → IsReadableEntry e
        → w.at_last ≡ true
        → read_entry apr dir_path e w ≡ some (with_files w (files_of dir_path e))
    read_entry-readable dir_path (directory name d) w h a = elim (Bool-cases (is_visible name)) [
      | inl v ↦ rw v (read_dir-readable (child_path apr dir_path name) d w (rw v at h) a)
      | inr v ↦ rw v (ap some (sym (with_files-nil w)))
    ]
    read_entry-readable dir_path (regular name mtime) w h a =
        ap (λ b. if b then some (with_files w (files_of dir_path (regular name mtime))) else none) a
    read_entry-readable dir_path (other name) w h a = ap some (sym (with_files-nil w))

  -- If every directory below the given one that is not hidden can be opened, the walk appends all
  -- regular files below it to the list, in the order of the entries and without those in hidden
  -- directories, each with its path, its type and its time, and adds their number to the counter;
  -- no message is added.
  pub read_dir-files_in :
      (dir_path : Bytes) (d : Directory) (w : Walk)
      → IsReadable d
      → w.at_last ≡ true
      → read_dir apr dir_path d w ≡ some (with_files w (files_in dir_path d))
  read_dir-files_in dir_path d w h a = read_dir-readable dir_path d w h a

  -- A walk whose `file_list` is NULL over what holds these files: it faults, or there are none and
  -- the pointer is NULL behind it.
  abbrev NullWalk : List FileEntry → Option Walk → Type 0
  NullWalk files r =
      (r ≡ none) ⊎ ((after : Walk) × (r ≡ some after) × ((after.at_last ≡ false) × (files ≡ [])))

  mutual
    unfolding read_dir files_in add_file

    read_dir-NullWalk :
        (dir_path : Bytes) (d : Directory) (w : Walk)
        → w.at_last ≡ false
        → NullWalk (files_in dir_path d) (read_dir apr dir_path d w)
    read_dir-NullWalk dir_path (unreadable rv text) w a = inr (_, refl, (refl, refl))
    read_dir-NullWalk dir_path (readable entries) w a = read_entries-NullWalk dir_path entries w a

    read_entries-NullWalk :
        (dir_path : Bytes) (entries : Entries) (w : Walk)
        → w.at_last ≡ false
        → NullWalk (files_among dir_path entries) (read_entries apr dir_path entries w)
    read_entries-NullWalk dir_path no_more w a = inr (w, refl, (a, refl))
    read_entries-NullWalk dir_path (entry_then e rest) w a =
        elim (read_entry-NullWalk dir_path e w a) [
          | inl fault ↦ inl (read_entries-fault dir_path e rest w fault)
          | inr (next, here, (a', empty)) ↦ elim (read_entries-NullWalk dir_path rest next a') [
            | inl fault ↦ inl (read_entries-step dir_path e rest w next here ∙ fault)
            | inr (after, behind, (a'', empty')) ↦ inr (
              after,
              read_entries-step dir_path e rest w next here ∙ behind,
              (a'', ap₂ (λ xs ys. xs ++ ys) empty empty'),
            )
          ]
        ]

    read_entry-NullWalk :
        (dir_path : Bytes) (e : Entry) (w : Walk)
        → w.at_last ≡ false
        → NullWalk (files_of dir_path e) (read_entry apr dir_path e w)
    read_entry-NullWalk dir_path (directory name d) w a = elim (Bool-cases (is_visible name)) [
      | inl v ↦ rw v (read_dir-NullWalk (child_path apr dir_path name) d w a)
      | inr v ↦ rw v (inr (w, refl, (a, refl)))
    ]
    read_entry-NullWalk dir_path (regular name mtime) w a = inl (rw (add_file, a) refl)
    read_entry-NullWalk dir_path (other name) w a = inr (w, refl, (a, refl))

  followed_by-step :
      (dir_path : Bytes) (before rest : Entries) (w next : Walk)
      → read_entries apr dir_path before w ≡ some next
      → read_entries apr dir_path (followed_by before rest) w ≡ read_entries apr dir_path rest next
  unfolding read_entries
  followed_by-step dir_path no_more rest w next h =
      ap (read_entries apr dir_path rest) (some-injective _ _ h)
  followed_by-step dir_path (entry_then e before) rest w next h =
      elim (Option-cases (read_entry apr dir_path e w)) [
        | inl n ↦ cc (sym h ∙ read_entries-fault dir_path e before w n)
        | inr (here, s) ↦
            read_entries-step dir_path e (followed_by before rest) w here s
            ∙ followed_by-step dir_path before rest here next
                (sym (read_entries-step dir_path e before w here s) ∙ h)
      ]

  null_faults :
      (file : FileEntry) (files all_files : List FileEntry) (r : Option Walk)
      → NullWalk all_files r
      → all_files ≡ file ∷ files
      → r ≡ none
  null_faults file files all_files r (inl fault) e = fault
  null_faults file files all_files r (inr (after, s, (a, empty))) e = cc (empty, e)

  -- A visible directory that cannot be opened makes `file_list` NULL. Wherever it stands among the
  -- entries, with every visible directory before it readable: if there is a regular file behind it,
  -- be it beside it or below a later visible directory that can be opened, then the walk writes
  -- through that pointer.
  pub read_dir-unreadable :
      (dir_path name text : Bytes) (rv : ℕ) (before rest : Entries) (w : Walk)
      → (file : FileEntry) (files : List FileEntry) → AreReadable before
      → w.at_last ≡ true
      → is_visible name ≡ true
      → files_among dir_path rest ≡ file ∷ files
      → read_dir apr dir_path
          (readable (followed_by before (entry_then (directory name (unreadable rv text)) rest)))
          w
        ≡ none
  unfolding read_dir
  read_dir-unreadable dir_path name text rv before rest w file files readable_before a v found =
      let first = with_files w (files_among dir_path before) in
      followed_by-step dir_path before (entry_then (directory name (unreadable rv text)) rest) w
        first (read_entries-readable dir_path before w readable_before a)
      ∙ (read_entries-step dir_path (directory name (unreadable rv text)) rest first _ (
            ap
              (λ b.
                if b
                then read_dir apr (child_path apr dir_path name) (unreadable rv text) first
                else some first)
              v)
          ∙ null_faults file files (files_among dir_path rest) _
              (read_entries-NullWalk dir_path rest _ refl) found)
