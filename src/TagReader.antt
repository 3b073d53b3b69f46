-- ===== src/TagReader.antt =====
-- src/indexers/music/tag_reader.h and tag_reader.c: the type of a music file by its extension, and
-- the walk that collects the files of a directory. A directory is the sequence of entries that
-- apr_dir_read gives, or a status and a text if apr_dir_open fails on it.
pub mod Extension
pub mod Collect
use mod_mp.Base.{
  ◌==◌, if◌then◌else◌, length, get_or, drop, Bytes, codes, ℕ, zero, suc, ◌+◌, ◌/◌, Bool, true,
  false, Option, none, some, List, [], ◌∷◌, ◌++◌,
}
use mod_mp.Apr.{Apr, int, str}
use mod_mp.ErrorMessages.{ErrorMessages, error, error_messages_add}

pub data FileType : Type 0 where
  mp3 flac ogg m4a acc wav : FileType

-- file_t, with none for the type -1. `type_string` is set later, `quality` never.
pub record FileEntry : Type 0 where
  pub path : Bytes
  pub type : Option FileType
  pub mtime : ℕ

mutual
  pub data Directory : Type 0 where
    unreadable : ℕ → Bytes → Directory
    readable : Entries → Directory

  pub data Entries : Type 0 where
    no_more : Entries
    entry_then : Entry → Entries → Entries

  -- A name with what it is: a directory, a regular file with its time, or something else.
  pub data Entry : Type 0 where
    directory : Bytes → Directory → Entry
    regular : Bytes → ℕ → Entry
    other : Bytes → Entry

-- The linked list from its first node, whether `file_list` points to its last, empty node rather
-- than being NULL, the counter and the table of messages.
pub record Walk : Type 0 where
  pub files : List FileEntry
  pub at_last : Bool
  pub count : ℕ
  pub error_messages : ErrorMessages

-- The test `filef.name[0] != '.'`.
abbrev pub is_visible : Bytes → Bool
is_visible name = if get_or name 0 0 == b'.' then false else true

module _ (apr : Apr) where
  -- The three tests, on the text behind a dot; `none` stands for -1.
  unfoldable pub type_of : Bytes → Option FileType
  type_of extension =
      if apr.strnatcasecmp_is_zero extension (codes "flac")
      then some flac
      else if apr.strnatcasecmp_is_zero extension (codes "ogg")
      then some ogg
      else if apr.strnatcasecmp_is_zero extension (codes "mp3")
      then some mp3
      else none

  -- The loop, with its `length`. The first test reads the NUL.
  ext_loop : ℕ → Bytes → Option FileType
  unfolding type_of
  ext_loop zero file_path = none
  ext_loop (suc length) file_path =
      let rest = ext_loop length file_path in
      if get_or file_path (suc length) 0 == b'.'
      then type_of (drop (suc length + 1) file_path)
      else rest

  unfoldable pub get_file_ext : Bytes → Option FileType
  unfolding ext_loop
  get_file_ext file_path = ext_loop (length file_path) file_path

  -- The node that a regular file fills; a NULL `file_list` is a fault.
  pub add_file : Bytes → ℕ → Walk → Option Walk
  unfolding get_file_ext
  add_file file_path mtime w =
      if w.at_last
      then some (record w {
        files =
            w.files
            ++ record { path = file_path; type = get_file_ext file_path; mtime = mtime } ∷ [];
        count = w.count + 1;
      })
      else none

  unfoldable pub child_path : Bytes → Bytes → Bytes
  child_path dir_path name = apr.pstrcat (dir_path ∷ codes "/" ∷ name ∷ [])

  -- apr_pstrcat is not NULL. The walk behind the call is the pointer that it returns.
  unfoldable mutual
    unfolding add_file child_path

    pub read_dir : Bytes → Directory → Walk → Option Walk
    read_dir dir_path (unreadable rv text) w = some (record w {
      at_last = false;
      error_messages =
          (error_messages_add w.error_messages error
            (apr.psprintf (codes "Error opening directory (%s) (%d)")
              (str (some dir_path) ∷ int rv ∷ []))
            text).1;
    })
    read_dir dir_path (readable entries) w = read_entries dir_path entries w

    pub read_entries : Bytes → Entries → Walk → Option Walk
    read_entries dir_path no_more w = some w
    read_entries dir_path (entry_then e rest) w = elim (read_entry dir_path e w) [
      | none ↦ none
      | some next ↦ read_entries dir_path rest next
    ]

    pub read_entry : Bytes → Entry → Walk → Option Walk
    read_entry dir_path (directory name d) w =
        let inner = read_dir (child_path dir_path name) d w in
        if is_visible name then inner else some w
    read_entry dir_path (regular name mtime) w = add_file (child_path dir_path name) mtime w
    read_entry dir_path (other name) w = some w
