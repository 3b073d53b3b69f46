-- ===== src/DirSync.antt =====
-- sync_dir of src/indexers/music/dir_sync/dir_sync.c: the thread that puts the songs of a directory
-- into the database, with FLAC, Ogg and MP3 compiled in. The database, libFLAC, libmpg123 and the
-- reader of Ogg tags, which the repository does not have, are parameters, and so are floats.
pub mod Scanned
pub mod Start
pub mod Status
use mod_mp.Base.{
  ◌==◌, if◌then◌else◌, length, ℤ, is_nonzero, Bytes, codes, pos, negsuc, ℕ, suc, ◌+◌, Bool, true,
  false, not, Option, none, some, List, [], ◌∷◌,
}
use mod_mp.Apr.{Apr, PrintArg, int, str, print_arg}
use mod_mp.ErrorMessages.{ErrorMessages, error, error_messages_add}
use mod_mp.TagReader.{FileType, flac, ogg, mp3, m4a, acc, wav, FileEntry, Directory, Walk, read_dir}
use mod_mp.Codecs.{Song}
use mod_mp.Codecs.Id3.{Mp3Scan, read_id3}
use mod_mp.Codecs.Vorbis.{FindEntryFrom, FlacBlocks, read_flac_level1}

-- The song of apr_pcalloc.
abbrev pub blank_song : Song
blank_song = record {
  title = none;
  artist = none;
  album = none;
  track_no = none;
  disc_no = none;
  discs_in_set = none;
  total_tracks = none;
  year = none;
  date = none;
  length = pos 0;
  mb_release_id = none;
  mb_recoriding_id = none;
  mb_album_id = none;
  mb_artist_id = none;
  mb_albumartist_id = none;
}

-- A song with its file and the text of the file's type.
pub record TypedSong : Type 0 where
  pub song : Song
  pub file : FileEntry
  pub type_string : Option Bytes

-- What the libraries answer about a file, by its path.
pub record TagLibraries : Type 0 where
  pub find_entry_from : FindEntryFrom
  pub flac_blocks : Bytes → FlacBlocks
  pub mp3_scan : Bytes → Mp3Scan
  -- read_ogg: the status and the song
  pub read_ogg : Bytes → ℤ × Song

-- The database, and the floats of the progress.
pub record SyncCalls : Type 1 where
  pub Db : Type 0
  pub Float : Type 0
  -- db_config->connected == 1
  pub connected : Db → Bool
  -- apr_dbd_transaction_start and apr_dbd_transaction_end
  pub transaction_start : Db → ℕ × Db
  pub transaction_end : Db → ℕ × Db
  pub dbd_error : Db → ℕ → Bytes
  pub sync_song : Db → TypedSong → ℤ × Db
  -- `(float) files_synced*100 / (num_files - 1)`
  pub percent : ℕ → ℕ → Float

-- The status of apr_pool_create_ex, and the text of apr_strerror.
pub record PoolAnswer : Type 0 where
  pub rv : ℕ
  pub text : Bytes

unfoldable pub add_error : Bytes → Bytes → ErrorMessages → ErrorMessages
add_error header text em = (error_messages_add em error header text).1

-- What `%d` gets for a status.
unfoldable pub status_arg : ℤ → PrintArg
status_arg (pos n) = int n
status_arg (negsuc n) = str (some (b'-' ∷ print_arg [] (int (n + 1))))

-- The pointer `num_files`: NULL, a counter with its value, or a pointer into a pool that was cleared.
pub data NumFiles : Type 0 where
  null : NumFiles
  points_to : ℕ → NumFiles
  dangling : NumFiles

module _ (apr : Apr) (tags : TagLibraries) (calls : SyncCalls) where
  -- dir_sh_stats_t, the database and the table of messages.
  pub record Sync : Type 0 where
    pub db : calls.Db
    pub error_messages : ErrorMessages
    pub num_files : NumFiles
    pub sync_progress : calls.Float
    pub files_scanned : ℕ

  unfoldable pub typed : FileEntry → Bytes → ℤ → Song → ℤ × TypedSong
  typed file name rv song = (
    rv,
    record { song = song; file = file; type_string = if is_nonzero rv then none else some name },
  )

  -- The switch on the type of the file; none for a fault of the reader.
  unfoldable pub read_as : FileEntry → Option FileType → Option (ℤ × TypedSong)
  unfolding typed
  read_as file (some flac) =
      elim (read_flac_level1 apr tags.find_entry_from (tags.flac_blocks file.path) (some blank_song)
        (some file.path)) [
          | none ↦ none
          | some r ↦ elim r.song [
            | none ↦ none
            | some song ↦ some (typed file (codes "flac") r.status song)
          ]
        ]
  read_as file (some ogg) =
      let (rv, song) = tags.read_ogg file.path in some (typed file (codes "ogg") rv song)
  read_as file (some mp3) = elim (read_id3 apr (tags.mp3_scan file.path) blank_song) [
    | none ↦ none
    | some r ↦ some (typed file (codes "mp3") r.status r.song)
  ]
  read_as file _ = some (negsuc 0, record { song = blank_song; file = file; type_string = none })

  unfoldable pub read_song : FileEntry → Option (ℤ × TypedSong)
  unfolding read_as
  read_song file = read_as file file.type

  -- The message about a song that could not be put into the database.
  unfoldable pub note_failure : ℤ → TypedSong → ErrorMessages → ErrorMessages
  unfolding add_error
  note_failure rv s em =
      if is_nonzero rv
      then add_error (apr.psprintf (codes "Failed to sync song:") [])
          (apr.psprintf
            (codes "(%d) Song title: %s Song artist: %s song album:%s song file path: %s")
            (status_arg rv
              ∷ str s.song.title
              ∷ str s.song.artist
              ∷ str s.song.album
              ∷ str (some s.file.path)
              ∷ []))
          em
      else em

  -- The end of a round: the progress, which is counted before the file is.
  unfoldable pub count_file : ℕ → ℕ → Sync → Sync
  count_file files_synced num_files s = record s {
    sync_progress = calls.percent files_synced num_files;
    files_scanned = files_synced;
  }

  -- The loop over the list, with `num_files`; false for the return in the middle.
  unfoldable pub sync_loop : List FileEntry → ℕ → ℕ → Sync → Option (Bool × Sync)
  unfolding read_song note_failure count_file
  sync_loop [] files_synced num_files s = some (true, s)
  sync_loop (file ∷ files) files_synced num_files s = elim (read_song file) [
    | none ↦ none
    | some (rv, song) ↦ elim (is_nonzero rv) [
      | true ↦ sync_loop files (suc files_synced) num_files (count_file files_synced num_files s)
      | false ↦ elim (calls.connected s.db) [
        | true ↦ sync_loop files (suc files_synced) num_files (
            count_file files_synced num_files (record s {
              db = (calls.sync_song s.db song).1;
              error_messages = note_failure (calls.sync_song s.db song).0 song s.error_messages;
            }))
        | false ↦ some (
          false,
          record s {
            error_messages =
                add_error (codes "Failed to sync song:") (codes "Lost connection to database")
                  s.error_messages;
          },
        )
      ]
    ]
  ]

  -- Behind the loop. Where the transaction ends well, the pool is cleared, and `num_files` with it.
  unfoldable pub end_transaction : Bool × Sync → Sync
  end_transaction (finished, s) =
      if finished
      then (let (rv, db) = calls.transaction_end s.db in
          if rv == 0 then record s { db = db; num_files = dangling } else record s {
            db = db;
            error_messages =
                add_error (codes "Database error couldn't end transaction") (calls.dbd_error db rv)
                  s.error_messages;
          })
      else s

  -- Behind read_dir, whose result is not used: the list is read from its first node. That node is
  -- not NULL, so the test that would end the thread never holds.
  unfoldable pub sync_files : Walk → Sync → Option Sync
  unfolding sync_loop end_transaction
  sync_files w s =
      let (rv, db) = calls.transaction_start s.db in
      if rv == 0
      then elim (sync_loop w.files 0 w.count (record s { db = db })) [
        | none ↦ none
        | some r ↦ some (end_transaction r)
      ]
      else some (record s {
        db = db;
        error_messages =
            add_error (codes "Database error start transaction") (calls.dbd_error db rv)
              s.error_messages;
      })

  unfoldable pub sync_dir : PoolAnswer → Bytes → Directory → Sync → Option Sync
  unfolding sync_files
  sync_dir pool path d s =
      if pool.rv == 0
      then (let with_count = record s { num_files = points_to 0 } in
          if calls.connected s.db
          then elim (read_dir apr path d (record {
            files = [];
            at_last = true;
            count = 0;
            error_messages = s.error_messages;
          })) [
            | none ↦ none
            | some w ↦
                sync_files w
                  (record s { num_files = points_to w.count; error_messages = w.error_messages })
          ]
          else some (record with_count {
            error_messages =
                add_error (codes "Database not connected") (codes "ERROR ERROR") s.error_messages;
          }))
      else some (record s {
        error_messages = add_error (codes "Memory Pool Error") pool.text s.error_messages;
      })
