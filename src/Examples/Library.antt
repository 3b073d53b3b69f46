-- ===== src/Examples/Library.antt =====
-- A query of the music library and a run of the synchronisation at concrete inputs.
use mod_mp.Base.{
  ltb, if◌then◌else◌, length, ℤ, success, codes, pos, negsuc, ℕ, suc, ◌≡◌, refl, true, false,
  Option, none, some, [], ◌∷◌,
}
use mod_mp.ErrorMessages.{error_messages_init}
use mod_mp.QueryParameters.{order_by_clause, db_query_parameters_init}
use mod_mp.TagReader.{
  FileType, mp3, flac, ogg, m4a, acc, wav, FileEntry, Directory, readable, no_more, entry_then,
  regular,
}
use mod_mp.TagReader.Collect.{IsReadable, files_in}
use mod_mp.Codecs.Id3.{read_id3}
use mod_mp.Codecs.Vorbis.{other_block, read_flac_level1}
use mod_mp.Music.{songs, Lookups, MusicQuery, set_value, query_type, get_music_query}
use mod_mp.Music.Sort.{
  comma_separated, ordered, complaints, SortByLaws, sort_tokens, get_music_query-sorted,
}
use mod_mp.Music.Answer.{AnswerCalls}
use mod_mp.DirSync.{
  blank_song, TypedSong, TagLibraries, SyncCalls, PoolAnswer, Sync, typed, read_as, read_song,
  sync_dir, null,
}
use mod_mp.DirSync.Scanned.{Steady, IsSynced, sync_dir-IsSynced}
use mod_mp.Examples.Platform.{plain_apr, plain_laws}
use mod_mp.Examples.Data.{title, songs_query}

-- Names of fewer than six bytes are those of the column `title`, and a value is one token.
abbrev short_names : Lookups
short_names = record {
  find_query_by_id = λ id. some songs_query;
  find_column = λ q name. if ltb (length name) 6 then some title else none;
  strtok = λ s. s ∷ [];
}

abbrev blank_query : MusicQuery
blank_query = record {
  type = songs;
  db_query = none;
  db_query_parameters = none;
  error_messages = error_messages_init;
}

sort_by_laws : SortByLaws short_names plain_apr plain_laws
unfolding plain_apr
sort_by_laws = record { limit = refl; offset = refl; sort_by = refl }

is_songs : query_type plain_apr short_names (codes "songs") ≡ some songs
unfolding query_type plain_apr
is_songs = refl

get_music_query-sorted_example :
    get_music_query plain_apr short_names
      (some (codes "music" ∷ codes "songs" ∷ codes "sort_by" ∷ codes "-title" ∷ []))
      blank_query
    ≡ some (
      success,
      record {
        type = songs;
        db_query = some songs_query;
        db_query_parameters = some (
            set_value order_by_clause
              (comma_separated (
                ordered short_names songs_query
                  (sort_tokens short_names plain_apr plain_laws (codes "-title"))))
              db_query_parameters_init);
        error_messages =
            complaints short_names songs_query
              (sort_tokens short_names plain_apr plain_laws (codes "-title"))
              error_messages_init;
      },
    )
get_music_query-sorted_example =
    get_music_query-sorted short_names plain_apr plain_laws (codes "music") (codes "songs")
      (codes "-title") blank_query songs songs_query sort_by_laws is_songs refl refl

-- Readers that fail on FLAC and MP3 files.
abbrev ogg_only : TagLibraries
ogg_only = record {
  find_entry_from = λ comments offset entry. none;
  flac_blocks = λ path. record {
    new_succeeds = true;
    init_succeeds = false;
    first = other_block;
    others = [];
  };
  mp3_scan = λ path. record {
    new_succeeds = false;
    scan_ok = false;
    has_id3 = false;
    id3_ok = false;
    texts = none;
    sample_rate = 0;
    sample_count = pos 0;
  };
  read_ogg = λ path. (success, blank_song);
}

-- A database that counts its songs.
abbrev counting : SyncCalls
counting = record {
  Db = ℕ;
  Float = ℕ;
  connected = λ db. true;
  transaction_start = λ db. (0, db);
  transaction_end = λ db. (0, db);
  dbd_error = λ db rv. [];
  sync_song = λ db song. (success, suc db);
  percent = λ files_synced num_files. files_synced;
}

reads_as : FileEntry → Option FileType → ℤ × TypedSong
reads_as file (some flac) = typed plain_apr ogg_only counting file (codes "flac") (pos 1) blank_song
reads_as file (some ogg) = typed plain_apr ogg_only counting file (codes "ogg") success blank_song
reads_as file (some mp3) =
    typed plain_apr ogg_only counting file (codes "mp3") (negsuc 0) blank_song
reads_as file _ = (negsuc 0, record { song = blank_song; file = file; type_string = none })

reads_as_lem :
    (file : FileEntry) (type : Option FileType)
    → read_as plain_apr ogg_only counting file type ≡ some (reads_as file type)
unfolding read_as reads_as read_flac_level1 read_id3
reads_as_lem file (some flac) = refl
reads_as_lem file (some ogg) = refl
reads_as_lem file (some mp3) = refl
reads_as_lem file (some m4a) = refl
reads_as_lem file (some acc) = refl
reads_as_lem file (some wav) = refl
reads_as_lem file none = refl

abbrev reads : FileEntry → ℤ × TypedSong
reads file = reads_as file file.type

steady : Steady plain_apr ogg_only counting reads
unfolding read_song
steady = record { answers = λ file. reads_as_lem file file.type; keeps = λ db song c. refl }

abbrev two_files : Directory
two_files =
    readable
      (entry_then (regular (codes "a.ogg") 1) (entry_then (regular (codes "b.txt") 2) no_more))

abbrev before : Sync plain_apr ogg_only counting
before = record {
  db = 10;
  error_messages = error_messages_init;
  num_files = null;
  sync_progress = 0;
  files_scanned = 0;
}

abbrev pool_made : PoolAnswer
pool_made = record { rv = 0; text = [] }

sync_dir-IsSynced_example :
    (after : Sync plain_apr ogg_only counting) × (sync_dir plain_apr ogg_only counting pool_made
        (codes "/m")
        two_files
        before
      ≡ some after)
    × IsSynced plain_apr ogg_only counting reads
        (files_in plain_apr (codes "/m") two_files)
        before
        after
unfolding IsReadable
sync_dir-IsSynced_example =
    sync_dir-IsSynced plain_apr ogg_only counting reads pool_made (codes "/m") two_files before
      steady (tt, (tt, tt)) refl refl refl refl

abbrev plain_calls : AnswerCalls plain_apr
plain_calls = record {
  file_opens = λ path. true;
  file_size = λ path. 0;
  brigade_insert_file = λ bb path size. bb;
  itoa = λ n. [];
  add_error_list = λ em header text. em;
  transcode_audio = λ mq output. none;
  output_dirsync_status = λ mq output. none;
}

abbrev songs_mq : MusicQuery
songs_mq = record blank_query { db_query = some songs_query }
