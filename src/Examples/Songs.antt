-- ===== src/Examples/Songs.antt =====
-- The walk of directories, the readers of tags and the interleaved table of messages at concrete
-- inputs.
use mod_mp.Base.{
  get_elem?, drop, codes, pos, ℕ, ◌+◌, ◌<◌, ◌≡◌, refl, ◌⊎◌, true, false, none, some, List, [], ◌∷◌,
  arith,
}
use mathlib.Core.Option
use mod_mp.ErrorMessages.{max_errors, zeroed, error_messages_init}
use mod_mp.ErrorMessages.Race.{
  Shared, Step, test, fetch_and_add, Reach, here, next, idle, tested, claimed, all_idle,
  Reach-claimed, Reach-overflow,
}
use mod_mp.TagReader.{
  Directory, unreadable, readable, no_more, entry_then, directory, regular, other, Walk, read_dir,
}
use mod_mp.TagReader.Collect.{
  IsReadable, files_in, with_files, read_dir-files_in, read_dir-unreadable, followed_by,
}
use mod_mp.Codecs.{Song}
use mod_mp.Codecs.Id3.{Id3Text, Mp3Scan, Scanned, split_track_no, split_disc_no, read_id3}
use mod_mp.Codecs.Id3.Split.{IsWithout, join_slash, keep_or, split_disc_no-split_track_no}
use mod_mp.Codecs.Id3.Fields.{Reads, Fails, Faults, read_id3-tagged}
use mod_mp.Codecs.Vorbis.{
  vorbis_comment, stream_info, other_block, FindEntryFrom, FlacBlocks, FlacTags, read_flac_level1,
}
use mod_mp.Codecs.Vorbis.Entries.{FindLaws, find_index}
use mod_mp.Codecs.Vorbis.Songs.{HasRates, Described, read_flac_level1-Described}
use mod_mp.Examples.Platform.{plain_apr, plain_laws}

abbrev two_idle : Shared
two_idle = record { table = error_messages_init; phases = all_idle 2 }

abbrev one_tested : Shared
one_tested = record two_idle { phases = tested zeroed ∷ idle ∷ [] }

abbrev one_claimed : Shared
one_claimed = record {
  table = record error_messages_init { num_errors = 1 };
  phases = claimed 0 zeroed ∷ idle ∷ [];
}

one_claimed-Reach : Reach two_idle one_claimed
unfolding error_messages_init
one_claimed-Reach =
    let first : Step two_idle one_tested = test 0 zeroed refl (omega arith) refl in
    let second : Step one_tested one_claimed = fetch_and_add 0 zeroed refl refl in
    next (next here first) second

Reach-claimed_example : (0 < max_errors + 1) × (◌≡◌ {A = ℕ} 0 0)
unfolding error_messages_init
Reach-claimed_example =
    Reach-claimed 1 0 0 0 zeroed zeroed two_idle one_claimed refl (omega arith) one_claimed-Reach
      refl refl

Reach-overflow_example :
    (u : Shared) × Reach
      (record { table = record error_messages_init { num_errors = 1023 }; phases = all_idle 2 })
      u
    × (get_elem? u.phases 1 ≡ some (claimed max_errors zeroed))
Reach-overflow_example =
    Reach-overflow (record error_messages_init { num_errors = 1023 }) zeroed zeroed refl

abbrev empty_walk : Walk
empty_walk = record { files = []; at_last = true; count = 0; error_messages = error_messages_init }

-- A song, a hidden directory that cannot be read, a directory with a song, and a device.
abbrev music : Directory
music = readable (
    entry_then (regular (codes "a.flac") 5) (
      entry_then (directory (codes ".x") (unreadable 13 (codes "denied"))) (
        entry_then
          (directory (codes "d") (readable (entry_then (regular (codes "b.mp3") 6) no_more)))
          (entry_then (other (codes "null")) no_more))))

read_dir-files_in_example :
    read_dir plain_apr (codes "/m") music empty_walk
    ≡ some (with_files plain_apr empty_walk (files_in plain_apr (codes "/m") music))
unfolding IsReadable
read_dir-files_in_example =
    read_dir-files_in plain_apr (codes "/m") music empty_walk (tt, (tt, ((tt, tt), (tt, tt)))) refl

read_dir-unreadable_example :
    read_dir plain_apr
      (codes "/m")
      (readable (
        followed_by (entry_then (regular (codes "a.mp3") 5) no_more) (
          entry_then
            (directory (codes "d") (unreadable 13 (codes "denied")))
            (entry_then (other (codes "c")) (entry_then (regular (codes "b.mp3") 6) no_more)))))
      empty_walk
    ≡ none
unfolding IsReadable files_in
read_dir-unreadable_example =
    read_dir-unreadable plain_apr (codes "/m") (codes "d") (codes "denied") 13
      (entry_then (regular (codes "a.mp3") 5) no_more)
      (entry_then (other (codes "c")) (entry_then (regular (codes "b.mp3") 6) no_more)) empty_walk _
      _ (tt, tt) refl refl refl

abbrev no_song : Song
no_song = record {
  title = none;
  artist = none;
  album = none;
  track_no = none;
  disc_no = none;
  discs_in_set = none;
  total_tracks = none;
  year = none;
  date = none;
  length = pos 0;
  mb_release_id = none;
  mb_recoriding_id = none;
  mb_album_id = none;
  mb_artist_id = none;
  mb_albumartist_id = none;
}

abbrev some_texts : List Id3Text
some_texts =
    record { id = codes "TRCK"; text = some (codes "3/12") }
    ∷ record { id = codes "TDRC"; text = some (codes "2001") }
    ∷ record { id = codes "TDAT"; text = some (codes "0101") }
    ∷ []

abbrev numbered : Song
numbered = record no_song { track_no = some (codes "3/12"); disc_no = some (codes "1") }

split_disc_no-split_track_no_example : split_disc_no (split_track_no numbered) ≡ record numbered {
  track_no = some (codes "3");
  total_tracks = some (codes "12");
  disc_no = some (codes "1");
  discs_in_set = none;
}
unfolding IsWithout join_slash keep_or
split_disc_no-split_track_no_example =
    split_disc_no-split_track_no (codes "3") (codes "1") (some (codes "12")) none numbered
      ((λ e. absurd (omega (arith, e))), tt) ((λ e. absurd (omega (arith, e))), tt) refl refl

abbrev scanned : Mp3Scan
scanned = record {
  new_succeeds = true;
  scan_ok = true;
  has_id3 = true;
  id3_ok = true;
  texts = some some_texts;
  sample_rate = 44100;
  sample_count = pos 441000;
}

read_id3-tagged_example :
    ((r : Scanned) × (read_id3 plain_apr scanned no_song ≡ some r)
      × (Reads plain_apr plain_laws.pstrdup_lem scanned no_song r
          ⊎ Fails plain_apr plain_laws.pstrdup_lem scanned no_song r))
    ⊎ (Faults plain_apr plain_laws.pstrdup_lem scanned
        × (read_id3 plain_apr scanned no_song ≡ none))
read_id3-tagged_example = read_id3-tagged plain_apr plain_laws.pstrdup_lem scanned no_song

-- A search that takes every comment for a match.
abbrev find_any : FindEntryFrom
find_any = λ comments offset entry.
    Option.map (λ k. offset + k) (find_index (λ e. true) (drop offset comments))

any_laws : FindLaws find_any
any_laws = record { matches = λ entry e. true; find_entry-from = λ comments offset entry. refl }

abbrev flac_blocks : FlacBlocks
flac_blocks = record {
  new_succeeds = true;
  init_succeeds = true;
  first = stream_info 441000 44100;
  others = vorbis_comment (codes "TITLE" ∷ codes "TITLE=A=B" ∷ []) ∷ other_block ∷ [];
}

read_flac_level1-Described_example :
    (r : FlacTags) × (read_flac_level1 plain_apr find_any flac_blocks
        (some no_song)
        (some (codes "f"))
      ≡ some r)
    × (((true ≡ true)
          × Described plain_apr plain_laws.pstrmemdup_lem find_any any_laws
              (flac_blocks.first ∷ flac_blocks.others)
              no_song
              r)
        ⊎ ((true ≡ false) × ((r.status ≡ pos 1) × (r.song ≡ some no_song))))
unfolding HasRates
read_flac_level1-Described_example =
    read_flac_level1-Described plain_apr plain_laws.pstrmemdup_lem find_any any_laws flac_blocks
      no_song (codes "f") refl (omega arith, tt)
