-- ===== src/Codecs/Vorbis.antt =====
-- src/indexers/music/codecs/flac/tag_reader.c: the reader of the tags in a FLAC file. The metadata
-- blocks are what libFLAC's iterator gives; a length in seconds fits into an `int`.
pub mod Entries
pub mod Songs
use mod_mp.Base.{
  ◌==◌, if◌then◌else◌, length, get_elem?, drop, ℤ, success, Bytes, codes, strchr, pos, negsuc, ℕ,
  zero, suc, ◌+◌, ◌-◌, ◌/◌, Bool, not, Option, none, some, List, [], ◌∷◌,
}
use mod_mp.Apr.{Apr}
use mod_mp.Codecs.{
  Song, TagDest, dest_title, dest_artist, dest_album, dest_track_no, dest_disc_no,
  dest_mb_release_id, dest_mb_recoriding_id, dest_mb_artist_id, dest_mb_albumartist_id, load_dest,
  store_dest,
}

-- A metadata block: the comments of a VORBIS_COMMENT, the total samples and the rate of a
-- STREAMINFO, or one of the types that are passed over.
pub data Block : Type 0 where
  vorbis_comment : List Bytes → Block
  stream_info : ℕ → ℕ → Block
  other_block : Block

-- FLAC__metadata_object_vorbiscomment_find_entry_from: the index of the first comment from the
-- offset on with the given name, none for -1.
abbrev pub FindEntryFrom : Type 0
FindEntryFrom = List Bytes → ℕ → Bytes → Option ℕ

-- The answers of libFLAC's iterator on one file: whether it could be made and initialised, and
-- the blocks, of which there is at least one.
pub record FlacBlocks : Type 0 where
  pub new_succeeds : Bool
  pub init_succeeds : Bool
  pub first : Block
  pub others : List Block

-- The nine fields that a comment block is searched for.
abbrev pub comment_fields : List (Bytes × TagDest)
comment_fields =
    (codes "TITLE", dest_title)
    ∷ (codes "ARTIST", dest_artist)
    ∷ (codes "ALBUM", dest_album)
    ∷ (codes "TRACKNUMBER", dest_track_no)
    ∷ (codes "DISCNUMBER", dest_disc_no)
    ∷ (codes "MUSICBRAINZ_ALBUMID", dest_mb_release_id)
    ∷ (codes "MUSICBRAINZ_ALBUMARTISTID", dest_mb_albumartist_id)
    ∷ (codes "MUSICBRAINZ_ARTISTID", dest_mb_artist_id)
    ∷ (codes "MUSICBRAINZ_TRACKID", dest_mb_recoriding_id)
    ∷ []

-- What the caller has.
pub record FlacTags : Type 0 where
  pub status : ℤ
  pub song : Option Song

module _ (apr : Apr) (find_entry_from : FindEntryFrom) where
  -- The body of the loop, for an entry that was found: `*feild` behind it.
  unfoldable pub take_value : Bytes → Option Bytes → Option Bytes
  take_value entry field = elim (strchr b'=' entry) [
    | none ↦ field
    | some k ↦ elim field [
      | some v ↦ some v
      | none ↦ some (apr.pstrmemdup (drop (k + 1) entry) (length entry - (k + 1)))
    ]
  ]

  -- The loop; none for an index outside the comments, and without fuel.
  unfoldable pub find_loop : ℕ → List Bytes → ℕ → Bytes → Option Bytes → Option (Option Bytes)
  unfolding take_value
  find_loop zero comments offset entry field = none
  find_loop (suc fuel) comments offset entry field = elim (find_entry_from comments offset entry) [
    | none ↦ some field
    | some i ↦ elim (get_elem? comments i) [
      | none ↦ none
      | some e ↦ find_loop fuel comments (i + 1) entry (take_value e field)
    ]
  ]

  -- A round for each comment, and one to find no more.
  unfoldable pub find_vorbis_comment_entry :
      List Bytes → Bytes → Option Bytes → Option (Option Bytes)
  unfolding find_loop
  find_vorbis_comment_entry comments entry field =
      find_loop (length comments + 1) comments 0 entry field

  -- The nine calls in their order.
  unfoldable pub read_fields : List Bytes → List (Bytes × TagDest) → Song → Option Song
  unfolding find_vorbis_comment_entry
  read_fields comments [] song = some song
  read_fields comments ((entry, dest) ∷ fields) song =
      elim (find_vorbis_comment_entry comments entry (load_dest dest song)) [
        | none ↦ none
        | some v ↦ read_fields comments fields (store_dest dest v song)
      ]

  unfoldable pub read_block : Block → Song → Option Song
  unfolding read_fields
  read_block (vorbis_comment comments) song = read_fields comments comment_fields song
  read_block (stream_info total_samples sample_rate) song =
      if sample_rate == 0
      then none
      else some (record song { length = pos (total_samples / sample_rate) })
  read_block other_block song = some song

  unfoldable pub read_blocks : List Block → Song → Option Song
  unfolding read_block
  read_blocks [] song = some song
  read_blocks (b ∷ bs) song = elim (read_block b song) [ none ↦ none | some s ↦ read_blocks bs s ]

  -- none for a fault; deleting an iterator that is NULL is one.
  unfoldable pub read_flac_level1 : FlacBlocks → Option Song → Option Bytes → Option FlacTags
  unfolding read_blocks
  read_flac_level1 iter none file_path = some (record { status = pos 1; song = none })
  read_flac_level1 iter (some song) none = some (record { status = pos 1; song = some song })
  read_flac_level1 iter (some song) (some file_path) =
      if not iter.new_succeeds
      then none
      else if not iter.init_succeeds
      then some (record { status = pos 1; song = some song })
      else (elim (read_blocks (iter.first ∷ iter.others) song) [
        | none ↦ none
        | some s ↦
            some (record {
              status = elim s.title [ none ↦ negsuc 0 | some t ↦ success ];
              song = some s;
            })
      ])
