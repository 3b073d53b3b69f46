-- ===== src/Codecs/Vorbis/Songs.antt =====
-- read_flac_level1 of src/indexers/music/codecs/flac/tag_reader.c: the song behind all blocks.
use mod_mp.Base.{
  ◌==◌, if◌then◌else◌, take, ℤ, success, Bytes, codes, pos, negsuc, ℕ, ◌/◌, ◌<◌, String, ◌≡◌, refl,
  ap, ◌∙◌, ◌⊎◌, inl, inr, Bool, true, false, not, Option, none, some, List, [], ◌∷◌, arith,
}
use mod_mp.Apr.{Apr}
use mod_mp.Codecs.{Song, TagDest, load_dest, store_dest}
use mod_mp.Codecs.Vorbis.{
  Block, vorbis_comment, stream_info, other_block, FindEntryFrom, FlacBlocks, FlacTags,
  comment_fields, read_fields, read_block, read_blocks, read_flac_level1,
}
use mod_mp.Codecs.Vorbis.Entries.{
  FindLaws, or_else, first_value, find_vorbis_comment_entry-first_value,
}

-- Every rate is positive.
unfoldable pub HasRates : List Block → Type 0
HasRates [] = Unit
HasRates (stream_info total_samples sample_rate ∷ bs) = (0 < sample_rate) × HasRates bs
HasRates (vorbis_comment comments ∷ bs) = HasRates bs
HasRates (other_block ∷ bs) = HasRates bs

module _ (apr : Apr) (dup : (s : Bytes) (n : ℕ) → apr.pstrmemdup s n ≡ take n s)
    (find_entry_from : FindEntryFrom) (laws : FindLaws find_entry_from) where
  -- The nine fields, each as it was or else the first value of its name.
  pub commented : List Bytes → Song → Song
  commented cs song =
      let first = λ (name : String). first_value (laws.matches (codes name)) cs in
      record song {
        title = or_else song.title (first "TITLE");
        artist = or_else song.artist (first "ARTIST");
        album = or_else song.album (first "ALBUM");
        track_no = or_else song.track_no (first "TRACKNUMBER");
        disc_no = or_else song.disc_no (first "DISCNUMBER");
        mb_release_id = or_else song.mb_release_id (first "MUSICBRAINZ_ALBUMID");
        mb_albumartist_id = or_else song.mb_albumartist_id (first "MUSICBRAINZ_ALBUMARTISTID");
        mb_artist_id = or_else song.mb_artist_id (first "MUSICBRAINZ_ARTISTID");
        mb_recoriding_id = or_else song.mb_recoriding_id (first "MUSICBRAINZ_TRACKID");
      }

  -- The song behind these blocks.
  pub described : List Block → Song → Song
  described [] song = song
  described (vorbis_comment comments ∷ bs) song = described bs (commented comments song)
  described (stream_info total_samples sample_rate ∷ bs) song =
      described bs (record song { length = pos (total_samples / sample_rate) })
  described (other_block ∷ bs) song = described bs song

  fill : List Bytes → List (Bytes × TagDest) → Song → Song
  fill cs [] song = song
  fill cs ((name, dest) ∷ fields) song =
      fill cs fields
        (store_dest dest (or_else (load_dest dest song) (first_value (laws.matches name) cs)) song)

  read_fields-fill :
      (cs : List Bytes) (fields : List (Bytes × TagDest)) (song : Song)
      → read_fields apr find_entry_from cs fields song ≡ some (fill cs fields song)
  unfolding read_fields fill
  read_fields-fill cs [] song = refl
  read_fields-fill cs ((name, dest) ∷ fields) song =
      ap
        (λ o. elim o as (λ _. Option Song) [
          | none ↦ none
          | some v ↦ read_fields apr find_entry_from cs fields (store_dest dest v song)
        ])
        (find_vorbis_comment_entry-first_value apr dup find_entry_from laws cs name
          (load_dest dest song))
      ∙ read_fields-fill cs fields _

  fill-commented :
      (cs : List Bytes) (song : Song)
      → read_fields apr find_entry_from cs comment_fields song ≡ some (commented cs song)
  unfolding commented fill
  fill-commented cs song = read_fields-fill cs comment_fields song

  read_blocks-step :
      (b : Block) (bs : List Block) (song next : Song)
      → read_block apr find_entry_from b song ≡ some next
      → read_blocks apr find_entry_from (b ∷ bs) song ≡ read_blocks apr find_entry_from bs next
  unfolding read_blocks
  read_blocks-step b bs song next e =
      ap
        (λ o. elim o as (λ _. Option Song) [
          | none ↦ none
          | some s ↦ read_blocks apr find_entry_from bs s
        ])
        e

  rate_nonzero : (rate : ℕ) → 0 < rate → (rate == 0) ≡ false
  rate_nonzero rate h = ground arith

  read_blocks-described :
      (bs : List Block) (song : Song)
      → HasRates bs
      → read_blocks apr find_entry_from bs song ≡ some (described bs song)
  unfolding read_blocks HasRates described
  read_blocks-described [] song h = refl
  read_blocks-described (vorbis_comment comments ∷ bs) song h =
      read_blocks-step (vorbis_comment comments) bs song _ (fill-commented comments song)
      ∙ read_blocks-described bs (commented comments song) h
  read_blocks-described (stream_info total rate ∷ bs) song h =
      read_blocks-step (stream_info total rate) bs song
        (record song { length = pos (total / rate) })
        (ap (λ b. if b then none else some (record song { length = pos (total / rate) }))
          (rate_nonzero rate h.0))
      ∙ read_blocks-described bs (record song { length = pos (total / rate) }) h.1
  read_blocks-described (other_block ∷ bs) song h =
      read_blocks-step other_block bs song song refl ∙ read_blocks-described bs song h

  -- What the blocks give: the song that they describe, and the status by its title.
  unfoldable pub Described : List Block → Song → FlacTags → Type 0
  Described bs song r =
      (r.song ≡ some (described bs song))
      × ((((described bs song).title ≡ none) × (r.status ≡ negsuc 0))
          ⊎ ((t : Bytes) × ((described bs song).title ≡ some t) × (r.status ≡ success)))

  title_status :
      (title : Option Bytes)
      → ((title ≡ none)
          × (elim title as (λ _. ℤ) [ none ↦ negsuc 0 | some t ↦ success ] ≡ negsuc 0))
        ⊎ ((t : Bytes) × (title ≡ some t)
            × (elim title as (λ _. ℤ) [ none ↦ negsuc 0 | some t ↦ success ] ≡ success))
  title_status none = inl (refl, refl)
  title_status (some t) = inr (t, refl, refl)

  finish : Option Song → Option FlacTags
  finish o = elim o [
    | none ↦ none
    | some s ↦
        some
          (record { status = elim s.title [ none ↦ negsuc 0 | some t ↦ success ]; song = some s })
  ]

  by_init :
      (init : Bool) (song : Song) (read : Option Song) (done : Song) (bs : List Block)
      → done ≡ described bs song
      → read ≡ some done
      → (r : FlacTags) × ((if not init
            then some (record { status = pos 1; song = some song })
            else finish read)
          ≡ some r)
        × (((init ≡ true) × Described bs song r)
            ⊎ ((init ≡ false) × ((r.status ≡ pos 1) × (r.song ≡ some song))))
  unfolding Described finish
  by_init false song read done bs d e = (_, refl, inr (refl, (refl, refl)))
  by_init true song read done bs d e = (
    record { status = elim done.title [ none ↦ negsuc 0 | some t ↦ success ]; song = some done },
    ap finish e,
    inl (refl, (ap some d, rw⁻¹ d (title_status done.title))),
  )

  -- If the iterator can be made and no stream information has a rate of 0, then read_flac_level1
  -- returns: 1 with the song as it was if the iterator cannot be initialised; else the song has its
  -- length from the last stream information and each of the nine fields from the first comment
  -- that gives it a value, unless it had one before, and the status is 0 if it then has a title
  -- and -1 if it has none.
  pub read_flac_level1-Described :
      (iter : FlacBlocks) (song : Song) (file_path : Bytes)
      → iter.new_succeeds ≡ true
      → HasRates (iter.first ∷ iter.others)
      → (r : FlacTags) × (read_flac_level1 apr find_entry_from iter (some song) (some file_path)
          ≡ some r)
        × (((iter.init_succeeds ≡ true) × Described (iter.first ∷ iter.others) song r)
            ⊎ ((iter.init_succeeds ≡ false) × ((r.status ≡ pos 1) × (r.song ≡ some song))))
  unfolding read_flac_level1 finish
  read_flac_level1-Described iter song file_path n h =
      let (r, e, how) =
        by_init iter.init_succeeds song
          (read_blocks apr find_entry_from (iter.first ∷ iter.others) song)
          (described (iter.first ∷ iter.others) song) (iter.first ∷ iter.others) refl
          (read_blocks-described (iter.first ∷ iter.others) song h) in
      (
        r,
        ap
              (λ b.
                if not b
                then none
                else if not iter.init_succeeds
                then some (record { status = pos 1; song = some song })
                else finish (read_blocks apr find_entry_from (iter.first ∷ iter.others) song))
              n
            ∙ e,
        how,
      )
