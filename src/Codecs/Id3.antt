-- ===== src/Codecs/Id3.antt =====
-- The reader of ID3 tags in src/indexers/music/codecs/mp3/mpg123.c and id3v2.h. What the library
-- answers about the file is a record; `int` and `long` are wide enough for what it answers.
pub mod Split
pub mod Fields
use mod_mp.Base.{
  ◌==◌, if◌then◌else◌, length, ℤ, is_nonneg, success, Bytes, codes, pos, negsuc, ℕ, ◌+◌, ◌-◌, ◌/◌,
  Bool, true, false, not, ◌&&◌, Option, none, some, List, [], ◌∷◌, map,
}
use mathlib.Core.Option
use mod_mp.Apr.{Apr}
use mod_mp.Codecs.{
  Song, TagDest, dest_title, dest_artist, dest_album, dest_track_no, dest_disc_no, dest_year,
  dest_date, store_dest,
}

-- mpg123_text: the four bytes of its id, and its text or NULL.
pub record Id3Text : Type 0 where
  pub id : Bytes
  pub text : Option Bytes

-- id3v2_id_t.
pub record Id3v2Id : Type 0 where
  pub id : Bytes
  pub texts : TagDest

-- The answers of libmpg123 on one file, in the order of the calls.
pub record Mp3Scan : Type 0 where
  pub new_succeeds : Bool
  -- mpg123_scan returns MPG123_OK
  pub scan_ok : Bool
  -- MPG123_ID3 in mpg123_meta_check
  pub has_id3 : Bool
  -- mpg123_id3 returns MPG123_OK, and the texts of its `v2`, which is NULL for a file that has no
  -- more than an ID3v1 tag
  pub id3_ok : Bool
  pub texts : Option (List Id3Text)
  -- the rate of mpg123_getformat, 0 if it sets none, and mpg123_length
  pub sample_rate : ℕ
  pub sample_count : ℤ

-- The equality of the four bytes, read as two `int`s.
unfoldable pub same_id : Bytes → Bytes → Bool
same_id [] [] = true
same_id (a ∷ as') (b ∷ bs) = (a == b) && same_id as' bs
same_id _ _ = false

-- C's division of an `int` by a positive number.
unfoldable pub quotient : ℤ → ℕ → ℤ
quotient (pos n) d = pos (n / d)
quotient (negsuc n) d = let q = (n + 1) / d in if q == 0 then pos 0 else negsuc (q - 1)

-- `song->length = length` unless it is negative; a rate of 0 is a fault.
unfoldable pub set_length : ℤ → ℕ → Song → Option Song
unfolding quotient
set_length count rate song =
    if rate == 0
    then none
    else (let length = quotient count rate in
        some (if is_nonneg length then record song { length = length } else song))

-- The loop over a number's bytes: what stands before the first '/' and, if there is one, what
-- stands behind it.
unfoldable pub split_slash : Bytes → Bytes × Option Bytes
split_slash [] = ([], none)
split_slash (c ∷ cs) =
    if c == b'/'
    then ([], some cs)
    else (let (before, behind) = split_slash cs in (c ∷ before, behind))

unfoldable pub split_track_no : Song → Song
split_track_no song = elim song.track_no [
  | none ↦ song
  | some s ↦ elim (split_slash s).1 [
    | none ↦ song
    | some behind ↦ record song { track_no = some (split_slash s).0; total_tracks = some behind }
  ]
]

unfoldable pub split_disc_no : Song → Song
split_disc_no song = elim song.disc_no [
  | none ↦ song
  | some s ↦ elim (split_slash s).1 [
    | none ↦ song
    | some behind ↦ record song { disc_no = some (split_slash s).0; discs_in_set = some behind }
  ]
]

-- The eight ids of `tags_request`.
abbrev pub tags_request : List Id3v2Id
tags_request =
    record { id = codes "TIT2"; texts = dest_title }
    ∷ record { id = codes "TPE1"; texts = dest_artist }
    ∷ record { id = codes "TALB"; texts = dest_album }
    ∷ record { id = codes "TRCK"; texts = dest_track_no }
    ∷ record { id = codes "TPOS"; texts = dest_disc_no }
    ∷ record { id = codes "TYER"; texts = dest_year }
    ∷ record { id = codes "TDAT"; texts = dest_date }
    ∷ record { id = codes "TDRC"; texts = dest_date }
    ∷ []

-- What the caller has: the status, the song, and whether the handle was closed and deleted.
pub record Scanned : Type 0 where
  pub status : ℤ
  pub song : Song
  pub closed : Bool

module _ (apr : Apr) where
  -- The inner loop, which stops at the first text with the id.
  unfoldable pub search_texts : Id3v2Id → List Id3Text → Song → Song
  unfolding same_id
  search_texts wanted [] song = song
  search_texts wanted (t ∷ ts) song =
      if same_id wanted.id t.id
      then store_dest wanted.texts (Option.map apr.pstrdup t.text) song
      else search_texts wanted ts song

  unfoldable pub find_id3_tag_id : List Id3Text → List Id3v2Id → Song → Song
  unfolding search_texts
  find_id3_tag_id texts [] song = song
  find_id3_tag_id texts (wanted ∷ ids) song =
      find_id3_tag_id texts ids (search_texts wanted texts song)

  -- From find_id3_tag_id on, which reads through the pointer to the texts, to the length of the
  -- file; none for a NULL pointer and for the division by zero.
  unfoldable pub read_texts : Option (List Id3Text) → ℤ → ℕ → Song → Option Song
  unfolding find_id3_tag_id split_track_no split_disc_no set_length
  read_texts none count rate song = none
  read_texts (some texts) count rate song =
      set_length count rate
        (split_disc_no (split_track_no (find_id3_tag_id texts tags_request song)))

  -- none for a fault of read_texts.
  unfoldable pub read_id3 : Mp3Scan → Song → Option Scanned
  unfolding read_texts
  read_id3 m song =
      if not m.new_succeeds
      then some (record { status = negsuc 0; song = song; closed = false })
      else if not m.scan_ok
      then some (record { status = negsuc 2; song = song; closed = false })
      else if m.has_id3
      then (if not m.id3_ok
          then some (record { status = negsuc 4; song = song; closed = false })
          else Option.map (λ s. record { status = success; song = s; closed = true })
              (read_texts m.texts m.sample_count m.sample_rate song))
      else some (record { status = negsuc 5; song = song; closed = false })
