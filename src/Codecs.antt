-- ===== src/Codecs.antt =====
-- src/indexers/music/codecs/ and the tags of a song in src/indexers/music/tag_reader.h: what the
-- decoders of FLAC and MP3 files do around their libraries.
pub mod Cells
pub mod Copy
pub mod Flac
pub mod Id3
pub mod Mp3
pub mod Vorbis
pub mod Ogg
use mod_mp.Base.{ℤ, Bytes, ℕ, Option}

-- The strings of struct music_file_ that the readers of tags fill; none for NULL.
pub record Song : Type 0 where
  pub title : Option Bytes
  pub artist : Option Bytes
  pub album : Option Bytes
  pub track_no : Option Bytes
  pub disc_no : Option Bytes
  pub discs_in_set : Option Bytes
  pub total_tracks : Option Bytes
  pub year : Option Bytes
  pub date : Option Bytes
  pub length : ℤ
  pub mb_release_id : Option Bytes
  pub mb_recoriding_id : Option Bytes
  pub mb_album_id : Option Bytes
  pub mb_artist_id : Option Bytes
  pub mb_albumartist_id : Option Bytes

-- A `char**` into the song.
pub data TagDest : Type 0 where
  dest_title dest_artist dest_album dest_track_no dest_disc_no dest_year dest_date : TagDest
  dest_mb_release_id dest_mb_recoriding_id dest_mb_artist_id dest_mb_albumartist_id : TagDest

-- `*dest`.
abbrev pub load_dest : TagDest → Song → Option Bytes
load_dest dest_title song = song.title
load_dest dest_artist song = song.artist
load_dest dest_album song = song.album
load_dest dest_track_no song = song.track_no
load_dest dest_disc_no song = song.disc_no
load_dest dest_year song = song.year
load_dest dest_date song = song.date
load_dest dest_mb_release_id song = song.mb_release_id
load_dest dest_mb_recoriding_id song = song.mb_recoriding_id
load_dest dest_mb_artist_id song = song.mb_artist_id
load_dest dest_mb_albumartist_id song = song.mb_albumartist_id

-- `*dest = value`.
abbrev pub store_dest : TagDest → Option Bytes → Song → Song
store_dest dest_title v song = record song { title = v }
store_dest dest_artist v song = record song { artist = v }
store_dest dest_album v song = record song { album = v }
store_dest dest_track_no v song = record song { track_no = v }
store_dest dest_disc_no v song = record song { disc_no = v }
store_dest dest_year v song = record song { year = v }
store_dest dest_date v song = record song { date = v }
store_dest dest_mb_release_id v song = record song { mb_release_id = v }
store_dest dest_mb_recoriding_id v song = record song { mb_recoriding_id = v }
store_dest dest_mb_artist_id v song = record song { mb_artist_id = v }
store_dest dest_mb_albumartist_id v song = record song { mb_albumartist_id = v }

-- encoding_options_t; `progress` and `quality`, which are floats, are left to their users.
pub record EncodingOptions : Type 0 where
  pub channels : ℕ
  pub rate : ℕ
  pub total_samples_per_channel : ℤ
  pub samples_to_request : ℕ
