-- ===== src/Codecs/Id3/Fields.antt =====
-- Which text of a tag becomes which field of a song in src/indexers/music/codecs/mp3/mpg123.c.
use mod_mp.Base.{
  ◌==◌, if◌then◌else◌, Bool-cases, length, ℤ, success, Bytes, codes, negsuc, ℕ, ◌≡◌, refl, sym, ap,
  ◌∙◌, ◌≢◌, ◌⊎◌, inl, inr, Bool, true, false, not, ◌&&◌, Option, none, some, List, [], ◌∷◌, arith,
}
use mathlib.Core.Option
use mod_mp.Apr.{Apr}
use mod_mp.Codecs.{
  Song, TagDest, load_dest, store_dest, dest_title, dest_artist, dest_album, dest_track_no,
  dest_disc_no, dest_year, dest_date, dest_mb_release_id, dest_mb_recoriding_id, dest_mb_artist_id,
  dest_mb_albumartist_id,
}
use mod_mp.Codecs.Id3.{
  Id3Text, Id3v2Id, Mp3Scan, Scanned, same_id, search_texts, find_id3_tag_id, tags_request,
  split_track_no, split_disc_no, set_length, read_texts, read_id3,
}

-- The first text of a tag with the given id, or else what the field had.
pub first_or : List Id3Text → Bytes → Option Bytes → Option Bytes
first_or [] id old = old
first_or (t ∷ ts) id old = if same_id id t.id then t.text else first_or ts id old

module _ (apr : Apr) (dup : (s : Bytes) → apr.pstrdup s ≡ s) where
  map-dup : (o : Option Bytes) → Option.map apr.pstrdup o ≡ o
  map-dup none = refl
  map-dup (some s) = ap some (dup s)

  store-load : (d : TagDest) (song : Song) → store_dest d (load_dest d song) song ≡ song
  store-load dest_title song = refl
  store-load dest_artist song = refl
  store-load dest_album song = refl
  store-load dest_track_no song = refl
  store-load dest_disc_no song = refl
  store-load dest_year song = refl
  store-load dest_date song = refl
  store-load dest_mb_release_id song = refl
  store-load dest_mb_recoriding_id song = refl
  store-load dest_mb_artist_id song = refl
  store-load dest_mb_albumartist_id song = refl

  search_texts-first_or :
      (wanted : Id3v2Id) (texts : List Id3Text) (song : Song)
      → search_texts apr wanted texts song
        ≡ store_dest wanted.texts (first_or texts wanted.id (load_dest wanted.texts song)) song
  unfolding search_texts first_or
  search_texts-first_or wanted [] song = sym (store-load wanted.texts song)
  search_texts-first_or wanted (t ∷ ts) song = elim (Bool-cases (same_id wanted.id t.id)) [
    | inl e ↦ rw (e, map-dup t.text) refl
    | inr e ↦ rw e (search_texts-first_or wanted ts song)
  ]

  -- The song with the fields of the eight ids, each the first text that has the id or else what
  -- it was; for the date, the one of TDRC before that of TDAT.
  pub tagged : List Id3Text → Song → Song
  tagged texts song = record song {
    title = first_or texts (codes "TIT2") song.title;
    artist = first_or texts (codes "TPE1") song.artist;
    album = first_or texts (codes "TALB") song.album;
    track_no = first_or texts (codes "TRCK") song.track_no;
    disc_no = first_or texts (codes "TPOS") song.disc_no;
    year = first_or texts (codes "TYER") song.year;
    date = first_or texts (codes "TDRC") (first_or texts (codes "TDAT") song.date);
  }

  fill : List Id3Text → List Id3v2Id → Song → Song
  fill texts [] song = song
  fill texts (w ∷ ids) song =
      fill texts ids (store_dest w.texts (first_or texts w.id (load_dest w.texts song)) song)

  find_id3_tag_id-fill :
      (texts : List Id3Text) (ids : List Id3v2Id) (song : Song)
      → find_id3_tag_id apr texts ids song ≡ fill texts ids song
  unfolding find_id3_tag_id fill
  find_id3_tag_id-fill texts [] song = refl
  find_id3_tag_id-fill texts (w ∷ ids) song =
      ap (find_id3_tag_id apr texts ids) (search_texts-first_or w texts song)
      ∙ find_id3_tag_id-fill texts ids _

  -- Whatever the order of the texts and however often an id occurs, each of the seven fields gets
  -- the first text with its id, and the date that of TDRC even where there is a TDAT; a field whose
  -- id does not occur, and every other field, stays as it was.
  pub find_id3_tag_id-tagged :
      (texts : List Id3Text) (song : Song)
      → find_id3_tag_id apr texts tags_request song ≡ tagged texts song
  unfolding tagged fill
  find_id3_tag_id-tagged texts song = find_id3_tag_id-fill texts tags_request song

  -- The calls that must succeed before the tags are read.
  pub can_read : Mp3Scan → Bool
  can_read m = m.new_succeeds && (m.scan_ok && (m.has_id3 && m.id3_ok))

  -- What read_id3 returns when every call succeeds: 0, a closed handle, and the song with the
  -- tags, the numbers split and the length of the file.
  pub Reads : Mp3Scan → Song → Scanned → Type 0
  Reads m song r =
      (can_read m ≡ true)
      × (r.status ≡ success)
      × (r.closed ≡ true)
      × ((texts : List Id3Text) × (m.texts ≡ some texts)
          × (set_length m.sample_count m.sample_rate
                (split_disc_no (split_track_no (tagged texts song)))
              ≡ some r.song))

  -- What it returns otherwise.
  pub Fails : Mp3Scan → Song → Scanned → Type 0
  Fails m song r =
      (can_read m ≡ false) × (r.status ≢ success) × (r.closed ≡ false) × (r.song ≡ song)

  -- Where it reads through the NULL pointer or divides by zero.
  pub Faults : Mp3Scan → Type 0
  Faults m = (can_read m ≡ true) × ((m.texts ≡ none) ⊎ (m.sample_rate ≡ 0))

  set_length-none :
      (count : ℤ) (rate : ℕ) (song : Song) → set_length count rate song ≡ none → rate ≡ 0
  unfolding set_length
  set_length-none count rate song e = elim (Bool-cases (rate == 0)) [
    | inl z ↦ ground (arith, z)
    | inr z ↦ absurd (cc (rw z at e))
  ]

  read_texts-none :
      (texts : Option (List Id3Text)) (count : ℤ) (rate : ℕ) (song : Song)
      → read_texts apr texts count rate song ≡ none
      → (texts ≡ none) ⊎ (rate ≡ 0)
  unfolding read_texts
  read_texts-none none count rate song e = inl refl
  read_texts-none (some texts) count rate song e = inr (set_length-none count rate _ e)

  read_texts-some :
      (texts : Option (List Id3Text)) (count : ℤ) (rate : ℕ) (song done : Song)
      → read_texts apr texts count rate song ≡ some done
      → (ts : List Id3Text) × (texts ≡ some ts)
        × (set_length count rate (split_disc_no (split_track_no (tagged ts song))) ≡ some done)
  unfolding read_texts
  read_texts-some none count rate song done e = cc e
  read_texts-some (some texts) count rate song done e = (
    texts,
    refl,
    ap (λ s. set_length count rate (split_disc_no (split_track_no s)))
          (sym (find_id3_tag_id-tagged texts song))
        ∙ e,
  )

  -- What the four tests of read_id3 make of what is read behind them.
  by_calls : Bool → Bool → Bool → Bool → Song → Option Song → Option Scanned
  by_calls n s h i song read =
      if not n
      then some (record { status = negsuc 0; song = song; closed = false })
      else if not s
      then some (record { status = negsuc 2; song = song; closed = false })
      else if h
      then (if not i
          then some (record { status = negsuc 4; song = song; closed = false })
          else Option.map (λ s'. record { status = success; song = s'; closed = true }) read)
      else some (record { status = negsuc 5; song = song; closed = false })

  outcome :
      (n s h i : Bool) (song : Song) (read : Option Song)
      → ((r : Scanned) × (by_calls n s h i song read ≡ some r)
          × ((((n && (s && (h && i))) ≡ true)
                × (r.status ≡ success)
                × (r.closed ≡ true)
                × (read ≡ some r.song))
              ⊎ (((n && (s && (h && i))) ≡ false)
                  × (r.status ≢ success)
                  × (r.closed ≡ false)
                  × (r.song ≡ song))))
        ⊎ (((n && (s && (h && i))) ≡ true) × (read ≡ none) × (by_calls n s h i song read ≡ none))
  unfolding by_calls
  outcome false s h i song read = inl (_, refl, inr (refl, (λ c. cc c), refl, refl))
  outcome true false h i song read = inl (_, refl, inr (refl, (λ c. cc c), refl, refl))
  outcome true true false i song read = inl (_, refl, inr (refl, (λ c. cc c), refl, refl))
  outcome true true true false song read = inl (_, refl, inr (refl, (λ c. cc c), refl, refl))
  outcome true true true true song (some done) = inl (_, refl, inl (refl, refl, refl, refl))
  outcome true true true true song none = inr (refl, refl, refl)

  -- For every file, read_id3 does one of three things. It returns 0, with the handle closed and the
  -- song filled from the texts, exactly when the handle was made, the scan succeeded, the tags are
  -- there and readable, there are ID3v2 texts, and the rate is not 0. It returns another status,
  -- with the song as it was and the handle left open, when one of those calls failed. And where they
  -- all succeed but the pointer to the ID3v2 data is NULL or the rate is 0, it faults.
  pub read_id3-tagged :
      (m : Mp3Scan) (song : Song)
      → ((r : Scanned) × (read_id3 apr m song ≡ some r) × (Reads m song r ⊎ Fails m song r))
        ⊎ (Faults m × (read_id3 apr m song ≡ none))
  unfolding read_id3 Reads Fails Faults can_read by_calls
  read_id3-tagged m song =
      elim (outcome m.new_succeeds m.scan_ok m.has_id3 m.id3_ok song
        (read_texts apr m.texts m.sample_count m.sample_rate song)) [
          | inl (r, done, inl (calls, status, closed, read)) ↦ inl (
            r,
            done,
            inl (
              calls,
              status,
              closed,
              (let (texts, given, length) =
                    read_texts-some m.texts m.sample_count m.sample_rate song r.song read in
                  (texts, given, length)),
            ),
          )
          | inl (r, done, inr failed) ↦ inl (r, done, inr failed)
          | inr (calls, read, fault) ↦
              inr ((calls, read_texts-none m.texts m.sample_count m.sample_rate song read), fault)
        ]
