-- ===== src/Codecs/Id3/Split.antt =====
-- The '/' in a track or disc number of src/indexers/music/codecs/mp3/mpg123.c.
use mod_mp.Base.{
  ◌==◌, if◌then◌else◌, ==_iff, Bool-cases, Bytes, ℕ, ◌≡◌, refl, ap, ◌∙◌, ◌≢◌, inl, inr, Option,
  none, some, [], ◌∷◌, ◌++◌,
}
use mod_mp.Codecs.{Song}
use mod_mp.Codecs.Id3.{split_slash, split_track_no, split_disc_no}

-- A byte that is not in the string.
unfoldable pub IsWithout : ℕ → Bytes → Type 0
IsWithout c [] = Unit
IsWithout c (x ∷ xs) = (x ≢ c) × IsWithout c xs

-- "number" or "number/total" as a pair of strings.
unfoldable pub join_slash : Bytes → Option Bytes → Bytes
join_slash number none = number
join_slash number (some total) = number ++ b'/' ∷ total

split_slash-slash : (cs : Bytes) → split_slash (b'/' ∷ cs) ≡ ([], some cs)
unfolding split_slash
split_slash-slash cs = refl

split_slash-other :
    (c : ℕ) (cs : Bytes)
    → c ≢ b'/'
    → split_slash (c ∷ cs) ≡ (c ∷ (split_slash cs).0, (split_slash cs).1)
unfolding split_slash
split_slash-other c cs h = elim (Bool-cases (c == b'/')) [
  | inl e ↦ absurd (h ((==_iff c b'/').0 e))
  | inr e ↦ ap (λ b. if b then ([], some cs) else (c ∷ (split_slash cs).0, (split_slash cs).1)) e
]

-- Splitting what was joined gives both parts back, whatever stands behind the first '/'.
pub split_slash-join_slash :
    (number : Bytes) (total : Option Bytes)
    → IsWithout b'/' number
    → split_slash (join_slash number total) ≡ (number, total)
unfolding IsWithout join_slash split_slash
split_slash-join_slash [] none h = refl
split_slash-join_slash [] (some total) h = refl
split_slash-join_slash (c ∷ cs) none h =
    split_slash-other c (join_slash cs none) h.0
    ∙ ap (λ p. (c ∷ p.0, p.1)) (split_slash-join_slash cs none h.1)
split_slash-join_slash (c ∷ cs) (some total) h =
    split_slash-other c (join_slash cs (some total)) h.0
    ∙ ap (λ p. (c ∷ p.0, p.1)) (split_slash-join_slash cs (some total) h.1)

-- The new value, or else the old one.
unfoldable pub keep_or : Option Bytes → Option Bytes → Option Bytes
keep_or none old = old
keep_or (some new) old = some new

track_parts :
    (number : Bytes) (total : Option Bytes) (song : Song)
    → song.track_no ≡ some (join_slash number total)
    → elim total as (λ _. Song) [
      | none ↦ song
      | some b ↦ record song { track_no = some number; total_tracks = some b }
    ]
      ≡ record song { track_no = some number; total_tracks = keep_or total song.total_tracks }
unfolding keep_or join_slash
track_parts number none song e = ap (λ o. record song { track_no = o }) e
track_parts number (some t) song e = refl

split_track_no-join :
    (number : Bytes) (total : Option Bytes) (song : Song)
    → IsWithout b'/' number
    → song.track_no ≡ some (join_slash number total)
    → split_track_no song
      ≡ record song { track_no = some number; total_tracks = keep_or total song.total_tracks }
unfolding split_track_no keep_or join_slash
split_track_no-join number total song h e =
    ap
      (λ o. elim o as (λ _. Song) [
        | none ↦ song
        | some s ↦ elim (split_slash s).1 as (λ _. Song) [
          | none ↦ song
          | some b ↦ record song { track_no = some (split_slash s).0; total_tracks = some b }
        ]
      ])
      e
    ∙ (ap
          (λ p. elim p.1 as (λ _. Song) [
            | none ↦ song
            | some b ↦ record song { track_no = some p.0; total_tracks = some b }
          ])
          (split_slash-join_slash number total h)
        ∙ track_parts number total song e)

disc_parts :
    (number : Bytes) (total : Option Bytes) (song : Song)
    → song.disc_no ≡ some (join_slash number total)
    → elim total as (λ _. Song) [
      | none ↦ song
      | some b ↦ record song { disc_no = some number; discs_in_set = some b }
    ]
      ≡ record song { disc_no = some number; discs_in_set = keep_or total song.discs_in_set }
unfolding keep_or join_slash
disc_parts number none song e = ap (λ o. record song { disc_no = o }) e
disc_parts number (some t) song e = refl

split_disc_no-join :
    (number : Bytes) (total : Option Bytes) (song : Song)
    → IsWithout b'/' number
    → song.disc_no ≡ some (join_slash number total)
    → split_disc_no song
      ≡ record song { disc_no = some number; discs_in_set = keep_or total song.discs_in_set }
unfolding split_disc_no keep_or join_slash
split_disc_no-join number total song h e =
    ap
      (λ o. elim o as (λ _. Song) [
        | none ↦ song
        | some s ↦ elim (split_slash s).1 as (λ _. Song) [
          | none ↦ song
          | some b ↦ record song { disc_no = some (split_slash s).0; discs_in_set = some b }
        ]
      ])
      e
    ∙ (ap
          (λ p. elim p.1 as (λ _. Song) [
            | none ↦ song
            | some b ↦ record song { disc_no = some p.0; discs_in_set = some b }
          ])
          (split_slash-join_slash number total h)
        ∙ disc_parts number total song e)

-- A song whose track and disc number are "number/total" or just "number", with no '/' in the
-- number, is left with the numbers alone, and with the totals where there were any; a total that
-- was not there stays as it was, and so do all other fields.
pub split_disc_no-split_track_no :
    (track disc : Bytes) (tracks discs : Option Bytes) (song : Song)
    → IsWithout b'/' track
    → IsWithout b'/' disc
    → song.track_no ≡ some (join_slash track tracks)
    → song.disc_no ≡ some (join_slash disc discs)
    → split_disc_no (split_track_no song) ≡ record song {
      track_no = some track;
      total_tracks = keep_or tracks song.total_tracks;
      disc_no = some disc;
      discs_in_set = keep_or discs song.discs_in_set;
    }
split_disc_no-split_track_no track disc tracks discs song ht hd et ed =
    ap split_disc_no (split_track_no-join track tracks song ht et)
    ∙ split_disc_no-join disc discs
        (record song { track_no = some track; total_tracks = keep_or tracks song.total_tracks }) hd
        ed
