-- ===== src/Codecs/Flac/Copying.antt =====
-- One round of process_flac_file in src/indexers/music/codecs/flac/flac.c that copies samples to the
-- caller.
use mod_mp.Base.{length, ℕ, ◌+◌, ◌-◌, ◌≤◌, ◌<◌, ◌≡◌, ap, ◌∙◌, Option, none, some, List, arith}
use mod_mp.Codecs.Cells.{cell, HasRoom}
use mod_mp.Codecs.Copy.{copy_rows, Copied, InRows, copy_rows-Copied}
use mod_mp.Codecs.Flac.{LibFlac, FlacFile, permuted, copy_out}
use mod_mp.Codecs.Flac.Permute.{permute-lt}
use mod_mp.Codecs.Flac.Frames.{IsSound, HasRoom-cell}

module _ (lib : LibFlac) where
  permuted-total :
      (channels : ℕ) (f : FlacFile lib)
      → channels ≤ 8
      → IsSound lib channels f
      → 0 < f.buffer_sample_count
      → (i j : ℕ) → i < channels
      → j < f.buffer_sample_count
      → (v : lib.Sample) × (permuted lib f i j ≡ some v)
  unfolding permuted IsSound
  permuted-total channels f c s h i j l k =
      let chans = s.3 h in
      let (p, e, lt) = permute-lt f.channels i (omega (arith, chans)) (omega (arith, chans)) in
      let (v, e') =
        HasRoom-cell f.buffer_sample_len f.buf p (j + f.buffer_sample_seek) s.1 (omega (arith, s.0))
          (omega (arith, s.2)) in
      (
        v,
        ap
              (λ o. elim o as (λ _. Option lib.Sample) [
                | none ↦ none
                | some q ↦ cell f.buf q (j + f.buffer_sample_seek)
              ])
              e
            ∙ e',
      )

  -- The file behind a copy.
  abbrev pub advanced : FlacFile lib → ℕ → FlacFile lib
  advanced f copy = record f {
    buffer_sample_seek = f.buffer_sample_seek + copy;
    buffer_sample_count = f.buffer_sample_count - copy;
  }

  -- From a sound file with samples left, with room for them in the caller's buffer: sample
  -- `realsamples + j` of channel `i` is afterwards sample `j` of those left in the channel that the
  -- matrix gives for `i`, no other cell has changed, and the file is sound and has moved on by the
  -- samples copied.
  pub copy_out-Copied :
      (channels room : ℕ) (f : FlacFile lib) (copy realsamples : ℕ)
      (buffer : List (List lib.Sample))
      → channels ≤ 8
      → IsSound lib channels f
      → 0 < f.buffer_sample_count
      → copy ≤ f.buffer_sample_count
      → realsamples + copy ≤ room
      → channels ≤ length buffer
      → HasRoom room buffer
      → (after : List (List lib.Sample)) × (copy_out lib f copy realsamples buffer
          ≡ some (advanced f copy, after))
        × Copied
            (permuted lib f)
            realsamples
            (InRows 0 channels realsamples (copy + realsamples))
            buffer
            after
        × HasRoom room after
        × (length after ≡ length buffer)
        × IsSound lib channels (advanced f copy)
  unfolding copy_out IsSound
  copy_out-Copied channels room f copy realsamples buffer c s h l fits rows r =
      let chans = s.3 h in
      let (after, done, how, room', size) =
        copy_rows-Copied (permuted lib f) realsamples copy channels channels 0 room buffer
          (omega arith) rows (omega arith) r
          (λ i j a b. permuted-total channels f c s h i j a (omega arith)) in
      (
        after,
        ap
            (λ o. elim o as (λ _. Option (FlacFile lib × List (List lib.Sample))) [
              | none ↦ none
              | some b ↦ some (advanced f copy, b)
            ])
            (ap (λ n. copy_rows (permuted lib f) realsamples copy n 0 buffer) chans ∙ done),
        how,
        room',
        size,
        (s.0, s.1, omega (arith, s.2), (λ _. chans)),
      )
