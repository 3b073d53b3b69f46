-- ===== src/Codecs/Flac/Frames.antt =====
-- The callbacks of src/indexers/music/codecs/flac/flac.c: what a frame leaves in the file.
use mod_mp.Base.{
  ◌==◌, if◌then◌else◌, ==_iff, Bool-cases, length, replicate, length-replicate, get_elem?-lt, ℕ,
  zero, suc, ◌+◌, ◌≤◌, ◌<◌, ◌≡◌, refl, sym, ap, ◌∙◌, subst, inl, inr, Bool, true, false, ◌&&◌,
  Option, none, some, List, [], ◌∷◌, arith,
}
use mod_mp.Codecs.Cells.{cell, HasRoom}
use mod_mp.Codecs.Copy.{Copied, copy_rows-Copied}
use mod_mp.Codecs.Flac.{
  LibFlac, Frame, FlacEvent, streaminfo, other_metadata, frame, stream_error, FlacFile,
  resize_buffer, converted, flac_write, flac_metadata, call_back,
}

HasRoom-replicate :
    {A : Type 0} (samples channels : ℕ) (a : A)
    → HasRoom samples (replicate channels (replicate samples a))
unfolding HasRoom
HasRoom-replicate samples zero a = tt
HasRoom-replicate samples (suc channels) a =
    (omega (arith, length-replicate samples a), HasRoom-replicate samples channels a)

-- A cell inside a buffer with room is there.
pub HasRoom-cell :
    {A : Type 0} (samples : ℕ) (buffer : List (List A)) (k j : ℕ)
    → HasRoom samples buffer
    → k < length buffer
    → j < samples
    → (v : A) × (cell buffer k j ≡ some v)
unfolding HasRoom
HasRoom-cell samples [] k j r h l = elim h [ ]
HasRoom-cell samples (row ∷ rows) zero j r h l = get_elem?-lt row j (omega (arith, r.0))
HasRoom-cell samples (row ∷ rows) (suc k) j r h l =
    HasRoom-cell samples rows k j r.1 (omega arith) l

-- A frame as libFLAC makes it, for a stream of this many channels.
unfoldable pub IsFrame : {Raw : Type 0} → ℕ → Frame Raw → Type 0
IsFrame channels fr =
    (fr.channels ≡ channels) × (channels ≤ length fr.buffer) × HasRoom fr.blocksize fr.buffer

unfoldable pub AreFrames : {Raw : Type 0} → ℕ → List (FlacEvent Raw) → Type 0
AreFrames channels [] = Unit
AreFrames channels (frame fr ∷ es) = IsFrame channels fr × AreFrames channels es
AreFrames channels (streaminfo total rate ∷ es) = AreFrames channels es
AreFrames channels (other_metadata ∷ es) = AreFrames channels es
AreFrames channels (stream_error ∷ es) = AreFrames channels es

add_zero : (n : ℕ) → n + 0 ≡ n
add_zero n = omega arith

module _ (lib : LibFlac) where
  -- The buffer of the file: a row for each channel, each as long as the file says, and the samples
  -- that are left to hand out inside it. Where samples are left, the channels are the stream's.
  unfoldable pub IsSound : ℕ → FlacFile lib → Type 0
  IsSound channels f =
      (length f.buf ≡ f.channels)
      × HasRoom f.buffer_sample_len f.buf
      × (f.buffer_sample_seek + f.buffer_sample_count ≤ f.buffer_sample_len)
      × (0 < f.buffer_sample_count → f.channels ≡ channels)

  -- A new frame's place: so many rows of so many samples, and nothing in them.
  abbrev IsEmpty : FlacFile lib → ℕ → ℕ → Type 0
  IsEmpty g newchannels newsamples =
      (length g.buf ≡ newchannels)
      × HasRoom newsamples g.buf
      × (g.channels ≡ newchannels)
      × (g.buffer_sample_len ≡ newsamples)
      × (g.buffer_sample_seek ≡ 0)

  resize_buffer-IsEmpty :
      (channels : ℕ) (f : FlacFile lib) (newchannels newsamples : ℕ)
      → IsSound channels f
      → IsEmpty (resize_buffer lib f newchannels newsamples) newchannels newsamples
  unfolding resize_buffer IsSound
  resize_buffer-IsEmpty channels f newchannels newsamples s =
      elim (Bool-cases (newchannels == f.channels)) [
        | inl a ↦ elim (Bool-cases (newsamples == f.buffer_sample_len)) [
          | inl b ↦
              let c : newchannels ≡ f.channels = (==_iff newchannels f.channels).0 a in
              let n : newsamples ≡ f.buffer_sample_len =
                (==_iff newsamples f.buffer_sample_len).0 b in
              subst (λ g. IsEmpty g newchannels newsamples)
                (sym (ap (choose f newchannels newsamples) (both a b)))
                (s.0 ∙ sym c, subst (λ m. HasRoom m f.buf) (sym n) s.1, sym c, sym n, refl)
          | inr b ↦
              subst (λ g. IsEmpty g newchannels newsamples)
                (sym (ap (choose f newchannels newsamples) (second a b)))
                (fresh newchannels newsamples)
        ]
        | inr a ↦
            subst (λ g. IsEmpty g newchannels newsamples)
              (sym (
                ap (choose f newchannels newsamples) (first (newsamples == f.buffer_sample_len) a)))
              (fresh newchannels newsamples)
      ]
    where
      choose : FlacFile lib → ℕ → ℕ → Bool → FlacFile lib
      choose f newchannels newsamples b =
          if b then record f { buffer_sample_seek = 0; buffer_sample_count = 0 } else record f {
            channels = newchannels;
            buf = replicate newchannels (replicate newsamples lib.uninitialised);
            buffer_sample_len = newsamples;
            buffer_sample_seek = 0;
            buffer_sample_count = 0;
          }

      both : {a b : Bool} → a ≡ true → b ≡ true → (a && b) ≡ true
      both e d = rw (e, d) refl

      second : {a b : Bool} → a ≡ true → b ≡ false → (a && b) ≡ false
      second e d = rw (e, d) refl

      first : {a : Bool} (b : Bool) → a ≡ false → (a && b) ≡ false
      first b e = rw e refl

      fresh :
          (newchannels newsamples : ℕ)
          → IsEmpty (choose f newchannels newsamples false) newchannels newsamples
      fresh newchannels newsamples = (
        length-replicate newchannels (replicate newsamples lib.uninitialised),
        HasRoom-replicate newsamples newchannels lib.uninitialised,
        refl,
        refl,
        refl,
      )

  converted-total :
      (channels : ℕ) (fr : Frame lib.Raw)
      → IsFrame channels fr
      → (i j : ℕ) → i < fr.channels
      → j < fr.blocksize
      → (v : lib.Sample) × (converted lib fr i j ≡ some v)
  unfolding converted IsFrame
  converted-total channels fr s i j h l =
      let (x, e) = HasRoom-cell fr.blocksize fr.buffer i j s.2 (omega (arith, s.0, s.1)) l in
      (
        lib.to_float x fr.bits_per_sample,
        ap
            (λ o. elim o as (λ _. Option lib.Sample) [
              | none ↦ none
              | some y ↦ some (lib.to_float y fr.bits_per_sample)
            ])
            e,
      )

  -- What flac_write leaves of a frame: its samples as floats, all of them to be handed out.
  unfoldable pub HasFrame : Frame lib.Raw → FlacFile lib → Type 0
  HasFrame fr g =
      (g.channels ≡ fr.channels)
      × (g.buffer_sample_seek ≡ 0)
      × (g.buffer_sample_count ≡ fr.blocksize)
      × ((i j : ℕ) → i < fr.channels → j < fr.blocksize → cell g.buf i j ≡ converted lib fr i j)

  pub flac_write-HasFrame :
      (channels : ℕ) (fr : Frame lib.Raw) (f : FlacFile lib)
      → IsFrame channels fr
      → IsSound channels f
      → (g : FlacFile lib) × (flac_write lib fr f ≡ some g) × HasFrame fr g × IsSound channels g
  unfolding flac_write HasFrame Copied IsFrame IsSound
  flac_write-HasFrame channels fr f h s =
      let g = resize_buffer lib f fr.channels fr.blocksize in
      let (rows, room, chans, len, seek) =
        resize_buffer-IsEmpty channels f fr.channels fr.blocksize s in
      let (after, done, (mine, unmine), room', size) =
        copy_rows-Copied (converted lib fr) 0 fr.blocksize fr.channels fr.channels 0 fr.blocksize
          g.buf (omega arith) (omega (arith, rows)) (omega arith) room
          (converted-total channels fr h) in
      (
        record g { buf = after; buffer_sample_count = fr.blocksize },
        ap
            (λ o. elim o as (λ _. Option (FlacFile lib)) [
              | none ↦ none
              | some b ↦ some (record g { buf = b; buffer_sample_count = fr.blocksize })
            ])
            done,
        (
          chans,
          seek,
          refl,
          (λ i j a b.
              subst (λ m. cell after i m ≡ converted lib fr i j) (add_zero j)
                (mine i j (omega arith, a, omega arith, omega (arith, b)))),
        ),
        (
          size ∙ rows ∙ sym chans,
          subst (λ m. HasRoom m after) (sym len) room',
          omega (arith, seek, len),
          (λ _. chans ∙ h.0),
        ),
      )

  call_back-frame :
      (fr : Frame lib.Raw) (es : List (FlacEvent lib.Raw)) (f g : FlacFile lib)
      → flac_write lib fr f ≡ some g
      → call_back lib (frame fr ∷ es) f ≡ call_back lib es g
  unfolding call_back
  call_back-frame fr es f g e =
      ap (λ o. elim o as (λ _. Option (FlacFile lib)) [ none ↦ none | some h ↦ call_back lib es h ])
        e

  -- Callbacks of a stream with a fixed number of channels keep the file sound.
  pub call_back-IsSound :
      (channels : ℕ) (es : List (FlacEvent lib.Raw)) (f : FlacFile lib)
      → AreFrames channels es
      → IsSound channels f
      → (g : FlacFile lib) × (call_back lib es f ≡ some g) × IsSound channels g
  unfolding AreFrames IsSound call_back
  call_back-IsSound channels [] f h s = (f, refl, s)
  call_back-IsSound channels (streaminfo total rate ∷ es) f h s =
      call_back-IsSound channels es (flac_metadata lib total rate f) h s
  call_back-IsSound channels (other_metadata ∷ es) f h s = call_back-IsSound channels es f h s
  call_back-IsSound channels (stream_error ∷ es) f h s = call_back-IsSound channels es f h s
  call_back-IsSound channels (frame fr ∷ es) f h s =
      let (g, written, _, sound) = flac_write-HasFrame channels fr f h.0 s in
      let (k, behind, sound') = call_back-IsSound channels es g h.1 sound in
      (k, call_back-frame fr es f g written ∙ behind, sound')
