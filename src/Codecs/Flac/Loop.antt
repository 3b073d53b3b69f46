-- ===== src/Codecs/Flac/Loop.antt =====
-- The loop of process_flac_file in src/indexers/music/codecs/flac/flac.c: it ends when the decoder
-- does, and stays inside the caller's buffer.
use mod_mp.Base.{
  ltb, if◌then◌else◌, Bool-cases, length, ℕ, zero, suc, ◌+◌, ◌-◌, ◌≤◌, ◌<◌, min, ◌≡◌, refl, ap, ◌∙◌,
  ◌⊎◌, inl, inr, Bool, true, false, not, ◌||◌, Option, none, some, List, arith,
}
use mod_mp.Codecs.Cells.{cell, HasRoom}
use mod_mp.Codecs.Copy.{Copied}
use mod_mp.Codecs.Flac.{
  LibFlac, FlacFile, process_next, copy_out, Produced, flac_loop, process_flac_file,
}
use mod_mp.Codecs.Flac.Frames.{AreFrames, IsSound, call_back-IsSound}
use mod_mp.Codecs.Flac.Copying.{advanced, copy_out-Copied}

module _ (lib : LibFlac) where
  -- The decoder reports a failure or its end after at most this many further calls, and its frames
  -- have this many channels.
  unfoldable pub EndsIn : ℕ → ℕ → lib.Decoder → Type 0
  EndsIn channels zero d = ⊥
  EndsIn channels (suc n) d =
      AreFrames channels (lib.process_single d).1
      × ((((lib.process_single d).0 ≡ false) ⊎ (lib.at_end (lib.process_single d).2 ≡ true))
          ⊎ EndsIn channels n (lib.process_single d).2)

  -- The rounds that the decoder may still take: none behind the end of the stream.
  unfoldable pub Rest : ℕ → ℕ → FlacFile lib → Type 0
  Rest channels n f = (f.eos ≡ true) ⊎ EndsIn channels n f.stream_decoder

  ended :
      (ret end old : Bool)
      → (ret ≡ false) ⊎ (end ≡ true)
      → (if not ret || end then true else old) ≡ true
  ended false end old h = refl
  ended true true old h = refl
  ended true false old (inl h) = cc h
  ended true false old (inr h) = cc h

  process_next-Rest :
      (channels n : ℕ) (f : FlacFile lib)
      → IsSound lib channels f
      → f.eos ≡ false
      → Rest channels (suc n) f
      → (g : FlacFile lib) × (process_next lib f ≡ some g)
        × IsSound lib channels g
        × Rest channels n g
  unfolding process_next EndsIn Rest IsSound
  process_next-Rest channels n f s e (inl r) = cc (e, r)
  process_next-Rest channels n f s e (inr (frames, r)) =
      let (ret, events, d) = lib.process_single f.stream_decoder in
      let (g, called, sound) = call_back-IsSound lib channels events f frames s in
      (
        record g { stream_decoder = d; eos = if not ret || lib.at_end d then true else g.eos },
        ap
            (λ o. elim o as (λ _. Option (FlacFile lib)) [
              | none ↦ none
              | some k ↦ some (record k {
                stream_decoder = d;
                eos = if not ret || lib.at_end d then true else k.eos;
              })
            ])
            called,
        sound,
        elim r [ inl e' ↦ inl (ended ret (lib.at_end d) g.eos e') | inr e' ↦ inr e' ],
      )

  flac_loop-copy :
      (fuel : ℕ) (f g : FlacFile lib) (samples realsamples : ℕ)
      → (buffer after : List (List lib.Sample)) → ltb realsamples samples ≡ true
      → ltb 0 f.buffer_sample_count ≡ true
      → copy_out lib f (min f.buffer_sample_count (samples - realsamples)) realsamples buffer
        ≡ some (g, after)
      → flac_loop lib (suc fuel) f samples realsamples buffer
        ≡ flac_loop lib fuel g samples
            (realsamples + min f.buffer_sample_count (samples - realsamples))
            after
  unfolding flac_loop
  flac_loop-copy fuel f g samples realsamples buffer after a b e = rw (flac_loop, a, b, e) refl

  flac_loop-next :
      (fuel : ℕ) (f g : FlacFile lib) (samples realsamples : ℕ) (buffer : List (List lib.Sample))
      → ltb realsamples samples ≡ true
      → ltb 0 f.buffer_sample_count ≡ false
      → f.eos ≡ false
      → process_next lib f ≡ some g
      → flac_loop lib (suc fuel) f samples realsamples buffer
        ≡ flac_loop lib fuel g samples realsamples buffer
  unfolding flac_loop
  flac_loop-next fuel f g samples realsamples buffer a b c e = rw (flac_loop, a, b, c, e) refl

  flac_loop-stop :
      (fuel : ℕ) (f : FlacFile lib) (samples realsamples : ℕ) (buffer : List (List lib.Sample))
      → ltb realsamples samples ≡ true
      → ltb 0 f.buffer_sample_count ≡ false
      → f.eos ≡ true
      → flac_loop lib (suc fuel) f samples realsamples buffer
        ≡ some (record { ret = realsamples; file = f; buffer = buffer })
  unfolding flac_loop
  flac_loop-stop fuel f samples realsamples buffer a b c =
      rw (flac_loop, a, b)
        (ap
          (λ e. elim e as (λ _. Option (Produced lib)) [
            | true ↦ some (record { ret = realsamples; file = f; buffer = buffer })
            | false ↦ elim (process_next lib f) as (λ _. Option (Produced lib)) [
              | none ↦ none
              | some g ↦ flac_loop lib fuel g samples realsamples buffer
            ]
          ])
          c)

  -- What the loop has done when it started with `realsamples`: it filled every channel up to what
  -- it returns and changed nothing else; less than what was asked for only at the end.
  unfoldable pub Finished : ℕ → ℕ → ℕ → List (List lib.Sample) → Produced lib → Type 0
  Finished channels samples realsamples buffer r =
      (realsamples ≤ r.ret)
      × (r.ret ≤ samples)
      × ((r.ret ≡ samples) ⊎ ((r.file.eos ≡ true) × (r.file.buffer_sample_count ≡ 0)))
      × ((k j : ℕ)
          → ¬ ((k < channels) × (realsamples ≤ j) × (j < r.ret))
          → cell r.buffer k j ≡ cell buffer k j)
      × (length r.buffer ≡ length buffer)
      × IsSound lib channels r.file

  ltb-false : {a b : ℕ} → ltb a b ≡ false → b ≤ a
  ltb-false e = ground arith

  ltb-true : {a b : ℕ} → ltb a b ≡ true → a < b
  ltb-true e = ground arith

  min_le :
      (count free : ℕ)
      → 0 < count
      → 0 < free
      → (0 < min count free) × (min count free ≤ count) × (min count free ≤ free)
  min_le count free h l = (omega arith, omega arith, omega arith)

  Rest-suc :
      (channels n : ℕ) (f : FlacFile lib)
      → f.eos ≡ false
      → Rest channels n f
      → (m : ℕ) × (n ≡ suc m) × Rest channels (suc m) f
  unfolding Rest EndsIn
  Rest-suc channels n f e (inl r) = cc (e, r)
  Rest-suc channels zero f e (inr r) = absurd r
  Rest-suc channels (suc m) f e (inr r) = (m, refl, inr r)

  flac_loop-Finished :
      (channels n fuel : ℕ) (f : FlacFile lib) (samples realsamples : ℕ)
      → (buffer : List (List lib.Sample)) → channels ≤ 8
      → IsSound lib channels f
      → Rest channels n f
      → channels ≤ length buffer
      → HasRoom samples buffer
      → realsamples ≤ samples
      → (samples - realsamples) + n < fuel
      → (r : Produced lib) × (flac_loop lib fuel f samples realsamples buffer ≡ some r)
        × Finished channels samples realsamples buffer r
  unfolding Finished flac_loop Rest EndsIn Copied
  flac_loop-Finished channels n zero f samples real buffer c s e rows room le fuel_le =
      absurd (omega arith)
  flac_loop-Finished channels n (suc fuel) f samples real buffer c s e rows room le fuel_le =
      elim (Bool-cases (ltb real samples)) [
        | inl more ↦ elim (Bool-cases (ltb 0 f.buffer_sample_count)) [
          | inl some_left ↦
              let (copied, below, fits) =
                min_le f.buffer_sample_count (samples - real) (ltb-true some_left)
                  (omega (arith, ltb-true more)) in
              let copy = min f.buffer_sample_count (samples - real) in
              let (after, done, (_, unmine), room', size, sound) =
                copy_out-Copied lib channels samples f copy real buffer c s (ltb-true some_left)
                  below (omega (arith, fits, le)) rows room in
              let (r, rest, (from, to, end, kept, size', sound')) =
                flac_loop-Finished channels n fuel (advanced lib f copy) samples (real + copy) after
                  c sound e (omega (arith, size, rows)) room' (omega (arith, fits, le))
                  (omega (arith, copied, fits, fuel_le)) in
              (
                r,
                flac_loop-copy fuel f (advanced lib f copy) samples real buffer after more some_left
                      done
                    ∙ rest,
                (
                  omega (arith, from),
                  to,
                  end,
                  (λ k j nm.
                      kept k j (λ m. nm (m.0, omega (arith, m.1), m.2))
                      ∙ unmine k j (λ m. nm (m.1, m.2, omega (arith, m.3, from)))),
                  size' ∙ size,
                  sound',
                ),
              )
          | inr none_left ↦ elim (Bool-cases f.eos) [
            | inl end ↦ (
              record { ret = real; file = f; buffer = buffer },
              flac_loop-stop fuel f samples real buffer more none_left end,
              (
                omega arith,
                le,
                inr (end, omega (arith, ltb-false none_left)),
                (λ k j _. refl),
                refl,
                s,
              ),
            )
            | inr going ↦
                let (m, n_eq, e') = Rest-suc channels n f going e in
                let (g, called, sound, e'') = process_next-Rest channels m f s going e' in
                let (r, rest, how) =
                  flac_loop-Finished channels m fuel g samples real buffer c sound e'' rows room le
                    (omega (arith, n_eq, fuel_le)) in
                (
                  r,
                  flac_loop-next fuel f g samples real buffer more none_left going called ∙ rest,
                  how,
                )
          ]
        ]
        | inr full ↦ (
          record { ret = real; file = f; buffer = buffer },
          rw (flac_loop, full) refl,
          (omega arith, le, inl (omega (arith, ltb-false full)), (λ k j _. refl), refl, s),
        )
      ]

  -- For a file whose buffer is sound, of a stream of at most eight channels whose decoder fails or
  -- ends after at most `n` more frames, and a buffer of the caller with room for the samples asked
  -- for: samples + n + 1 rounds are enough, no access is outside an array, as many samples are
  -- returned as were asked for or else the stream is at its end with nothing left, nothing outside
  -- the first `ret` samples of the stream's channels has changed in the caller's buffer, and the file
  -- is sound for the next call.
  pub process_flac_file-Finished :
      (channels n : ℕ) (f : FlacFile lib) (buffer : List (List lib.Sample)) (samples : ℕ)
      → channels ≤ 8
      → IsSound lib channels f
      → Rest channels n f
      → channels ≤ length buffer
      → HasRoom samples buffer
      → (r : Produced lib) × (process_flac_file lib (samples + n + 1) f buffer samples ≡ some r)
        × Finished channels samples 0 buffer r
  unfolding process_flac_file
  process_flac_file-Finished channels n f buffer samples c s e rows room =
      flac_loop-Finished channels n (samples + n + 1) f samples 0 buffer c s e rows room
        (omega arith) (omega arith)
