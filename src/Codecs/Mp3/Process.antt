-- ===== src/Codecs/Mp3/Process.antt =====
-- process_mp3_file of src/indexers/music/codecs/mp3/mpg123.c: the call of mpg123_read and what is
-- made of its answer.
use mod_mp.Base.{
  ◌==◌, if◌then◌else◌, length, ℕ, ◌*◌, ◌/◌, ◌≤◌, ◌<◌, ◌≡◌, refl, sym, ap, ◌∙◌, ◌⊎◌, inl, inr, false,
  Option, none, some, List, arith,
}
use mathlib.Core.Option
use native.Mathlib.Nat.{
  mul-le-mul_right, div-mul-le_self, le_of_mul-le-mul_right, mul_assoc, mul-div_cancel,
}
use mod_mp.Codecs.Cells.{HasRoom, HasRoom-le}
use mod_mp.Codecs.Mp3.{
  Mpg123, MpgStatus, mpg_ok, mpg_need_more, mpg_new_format, mpg_done, mpg_err, Mp3File, Decoded,
  size_of_float, transfer, transfer_done, process_mp3_file,
}
use mod_mp.Codecs.Mp3.Transfer.{Moved, InRows, transfer-Moved}

module _ (mpg : Mpg123) where
  -- What the library documents of mpg123_read into a buffer of `size` bytes, for a format of
  -- 32-bit floats.
  pub record ReadLaws : Type 0 where
    pub encsize_lem : mpg.encsize ≡ size_of_float
    pub buffer_size :
        (h : mpg.Handle) (size : ℕ) → length (mpg.read h size).1 ≡ size / size_of_float
    pub done_le : (h : mpg.Handle) (size : ℕ) → (mpg.read h size).2 ≤ size

  -- The size of the buffer that process_mp3_file gives to mpg123_read.
  abbrev pub request_size : Mp3File mpg → ℕ → ℕ
  request_size f samples = samples * (f.channels * mpg.encsize)

  frames_le :
      (channels samples done : ℕ)
      → 0 < channels
      → done ≤ samples * (channels * 4)
      → done / (channels * 4) ≤ samples
  frames_le channels samples done c h =
      let le : done / (channels * 4) * (channels * 4) ≤ samples * (channels * 4) =
        omega (arith, div-mul-le_self done (channels * 4)) in
      le_of_mul-le-mul_right le (omega arith)

  out_size : (channels samples : ℕ) → samples * (channels * 4) / 4 ≡ samples * channels
  out_size channels samples =
      ap (λ n. n / 4) (sym (mul_assoc samples channels 4))
      ∙ mul-div_cancel (samples * channels) (omega arith)

  nonzero : (channels : ℕ) → 0 < channels → (channels * 4 == 0) ≡ false
  nonzero channels h = ground arith

  transfer_done-Moved :
      (f : Mp3File mpg) (out : List mpg.Sample) (done samples : ℕ) (buffer : List (List mpg.Sample))
      → mpg.encsize ≡ size_of_float
      → 0 < f.channels
      → f.channels ≤ length buffer
      → HasRoom samples buffer
      → done ≤ samples * (f.channels * 4)
      → length out ≡ samples * f.channels
      → (r : Decoded mpg) × (transfer_done mpg f out done buffer ≡ some r)
        × ((r.ret ≡ done / (f.channels * size_of_float))
            × (r.ret ≤ samples)
            × Moved mpg f.channels out (InRows mpg f.channels 0 r.ret) buffer r.buffer)
  unfolding transfer_done
  transfer_done-Moved f out done samples buffer e c b r d o =
      let frames = done / (f.channels * 4) in
      let le : frames ≤ samples = frames_le f.channels samples done c d in
      let (after, moved, how, room, size) =
        transfer-Moved mpg f.channels frames frames 0 out buffer (omega arith) b
          (omega (arith, o, mul-le-mul_right f.channels le))
          (HasRoom-le frames samples buffer le r) in
      (
        record { ret = frames; buffer = after; file = f },
        ap
              (λ n.
                if f.channels * n == 0
                then none
                else Option.map
                    (λ b'. record { ret = done / (f.channels * n); buffer = b'; file = f })
                    (if n == 4
                      then transfer mpg f.channels (done / (f.channels * n)) 0 out buffer
                      else some buffer))
              e
            ∙ (ap
                  (λ t.
                    if t
                    then none
                    else Option.map (λ b'. record { ret = frames; buffer = b'; file = f })
                        (transfer mpg f.channels frames 0 out buffer))
                  (nonzero f.channels c)
                ∙ ap (Option.map (λ b'. record { ret = frames; buffer = b'; file = f })) moved),
        (refl, le, how),
      )

  abbrev pub WaitsFor : MpgStatus → Type 0
  WaitsFor status = (status ≡ mpg_need_more) ⊎ (status ≡ mpg_new_format)

  by_status :
      (status : MpgStatus) (waiting : Decoded mpg) (rest : Option (Decoded mpg))
      → (Waited Done : Decoded mpg → Type 0) → Waited waiting
      → (r : Decoded mpg) × (rest ≡ some r) × Done r
      → (r : Decoded mpg) × (elim status as (λ _. Option (Decoded mpg)) [
        | mpg_need_more ↦ some waiting
        | mpg_new_format ↦ some waiting
        | _ ↦ rest
      ]
          ≡ some r)
        × ((WaitsFor status × Waited r) ⊎ Done r)
  by_status mpg_need_more waiting rest W D w d = (waiting, refl, inl (inl refl, w))
  by_status mpg_new_format waiting rest W D w d = (waiting, refl, inl (inr refl, w))
  by_status mpg_ok waiting rest W D w (r, e, d) = (r, e, inr d)
  by_status mpg_done waiting rest W D w (r, e, d) = (r, e, inr d)
  by_status mpg_err waiting rest W D w (r, e, d) = (r, e, inr d)

  -- With room in the buffer for every channel and sample asked for: if libmpg123 needs more input
  -- or reports a new format, 0 samples are returned and the buffer is as before. On every other
  -- status, errors included, as many samples per channel are returned as whole ones were decoded,
  -- at most those asked for; sample `j` of channel `k` is then the float `j * channels + k` of what
  -- was decoded, and no other cell of the buffer has changed.
  pub process_mp3_file-Moved :
      (laws : ReadLaws) (f : Mp3File mpg) (buffer : List (List mpg.Sample)) (samples : ℕ)
      → 0 < f.channels
      → f.channels ≤ length buffer
      → HasRoom samples buffer
      → (r : Decoded mpg) × (process_mp3_file mpg f buffer samples ≡ some r)
        × ((WaitsFor (mpg.read f.mh (request_size f samples)).0
              × ((r.ret ≡ 0) × (r.buffer ≡ buffer)))
            ⊎ ((r.ret ≡ (mpg.read f.mh (request_size f samples)).2 / (f.channels * size_of_float))
                × (r.ret ≤ samples)
                × Moved mpg f.channels
                    (mpg.read f.mh (request_size f samples)).1
                    (InRows mpg f.channels 0 r.ret)
                    buffer
                    r.buffer))
  unfolding process_mp3_file
  process_mp3_file-Moved laws f buffer samples c b room =
      let size : samples * (f.channels * mpg.encsize) ≡ samples * (f.channels * 4) =
        ap (λ n. samples * (f.channels * n)) laws.encsize_lem in
      by_status (mpg.read f.mh (request_size f samples)).0
        (record {
          ret = 0;
          buffer = buffer;
          file = record f { mh = (mpg.read f.mh (request_size f samples)).3 };
        })
        (transfer_done mpg (record f { mh = (mpg.read f.mh (request_size f samples)).3 })
          (mpg.read f.mh (request_size f samples)).1 (mpg.read f.mh (request_size f samples)).2
          buffer)
        (λ r. (r.ret ≡ 0) × (r.buffer ≡ buffer))
        (λ r.
          (r.ret ≡ (mpg.read f.mh (request_size f samples)).2 / (f.channels * size_of_float))
          × (r.ret ≤ samples)
          × Moved mpg f.channels (mpg.read f.mh (request_size f samples)).1
              (InRows mpg f.channels 0 r.ret) buffer r.buffer)
        (refl, refl)
        (transfer_done-Moved (record f { mh = (mpg.read f.mh (request_size f samples)).3 })
          (mpg.read f.mh (request_size f samples)).1 (mpg.read f.mh (request_size f samples)).2
          samples buffer laws.encsize_lem c b room
          (omega (arith, laws.done_le f.mh (request_size f samples), size))
          (laws.buffer_size f.mh (request_size f samples)
            ∙ (ap (λ n. n / 4) size ∙ out_size f.channels samples)))
