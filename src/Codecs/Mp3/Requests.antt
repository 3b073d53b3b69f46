-- ===== src/Codecs/Mp3/Requests.antt =====
-- What read_mp3_file of src/indexers/music/codecs/mp3/mpg123.c leaves for process_mp3_file.
use mod_mp.Base.{
  ◌==◌, Bool-cases, Option-cases, length, success, Bytes, negsuc, ℕ, ◌*◌, ◌/◌, ◌≤◌, ◌<◌, ◌≡◌, refl,
  subst, inl, inr, Option, none, some, List, arith,
}
use mathlib.Core.Option.{some-injective}
use native.Mathlib.Nat.{div-mul-le_self, mul_assoc}
use mod_mp.Codecs.{EncodingOptions}
use mod_mp.Codecs.Cells.{HasRoom}
use mod_mp.Codecs.Mp3.{
  Mpg123, MpgStatus, is_ok, Mp3File, Opened, Decoded, buffer_size, request_float, read_format,
  read_mp3_file, process_mp3_file,
}
use mod_mp.Codecs.Mp3.Process.{ReadLaws, process_mp3_file-Moved}

module _ (mpg : Mpg123) where
  fits :
      (size channels encsize : ℕ) → encsize ≡ 4 → size / 4 / channels * (channels * encsize) ≤ size
  fits size channels encsize e =
      let inner = div-mul-le_self (size / 4) channels in
      rw e (omega (arith, mul_assoc (size / 4 / channels) channels 4, inner))

  -- What a caller can rely on behind a status of 0.
  unfoldable pub IsReady : Opened mpg → Type 0
  IsReady o =
      (f : Mp3File mpg) × (o.file ≡ some f)
      × (0 < f.channels)
      × (o.enc_opt.channels ≡ f.channels)
      × (o.enc_opt.rate ≡ f.rate)
      × (buffer_size mpg f o.enc_opt.samples_to_request ≤ mpg.safe_buffer)

  request_float-IsReady :
      (laws : ReadLaws mpg) (f : Mp3File mpg) (enc : EncodingOptions) (o : Opened mpg)
      → request_float mpg f enc ≡ some o
      → IsReady o
  unfolding request_float IsReady
  request_float-IsReady laws f enc o e = elim (Bool-cases (f.channels == 0)) [
    | inl z ↦ absurd (cc (rw z at e))
    | inr z ↦ subst IsReady (some-injective _ _ (rw z at e)) (
      _,
      refl,
      ground (arith, z),
      refl,
      refl,
      fits mpg.safe_buffer f.channels mpg.encsize laws.encsize_lem,
    )
  ]

  refused :
      (o : Opened mpg) (n : ℕ) (f : Option (Mp3File mpg)) (enc : EncodingOptions)
      → some (record { ret = negsuc n; file = f; enc_opt = enc }) ≡ some o
      → o.ret ≡ success
      → IsReady o
  refused o n f enc e s = cc (e, s)

  read_format-IsReady :
      (laws : ReadLaws mpg) (status : MpgStatus) (h : mpg.Handle) (enc : EncodingOptions)
      (o : Opened mpg)
      → read_format mpg (status, h) enc ≡ some o
      → o.ret ≡ success
      → IsReady o
  unfolding read_format
  read_format-IsReady laws status h enc o e s = elim (Bool-cases (is_ok status)) [
    | inl a ↦ elim (Bool-cases (is_ok (mpg.getformat h).0)) [
      | inl b ↦ request_float-IsReady laws _ enc o (rw (a, b) at e)
      | inr b ↦ refused o 1 _ enc (rw (a, b) at e) s
    ]
    | inr a ↦ refused o 0 _ enc (rw a at e) s
  ]

  opened-IsReady :
      (laws : ReadLaws mpg) (file_path : Bytes) (enc : EncodingOptions) (o : Opened mpg)
      → read_mp3_file mpg file_path enc ≡ some o
      → o.ret ≡ success
      → IsReady o
  unfolding read_mp3_file
  opened-IsReady laws file_path enc o e s = elim (Option-cases mpg.new) [
    | inl z ↦ refused o 0 none enc (rw z at e) s
    | inr (h, z) ↦
        read_format-IsReady laws (mpg.open_file (mpg.force_float h) file_path).0
          (mpg.open_file (mpg.force_float h) file_path).1 enc o (rw z at e) s
  ]

  -- What process_mp3_file does with the file and the number of samples of these options.
  pub CanProcess : Opened mpg → List (List mpg.Sample) → Type 0
  CanProcess o buffer =
      (f : Mp3File mpg) × (o.file ≡ some f)
      × (r : Decoded mpg) × (process_mp3_file mpg f buffer o.enc_opt.samples_to_request ≡ some r)
      × (r.ret ≤ o.enc_opt.samples_to_request)

  -- If read_mp3_file returns 0, and mpg123_encsize and mpg123_read are as documented: the struct has a handle and at least
  -- one channel, the options have its channels and its rate, and the buffer that process_mp3_file
  -- makes for `samples_to_request` samples is at most as large as mpg123_safe_buffer says. With a
  -- row for each of the options' channels and room for that many samples in each row,
  -- process_mp3_file then returns, with at most that many samples.
  pub read_mp3_file-IsReady :
      (laws : ReadLaws mpg) (file_path : Bytes) (enc : EncodingOptions) (o : Opened mpg)
      → (buffer : List (List mpg.Sample)) → read_mp3_file mpg file_path enc ≡ some o
      → o.ret ≡ success
      → o.enc_opt.channels ≤ length buffer
      → HasRoom o.enc_opt.samples_to_request buffer
      → IsReady o × CanProcess o buffer
  unfolding IsReady CanProcess
  read_mp3_file-IsReady laws file_path enc o buffer e s rows room =
      let ready = opened-IsReady laws file_path enc o e s in
      let (f, file, some_channels, channels, rate, size) = ready in
      let (r, done, how) =
        process_mp3_file-Moved mpg laws f buffer o.enc_opt.samples_to_request some_channels
          (omega (arith, rows, channels)) room in
      (
        ready,
        (f, file, r, done, elim how [ inl (w, (n, b)) ↦ omega (arith, n) | inr (n, le, m) ↦ le ]),
      )
