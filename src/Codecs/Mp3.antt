-- ===== src/Codecs/Mp3.antt =====
-- The decoder of src/indexers/music/codecs/mp3/mpg123.c: opening a file, and moving the samples that
-- libmpg123 decodes, which are interleaved, into one row per channel. Sizes stay below 2 ^ 64, and
-- malloc gives what it is asked for.
pub mod Transfer
pub mod Process
pub mod Requests
use mod_mp.Base.{
  ◌==◌, if◌then◌else◌, get_elem?, ℤ, success, Bytes, negsuc, ℕ, zero, suc, ◌+◌, ◌*◌, ◌/◌, Bool,
  true, false, Option, none, some, List, map,
}
use mathlib.Core.Option
use mod_mp.Codecs.{EncodingOptions}
use mod_mp.Codecs.Cells.{set_cell}

-- A status of libmpg123, as far as the code looks at it.
pub data MpgStatus : Type 0 where
  mpg_ok mpg_need_more mpg_done mpg_new_format mpg_err : MpgStatus

unfoldable pub is_ok : MpgStatus → Bool
is_ok mpg_ok = true
is_ok _ = false

-- libmpg123: its handles, a decoded sample, and its calls.
pub record Mpg123 : Type 1 where
  pub Handle : Type 0
  pub Sample : Type 0
  -- the handle, if there is one
  pub new : Option Handle
  -- mpg123_param with MPG123_FORCE_FLOAT
  pub force_float : Handle → Handle
  pub open_file : Handle → Bytes → MpgStatus × Handle
  -- the status, and the rate, the channels and the encoding
  pub getformat : Handle → MpgStatus × ℕ × ℕ × ℕ × Handle
  pub total_length : Handle → ℤ
  pub safe_buffer : ℕ
  pub format_none : Handle → Handle
  -- mpg123_format with the rate and the channels, for MPG123_ENC_FLOAT_32
  pub format_float : Handle → ℕ → ℕ → MpgStatus × Handle
  -- mpg123_encsize of MPG123_ENC_FLOAT_32
  pub encsize : ℕ
  -- mpg123_read into a buffer of that many zero bytes: the status, the floats of the buffer behind
  -- the call and the number of bytes decoded
  pub read : Handle → ℕ → MpgStatus × List Sample × ℕ × Handle

abbrev pub size_of_float : ℕ
size_of_float = 4

module _ (mpg : Mpg123) where
  -- mp3_file_t; `samples` and `total_samples` are never used.
  pub record Mp3File : Type 0 where
    pub channels : ℕ
    pub rate : ℕ
    pub encoding : ℕ
    pub mh : mpg.Handle

  -- The status, the struct (none before it has a handle) and the options.
  pub record Opened : Type 0 where
    pub ret : ℤ
    pub file : Option Mp3File
    pub enc_opt : EncodingOptions

  -- Behind mpg123_getformat; no channels are a division by zero.
  unfoldable pub request_float : Mp3File → EncodingOptions → Option Opened
  request_float f enc =
      if f.channels == 0
      then none
      else (let (status, h) = mpg.format_float (mpg.format_none f.mh) f.rate f.channels in
          some (record {
            ret = if is_ok status then success else negsuc 2;
            file = some (record f { mh = h });
            enc_opt = record enc {
              channels = f.channels;
              rate = f.rate;
              total_samples_per_channel = mpg.total_length f.mh;
              samples_to_request = (mpg.safe_buffer / size_of_float) / f.channels;
            };
          }))

  -- Behind mpg123_open.
  unfoldable pub read_format : MpgStatus × mpg.Handle → EncodingOptions → Option Opened
  unfolding request_float
  read_format (opened, h) enc =
      if is_ok opened
      then (let (status, rate, channels, encoding, h') = mpg.getformat h in
          let f : Mp3File = record {
            channels = channels;
            rate = rate;
            encoding = encoding;
            mh = h';
          } in
          if is_ok status
          then request_float f enc
          else some (record { ret = negsuc 1; file = some f; enc_opt = enc }))
      else some (record {
        ret = negsuc 0;
        file = some (record { channels = 0; rate = 0; encoding = 0; mh = h });
        enc_opt = enc;
      })

  unfoldable pub read_mp3_file : Bytes → EncodingOptions → Option Opened
  unfolding read_format
  read_mp3_file file_path enc = elim mpg.new [
    | none ↦ some (record { ret = negsuc 0; file = none; enc_opt = enc })
    | some h ↦ read_format (mpg.open_file (mpg.force_float h) file_path) enc
  ]

  -- The inner loop, `count` rounds from the channel `k`; none for an access outside an array.
  unfoldable pub transfer_channels :
      ℕ → ℕ → ℕ → ℕ → List mpg.Sample → List (List mpg.Sample) → Option (List (List mpg.Sample))
  transfer_channels channels j zero k out buffer = some buffer
  transfer_channels channels j (suc count) k out buffer = elim (get_elem? out (j * channels + k)) [
    | none ↦ none
    | some v ↦ elim (set_cell buffer k j v) [
      | none ↦ none
      | some next ↦ transfer_channels channels j count (suc k) out next
    ]
  ]

  -- The outer loop, `count` rounds from the sample `j`.
  unfoldable pub transfer :
      ℕ → ℕ → ℕ → List mpg.Sample → List (List mpg.Sample) → Option (List (List mpg.Sample))
  unfolding transfer_channels
  transfer channels zero j out buffer = some buffer
  transfer channels (suc count) j out buffer =
      elim (transfer_channels channels j channels 0 out buffer) [
        | none ↦ none
        | some next ↦ transfer channels count (suc j) out next
      ]

  -- What the caller has: the samples per channel, the buffer and the file.
  pub record Decoded : Type 0 where
    pub ret : ℕ
    pub buffer : List (List mpg.Sample)
    pub file : Mp3File

  -- Behind mpg123_read, for a status that is not one of the two that return 0.
  unfoldable pub transfer_done :
      Mp3File → List mpg.Sample → ℕ → List (List mpg.Sample) → Option Decoded
  unfolding transfer
  transfer_done f out done buffer =
      let bytes_ch = f.channels * mpg.encsize in
      if bytes_ch == 0
      then none
      else (Option.map (λ after. record { ret = done / bytes_ch; buffer = after; file = f })
          (if mpg.encsize == size_of_float
            then transfer f.channels (done / bytes_ch) 0 out buffer
            else some buffer))

  -- The size in bytes of the buffer that is given to mpg123_read.
  abbrev pub buffer_size : Mp3File → ℕ → ℕ
  buffer_size f samples = samples * (f.channels * mpg.encsize)

  unfoldable pub process_mp3_file : Mp3File → List (List mpg.Sample) → ℕ → Option Decoded
  unfolding transfer_done
  process_mp3_file f buffer samples =
      let (status, out, done, h) = mpg.read f.mh (buffer_size f samples) in
      let behind : Mp3File = record f { mh = h } in
      elim status [
        | mpg_need_more ↦ some (record { ret = 0; buffer = buffer; file = behind })
        | mpg_new_format ↦ some (record { ret = 0; buffer = buffer; file = behind })
        | _ ↦ transfer_done behind out done buffer
      ]
