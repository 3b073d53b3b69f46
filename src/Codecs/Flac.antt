-- ===== src/Codecs/Flac.antt =====
-- src/indexers/music/codecs/flac/flac.c and flac.h: the decoder of FLAC files. libFLAC calls back
-- with metadata and frames while it processes; malloc gives what it is asked for.
pub mod Permute
pub mod Frames
pub mod Copying
pub mod Loop
use mod_mp.Base.{
  ltb, ◌==◌, if◌then◌else◌, get_elem?, get_or, replicate, ℤ, success, Bytes, pos, negsuc, ℕ, zero,
  suc, ◌+◌, ◌-◌, min, Bool, true, false, not, ◌&&◌, ◌||◌, Option, none, some, List, [], ◌∷◌,
}
use mod_mp.Codecs.{EncodingOptions}
use mod_mp.Codecs.Cells.{cell}
use mod_mp.Codecs.Copy.{copy_rows}

-- The rows of the matrix; what C fills up with 0 stands in `permute`.
abbrev pub wav_permute_matrix : List (List ℕ)
wav_permute_matrix =
    (0 ∷ [])
    ∷ (0 ∷ 1 ∷ [])
    ∷ (0 ∷ 2 ∷ 1 ∷ [])
    ∷ (0 ∷ 1 ∷ 2 ∷ 3 ∷ [])
    ∷ (0 ∷ 2 ∷ 1 ∷ 3 ∷ 4 ∷ [])
    ∷ (0 ∷ 2 ∷ 1 ∷ 4 ∷ 5 ∷ 3 ∷ [])
    ∷ (0 ∷ 2 ∷ 1 ∷ 4 ∷ 5 ∷ 6 ∷ 3 ∷ [])
    ∷ (0 ∷ 2 ∷ 1 ∷ 6 ∷ 7 ∷ 4 ∷ 5 ∷ 3 ∷ [])
    ∷ []

-- `wav_permute_matrix[channels-1][i]`; none outside its eight rows and columns.
unfoldable pub permute : ℕ → ℕ → Option ℕ
permute channels i =
    if channels == 0 then none else (elim (get_elem? wav_permute_matrix (channels - 1)) [
      | none ↦ none
      | some row ↦ if ltb i 8 then some (get_or row i 0) else none
    ])

-- FLAC__Frame with its buffer of one row per channel.
pub record Frame (Raw : Type 0) : Type 0 where
  pub blocksize : ℕ
  pub channels : ℕ
  pub bits_per_sample : ℕ
  pub buffer : List (List Raw)

-- A callback: stream information with the total samples and the rate, other metadata, a frame, or
-- an error.
pub data FlacEvent (Raw : Type 0) : Type 0 where
  streaminfo : ℕ → ℕ → FlacEvent Raw
  other_metadata : FlacEvent Raw
  frame : Frame Raw → FlacEvent Raw
  stream_error : FlacEvent Raw

-- libFLAC, and the machine's floats.
pub record LibFlac : Type 1 where
  pub Decoder : Type 0
  pub Raw : Type 0
  pub Sample : Type 0
  -- `x / (float) (1 << (bits_per_sample - 1))`
  pub to_float : Raw → ℕ → Sample
  -- what malloc leaves in an array
  pub uninitialised : Sample
  pub new : Decoder
  -- FLAC__stream_decoder_init_file returns FLAC__STREAM_DECODER_INIT_STATUS_OK
  pub init_file : Decoder → Bytes → Bool × Decoder
  pub process_until_end_of_metadata : Decoder → Bool × List (FlacEvent Raw) × Decoder
  -- the result, the callbacks made, and the decoder
  pub process_single : Decoder → Bool × List (FlacEvent Raw) × Decoder
  -- the state is FLAC__STREAM_DECODER_END_OF_STREAM
  pub at_end : Decoder → Bool

module _ (lib : LibFlac) where
  -- flac_file_t; `fd` and `samples` are not used.
  pub record FlacFile : Type 0 where
    pub stream_decoder : lib.Decoder
    pub channels : ℕ
    pub rate : ℕ
    pub total_samples : ℕ
    pub eos : Bool
    pub buf : List (List lib.Sample)
    pub buffer_sample_len : ℕ
    pub buffer_sample_seek : ℕ
    pub buffer_sample_count : ℕ

  -- In both cases that allocate, `buf` is then an array of new rows.
  unfoldable pub resize_buffer : FlacFile → ℕ → ℕ → FlacFile
  resize_buffer f newchannels newsamples =
      if (newchannels == f.channels) && (newsamples == f.buffer_sample_len)
      then record f { buffer_sample_seek = 0; buffer_sample_count = 0 }
      else record f {
        channels = newchannels;
        buf = replicate newchannels (replicate newsamples lib.uninitialised);
        buffer_sample_len = newsamples;
        buffer_sample_seek = 0;
        buffer_sample_count = 0;
      }

  -- `buffer[i][j] / (float) (1 << (bits_per_sample - 1))`.
  unfoldable pub converted : Frame lib.Raw → ℕ → ℕ → Option lib.Sample
  converted fr i j = elim (cell fr.buffer i j) [
    | none ↦ none
    | some x ↦ some (lib.to_float x fr.bits_per_sample)
  ]

  unfoldable pub flac_write : Frame lib.Raw → FlacFile → Option FlacFile
  unfolding resize_buffer converted
  flac_write fr f =
      let g = resize_buffer f fr.channels fr.blocksize in
      elim (copy_rows (converted fr) 0 fr.blocksize fr.channels 0 g.buf) [
        | none ↦ none
        | some buf ↦ some (record g { buf = buf; buffer_sample_count = fr.blocksize })
      ]

  unfoldable pub flac_metadata : ℕ → ℕ → FlacFile → FlacFile
  flac_metadata total_samples rate f = record f { total_samples = total_samples; rate = rate }

  -- The callbacks in their order.
  unfoldable pub call_back : List (FlacEvent lib.Raw) → FlacFile → Option FlacFile
  unfolding flac_write flac_metadata
  call_back [] f = some f
  call_back (streaminfo total rate ∷ es) f = call_back es (flac_metadata total rate f)
  call_back (other_metadata ∷ es) f = call_back es f
  call_back (stream_error ∷ es) f = call_back es f
  call_back (frame fr ∷ es) f = elim (flac_write fr f) [ none ↦ none | some g ↦ call_back es g ]

  -- FLAC__stream_decoder_process_single, and what the loop makes of it.
  unfoldable pub process_next : FlacFile → Option FlacFile
  unfolding call_back
  process_next f =
      let (ret, events, d) = lib.process_single f.stream_decoder in
      elim (call_back events f) [
        | none ↦ none
        | some g ↦
            some (record g {
              stream_decoder = d;
              eos = if not ret || lib.at_end d then true else g.eos;
            })
      ]

  -- `flac->buf[permute][j+flac->buffer_sample_seek]`.
  unfoldable pub permuted : FlacFile → ℕ → ℕ → Option lib.Sample
  unfolding permute
  permuted f i j = elim (permute f.channels i) [
    | none ↦ none
    | some p ↦ cell f.buf p (j + f.buffer_sample_seek)
  ]

  -- `copy` samples of every channel into the caller's buffer.
  unfoldable pub copy_out :
      FlacFile → ℕ → ℕ → List (List lib.Sample) → Option (FlacFile × List (List lib.Sample))
  unfolding permuted
  copy_out f copy realsamples buffer =
      elim (copy_rows (permuted f) realsamples copy f.channels 0 buffer) [
        | none ↦ none
        | some after ↦ some (
          record f {
            buffer_sample_seek = f.buffer_sample_seek + copy;
            buffer_sample_count = f.buffer_sample_count - copy;
          },
          after,
        )
      ]

  -- What the caller has: the samples per channel, the file and the buffer.
  pub record Produced : Type 0 where
    pub ret : ℕ
    pub file : FlacFile
    pub buffer : List (List lib.Sample)

  -- The loop; none for an access outside an array, and without fuel.
  unfoldable pub flac_loop : ℕ → FlacFile → ℕ → ℕ → List (List lib.Sample) → Option Produced
  unfolding copy_out process_next
  flac_loop zero f samples realsamples buffer = none
  flac_loop (suc fuel) f samples realsamples buffer = elim (ltb realsamples samples) [
    | false ↦ some (record { ret = realsamples; file = f; buffer = buffer })
    | true ↦ elim (ltb 0 f.buffer_sample_count) [
      | true ↦
          let copy = min f.buffer_sample_count (samples - realsamples) in
          elim (copy_out f copy realsamples buffer) [
            | none ↦ none
            | some (g, after) ↦ flac_loop fuel g samples (realsamples + copy) after
          ]
      | false ↦ elim f.eos [
        | true ↦ some (record { ret = realsamples; file = f; buffer = buffer })
        | false ↦ elim (process_next f) [
          | none ↦ none
          | some g ↦ flac_loop fuel g samples realsamples buffer
        ]
      ]
    ]
  ]

  unfoldable pub process_flac_file : ℕ → FlacFile → List (List lib.Sample) → ℕ → Option Produced
  unfolding flac_loop
  process_flac_file fuel f buffer samples = flac_loop fuel f samples 0 buffer

  pub record OpenedFlac : Type 0 where
    pub ret : ℤ
    pub file : FlacFile
    pub enc_opt : EncodingOptions

  -- Behind a successful init; `status2` is not set again by the second call.
  unfoldable pub read_first : FlacFile → EncodingOptions → Option OpenedFlac
  unfolding call_back
  read_first f enc =
      let (status2, events, d) = lib.process_until_end_of_metadata f.stream_decoder in
      elim (call_back events f) [
        | none ↦ none
        | some g ↦
            if not status2
            then some
                (record { ret = negsuc 1; file = record g { stream_decoder = d }; enc_opt = enc })
            else (let (_, events', d') = lib.process_single d in
                elim (call_back events' g) [
                  | none ↦ none
                  | some h ↦ some (record {
                    ret = success;
                    file = record h { stream_decoder = d' };
                    enc_opt = record enc {
                      channels = h.channels;
                      rate = h.rate;
                      total_samples_per_channel = pos h.total_samples;
                      samples_to_request = 1024;
                    };
                  })
                ])
      ]

  unfoldable pub read_flac_file : Bytes → EncodingOptions → Option OpenedFlac
  unfolding read_first
  read_flac_file file_path enc =
      let (ok, d) = lib.init_file lib.new file_path in
      let f : FlacFile = record {
        stream_decoder = d;
        channels = 0;
        rate = 0;
        total_samples = 0;
        eos = false;
        buf = [];
        buffer_sample_len = 0;
        buffer_sample_seek = 0;
        buffer_sample_count = 0;
      } in
      if ok then read_first f enc else some (record { ret = negsuc 0; file = f; enc_opt = enc })
