-- ===== src/Examples/Media.antt =====
-- The decoders of MP3 and FLAC files at concrete inputs.
use mod_mp.Base.{
  ltb, length, drop, replicate, length-replicate, success, codes, pos, ℕ, suc, ◌/◌, ◌≤◌, ◌≡◌, refl,
  ◌⊎◌, inl, inr, true, false, none, some, List, [], ◌∷◌, ◌++◌, arith,
}
use mathlib.Core.List.{flatten}
use mod_mp.Codecs.{EncodingOptions}
use mod_mp.Codecs.Cells.{HasRoom}
use mod_mp.Codecs.Copy.{Copied, InRows}
use mod_mp.Codecs.Mp3.{
  Mpg123, mpg_ok, is_ok, Mp3File, Opened, Decoded, read_mp3_file, process_mp3_file,
}
use mod_mp.Codecs.Mp3.Transfer.{Moved}
use mod_mp.Codecs.Mp3.Transfer as Transfer
use mod_mp.Codecs.Mp3.Process.{ReadLaws, WaitsFor, process_mp3_file-Moved}
use mod_mp.Codecs.Mp3.Requests.{IsReady, CanProcess, read_mp3_file-IsReady}
use mod_mp.Codecs.Ogg.{Round, OggCalls, Encoding, ogg_encode}
use mod_mp.Codecs.Ogg.Pages.{Writes, has_eos, through_eos}
use mod_mp.Codecs.Ogg.File.{all_pages, ogg_encode-through_eos}
use mod_mp.Codecs.Flac.{
  LibFlac, Frame, frame, FlacFile, permuted, copy_out, Produced, process_flac_file,
}
use mod_mp.Codecs.Flac.Frames.{AreFrames, IsFrame, IsSound}
use mod_mp.Codecs.Flac.Copying.{advanced, copy_out-Copied}
use mod_mp.Codecs.Flac.Loop.{EndsIn, Rest, Finished, process_flac_file-Finished}

-- A library whose handle counts the calls and whose samples are all 7.
abbrev sevens : Mpg123
sevens = record {
  Handle = ℕ;
  Sample = ℕ;
  new = some 0;
  force_float = λ h. h;
  open_file = λ h path. (mpg_ok, h);
  getformat = λ h. (mpg_ok, 44100, 2, 0, h);
  total_length = λ h. pos 100;
  safe_buffer = 24;
  format_none = λ h. h;
  format_float = λ h rate channels. (mpg_ok, h);
  encsize = 4;
  read = λ h size. (mpg_ok, replicate (size / 4) 7, size, suc h);
}

sevens_laws : ReadLaws sevens
sevens_laws = record {
  encsize_lem = refl;
  buffer_size = λ h size. length-replicate (size / 4) 7;
  done_le = λ h size. omega arith;
}

abbrev stereo : Mp3File sevens
stereo = record { channels = 2; rate = 44100; encoding = 0; mh = 0 }

abbrev two_rows : List (List ℕ)
two_rows = (0 ∷ 0 ∷ 0 ∷ []) ∷ (0 ∷ 0 ∷ 0 ∷ []) ∷ []

process_mp3_file-Moved_example :
    (r : Decoded sevens) × (process_mp3_file sevens stereo two_rows 3 ≡ some r)
    × ((WaitsFor sevens mpg_ok × ((r.ret ≡ 0) × (r.buffer ≡ two_rows)))
        ⊎ ((r.ret ≡ 3)
            × (r.ret ≤ 3)
            × Moved sevens 2 (replicate 6 7) (Transfer.InRows sevens 2 0 r.ret) two_rows r.buffer))
unfolding HasRoom
process_mp3_file-Moved_example =
    process_mp3_file-Moved sevens sevens_laws stereo two_rows 3 (omega arith) (omega arith)
      (omega arith, (omega arith, tt))

abbrev options : EncodingOptions
options = record {
  channels = 0;
  rate = 0;
  total_samples_per_channel = pos 0;
  samples_to_request = 0;
}

abbrev opened : Opened sevens
opened = record {
  ret = success;
  file = some stereo;
  enc_opt = record {
    channels = 2;
    rate = 44100;
    total_samples_per_channel = pos 100;
    samples_to_request = 3;
  };
}

sevens_opened : read_mp3_file sevens (codes "f") options ≡ some opened
unfolding read_mp3_file is_ok
sevens_opened = refl

read_mp3_file-IsReady_example : IsReady sevens opened × CanProcess sevens opened two_rows
unfolding HasRoom
read_mp3_file-IsReady_example =
    read_mp3_file-IsReady sevens sevens_laws (codes "f") options opened two_rows sevens_opened refl
      (omega arith) (omega arith, (omega arith, tt))

-- A stereo frame of two samples.
abbrev one_frame : Frame ℕ
one_frame = record {
  blocksize = 2;
  channels = 2;
  bits_per_sample = 16;
  buffer = (1 ∷ 2 ∷ []) ∷ (3 ∷ 4 ∷ []) ∷ [];
}

-- A stream that is this frame, and then at its end.
abbrev short_stream : LibFlac
short_stream = record {
  Decoder = ℕ;
  Raw = ℕ;
  Sample = ℕ;
  to_float = λ x bits. x;
  uninitialised = 99;
  new = 0;
  init_file = λ d path. (true, d);
  process_until_end_of_metadata = λ d. (true, [], d);
  process_single = λ d. (true, frame one_frame ∷ [], suc d);
  at_end = λ d. ltb 0 d;
}

abbrev new_file : FlacFile short_stream
new_file = record {
  stream_decoder = 0;
  channels = 0;
  rate = 44100;
  total_samples = 2;
  eos = false;
  buf = [];
  buffer_sample_len = 0;
  buffer_sample_seek = 0;
  buffer_sample_count = 0;
}

process_flac_file-Finished_example :
    (r : Produced short_stream) × (process_flac_file short_stream 5 new_file two_rows 3 ≡ some r)
    × Finished short_stream 2 3 0 two_rows r
unfolding HasRoom IsSound Rest EndsIn AreFrames IsFrame
process_flac_file-Finished_example =
    process_flac_file-Finished short_stream 2 1 new_file two_rows 3 (omega arith)
      (refl, tt, omega arith, (λ h. absurd (omega (arith, h))))
      (inr (((refl, omega arith, (omega arith, (omega arith, tt))), tt), inl (inr refl)))
      (omega arith) (omega arith, (omega arith, tt))

-- The file with the frame to hand out.
abbrev filled : FlacFile short_stream
filled = record new_file {
  channels = 2;
  buf = one_frame.buffer;
  buffer_sample_len = 2;
  buffer_sample_count = 2;
}

copy_out-Copied_example :
    (after : List (List ℕ)) × (copy_out short_stream filled 2 1 two_rows
      ≡ some (advanced short_stream filled 2, after))
    × Copied (permuted short_stream filled) 1 (InRows 0 2 1 3) two_rows after
    × HasRoom 3 after
    × (length after ≡ 2)
    × IsSound short_stream 2 (advanced short_stream filled 2)
unfolding HasRoom IsSound
copy_out-Copied_example =
    copy_out-Copied short_stream 2 3 filled 2 1 two_rows (omega arith)
      (refl, (omega arith, (omega arith, tt)), omega arith, (λ h. refl)) (omega arith) (omega arith)
      (omega arith) (omega arith) (omega arith, (omega arith, tt))

abbrev whole_writes : OggCalls
whole_writes = record {
  Float = ℕ;
  write_full = λ file part. (0, length part);
  percent = λ total per_channel. total;
}

whole_writes-Writes : Writes whole_writes
whole_writes-Writes = record { status = λ file part. refl; whole = λ file part. refl }

-- A round with a page and one with the last page, behind which there is another.
abbrev two_rounds : List Round
two_rounds =
    record {
      samples_read = 512;
      blocks = [] ∷ (record { header = codes "h"; body = codes "ab"; eos = false } ∷ []) ∷ [];
    }
    ∷ record {
      samples_read = 0;
      blocks =
          (record { header = codes "h"; body = codes "c"; eos = true }
            ∷ record { header = codes "h"; body = codes "d"; eos = false }
            ∷ [])
          ∷ [];
    }
    ∷ []

two_rounds-has_eos : has_eos (all_pages two_rounds) ≡ true
unfolding has_eos all_pages flatten
two_rounds-has_eos = refl

ogg_encode-through_eos_example :
    (after : Encoding whole_writes) × (ogg_encode whole_writes 0
        (codes "an older file")
        options
        none
        two_rounds
      ≡ some (0, after))
    × (after.file
        ≡ through_eos (all_pages two_rounds)
          ++ drop (length (through_eos (all_pages two_rounds))) (codes "an older file"))
ogg_encode-through_eos_example =
    ogg_encode-through_eos whole_writes (codes "an older file") options none two_rounds
      whole_writes-Writes two_rounds-has_eos
