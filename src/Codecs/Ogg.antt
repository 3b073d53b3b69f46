-- ===== src/Codecs/Ogg.antt =====
-- The loops of ogg_encode in src/indexers/music/codecs/ogg/ogg_encode.c: from the samples of an input
-- file to the pages of the output file. What libvorbis and libogg give is the sequence of their
-- answers; the calls that set the encoder up, and those that free it, have no part in the loops.
pub mod Pages
pub mod File
use mod_mp.Base.{
  leb, ◌==◌, if◌then◌else◌, length, take, drop, ℤ, Bytes, ℕ, ◌+◌, Bool, true, false, ◌&&◌, Option,
  none, some, List, [], ◌∷◌, ◌++◌, map,
}
use mathlib.Core.Option
use mod_mp.Codecs.{EncodingOptions}

-- A page of ogg_stream_pageout, with ogg_page_eos.
pub record Page : Type 0 where
  pub header : Bytes
  pub body : Bytes
  pub eos : Bool

-- A round of the outer loop: what process_input_file returns, and for each block of
-- vorbis_analysis_blockout the pages that ogg_stream_pageout gives until there is none.
pub record Round : Type 0 where
  pub samples_read : ℕ
  pub blocks : List (List Page)

-- The system and the machine: apr_file_write_full on a file with these bytes, with its status and
-- the length written, and the progress, a float.
pub record OggCalls : Type 1 where
  pub Float : Type 0
  pub write_full : Bytes → Bytes → ℕ × ℕ
  -- `((double)samples_total / (double)total_samples_per_channel) * 100.0`
  pub percent : ℕ → ℤ → Float

module _ (calls : OggCalls) where
  -- The local variables, what has been written from the start of the output file on, and where `enc_opt->progress` points, none for NULL.
  pub record Encoding : Type 0 where
    pub file : Bytes
    pub eos : Bool
    pub packets_done : ℕ
    pub samples_total : ℕ
    pub total_length : ℕ
    pub progress : Option calls.Float

  -- A loop that goes on behind it, or the return of a status.
  pub data Outcome : Type 0 where
    go_on : Encoding → Outcome
    stop : ℕ → Encoding → Outcome

  unfoldable pub write_part : Bytes → Encoding → ℕ × Bool × Encoding
  write_part part e =
      let (rv, written) = calls.write_full e.file part in
      (rv, (written == length part) && (rv == 0), record e { file = e.file ++ take written part })

  -- The body of the innermost loop, for a page.
  unfoldable pub write_page : Page → Encoding → Outcome
  unfolding write_part
  write_page p e =
      let (rv, ok, headed) = write_part p.header e in
      if ok
      then (let (rv', ok', whole) = write_part p.body headed in
          if ok'
          then go_on (record whole {
            total_length = whole.total_length + (length p.header + length p.body);
            eos = if p.eos then true else whole.eos;
          })
          else stop rv' whole)
      else stop rv headed

  unfoldable pub pages_loop : List Page → Encoding → Outcome
  unfolding write_page
  pages_loop [] e = go_on e
  pages_loop (p ∷ ps) e = elim e.eos [
    | true ↦ go_on e
    | false ↦ elim (write_page p e) [
      | stop rv after ↦ stop rv after
      | go_on after ↦ pages_loop ps after
    ]
  ]

  -- The loop over the blocks, each of which makes a packet; it goes on behind the last page.
  unfoldable pub blocks_loop : List (List Page) → Encoding → Outcome
  unfolding pages_loop
  blocks_loop [] e = go_on e
  blocks_loop (ps ∷ blocks) e =
      elim (pages_loop ps (record e { packets_done = e.packets_done + 1 })) [
        | stop rv after ↦ stop rv after
        | go_on after ↦ blocks_loop blocks after
      ]

  -- What a round does before its blocks.
  unfoldable pub count_samples : ℤ → ℕ → Encoding → Encoding
  count_samples per_channel samples_read e =
      if samples_read == 0
      then e
      else (let total = e.samples_total + samples_read in
          if leb 40 e.packets_done
          then record e {
            samples_total = total;
            packets_done = 0;
            progress = elim e.progress [
              | none ↦ none
              | some p ↦ some (calls.percent total per_channel)
            ];
          }
          else record e { samples_total = total })

  -- The outer loop; none if the answers end before the last page.
  unfoldable pub ogg_loop : ℤ → List Round → Encoding → Option (ℕ × Encoding)
  unfolding blocks_loop count_samples
  ogg_loop per_channel [] e = if e.eos then some (0, e) else none
  ogg_loop per_channel (r ∷ rounds) e = elim e.eos [
    | true ↦ some (0, e)
    | false ↦ elim (blocks_loop r.blocks (count_samples per_channel r.samples_read e)) [
      | stop rv after ↦ some (rv, after)
      | go_on after ↦ ogg_loop per_channel rounds after
    ]
  ]

  -- Written from the start over the old bytes of a file, which is not truncated.
  unfoldable pub write_over : Bytes → ℕ × Encoding → ℕ × Encoding
  write_over old (rv, e) = (rv, record e { file = e.file ++ drop (length e.file) old })

  -- `opened` is the status of apr_file_open, and `old` the bytes of the file before it, `[]` if
  -- there was none. `file` of the result is the whole file.
  unfoldable pub ogg_encode :
      ℕ → Bytes → EncodingOptions → Option calls.Float → List Round → Option (ℕ × Encoding)
  unfolding ogg_loop write_over
  ogg_encode opened old enc_opt progress rounds =
      let e : Encoding = record {
        file = [];
        eos = false;
        packets_done = 0;
        samples_total = 0;
        total_length = 0;
        progress = progress;
      } in
      Option.map (write_over old) (
        if opened == 0
        then ogg_loop enc_opt.total_samples_per_channel rounds e
        else some (opened, e))
