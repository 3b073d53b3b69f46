-- ===== src/Codecs/Ogg/Pages.antt =====
-- The file that ogg_encode of src/indexers/music/codecs/ogg/ogg_encode.c writes.
use mod_mp.Base.{
  ◌==◌, if◌then◌else◌, ==_iff, Bool-cases, length, take-all, Bytes, ℕ, ◌+◌, ◌≡◌, refl, sym, ap, ◌∙◌,
  inl, inr, Bool, true, false, List, [], ◌∷◌, ◌++◌, append-nil, append_assoc, arith,
}
use mathlib.Core.List.{flatten}
use mod_mp.Codecs.Ogg.{
  Page, OggCalls, Encoding, Outcome, go_on, stop, write_part, write_page, pages_loop, blocks_loop,
}

-- The bytes of the pages up to the first last one, and whether there is one.
unfoldable pub through_eos : List Page → Bytes
through_eos [] = []
through_eos (p ∷ ps) = (p.header ++ p.body) ++ (if p.eos then [] else through_eos ps)

unfoldable pub has_eos : List Page → Bool
has_eos [] = false
has_eos (p ∷ ps) = if p.eos then true else has_eos ps

through_eos-append :
    (ps qs : List Page)
    → through_eos (ps ++ qs) ≡ through_eos ps ++ (if has_eos ps then [] else through_eos qs)
unfolding through_eos has_eos
through_eos-append [] qs = refl
through_eos-append (p ∷ ps) qs = elim (Bool-cases p.eos) [
  | inl e ↦ rw e (sym (append-nil ((p.header ++ p.body) ++ [])))
  | inr e ↦
      rw (e, through_eos-append ps qs) (sym (append_assoc (p.header ++ p.body) (through_eos ps) _))
]

has_eos-append :
    (ps qs : List Page) → has_eos (ps ++ qs) ≡ (if has_eos ps then true else has_eos qs)
unfolding has_eos
has_eos-append [] qs = refl
has_eos-append (p ∷ ps) qs = elim (Bool-cases p.eos) [
  | inl e ↦ rw e refl
  | inr e ↦ rw e (has_eos-append ps qs)
]

pub through_eos-ended :
    (ps qs : List Page) → has_eos ps ≡ true → through_eos ps ≡ through_eos (ps ++ qs)
through_eos-ended ps qs e = sym (
    through_eos-append ps qs
    ∙ (ap (λ b. through_eos ps ++ (if b then [] else through_eos qs)) e
        ∙ append-nil (through_eos ps)))

pub through_eos-more :
    (ps qs : List Page)
    → has_eos ps ≡ false
    → through_eos ps ++ through_eos qs ≡ through_eos (ps ++ qs)
through_eos-more ps qs e =
    sym
      (through_eos-append ps qs ∙ ap (λ b. through_eos ps ++ (if b then [] else through_eos qs)) e)

pub has_eos-ended : (ps qs : List Page) → has_eos ps ≡ true → true ≡ has_eos (ps ++ qs)
has_eos-ended ps qs e = sym (has_eos-append ps qs ∙ ap (λ b. if b then true else has_eos qs) e)

pub has_eos-more : (ps qs : List Page) → has_eos ps ≡ false → has_eos qs ≡ has_eos (ps ++ qs)
has_eos-more ps qs e = sym (has_eos-append ps qs ∙ ap (λ b. if b then true else has_eos qs) e)

module _ (calls : OggCalls) where
  -- apr_file_write_full writes everything.
  pub record Writes : Type 0 where
    pub status : (file part : Bytes) → (calls.write_full file part).0 ≡ 0
    pub whole : (file part : Bytes) → (calls.write_full file part).1 ≡ length part

  same_length : (n : ℕ) → (n == n) ≡ true
  same_length n = (==_iff n n).1 refl

  write_part-whole :
      (part : Bytes) (e : Encoding calls)
      → Writes
      → write_part calls part e ≡ (0, true, record e { file = e.file ++ part })
  unfolding write_part
  write_part-whole part e w =
      rw (w.status, w.whole, same_length (length part), take-all (length part) part (omega arith))
        refl

  written : Page → Encoding calls → Encoding calls
  written p e = record e {
    file = (e.file ++ p.header) ++ p.body;
    total_length = e.total_length + (length p.header + length p.body);
    eos = if p.eos then true else e.eos;
  }

  write_page-written :
      (p : Page) (e : Encoding calls) → Writes → write_page calls p e ≡ go_on (written p e)
  unfolding write_page written
  write_page-written p e w =
      ap
        (λ (t : ℕ × Bool × Encoding calls).
          if t.1 then write_body p (write_part calls p.body t.2) else stop t.0 t.2)
        (write_part-whole p.header e w)
      ∙ ap (write_body p) (write_part-whole p.body (record e { file = e.file ++ p.header }) w)
    where
      write_body : Page → ℕ × Bool × Encoding calls → Outcome calls
      write_body p (rv, ok, whole) =
          if ok
          then go_on (record whole {
            total_length = whole.total_length + (length p.header + length p.body);
            eos = if p.eos then true else whole.eos;
          })
          else stop rv whole

  pages_loop-step :
      (p : Page) (ps : List Page) (e after : Encoding calls)
      → e.eos ≡ false
      → write_page calls p e ≡ go_on after
      → pages_loop calls (p ∷ ps) e ≡ pages_loop calls ps after
  unfolding pages_loop
  pages_loop-step p ps e after f w =
      ap
        (λ b. elim b as (λ _. Outcome calls) [
          | true ↦ go_on e
          | false ↦ elim (write_page calls p e) as (λ _. Outcome calls) [
            | stop rv l ↦ stop rv l
            | go_on l ↦ pages_loop calls ps l
          ]
        ])
        f
      ∙ ap
          (λ o. elim o as (λ _. Outcome calls) [
            | stop rv l ↦ stop rv l
            | go_on l ↦ pages_loop calls ps l
          ])
          w

  pages_loop-ended :
      (ps : List Page) (e : Encoding calls) → e.eos ≡ true → pages_loop calls ps e ≡ go_on e
  unfolding pages_loop
  pages_loop-ended [] e f = refl
  pages_loop-ended (p ∷ ps) e f =
      ap
        (λ b. elim b as (λ _. Outcome calls) [
          | true ↦ go_on e
          | false ↦ elim (write_page calls p e) as (λ _. Outcome calls) [
            | stop rv l ↦ stop rv l
            | go_on l ↦ pages_loop calls ps l
          ]
        ])
        f

  -- What a loop over these pages leaves of an encoding that had no last page yet.
  abbrev pub Wrote : List Page → Encoding calls → Encoding calls → Type 0
  Wrote ps e after = (after.file ≡ e.file ++ through_eos ps) × (after.eos ≡ has_eos ps)

  pages_loop-Wrote :
      (ps : List Page) (e : Encoding calls)
      → Writes
      → e.eos ≡ false
      → (after : Encoding calls) × (pages_loop calls ps e ≡ go_on after) × Wrote ps e after
  unfolding pages_loop through_eos has_eos written
  pages_loop-Wrote [] e w f = (e, refl, (sym (append-nil e.file), f))
  pages_loop-Wrote (p ∷ ps) e w f =
      let step = pages_loop-step p ps e (written p e) f (write_page-written p e w) in
      let bytes : (e.file ++ p.header) ++ p.body ≡ e.file ++ (p.header ++ p.body) =
        append_assoc e.file p.header p.body in
      elim (Bool-cases p.eos) [
        | inl l ↦ (
          written p e,
          step ∙ pages_loop-ended ps (written p e) (ap (λ b. if b then true else e.eos) l),
          rw l (bytes ∙ ap (λ x. e.file ++ x) (sym (append-nil (p.header ++ p.body))), refl),
        )
        | inr n ↦
            let (after, done, (file, eos)) =
              pages_loop-Wrote ps (written p e) w (ap (λ b. if b then true else e.eos) n ∙ f) in
            (
              after,
              step ∙ done,
              rw n (
                file
                    ∙ (ap (λ x. x ++ through_eos ps) bytes
                        ∙ append_assoc e.file (p.header ++ p.body) (through_eos ps)),
                eos,
              ),
            )
      ]

  blocks_loop-step :
      (ps : List Page) (blocks : List (List Page)) (e after : Encoding calls)
      → pages_loop calls ps (record e { packets_done = e.packets_done + 1 }) ≡ go_on after
      → blocks_loop calls (ps ∷ blocks) e ≡ blocks_loop calls blocks after
  unfolding blocks_loop
  blocks_loop-step ps blocks e after h =
      ap
        (λ o. elim o as (λ _. Outcome calls) [
          | stop rv l ↦ stop rv l
          | go_on l ↦ blocks_loop calls blocks l
        ])
        h

  -- A loop that starts behind the last page writes nothing more.
  blocks_loop-ended :
      (blocks : List (List Page)) (e : Encoding calls)
      → e.eos ≡ true
      → (after : Encoding calls) × (blocks_loop calls blocks e ≡ go_on after)
        × ((after.file ≡ e.file) × (after.eos ≡ true))
  unfolding blocks_loop
  blocks_loop-ended [] e f = (e, refl, (refl, f))
  blocks_loop-ended (ps ∷ blocks) e f =
      let counted : Encoding calls = record e { packets_done = e.packets_done + 1 } in
      let (after, done, same) = blocks_loop-ended blocks counted f in
      (after, blocks_loop-step ps blocks e counted (pages_loop-ended ps counted f) ∙ done, same)

  pub blocks_loop-Wrote :
      (blocks : List (List Page)) (e : Encoding calls)
      → Writes
      → e.eos ≡ false
      → (after : Encoding calls) × (blocks_loop calls blocks e ≡ go_on after)
        × Wrote (flatten blocks) e after
  unfolding blocks_loop flatten through_eos has_eos
  blocks_loop-Wrote [] e w f = (e, refl, (sym (append-nil e.file), f))
  blocks_loop-Wrote (ps ∷ blocks) e w f =
      let counted : Encoding calls = record e { packets_done = e.packets_done + 1 } in
      let (next, row, (file, eos)) = pages_loop-Wrote ps counted w f in
      elim (Bool-cases (has_eos ps)) [
        | inl l ↦
            let (after, done, (file', eos')) = blocks_loop-ended blocks next (eos ∙ l) in
            (
              after,
              blocks_loop-step ps blocks e next row ∙ done,
              (
                file' ∙ (file ∙ ap (λ x. e.file ++ x) (through_eos-ended ps (flatten blocks) l)),
                eos' ∙ has_eos-ended ps (flatten blocks) l,
              ),
            )
        | inr n ↦
            let (after, done, (file', eos')) = blocks_loop-Wrote blocks next w (eos ∙ n) in
            (
              after,
              blocks_loop-step ps blocks e next row ∙ done,
              (
                file'
                    ∙ (ap (λ x. x ++ through_eos (flatten blocks)) file
                        ∙ (append_assoc e.file (through_eos ps) (through_eos (flatten blocks))
                            ∙ ap (λ x. e.file ++ x) (through_eos-more ps (flatten blocks) n))),
                eos' ∙ has_eos-more ps (flatten blocks) n,
              ),
            )
      ]
