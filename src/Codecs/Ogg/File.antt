-- ===== src/Codecs/Ogg/File.antt =====
-- The outer loop of ogg_encode in src/indexers/music/codecs/ogg/ogg_encode.c, and the file behind it.
use mod_mp.Base.{
  leb, ◌==◌, if◌then◌else◌, Bool-cases, length, drop, ℤ, Bytes, ℕ, ◌≡◌, refl, ap, ◌∙◌, inl, inr,
  true, false, Option, none, some, List, [], ◌∷◌, ◌++◌, append_assoc,
}
use mathlib.Core.Option
use mathlib.Core.List.{flatten}
use mod_mp.Codecs.{EncodingOptions}
use mod_mp.Codecs.Ogg.{
  Page, Round, OggCalls, Encoding, go_on, stop, blocks_loop, count_samples, ogg_loop, ogg_encode,
  write_over,
}
use mod_mp.Codecs.Ogg.Pages.{
  through_eos, has_eos, through_eos-ended, through_eos-more, has_eos-more, Writes,
  blocks_loop-Wrote,
}

-- All pages that the library would give, in their order.
unfoldable pub all_pages : List Round → List Page
all_pages [] = []
all_pages (r ∷ rounds) = flatten r.blocks ++ all_pages rounds

module _ (calls : OggCalls) where
  count_samples-kept :
      (per_channel : ℤ) (n : ℕ) (e : Encoding calls)
      → ((count_samples calls per_channel n e).file ≡ e.file)
        × ((count_samples calls per_channel n e).eos ≡ e.eos)
  unfolding count_samples
  count_samples-kept per_channel n e = elim (Bool-cases (n == 0)) [
    | inl z ↦ rw z (refl, refl)
    | inr z ↦ elim (Bool-cases (leb 40 e.packets_done)) [
      | inl m ↦ rw (z, m) (refl, refl)
      | inr m ↦ rw (z, m) (refl, refl)
    ]
  ]

  ogg_loop-ended :
      (per_channel : ℤ) (rounds : List Round) (e : Encoding calls)
      → e.eos ≡ true
      → ogg_loop calls per_channel rounds e ≡ some (0, e)
  unfolding ogg_loop
  ogg_loop-ended per_channel [] e f = ap (λ b. if b then some (0, e) else none) f
  ogg_loop-ended per_channel (r ∷ rounds) e f =
      ap
        (λ b. elim b as (λ _. Option (ℕ × Encoding calls)) [
          | true ↦ some (0, e)
          | false ↦
              elim (blocks_loop calls r.blocks (count_samples calls per_channel r.samples_read e))
                as (λ _. Option (ℕ × Encoding calls)) [
                  | stop rv l ↦ some (rv, l)
                  | go_on l ↦ ogg_loop calls per_channel rounds l
                ]
        ])
        f

  ogg_loop-step :
      (per_channel : ℤ) (r : Round) (rounds : List Round) (e after : Encoding calls)
      → e.eos ≡ false
      → blocks_loop calls r.blocks (count_samples calls per_channel r.samples_read e) ≡ go_on after
      → ogg_loop calls per_channel (r ∷ rounds) e ≡ ogg_loop calls per_channel rounds after
  unfolding ogg_loop
  ogg_loop-step per_channel r rounds e after f h =
      ap
        (λ b. elim b as (λ _. Option (ℕ × Encoding calls)) [
          | true ↦ some (0, e)
          | false ↦
              elim (blocks_loop calls r.blocks (count_samples calls per_channel r.samples_read e))
                as (λ _. Option (ℕ × Encoding calls)) [
                  | stop rv l ↦ some (rv, l)
                  | go_on l ↦ ogg_loop calls per_channel rounds l
                ]
        ])
        f
      ∙ ap
          (λ o. elim o as (λ _. Option (ℕ × Encoding calls)) [
            | stop rv l ↦ some (rv, l)
            | go_on l ↦ ogg_loop calls per_channel rounds l
          ])
          h

  ogg_loop-through_eos :
      (per_channel : ℤ) (rounds : List Round) (e : Encoding calls)
      → Writes calls
      → e.eos ≡ false
      → has_eos (all_pages rounds) ≡ true
      → (after : Encoding calls) × (ogg_loop calls per_channel rounds e ≡ some (0, after))
        × (after.file ≡ e.file ++ through_eos (all_pages rounds))
  unfolding ogg_loop all_pages has_eos
  ogg_loop-through_eos per_channel [] e w f h = cc h
  ogg_loop-through_eos per_channel (r ∷ rounds) e w f h =
      let kept = count_samples-kept per_channel r.samples_read e in
      let counted = count_samples calls per_channel r.samples_read e in
      let (next, blocks, (file, eos)) = blocks_loop-Wrote calls r.blocks counted w (kept.1 ∙ f) in
      let step = ogg_loop-step per_channel r rounds e next f blocks in
      let from : next.file ≡ e.file ++ through_eos (flatten r.blocks) =
        file ∙ ap (λ x. x ++ through_eos (flatten r.blocks)) kept.0 in
      elim (Bool-cases (has_eos (flatten r.blocks))) [
        | inl l ↦ (
          next,
          step ∙ ogg_loop-ended per_channel rounds next (eos ∙ l),
          from ∙ ap (λ x. e.file ++ x) (through_eos-ended (flatten r.blocks) (all_pages rounds) l),
        )
        | inr n ↦
            let (after, done, more) =
              ogg_loop-through_eos per_channel rounds next w (eos ∙ n)
                (has_eos-more (flatten r.blocks) (all_pages rounds) n ∙ h) in
            (
              after,
              step ∙ done,
              more
                  ∙ (ap (λ x. x ++ through_eos (all_pages rounds)) from
                      ∙ (append_assoc e.file (through_eos (flatten r.blocks))
                            (through_eos (all_pages rounds))
                          ∙ ap (λ x. e.file ++ x)
                              (through_eos-more (flatten r.blocks) (all_pages rounds) n))),
            )
      ]

  -- Where the output file opens and every write is complete, and one of the pages that the library
  -- gives is its last one: the loops end, ogg_encode returns 0, and the file holds the headers and
  -- the bodies of all pages in their order, whatever the rounds and the blocks they came in, up to
  -- and with the last page. Behind them stands what the file had there before, for it is not truncated.
  pub ogg_encode-through_eos :
      (old : Bytes) (enc_opt : EncodingOptions) (progress : Option calls.Float)
      → (rounds : List Round) → Writes calls
      → has_eos (all_pages rounds) ≡ true
      → (after : Encoding calls) × (ogg_encode calls 0 old enc_opt progress rounds
          ≡ some (0, after))
        × (after.file
            ≡ through_eos (all_pages rounds) ++ drop (length (through_eos (all_pages rounds))) old)
  unfolding ogg_encode write_over
  ogg_encode-through_eos old enc_opt progress rounds w h =
      let (last, done, file) =
        ogg_loop-through_eos enc_opt.total_samples_per_channel rounds _ w refl h in
      (
        (write_over calls old (0, last)).1,
        ap (Option.map (write_over calls old)) done,
        ap (λ x. x ++ drop (length x) old) file,
      )
