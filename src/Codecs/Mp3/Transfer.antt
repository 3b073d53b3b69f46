-- ===== src/Codecs/Mp3/Transfer.antt =====
-- The loops of process_mp3_file in src/indexers/music/codecs/mp3/mpg123.c.
use mod_mp.Base.{
  eq-cases, length, get_elem?, get_elem?-lt, ℕ, zero, suc, ◌+◌, ◌*◌, ◌≤◌, ◌<◌, ◌≡◌, refl, ap, ◌∙◌,
  ◌≢◌, ◌⊎◌, inl, inr, Option, none, some, List, arith,
}
use native.Mathlib.Nat.{mul-le-mul_right}
use mod_mp.Codecs.Cells.{cell, set_cell, HasRoom, Wrote, set_cell-Wrote}
use mod_mp.Codecs.Mp3.{Mpg123, transfer_channels, transfer}

module _ (mpg : Mpg123) where
  -- The cells that `Mine` holds of have the samples that stand interleaved in `out`, and all
  -- others are as before.
  unfoldable pub Moved :
      ℕ
      → List mpg.Sample
      → (ℕ → ℕ → Type 0)
      → List (List mpg.Sample)
      → List (List mpg.Sample)
      → Type 0
  Moved channels out Mine before after =
      ((k j : ℕ) → Mine k j → cell after k j ≡ get_elem? out (j * channels + k))
      × ((k j : ℕ) → ¬ Mine k j → cell after k j ≡ cell before k j)

  -- The row of the channels from `k` on, of one sample.
  abbrev pub InRow : ℕ → ℕ → ℕ → ℕ → ℕ → Type 0
  InRow channels j k k' j' = (j' ≡ j) × (k ≤ k') × (k' < channels)

  -- The samples from `j` on, below `stop`.
  abbrev pub InRows : ℕ → ℕ → ℕ → ℕ → ℕ → Type 0
  InRows channels j stop k' j' = (j ≤ j') × (j' < stop) × (k' < channels)

  index_lt :
      (channels frames j k : ℕ) → j < frames → k < channels → j * channels + k < frames * channels
  index_lt channels frames j k h g =
      let le : suc j ≤ frames = omega (arith, h) in omega (arith, mul-le-mul_right channels le)

  transfer_channels-step :
      (channels j count k : ℕ)
      → (out : List mpg.Sample) → (buffer next : List (List mpg.Sample)) → (v : mpg.Sample)
      → get_elem? out (j * channels + k) ≡ some v
      → set_cell buffer k j v ≡ some next
      → transfer_channels mpg channels j (suc count) k out buffer
        ≡ transfer_channels mpg channels j count (suc k) out next
  unfolding transfer_channels
  transfer_channels-step channels j count k out buffer next v e f =
      ap
        (λ o. elim o as (λ _. Option (List (List mpg.Sample))) [
          | none ↦ none
          | some w ↦ elim (set_cell buffer k j w) as (λ _. Option (List (List mpg.Sample))) [
            | none ↦ none
            | some b ↦ transfer_channels mpg channels j count (suc k) out b
          ]
        ])
        e
      ∙ ap
          (λ o. elim o as (λ _. Option (List (List mpg.Sample))) [
            | none ↦ none
            | some b ↦ transfer_channels mpg channels j count (suc k) out b
          ])
          f

  outside :
      (channels j k k' j' : ℕ) → k < channels → ¬ InRow channels j k k' j' → (k' ≢ k) ⊎ (j' ≢ j)
  outside channels j k k' j' l nm = elim (eq-cases k' k) [
    | inr n ↦ inl n
    | inl e ↦ inr (λ f. nm (f, omega (arith, e), omega (arith, e, l)))
  ]

  transfer_channels-Moved :
      (channels j frames count k : ℕ)
      → (out : List mpg.Sample) → (buffer : List (List mpg.Sample)) → count + k ≡ channels
      → j < frames
      → channels ≤ length buffer
      → frames * channels ≤ length out
      → HasRoom frames buffer
      → (after : List (List mpg.Sample)) × (transfer_channels mpg channels j count k out buffer
          ≡ some after)
        × Moved channels out (InRow channels j k) buffer after
        × HasRoom frames after
        × (length after ≡ length buffer)
  unfolding transfer_channels Moved Wrote
  transfer_channels-Moved channels j frames zero k out buffer e l c o r =
      (buffer, refl, ((λ k' j' m. absurd (omega (arith, m.1, m.2))), (λ k' j' m. refl)), r, refl)
  transfer_channels-Moved channels j frames (suc count) k out buffer e l c o r =
      let (v, ev) =
        get_elem?-lt out (j * channels + k)
          (omega (arith, index_lt channels frames j k l (omega arith))) in
      let (next, written, (same, other), room, size) =
        set_cell-Wrote frames buffer k j v r (omega arith) l in
      let (after, rest, (mine, unmine), room', size') =
        transfer_channels-Moved channels j frames count (suc k) out next (omega arith) l
          (omega arith) o room in
      (
        after,
        transfer_channels-step channels j count k out buffer next v ev written ∙ rest,
        (
          (λ k' j' m. elim (eq-cases k' k) [
            | inl e' ↦
                unmine k' j' (λ m'. absurd (omega (arith, m'.1, e'))) ∙ cc (same, ev, e', m.0)
            | inr n ↦ mine k' j' (m.0, omega (arith, m.1, n), m.2)
          ]),
          (λ k' j' nm.
              unmine k' j' (λ m'. nm (m'.0, omega (arith, m'.1), m'.2))
              ∙ other k' j' (outside channels j k k' j' (omega arith) nm)),
        ),
        room',
        size' ∙ size,
      )

  transfer-step :
      (channels count j : ℕ)
      → (out : List mpg.Sample) → (buffer next : List (List mpg.Sample))
      → transfer_channels mpg channels j channels 0 out buffer ≡ some next
      → transfer mpg channels (suc count) j out buffer
        ≡ transfer mpg channels count (suc j) out next
  unfolding transfer
  transfer-step channels count j out buffer next e =
      ap
        (λ o. elim o as (λ _. Option (List (List mpg.Sample))) [
          | none ↦ none
          | some b ↦ transfer mpg channels count (suc j) out b
        ])
        e

  pub transfer-Moved :
      (channels frames count j : ℕ)
      → (out : List mpg.Sample) → (buffer : List (List mpg.Sample)) → count + j ≡ frames
      → channels ≤ length buffer
      → frames * channels ≤ length out
      → HasRoom frames buffer
      → (after : List (List mpg.Sample)) × (transfer mpg channels count j out buffer ≡ some after)
        × Moved channels out (InRows channels j frames) buffer after
        × HasRoom frames after
        × (length after ≡ length buffer)
  unfolding transfer Moved
  transfer-Moved channels frames zero j out buffer e c o r =
      (buffer, refl, ((λ k' j' m. absurd (omega (arith, m.0, m.1, e))), (λ k' j' m. refl)), r, refl)
  transfer-Moved channels frames (suc count) j out buffer e c o r =
      let (next, row, (mine, unmine), room, size) =
        transfer_channels-Moved channels j frames channels 0 out buffer (omega arith) (omega arith)
          c o r in
      let (after, rest, (mine', unmine'), room', size') =
        transfer-Moved channels frames count (suc j) out next (omega arith) (omega arith) o room in
      (
        after,
        transfer-step channels count j out buffer next row ∙ rest,
        (
          (λ k' j' m. elim (eq-cases j' j) [
            | inl e' ↦
                unmine' k' j' (λ m'. absurd (omega (arith, m'.0, e')))
                ∙ mine k' j' (e', omega arith, m.2)
            | inr n ↦ mine' k' j' (omega (arith, m.0, n), m.1, m.2)
          ]),
          (λ k' j' nm.
              unmine' k' j' (λ m'. nm (omega (arith, m'.0), m'.1, m'.2))
              ∙ unmine k' j' (λ m'. nm (omega (arith, m'.0), omega (arith, m'.0, e), m'.2))),
        ),
        room',
        size' ∙ size,
      )
