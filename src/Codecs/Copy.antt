-- ===== src/Codecs/Copy.antt =====
-- The nested loops of src/indexers/music/codecs/flac/flac.c that copy samples, channel by channel,
-- into a buffer.
use mod_mp.Base.{
  eq-cases, length, ℕ, zero, suc, ◌+◌, ◌≤◌, ◌<◌, ◌≡◌, refl, ap, ◌∙◌, ◌≢◌, ◌⊎◌, inl, inr, Option,
  none, some, List, arith,
}
use mod_mp.Codecs.Cells.{cell, set_cell, HasRoom, Wrote, set_cell-Wrote}

-- The cells of channel `i` from `start` on, below `stop`.
abbrev pub InRow : ℕ → ℕ → ℕ → ℕ → ℕ → Type 0
InRow i start stop k j = (k ≡ i) × (start ≤ j) × (j < stop)

abbrev pub InRows : ℕ → ℕ → ℕ → ℕ → ℕ → ℕ → Type 0
InRows first last start stop k j = (first ≤ k) × (k < last) × (start ≤ j) × (j < stop)

module _ {A : Type 0} where
  -- `for (j ...) buffer[i][j + offset] = source(j)`, `count` rounds from `j`; none for an access
  -- outside an array.
  unfoldable pub copy_row : (ℕ → Option A) → ℕ → ℕ → ℕ → ℕ → List (List A) → Option (List (List A))
  copy_row source i offset zero j buffer = some buffer
  copy_row source i offset (suc count) j buffer = elim (source j) [
    | none ↦ none
    | some v ↦ elim (set_cell buffer i (j + offset) v) [
      | none ↦ none
      | some next ↦ copy_row source i offset count (suc j) next
    ]
  ]

  -- `for (i ...)` around it, `channels` rounds from `i`, each copying `count` samples.
  unfoldable pub copy_rows :
      (ℕ → ℕ → Option A) → ℕ → ℕ → ℕ → ℕ → List (List A) → Option (List (List A))
  unfolding copy_row
  copy_rows source offset count zero i buffer = some buffer
  copy_rows source offset count (suc channels) i buffer =
      elim (copy_row (source i) i offset count 0 buffer) [
        | none ↦ none
        | some next ↦ copy_rows source offset count channels (suc i) next
      ]

  -- The cells that `Mine` holds of have the source's values, and all others are as before.
  unfoldable pub Copied :
      (ℕ → ℕ → Option A) → ℕ → (ℕ → ℕ → Type 0) → List (List A) → List (List A) → Type 0
  Copied source offset Mine before after =
      ((k j : ℕ) → Mine k (j + offset) → cell after k (j + offset) ≡ source k j)
      × ((k j : ℕ) → ¬ Mine k j → cell after k j ≡ cell before k j)

  copy_row-step :
      (source : ℕ → Option A)
      → (i offset count j : ℕ) → (buffer next : List (List A)) → (v : A) → source j ≡ some v
      → set_cell buffer i (j + offset) v ≡ some next
      → copy_row source i offset (suc count) j buffer ≡ copy_row source i offset count (suc j) next
  unfolding copy_row
  copy_row-step source i offset count j buffer next v e f =
      ap
        (λ o. elim o as (λ _. Option (List (List A))) [
          | none ↦ none
          | some w ↦ elim (set_cell buffer i (j + offset) w) as (λ _. Option (List (List A))) [
            | none ↦ none
            | some b ↦ copy_row source i offset count (suc j) b
          ]
        ])
        e
      ∙ ap
          (λ o. elim o as (λ _. Option (List (List A))) [
            | none ↦ none
            | some b ↦ copy_row source i offset count (suc j) b
          ])
          f

  copy_row-Copied :
      (source : ℕ → ℕ → Option A)
      → (i offset total count j room : ℕ) → (buffer : List (List A)) → count + j ≡ total
      → i < length buffer
      → total + offset ≤ room
      → HasRoom room buffer
      → ((j : ℕ) → j < total → (v : A) × (source i j ≡ some v))
      → (after : List (List A)) × (copy_row (source i) i offset count j buffer ≡ some after)
        × Copied source offset (InRow i (j + offset) (total + offset)) buffer after
        × HasRoom room after
        × (length after ≡ length buffer)
  unfolding copy_row Copied Wrote
  copy_row-Copied source i offset total zero j room buffer e l t r s =
      (buffer, refl, ((λ k' j' m. absurd (omega (arith, m.1, m.2, e))), (λ k' j' m. refl)), r, refl)
  copy_row-Copied source i offset total (suc count) j room buffer e l t r s =
      let (v, ev) = s j (omega arith) in
      let (next, written, (same, other), room', size) =
        set_cell-Wrote room buffer i (j + offset) v r l (omega arith) in
      let (after, rest, (mine, unmine), room'', size') =
        copy_row-Copied source i offset total count (suc j) room next (omega arith) (omega arith) t
          room' s in
      (
        after,
        copy_row-step (source i) i offset count j buffer next v ev written ∙ rest,
        (
          (λ k' j' m. elim (eq-cases j' j) [
            | inl e' ↦
                unmine k' (j' + offset) (λ m'. absurd (omega (arith, m'.1, e')))
                ∙ cc (same, ev, e', m.0)
            | inr n ↦ mine k' j' (m.0, omega (arith, m.1, n), m.2)
          ]),
          (λ k' j' nm.
              unmine k' j' (λ m'. nm (m'.0, omega (arith, m'.1), m'.2))
              ∙ other k' j' (outside i j offset total k' j' (omega arith) nm)),
        ),
        room'',
        size' ∙ size,
      )
    where
      outside :
          (i j offset total k' j' : ℕ)
          → j < total
          → ¬ InRow i (j + offset) (total + offset) k' j'
          → (k' ≢ i) ⊎ (j' ≢ j + offset)
      outside i j offset total k' j' l nm = elim (eq-cases j' (j + offset)) [
        | inr n ↦ inr n
        | inl e ↦ inl (λ f. nm (f, omega (arith, e), omega (arith, e, l)))
      ]

  copy_rows-step :
      (source : ℕ → ℕ → Option A)
      → (offset count channels i : ℕ) → (buffer next : List (List A))
      → copy_row (source i) i offset count 0 buffer ≡ some next
      → copy_rows source offset count (suc channels) i buffer
        ≡ copy_rows source offset count channels (suc i) next
  unfolding copy_rows
  copy_rows-step source offset count channels i buffer next e =
      ap
        (λ o. elim o as (λ _. Option (List (List A))) [
          | none ↦ none
          | some b ↦ copy_rows source offset count channels (suc i) b
        ])
        e

  pub copy_rows-Copied :
      (source : ℕ → ℕ → Option A)
      → (offset count last channels i room : ℕ) → (buffer : List (List A)) → channels + i ≡ last
      → last ≤ length buffer
      → count + offset ≤ room
      → HasRoom room buffer
      → ((i j : ℕ) → i < last → j < count → (v : A) × (source i j ≡ some v))
      → (after : List (List A)) × (copy_rows source offset count channels i buffer ≡ some after)
        × Copied source offset (InRows i last offset (count + offset)) buffer after
        × HasRoom room after
        × (length after ≡ length buffer)
  unfolding copy_rows Copied
  copy_rows-Copied source offset count last zero i room buffer e l t r s =
      (buffer, refl, ((λ k' j' m. absurd (omega (arith, m.0, m.1, e))), (λ k' j' m. refl)), r, refl)
  copy_rows-Copied source offset count last (suc channels) i room buffer e l t r s =
      let (next, row, (mine, unmine), room', size) =
        copy_row-Copied source i offset count count 0 room buffer (omega arith) (omega arith) t r
          (λ j h. s i j (omega arith) h) in
      let (after, rest, (mine', unmine'), room'', size') =
        copy_rows-Copied source offset count last channels (suc i) room next (omega arith)
          (omega arith) t room' s in
      (
        after,
        copy_rows-step source offset count channels i buffer next row ∙ rest,
        (
          (λ k' j' m. elim (eq-cases k' i) [
            | inl e' ↦
                unmine' k' (j' + offset) (λ m'. absurd (omega (arith, m'.0, e')))
                ∙ mine k' j' (e', omega arith, m.3)
            | inr n ↦ mine' k' j' (omega (arith, m.0, n), m.1, m.2, m.3)
          ]),
          (λ k' j' nm.
              unmine' k' j' (λ m'. nm (omega (arith, m'.0), m'.1, m'.2, m'.3))
              ∙ unmine k' j' (λ m'.
                nm (omega (arith, m'.0), omega (arith, m'.0, e), omega (arith, m'.1), m'.2))),
        ),
        room'',
        size' ∙ size,
      )
