-- ===== src/Codecs/Cells.antt =====
-- A buffer `buffer[channel][sample]` as the codecs of src/indexers/music/codecs/ fill it.
use mod_mp.Base.{
  ltb, if◌then◌else◌, length, get_elem?, set, length-set, ℕ, zero, suc, ◌≤◌, ◌<◌, ◌≡◌, refl, sym,
  ap, ◌≢◌, ◌⊎◌, inl, inr, Option, none, some, List, [], ◌∷◌, arith,
}

module _ {A : Type 0} where
  abbrev pub cell : List (List A) → ℕ → ℕ → Option A
  cell buffer k j = elim (get_elem? buffer k) [ none ↦ none | some row ↦ get_elem? row j ]

  -- `buffer[k][j] = v`; none if that is outside the buffer.
  unfoldable pub set_cell : List (List A) → ℕ → ℕ → A → Option (List (List A))
  set_cell buffer k j v = elim (get_elem? buffer k) [
    | none ↦ none
    | some row ↦ if ltb j (length row) then some (set buffer k (set row j v)) else none
  ]

  -- Every channel has room for this many samples.
  unfoldable pub HasRoom : ℕ → List (List A) → Type 0
  HasRoom samples [] = Unit
  HasRoom samples (row ∷ rows) = (samples ≤ length row) × HasRoom samples rows

  get_elem?-set_same :
      (xs : List A) (i : ℕ) (v : A) → i < length xs → get_elem? (set xs i v) i ≡ some v
  get_elem?-set_same [] i v h = elim h [ ]
  get_elem?-set_same (x ∷ xs) zero v h = refl
  get_elem?-set_same (x ∷ xs) (suc i) v h = get_elem?-set_same xs i v (omega arith)

  get_elem?-set_other :
      (xs : List A) (i j : ℕ) (v : A) → i ≢ j → get_elem? (set xs i v) j ≡ get_elem? xs j
  get_elem?-set_other [] i j v h = refl
  get_elem?-set_other (x ∷ xs) zero zero v h = absurd (h refl)
  get_elem?-set_other (x ∷ xs) zero (suc j) v h = refl
  get_elem?-set_other (x ∷ xs) (suc i) zero v h = refl
  get_elem?-set_other (x ∷ xs) (suc i) (suc j) v h =
      get_elem?-set_other xs i j v (λ e. h (ap suc e))

  -- A write inside the buffer succeeds, changes that cell alone and keeps the sizes.
  unfoldable pub Wrote : List (List A) → ℕ → ℕ → A → List (List A) → Type 0
  Wrote buffer k j v after =
      (cell after k j ≡ some v)
      × ((k' j' : ℕ) → (k' ≢ k) ⊎ (j' ≢ j) → cell after k' j' ≡ cell buffer k' j')

  here_other :
      (row : List A) (rows : List (List A)) (j : ℕ) (v : A) (k' j' : ℕ)
      → (k' ≢ 0) ⊎ (j' ≢ j)
      → cell (set row j v ∷ rows) k' j' ≡ cell (row ∷ rows) k' j'
  here_other row rows j v zero j' (inl n) = absurd (n refl)
  here_other row rows j v zero j' (inr n) = get_elem?-set_other row j j' v (λ e. n (sym e))
  here_other row rows j v (suc k') j' n = refl

  behind_other :
      (row : List A) (rows after : List (List A)) (k j : ℕ)
      → ((k' j' : ℕ) → (k' ≢ k) ⊎ (j' ≢ j) → cell after k' j' ≡ cell rows k' j')
      → (k' j' : ℕ) → (k' ≢ suc k) ⊎ (j' ≢ j)
      → cell (row ∷ after) k' j' ≡ cell (row ∷ rows) k' j'
  behind_other row rows after k j h zero j' n = refl
  behind_other row rows after k j h (suc k') j' (inl n) = h k' j' (inl (λ e. n (ap suc e)))
  behind_other row rows after k j h (suc k') j' (inr n) = h k' j' (inr n)

  set_cell-zero :
      (row : List A) (rows : List (List A)) (j : ℕ) (v : A)
      → j < length row
      → set_cell (row ∷ rows) 0 j v ≡ some (set row j v ∷ rows)
  unfolding set_cell
  set_cell-zero row rows j v h = ground arith

  set_cell-suc :
      (row : List A) (rows after : List (List A)) (k j : ℕ) (v : A)
      → set_cell rows k j v ≡ some after
      → set_cell (row ∷ rows) (suc k) j v ≡ some (row ∷ after)
  unfolding set_cell
  set_cell-suc row rows after k j v h = ground arith

  pub set_cell-Wrote :
      (samples : ℕ) (buffer : List (List A)) (k j : ℕ) (v : A)
      → HasRoom samples buffer
      → k < length buffer
      → j < samples
      → (after : List (List A)) × (set_cell buffer k j v ≡ some after)
        × Wrote buffer k j v after
        × HasRoom samples after
        × (length after ≡ length buffer)
  unfolding HasRoom Wrote
  set_cell-Wrote samples [] k j v r h l = elim h [ ]
  set_cell-Wrote samples (row ∷ rows) zero j v r h l = (
    set row j v ∷ rows,
    set_cell-zero row rows j v (omega (arith, r.0)),
    (get_elem?-set_same row j v (omega (arith, r.0)), here_other row rows j v),
    (omega (arith, r.0, length-set row j v), r.1),
    refl,
  )
  set_cell-Wrote samples (row ∷ rows) (suc k) j v r h l =
      let (after, done, (same, other), room, size) =
        set_cell-Wrote samples rows k j v r.1 (omega arith) l in
      (
        row ∷ after,
        set_cell-suc row rows after k j v done,
        (same, behind_other row rows after k j other),
        (r.0, room),
        ap suc size,
      )

  pub HasRoom-le :
      (few many : ℕ) (buffer : List (List A))
      → few ≤ many
      → HasRoom many buffer
      → HasRoom few buffer
  unfolding HasRoom
  HasRoom-le few many [] h r = r
  HasRoom-le few many (row ∷ rows) h r = (omega (arith, r.0), HasRoom-le few many rows h r.1)
