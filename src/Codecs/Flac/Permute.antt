-- ===== src/Codecs/Flac/Permute.antt =====
-- The channel order of src/indexers/music/codecs/flac/flac.c.
use mod_mp.Base.{
  ltb, if◌then◌else◌, length, get_or, all, ℕ, zero, suc, ◌≤◌, ◌<◌, ◌≡◌, refl, true, none, some,
  List, [], ◌∷◌, arith,
}
use mod_mp.Codecs.Flac.{permute}

entry_lt :
    (row : List ℕ) (channels i : ℕ)
    → all (λ p. ltb p channels) row ≡ true
    → i < length row
    → get_or row i 0 < channels
entry_lt [] channels i a h = elim h [ ]
entry_lt (x ∷ xs) channels zero a h = ground arith
entry_lt (x ∷ xs) channels (suc i) a h = entry_lt xs channels i (ground arith) (omega arith)

by_row :
    (row : List ℕ) (channels i : ℕ)
    → all (λ p. ltb p channels) row ≡ true
    → length row ≡ channels
    → channels ≤ 8
    → i < channels
    → (p : ℕ) × ((if ltb i 8 then some (get_or row i 0) else none) ≡ some p) × (p < channels)
by_row row channels i a l e h =
    (get_or row i 0, ground arith, entry_lt row channels i a (omega arith))

-- Every channel of up to eight is filled from one of the decoder's.
pub permute-lt :
    (channels i : ℕ)
    → channels ≤ 8
    → i < channels
    → (p : ℕ) × (permute channels i ≡ some p) × (p < channels)
unfolding permute
permute-lt zero i e h = absurd (omega arith)
permute-lt (suc zero) i e h = by_row (0 ∷ []) 1 i refl refl e h
permute-lt (suc (suc zero)) i e h = by_row (0 ∷ 1 ∷ []) 2 i refl refl e h
permute-lt (suc (suc (suc zero))) i e h = by_row (0 ∷ 2 ∷ 1 ∷ []) 3 i refl refl e h
permute-lt (suc (suc (suc (suc zero)))) i e h = by_row (0 ∷ 1 ∷ 2 ∷ 3 ∷ []) 4 i refl refl e h
permute-lt (suc (suc (suc (suc (suc zero))))) i e h =
    by_row (0 ∷ 2 ∷ 1 ∷ 3 ∷ 4 ∷ []) 5 i refl refl e h
permute-lt (suc (suc (suc (suc (suc (suc zero)))))) i e h =
    by_row (0 ∷ 2 ∷ 1 ∷ 4 ∷ 5 ∷ 3 ∷ []) 6 i refl refl e h
permute-lt (suc (suc (suc (suc (suc (suc (suc zero))))))) i e h =
    by_row (0 ∷ 2 ∷ 1 ∷ 4 ∷ 5 ∷ 6 ∷ 3 ∷ []) 7 i refl refl e h
permute-lt (suc (suc (suc (suc (suc (suc (suc (suc zero)))))))) i e h =
    by_row (0 ∷ 2 ∷ 1 ∷ 6 ∷ 7 ∷ 4 ∷ 5 ∷ 3 ∷ []) 8 i refl refl e h
permute-lt (suc (suc (suc (suc (suc (suc (suc (suc (suc n))))))))) i e h = absurd (omega arith)
