-- ===== src/TagReader/Extension.antt =====
-- What get_file_ext of src/indexers/music/tag_reader.c reads.
use mod_mp.Base.{
  ◌==◌, length, get_or, drop, any, length-append, Bytes, ℕ, zero, suc, ◌+◌, ◌≡◌, refl, false, [],
  ◌∷◌, ◌++◌, arith,
}
use native.Mathlib.Numerals.{add-one}
use mod_mp.Apr.{Apr}
use mod_mp.TagReader.{type_of, ext_loop, get_file_ext}

no_dot : (s : Bytes) (k : ℕ) → any (λ c. c == b'.') s ≡ false → (get_or s k 0 == b'.') ≡ false
no_dot [] k h = refl
no_dot (x ∷ s) zero h = ground (arith, h)
no_dot (x ∷ s) (suc k) h = ground (arith, h, no_dot s k)

at_dot :
    (stem extension : Bytes) (n : ℕ)
    → n ≡ length stem
    → get_or (stem ++ b'.' ∷ extension) n 0 ≡ b'.'
at_dot [] extension n e = rw e refl
at_dot (x ∷ stem) extension zero e = absurd (omega arith)
at_dot (x ∷ stem) extension (suc n) e = at_dot stem extension n (omega arith)

behind_dot :
    (stem extension : Bytes) (n : ℕ)
    → n ≡ length stem
    → drop (suc n) (stem ++ b'.' ∷ extension) ≡ extension
behind_dot [] extension n e = rw e refl
behind_dot (x ∷ stem) extension zero e = absurd (omega arith)
behind_dot (x ∷ stem) extension (suc n) e = behind_dot stem extension n (omega arith)

after_dot :
    (stem extension : Bytes) (n k : ℕ)
    → n ≡ length stem + suc k
    → any (λ c. c == b'.') extension ≡ false
    → (get_or (stem ++ b'.' ∷ extension) n 0 == b'.') ≡ false
after_dot stem extension zero k e h = absurd (omega arith)
after_dot [] extension (suc n) k e h = no_dot extension n h
after_dot (x ∷ stem) extension (suc n) k e h = after_dot stem extension n k (omega arith) h

module _ (apr : Apr) where
  ext_loop-dot :
      (k n c : ℕ) (stem extension : Bytes)
      → n ≡ length stem + k
      → any (λ d. d == b'.') extension ≡ false
      → ext_loop apr (suc n) (c ∷ (stem ++ b'.' ∷ extension)) ≡ type_of apr extension
  unfolding ext_loop
  ext_loop-dot zero n c stem extension e h =
      rw (at_dot stem extension n (omega arith), add-one, behind_dot stem extension n (omega arith))
        refl
  ext_loop-dot (suc k) zero c stem extension e h = absurd (omega arith)
  ext_loop-dot (suc k) (suc n) c stem extension e h =
      rw (after_dot stem extension (suc n) k e h)
        (ext_loop-dot k n c stem extension (omega arith) h)

  -- The type of a path is that of the text behind its last dot, however many dots stand before it,
  -- unless the path begins with that dot.
  pub get_file_ext-type_of :
      (c : ℕ) (stem extension : Bytes)
      → any (λ d. d == b'.') extension ≡ false
      → get_file_ext apr (c ∷ (stem ++ b'.' ∷ extension)) ≡ type_of apr extension
  unfolding get_file_ext
  get_file_ext-type_of c stem extension h =
      ext_loop-dot (suc (length extension)) _ c stem extension
        (omega (arith, length-append stem (b'.' ∷ extension))) h
