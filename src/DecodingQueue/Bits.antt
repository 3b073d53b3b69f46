-- ===== src/DecodingQueue/Bits.antt =====
-- The 64-bit words of the queue by their bits, the most significant first: bit `63 - i` of the
-- word, which stands for slot `i`, is entry `i` of the list.
use mod_mp.Base.{
  if◌then◌else◌, length, get_or, set, replicate, ℕ, zero, suc, ◌<◌, ◌≡◌, refl, sym, ap, subst, Bool,
  true, false, not, ◌&&◌, ◌||◌, List, [], ◌∷◌, arith,
}

abbrev pub Word : Type 0
Word = List Bool

abbrev pub word_size : ℕ
word_size = 64

unfoldable pub zero_word : Word
zero_word = replicate word_size false

one_hot : ℕ → ℕ → Word
one_hot n i = set (replicate n false) i true

-- `1ull << (63 - i)`, for `i` from 0 to 63
unfoldable pub flag : ℕ → Word
unfolding one_hot
flag i = one_hot word_size i

unfoldable pub word_not : Word → Word
word_not [] = []
word_not (b ∷ w) = not b ∷ word_not w

unfoldable pub word_and : Word → Word → Word
word_and [] v = []
word_and (b ∷ w) [] = []
word_and (b ∷ w) (c ∷ v) = (b && c) ∷ word_and w v

unfoldable pub word_or : Word → Word → Word
word_or [] v = v
word_or (b ∷ w) [] = b ∷ w
word_or (b ∷ w) (c ∷ v) = (b || c) ∷ word_or w v

-- The test `w != 0`.
unfoldable pub is_set : Word → Bool
is_set [] = false
is_set (b ∷ w) = b || is_set w

-- __builtin_clzll, on a word that is not zero.
unfoldable pub clz : Word → ℕ
clz [] = 0
clz (b ∷ w) = if b then 0 else suc (clz w)

-- The word `w - 1` and whether the subtraction borrows from the bits above `w`.
unfoldable pub borrow : Word → Bool × Word
borrow [] = (true, [])
borrow (b ∷ w) = let (below, v) = borrow w in if below then (not b, not b ∷ v) else (false, b ∷ v)

-- `w - 1`, modulo 2 ^ 64
unfoldable pub word_pred : Word → Word
unfolding borrow
word_pred w = (borrow w).1

abbrev pub bit : Word → ℕ → Bool
bit w i = get_or w i false

and-not-zero : (w : Word) → word_and w (word_not (replicate (length w) false)) ≡ w
unfolding word_and word_not
and-not-zero [] = refl
and-not-zero (true ∷ w) = ap (λ v. true ∷ v) (and-not-zero w)
and-not-zero (false ∷ w) = ap (λ v. false ∷ v) (and-not-zero w)

or-zero : (w : Word) → word_or w (replicate (length w) false) ≡ w
unfolding word_or
or-zero [] = refl
or-zero (true ∷ w) = ap (λ v. true ∷ v) (or-zero w)
or-zero (false ∷ w) = ap (λ v. false ∷ v) (or-zero w)

and-not-one_hot : (w : Word) (i : ℕ) → word_and w (word_not (one_hot (length w) i)) ≡ set w i false
unfolding word_and word_not one_hot
and-not-one_hot [] i = refl
and-not-one_hot (true ∷ w) zero = ap (λ v. false ∷ v) (and-not-zero w)
and-not-one_hot (false ∷ w) zero = ap (λ v. false ∷ v) (and-not-zero w)
and-not-one_hot (true ∷ w) (suc i) = ap (λ v. true ∷ v) (and-not-one_hot w i)
and-not-one_hot (false ∷ w) (suc i) = ap (λ v. false ∷ v) (and-not-one_hot w i)

or-one_hot : (w : Word) (i : ℕ) → word_or w (one_hot (length w) i) ≡ set w i true
unfolding word_or one_hot
or-one_hot [] i = refl
or-one_hot (true ∷ w) zero = ap (λ v. true ∷ v) (or-zero w)
or-one_hot (false ∷ w) zero = ap (λ v. true ∷ v) (or-zero w)
or-one_hot (true ∷ w) (suc i) = ap (λ v. true ∷ v) (or-one_hot w i)
or-one_hot (false ∷ w) (suc i) = ap (λ v. false ∷ v) (or-one_hot w i)

-- Clearing and setting a slot's bit in a word of the right size.
pub clear-eq-set :
    (w : Word) (i : ℕ) → length w ≡ word_size → word_and w (word_not (flag i)) ≡ set w i false
unfolding flag
clear-eq-set w i h =
    subst (λ n. word_and w (word_not (one_hot n i)) ≡ set w i false) h (and-not-one_hot w i)

pub mark-eq-set : (w : Word) (i : ℕ) → length w ≡ word_size → word_or w (flag i) ≡ set w i true
unfolding flag
mark-eq-set w i h = subst (λ n. word_or w (one_hot n i) ≡ set w i true) h (or-one_hot w i)

pub bit-or : (w v : Word) (i : ℕ) → bit (word_or w v) i ≡ bit w i || bit v i
unfolding word_or
bit-or [] v i = refl
bit-or (true ∷ w) [] zero = refl
bit-or (false ∷ w) [] zero = refl
bit-or (b ∷ w) [] (suc i) = ground arith
bit-or (b ∷ w) (c ∷ v) zero = refl
bit-or (b ∷ w) (c ∷ v) (suc i) = bit-or w v i

pub bit-not : (w : Word) (i : ℕ) → i < length w → bit (word_not w) i ≡ not (bit w i)
unfolding word_not
bit-not [] i h = elim h [ ]
bit-not (b ∷ w) zero h = refl
bit-not (b ∷ w) (suc i) h = bit-not w i (omega arith)

pub length-not : (w : Word) → length (word_not w) ≡ length w
unfolding word_not
length-not [] = refl
length-not (b ∷ w) = ap suc (length-not w)

pub length-or : (w v : Word) → length w ≡ length v → length (word_or w v) ≡ length w
unfolding word_or
length-or [] v h = sym h
length-or (b ∷ w) [] h = refl
length-or (b ∷ w) (c ∷ v) h = omega (arith, length-or w v (omega arith))

-- Of a word that is not zero, clz finds a bit that is set.
pub clz-bit : (w : Word) → is_set w ≡ true → (clz w < length w) × (bit w (clz w) ≡ true)
unfolding is_set clz
clz-bit [] h = cc
clz-bit (true ∷ w) h = (omega arith, refl)
clz-bit (false ∷ w) h = let (a, b) = clz-bit w h in (omega arith, b)

-- Of a zero word, every bit is clear.
pub is_set-false : (w : Word) (i : ℕ) → is_set w ≡ false → bit w i ≡ false
unfolding is_set
is_set-false [] i h = refl
is_set-false (b ∷ w) zero h = ground arith
is_set-false (b ∷ w) (suc i) h = is_set-false w i (ground arith)

pub is_set-of_bit : (w : Word) (i : ℕ) → bit w i ≡ true → is_set w ≡ true
unfolding is_set
is_set-of_bit [] i h = cc
is_set-of_bit (b ∷ w) zero h = ground arith
is_set-of_bit (b ∷ w) (suc i) h = ground (arith, is_set-of_bit w i)
