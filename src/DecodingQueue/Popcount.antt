-- ===== src/DecodingQueue/Popcount.antt =====
-- popcount_4 counts the bits that are set.
use native.Mathlib.Nat.{pow-suc}
use mod_mp.Base.{
  if◌then◌else◌, Bool-cases, length, ℕ, zero, suc, ◌+◌, ◌^◌, ◌≤◌, ◌<◌, ◌≡◌, refl, sym, ◌∙◌, subst,
  inl, inr, Bool, true, false, not, ◌||◌, [], ◌∷◌, arith,
}
use mod_mp.DecodingQueue.{popcount_loop, popcount_4}
use mod_mp.DecodingQueue.Bits.{Word, word_and, word_pred, borrow, is_set}

unfoldable pub ones : Word → ℕ
ones [] = 0
ones (b ∷ w) = (if b then 1 else 0) + ones w

-- The number that a word stands for.
pub value : Word → ℕ
value [] = 0
value (b ∷ w) = (if b then 2 ^ length w else 0) + value w

-- The subtraction borrows from above exactly if the word is zero.
borrow-is_set : (w : Word) → (borrow w).0 ≡ not (is_set w)
unfolding borrow is_set
borrow-is_set [] = refl
borrow-is_set (b ∷ w) = ground (arith, borrow-is_set w)

length-borrow : (w : Word) → length (borrow w).1 ≡ length w
unfolding borrow
length-borrow [] = refl
length-borrow (b ∷ w) = ground (arith, length-borrow w)

-- The predecessor of a longer word, by whether the lower bits are zero.
pred-above : (b : Bool) (w : Word) → is_set w ≡ true → word_pred (b ∷ w) ≡ b ∷ word_pred w
unfolding word_pred borrow
pred-above b w s = rw (borrow-is_set w, s, word_pred, borrow) refl

pred-through : (b : Bool) (w : Word) → is_set w ≡ false → word_pred (b ∷ w) ≡ not b ∷ word_pred w
unfolding word_pred borrow
pred-through b w z = rw (borrow-is_set w, z, word_pred, borrow) refl

-- The bitwise predecessor is the arithmetic one, modulo the word size.
pub value-word_pred :
    (w : Word) → value (word_pred w) + 1 ≡ value w + (if is_set w then 0 else 2 ^ length w)
unfolding word_pred borrow value is_set
value-word_pred [] = refl
value-word_pred (b ∷ w) = elim (Bool-cases (is_set w)) [
  | inl s ↦
      subst
        (λ (v : Word).
          value v + 1 ≡ value (b ∷ w) + (if b || is_set w then 0 else 2 ^ suc (length w)))
        (sym (pred-above b w s)) (ground (arith, length-borrow w, value-word_pred w))
  | inr z ↦
      subst
        (λ (v : Word).
          value v + 1 ≡ value (b ∷ w) + (if b || is_set w then 0 else 2 ^ suc (length w)))
        (sym (pred-through b w z))
        (ground (arith, length-borrow w, value-word_pred w, pow-suc 2 (length w)))
]

ones-zero : (w : Word) → is_set w ≡ false → ones w ≡ 0
unfolding is_set ones
ones-zero [] h = refl
ones-zero (b ∷ w) h = ground (arith, ones-zero w)

ones-and : (w v : Word) → ones (word_and w v) ≤ ones w
unfolding word_and ones
ones-and [] v = omega arith
ones-and (b ∷ w) [] = omega arith
ones-and (b ∷ w) (c ∷ v) = ground (arith, ones-and w v)

-- A round clears one bit of a word that is not zero.
ones-round : (w : Word) → is_set w ≡ true → ones (word_and w (word_pred w)) + 1 ≡ ones w
unfolding word_and word_pred borrow is_set ones
ones-round [] h = cc
ones-round (true ∷ w) h = elim (Bool-cases (is_set w)) [
  | inl s ↦ rw (pred-above true w s) (omega (arith, ones-round w s))
  | inr z ↦ rw (pred-through true w z) (omega (arith, ones-zero w z, ones-and w (word_pred w)))
]
ones-round (false ∷ w) h = rw (pred-above false w h) (omega (arith, ones-round w h))

pub ones-le : (w : Word) → ones w ≤ length w
unfolding ones
ones-le [] = omega arith
ones-le (b ∷ w) = ground (arith, ones-le w)

popcount_loop-ones :
    (rounds : ℕ) (x : Word) (count : ℕ)
    → ones x < rounds
    → popcount_loop rounds x count ≡ count + ones x
unfolding popcount_loop
popcount_loop-ones zero x count h = elim h [ ]
popcount_loop-ones (suc rounds) x count h = ground (
  arith,
  ones-zero x,
  ones-round x,
  popcount_loop-ones rounds (word_and x (word_pred x)) (count + 1),
)

-- popcount_4 returns the number of bits that are set, of every word.
pub popcount_4-ones : (x : Word) → popcount_4 x ≡ ones x
unfolding popcount_4
popcount_4-ones x = popcount_loop-ones (suc (length x)) x 0 (omega (arith, ones-le x)) ∙ omega arith
