-- ===== src/Examples/Platform.antt =====
-- A concrete APR with the documented behaviour, on which the tests run.
use mod_mp.Base.{
  ◌==◌, length, take, Bytes, codes, ℕ, zero, suc, ◌≡◌, refl, Bool, true, false, ◌&&◌, List, [], ◌∷◌,
  ◌++◌, arith,
}
use mathlib.Core.List.{flatten}
use mod_mp.Apr.{Apr, AprLaws, format}

bytes_equal : Bytes → Bytes → Bool
bytes_equal [] [] = true
bytes_equal [] (y ∷ ys) = false
bytes_equal (x ∷ xs) [] = false
bytes_equal (x ∷ xs) (y ∷ ys) = x == y && bytes_equal xs ys

bytes_equal_refl : (s : Bytes) → bytes_equal s s ≡ true
unfolding bytes_equal
bytes_equal_refl [] = refl
bytes_equal_refl (x ∷ s) = ground (arith, bytes_equal_refl s)

but_last : Bytes → ℕ → Bytes
but_last s zero = []
but_last s (suc n) = take n s

unfoldable pub plain_apr : Apr
unfolding bytes_equal but_last
plain_apr = record {
  pstrdup = λ s. s;
  pstrndup = λ s n. take n s;
  pstrmemdup = λ s n. take n s;
  pstrcat = λ ss. flatten ss;
  psprintf = λ fmt args. format (codes "(null)") fmt args;
  cpystrn = but_last;
  strnatcmp_is_zero = bytes_equal;
  strnatcasecmp_is_zero = bytes_equal;
  Table = List (Bytes × Bytes);
  table_make = [];
  table_mergen = λ t k v. t ++ (k, v) ∷ [];
  table_add = λ t k v. t ++ (k, v) ∷ [];
  table_overlap = λ a b. a ++ b;
  Brigade = Bytes;
  brigade_create = [];
  brigade_puts = λ b s. b ++ s;
  brigade_printf = λ b fmt args. b ++ format (codes "(null)") fmt args;
  brigade_insert_eos = λ b. b;
  brigade_length = λ b. (0, length b);
  brigade_bytes = λ b. b;
  null_text = codes "(null)";
}

pub plain_laws : AprLaws plain_apr
unfolding plain_apr but_last
plain_laws = record {
  pstrdup_lem = λ s. refl;
  pstrndup_lem = λ s n. refl;
  pstrmemdup_lem = λ s n. refl;
  pstrcat_lem = λ ss. refl;
  psprintf_lem = λ fmt args. refl;
  cpystrn_lem = λ s n. refl;
  strnatcmp-refl = bytes_equal_refl;
  brigade-create = refl;
  brigade-puts = λ b s. refl;
  brigade-insert_eos = λ b. refl;
  brigade-printf = λ b fmt args. refl;
}
