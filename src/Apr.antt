-- ===== src/Apr.antt =====
-- The Apache Portable Runtime as a parameter: the calls the program makes on strings, tables and
-- bucket brigades, and beside them the documented behaviour that theorems may assume. Pools are
-- not modelled: an allocation succeeds and nothing is freed early.
use mod_mp.Base.{
  ltb, ◌==◌, if◌then◌else◌, take, Bytes, ℕ, zero, suc, ◌+◌, ◌/◌, ◌%◌, ◌≡◌, Bool, true, Option, none,
  some, List, [], ◌∷◌, ◌++◌, flatten,
}

-- An argument of a printf call: `%d` takes a number, `%s` a string or NULL.
pub data PrintArg : Type 0 where
  int : ℕ → PrintArg
  str : Option Bytes → PrintArg

pub record Apr : Type 1 where
  -- apr_strings.h
  pub pstrdup : Bytes → Bytes
  pub pstrndup : Bytes → ℕ → Bytes
  pub pstrmemdup : Bytes → ℕ → Bytes
  pub pstrcat : List Bytes → Bytes
  pub psprintf : Bytes → List PrintArg → Bytes
  -- the string that apr_cpystrn leaves in a buffer of the given size
  pub cpystrn : Bytes → ℕ → Bytes
  -- apr_strnatcmp and apr_strnatcasecmp return 0
  pub strnatcmp_is_zero : Bytes → Bytes → Bool
  pub strnatcasecmp_is_zero : Bytes → Bytes → Bool
  -- apr_tables.h
  pub Table : Type 0
  pub table_make : Table
  pub table_mergen : Table → Bytes → Bytes → Table
  pub table_add : Table → Bytes → Bytes → Table
  -- apr_table_overlap with APR_OVERLAP_TABLES_SET: the first table, changed
  pub table_overlap : Table → Table → Table
  -- apr_buckets.h
  pub Brigade : Type 0
  pub brigade_create : Brigade
  pub brigade_puts : Brigade → Bytes → Brigade
  pub brigade_printf : Brigade → Bytes → List PrintArg → Brigade
  -- APR_BRIGADE_INSERT_TAIL of a new end-of-stream bucket
  pub brigade_insert_eos : Brigade → Brigade
  -- the status and the length of apr_brigade_length
  pub brigade_length : Brigade → ℕ × ℕ
  -- the bytes that a brigade holds, which apr_brigade_flatten copies out
  pub brigade_bytes : Brigade → Bytes
  -- what `%s` prints for NULL
  pub null_text : Bytes

-- The decimal digits that `%d` prints, for a number below 10 ^ fuel.
decimal_digits : ℕ → ℕ → Bytes → Bytes
decimal_digits zero n out = out
decimal_digits (suc fuel) n out =
    let rest = decimal_digits fuel (n / 10) ((48 + n % 10) ∷ out) in
    if ltb n 10 then (48 + n) ∷ out else rest

unfoldable pub print_arg : Bytes → PrintArg → Bytes
unfolding decimal_digits
print_arg null_text (int n) = decimal_digits 10 n []
print_arg null_text (str none) = null_text
print_arg null_text (str (some s)) = s

-- C's printf format, as far as the program uses it: every conversion is `%` and one letter.
unfoldable mutual
  pub format : Bytes → Bytes → List PrintArg → Bytes
  format null_text [] args = []
  format null_text (c ∷ cs) args = elim (c == b'%') [
    | true ↦ format_argument null_text cs args
    | _ ↦ c ∷ format null_text cs args
  ]

  pub format_argument : Bytes → Bytes → List PrintArg → Bytes
  format_argument null_text [] args = []
  format_argument null_text (c ∷ cs) [] = format null_text cs []
  format_argument null_text (c ∷ cs) (a ∷ args) = print_arg null_text a ++ format null_text cs args

-- What the APR documents of these calls.
pub record AprLaws (apr : Apr) : Type 0 where
  pub pstrdup_lem : (s : Bytes) → apr.pstrdup s ≡ s
  pub pstrndup_lem : (s : Bytes) (n : ℕ) → apr.pstrndup s n ≡ take n s
  pub pstrmemdup_lem : (s : Bytes) (n : ℕ) → apr.pstrmemdup s n ≡ take n s
  pub pstrcat_lem : (ss : List Bytes) → apr.pstrcat ss ≡ flatten ss
  pub psprintf_lem :
      (fmt : Bytes) (args : List PrintArg) → apr.psprintf fmt args ≡ format apr.null_text fmt args
  pub cpystrn_lem : (s : Bytes) (n : ℕ) → apr.cpystrn s (suc n) ≡ take n s
  pub strnatcmp-refl : (s : Bytes) → apr.strnatcmp_is_zero s s ≡ true
  pub brigade-create : apr.brigade_bytes apr.brigade_create ≡ []
  pub brigade-puts :
      (b : apr.Brigade) (s : Bytes)
      → apr.brigade_bytes (apr.brigade_puts b s) ≡ apr.brigade_bytes b ++ s
  pub brigade-insert_eos :
      (b : apr.Brigade) → apr.brigade_bytes (apr.brigade_insert_eos b) ≡ apr.brigade_bytes b
  pub brigade-printf :
      (b : apr.Brigade) (fmt : Bytes) (args : List PrintArg)
      → apr.brigade_bytes (apr.brigade_printf b fmt args)
        ≡ apr.brigade_bytes b ++ format apr.null_text fmt args
