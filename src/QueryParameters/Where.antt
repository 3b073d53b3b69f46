-- ===== src/QueryParameters/Where.antt =====
-- The WHERE conditions that db_query_parameter_add_where of src/database/db_query_parameters.c
-- accepts, and the text it stores for them.
use mod_mp.Base.{
  ◌==◌, if◌then◌else◌, ==_iff, Bool-cases, length, set, drop, all, any, length-append, ℤ, success,
  Bytes, codes, strchr, negsuc, ℕ, zero, suc, ◌+◌, ◌≤◌, ◌≡◌, refl, sym, ap, ◌∙◌, ◌⊎◌, inl, inr,
  Bool, true, false, ◌||◌, Option, none, some, List, [], ◌∷◌, ◌++◌, append_assoc, arith,
}
use mathlib.Core.Option
use mathlib.Core.List.{flatten}
use mod_mp.Apr.{Apr, AprLaws}
use mod_mp.QueryParameters.{
  ColumnType, int, varchar, datetime, bigint, ConditionOperator, equal, like, is_in, DbTableColumn,
  DbQueryParameters, isdigit, isalnum, isprint, all_printable, all_digits, replace_loop,
  replace_asterisks, has_char, pool_strcat, varchar_condition, int_condition, checked_condition,
  push_where, db_query_parameter_add_where,
}

-- Every asterisk as a percent sign.
pub to_percent : Bytes → Bytes
to_percent [] = []
to_percent (c ∷ cs) = (if c == b'*' then b'%' else c) ∷ to_percent cs

abbrev stars : Bytes → ℕ
stars [] = 0
stars (c ∷ cs) = if c == b'*' then suc (stars cs) else stars cs

stars-length : (s : Bytes) → stars s ≤ length s
stars-length [] = omega arith
stars-length (c ∷ cs) = ground (arith, stars-length cs)

to_percent-append : (a b : Bytes) → to_percent (a ++ b) ≡ to_percent a ++ to_percent b
unfolding to_percent
to_percent-append [] b = refl
to_percent-append (c ∷ a) b = ap (λ l. (if c == b'*' then b'%' else c) ∷ l) (to_percent-append a b)

-- What the search for an asterisk splits off.
abbrev Split : Bytes → Option ℕ → Type 0
Split s none = to_percent s ≡ s
Split s (some n) =
    (a : Bytes) × (b : Bytes) × (s ≡ a ++ b'*' ∷ b)
    × (length a ≡ n)
    × (to_percent a ≡ a)
    × (stars s ≡ suc (stars b))

Split-cons :
    (c : ℕ) (s : Bytes) (r : Option ℕ)
    → (c == b'*') ≡ false
    → Split s r
    → Split (c ∷ s) (Option.map suc r)
unfolding to_percent
Split-cons c s none h e = rw h (ap (λ l. c ∷ l) e)
Split-cons c s (some n) h (a, b, es, el, ea, en) =
    (c ∷ a, b, ap (λ l. c ∷ l) es, ap suc el, rw h (ap (λ l. c ∷ l) ea), rw h en)

strchr-Split : (s : Bytes) → Split s (strchr b'*' s)
unfolding strchr to_percent
strchr-Split [] = refl
strchr-Split (c ∷ s) = elim (Bool-cases (c == b'*')) [
  | inl h ↦ rw h ([], s, ap (λ d. d ∷ s) ((==_iff c b'*').0 h), refl, refl, rw h refl)
  | inr h ↦ rw h (Split-cons c s (strchr b'*' s) h (strchr-Split s))
]

drop-length : (p s : Bytes) → drop (length p) (p ++ s) ≡ s
drop-length [] s = refl
drop-length (c ∷ p) s = drop-length p s

set-length : (p : Bytes) (c v : ℕ) (s : Bytes) → set (p ++ c ∷ s) (length p) v ≡ p ++ v ∷ s
set-length [] c v s = refl
set-length (x ∷ p) c v s = ap (λ l. x ∷ l) (set-length p c v s)

-- One round, by what its search found.
abbrev round : ℕ → Bytes → Bytes → Option ℕ → Bytes
round rounds p s o = elim o [
  | none ↦ p ++ s
  | some next ↦ replace_loop rounds (length p + next) (set (p ++ s) (length p + next) b'%')
]

replace_loop-round :
    (rounds : ℕ) (p s : Bytes)
    → replace_loop (suc rounds) (length p) (p ++ s) ≡ round rounds p s (strchr b'*' s)
unfolding replace_loop
replace_loop-round rounds p s = rw (replace_loop, drop-length p s) refl

no_star : (p s : Bytes) (o : Option ℕ) → Split s o → stars s ≡ 0 → p ++ s ≡ p ++ to_percent s
no_star p s none e h = ap (λ l. p ++ l) (sym e)
no_star p s (some n) (a, b, es, el, ea, en) h = absurd (omega arith)

abbrev Correct : ℕ → Type 0
Correct rounds =
    (p s : Bytes) → stars s ≤ rounds → replace_loop rounds (length p) (p ++ s) ≡ p ++ to_percent s

round-prefix :
    (rounds : ℕ) (ih : Correct rounds) (p s : Bytes) (o : Option ℕ)
    → Split s o
    → stars s ≤ suc rounds
    → round rounds p s o ≡ p ++ to_percent s
unfolding to_percent
round-prefix rounds ih p s none e h = ap (λ l. p ++ l) (sym e)
round-prefix rounds ih p s (some n) (a, b, es, el, ea, en) h =
    let at : length p + n ≡ length (p ++ a) = omega (arith, length-append p a) in
    let rest : replace_loop rounds (length (p ++ a)) ((p ++ a) ++ b'%' ∷ b)
        ≡ (p ++ a) ++ b'%' ∷ to_percent b =
      ih (p ++ a) (b'%' ∷ b) (omega arith) in
    rw
      (
        es,
        at,
        to_percent-append a (b'*' ∷ b),
        ea,
        ← append_assoc p a (b'*' ∷ b),
        set-length (p ++ a) b'*' b'%' b,
        ← append_assoc p a (b'%' ∷ to_percent b),
      )
      rest

replace_loop-prefix : (rounds : ℕ) → Correct rounds
unfolding replace_loop
replace_loop-prefix zero p s h = no_star p s (strchr b'*' s) (strchr-Split s) (omega arith)
replace_loop-prefix (suc rounds) p s h =
    replace_loop-round rounds p s
    ∙ round-prefix rounds (replace_loop-prefix rounds) p s (strchr b'*' s) (strchr-Split s) h

pub replace_asterisks_lem : (s : Bytes) → replace_asterisks s ≡ to_percent s
unfolding replace_asterisks
replace_asterisks_lem s = replace_loop-prefix (length s) [] s (stars-length s)

any-to_percent : (s : Bytes) → any (λ c. c == b'*') s ≡ false → to_percent s ≡ s
unfolding to_percent
any-to_percent [] h = refl
any-to_percent (c ∷ s) h = ground (arith, h, any-to_percent s)

has_char-any : (c : ℕ) (s : Bytes) → has_char c s ≡ any (λ d. d == c) s
unfolding strchr
has_char-any c [] = refl
has_char-any c (d ∷ s) = ground (arith, has_char-any c s)

abbrev pub is_list_byte : ℕ → Bool
is_list_byte c = isdigit c || c == b','

number_of : Bytes → Option (ConditionOperator × Bytes)
number_of s =
    if all is_list_byte s
    then (if any (λ c. c == b',') s then some (is_in, b'(' ∷ (s ++ b')' ∷ [])) else some (equal, s))
    else none

abbrev pub is_number_byte : ℕ → Bool
is_number_byte c = is_list_byte c || (c == b'(' || c == b')')

-- The specification: what a condition on a column of each type becomes, if it is accepted.
unfoldable pub where_of : ColumnType → Bytes → Option (ConditionOperator × Bytes)
unfolding number_of to_percent isalnum isdigit isprint
where_of varchar s =
    if all (λ c. isalnum c || isprint c) s
    then some ((if any (λ c. c == b'*') s then like else equal), b'"' ∷ (to_percent s ++ b'"' ∷ []))
    else none
where_of datetime s = some (equal, s)
where_of int s = number_of s
where_of bigint s = number_of s

unfoldable pub added :
    DbQueryParameters
    → DbTableColumn
    → Option (ConditionOperator × Bytes)
    → Option (ℤ × DbQueryParameters)
unfolding push_where
added p column none = some (negsuc 0, p)
added p column (some (operator, text)) = some (success, push_where p column operator text)

where_of_number :
    (type : ColumnType) (s : Bytes) → (type ≡ int) ⊎ (type ≡ bigint) → where_of type s ≡ number_of s
unfolding where_of
where_of_number type s (inl e) = rw e refl
where_of_number type s (inr e) = rw e refl

all-append {ℓ} :
    {A : Type ℓ} (f : A → Bool) (xs ys : List A)
    → all f xs ≡ true
    → all f ys ≡ true
    → all f (xs ++ ys) ≡ true
all-append f [] ys hx hy = hy
all-append f (x ∷ xs) ys hx hy = ground (arith, hx, hy, all-append f xs ys)

all_mono : (s : Bytes) → all is_list_byte s ≡ true → all is_number_byte s ≡ true
all_mono [] h = refl
all_mono (c ∷ s) h = ground (arith, h, all_mono s)

abbrev IsNumbers : Option (ConditionOperator × Bytes) → Type 0
IsNumbers none = Unit
IsNumbers (some (operator, text)) = all is_number_byte text ≡ true

number_of-all : (s : Bytes) → IsNumbers (number_of s)
unfolding number_of isdigit
number_of-all s = elim (Bool-cases (all is_list_byte s)) [
  | inr h ↦ rw h tt
  | inl h ↦ elim (Bool-cases (any (λ c. c == b',') s)) [
    | inr m ↦ rw (h, m) (all_mono s h)
    | inl m ↦ rw (h, m) (all-append is_number_byte s (b')' ∷ []) (all_mono s h) refl)
  ]
]

abbrev all_numbers : DbQueryParameters → Bool
all_numbers p = all (λ w. all is_number_byte w.condition) p.where_conditions

added-all :
    (p q : DbQueryParameters) (column : DbTableColumn) (o : Option (ConditionOperator × Bytes))
    → IsNumbers o
    → all_numbers p ≡ true
    → added p column o ≡ some (success, q)
    → all_numbers q ≡ true
unfolding added push_where
added-all p q column none n ok e = ground (arith, e)
added-all p q column (some (operator, text)) n ok e =
    let eq : push_where p column operator text ≡ q = cc e in
    rw (← eq) (all-append _ p.where_conditions (_ ∷ []) ok (ground (arith, n)))

module _ (apr : Apr) (laws : AprLaws apr) where
  int_condition_lem :
      (p : DbQueryParameters) (s : Bytes)
      → p.has_pool ≡ true
      → int_condition apr p s ≡ some (number_of s)
  unfolding int_condition pool_strcat all_digits flatten number_of
  int_condition_lem p s h =
      ground (arith, h, has_char-any b',' s, laws.pstrcat_lem (codes "(" ∷ s ∷ codes ")" ∷ []))

  varchar_condition_lem :
      (p : DbQueryParameters) (s : Bytes)
      → p.has_pool ≡ true
      → varchar_condition apr p s ≡ some (where_of varchar s)
  unfolding varchar_condition pool_strcat all_printable where_of flatten
  varchar_condition_lem p s h = ground (
    arith,
    h,
    has_char-any b'*' s,
    replace_asterisks_lem s,
    any-to_percent s,
    laws.pstrcat_lem (codes "\"" ∷ s ∷ codes "\"" ∷ []),
    laws.pstrcat_lem (codes "\"" ∷ to_percent s ∷ codes "\"" ∷ []),
  )

  checked_condition_lem :
      (p : DbQueryParameters) (type : ColumnType) (s : Bytes)
      → p.has_pool ≡ true
      → checked_condition apr p type s ≡ some (where_of type s)
  unfolding checked_condition where_of
  checked_condition_lem p int s h = int_condition_lem p s h
  checked_condition_lem p varchar s h = varchar_condition_lem p s h
  checked_condition_lem p datetime s h = refl
  checked_condition_lem p bigint s h = int_condition_lem p s h

  -- With the pool set, a condition that its column's type refuses gives -1 and changes nothing,
  -- and any other is appended at the end: text in quotes, with a percent sign for each asterisk
  -- and LIKE if there is one, a list of numbers in parentheses with IN, one number and a date as
  -- they are.
  pub db_query_parameter_add_where-where_of :
      (p : DbQueryParameters) (column : DbTableColumn) (s : Bytes)
      → p.has_pool ≡ true
      → db_query_parameter_add_where apr p column s ≡ added p column (where_of column.type s)
  unfolding db_query_parameter_add_where added
  db_query_parameter_add_where-where_of p column s h =
      rw (db_query_parameter_add_where, checked_condition_lem p column.type s h) refl

  -- With the pool set, a condition that is accepted on a column of numbers keeps the texts of all
  -- stored conditions within digits, commas and parentheses, if those stored before were, whatever
  -- the request holds.
  pub db_query_parameter_add_where-all :
      (p q : DbQueryParameters) (column : DbTableColumn) (s : Bytes)
      → p.has_pool ≡ true
      → (column.type ≡ int) ⊎ (column.type ≡ bigint)
      → all (λ w. all is_number_byte w.condition) p.where_conditions ≡ true
      → db_query_parameter_add_where apr p column s ≡ some (success, q)
      → all (λ w. all is_number_byte w.condition) q.where_conditions ≡ true
  db_query_parameter_add_where-all p q column s h (inl t) ok e =
      added-all p q column (number_of s) (number_of-all s) ok (
        cc (
          db_query_parameter_add_where-where_of p column s h,
          e,
          where_of_number column.type s (inl t),
        ))
  db_query_parameter_add_where-all p q column s h (inr t) ok e =
      added-all p q column (number_of s) (number_of-all s) ok (
        cc (
          db_query_parameter_add_where-where_of p column s h,
          e,
          where_of_number column.type s (inr t),
        ))
