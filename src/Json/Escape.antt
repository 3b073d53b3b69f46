-- ===== src/Json/Escape.antt =====
-- What json_escape_char computes, and that a reader of the JSON string gets the text back.
use mod_mp.Base.{
  leb, ◌==◌, if◌then◌else◌, Bool-cases, length, get_or, all, length-append, take-prefix,
  drop-prefix, Bytes, ℕ, zero, suc, ◌+◌, ◌≤◌, ◌≡◌, refl, sym, ap, ◌∙◌, subst, inl, inr, Bool, true,
  Option, none, some, [], ◌∷◌, ◌++◌, append-nil, append_assoc, arith,
}
use mathlib.Core.Option
use mathlib.Core.List.{flatten}
use native.Mathlib.Numerals.{add-one}
use mod_mp.Apr.{Apr, AprLaws}
use mod_mp.Json.{splice, escape_loop, json_escape_char}

-- The text that stands for a byte inside a JSON string.
abbrev pub escape_byte : ℕ → Bytes → Bytes
escape_byte c rest =
    if c == b'"' then b'\\' ∷ b'"' ∷ rest else if c == b'\\' then b'\\' ∷ b'\\' ∷ rest else c ∷ rest

unfoldable pub escaped : Bytes → Bytes
escaped [] = []
escaped (c ∷ cs) = escape_byte c (escaped cs)

-- A byte that may stand in a JSON string as it is, or behind a backslash: no control byte.
abbrev pub is_plain : ℕ → Bool
is_plain c = leb 32 c

-- The byte that an escape of one letter stands for (RFC 8259, section 7).
pub unescaped : ℕ → Option ℕ
unescaped c =
    if c == b'"'
    then some b'"'
    else if c == b'\\'
    then some b'\\'
    else if c == b'/'
    then some b'/'
    else if c == b'b'
    then some 8
    else if c == b'f'
    then some 12
    else if c == b'n'
    then some 10
    else if c == b'r'
    then some 13
    else if c == b't'
    then some 9
    else none

pub put_byte : Option ℕ → Option (Bytes × Bytes) → Option (Bytes × Bytes)
put_byte none r = none
put_byte (some c) none = none
put_byte (some c) (some (s, rest)) = some (c ∷ s, rest)

-- A reader of JSON strings behind the opening quote: it stops at the first quote that is not
-- escaped, refuses a control byte and an unknown escape, and gives the string and what follows the
-- quote. `\u` is refused as well: the text of json_escape_char never has it.
mutual
  pub read_string : Bytes → Option (Bytes × Bytes)
  read_string [] = none
  read_string (c ∷ cs) =
      let plain = read_string cs in
      let behind_backslash = read_escaped cs in
      if c == b'"'
      then some ([], cs)
      else if c == b'\\'
      then behind_backslash
      else if is_plain c
      then put_byte (some c) plain
      else none

  pub read_escaped : Bytes → Option (Bytes × Bytes)
  read_escaped [] = none
  read_escaped (c ∷ cs) = put_byte (unescaped c) (read_string cs)

get_or-prefix : (p : Bytes) (c : ℕ) (s : Bytes) → get_or (p ++ c ∷ s) (length p) 0 ≡ c
get_or-prefix [] c s = refl
get_or-prefix (x ∷ p) c s = get_or-prefix p c s

module _ (apr : Apr) (laws : AprLaws apr) where
  splice-prefix :
      (p : Bytes) (c : ℕ) (s e : Bytes) → splice apr (p ++ c ∷ s) (length p) e ≡ p ++ (e ++ s)
  unfolding splice flatten
  splice-prefix p c s e =
      rw (laws.pstrcat_lem, add-one, take-prefix p (c ∷ s), drop-prefix p c s, append-nil)

  -- The loop goes on behind `q`, which stands where a byte was.
  behind :
      (fuel : ℕ) (p q s : Bytes) (i : ℕ)
      → i ≡ length p + length q
      → escape_loop apr fuel (length (p ++ q)) ((p ++ q) ++ s) ≡ (p ++ q) ++ escaped s
      → escape_loop apr fuel i (p ++ (q ++ s)) ≡ p ++ (q ++ escaped s)
  behind fuel p q s i e h =
      rw (← append_assoc p q s, ← append_assoc p q (escaped s), e, ← length-append p q) h

  escape_loop-prefix :
      (fuel : ℕ) (p s : Bytes)
      → length s ≤ fuel
      → escape_loop apr fuel (length p) (p ++ s) ≡ p ++ escaped s
  unfolding escape_loop escaped
  escape_loop-prefix zero p [] h = refl
  escape_loop-prefix zero p (c ∷ cs) h = absurd (omega arith)
  escape_loop-prefix (suc fuel) p [] h = ground (arith, length-append p [], append-nil p)
  escape_loop-prefix (suc fuel) p (c ∷ cs) h = ground (
    arith,
    get_or-prefix p c cs,
    length-append p (c ∷ cs),
    splice-prefix p c cs (b'\\' ∷ b'"' ∷ []),
    splice-prefix p c cs (b'\\' ∷ b'\\' ∷ []),
    behind fuel p (b'\\' ∷ b'"' ∷ []) cs (length p + 1 + 1) (omega arith)
        (escape_loop-prefix fuel (p ++ b'\\' ∷ b'"' ∷ []) cs (omega arith)),
    behind fuel p (b'\\' ∷ b'\\' ∷ []) cs (length p + 1 + 1) (omega arith)
        (escape_loop-prefix fuel (p ++ b'\\' ∷ b'\\' ∷ []) cs (omega arith)),
    behind fuel p (c ∷ []) cs (length p + 1) (omega arith)
        (escape_loop-prefix fuel (p ++ c ∷ []) cs (omega arith)),
  )

  -- The loop that splices the text it walks escapes every quote and backslash of the string once
  -- and keeps all other bytes; a NULL string gives NULL.
  pub json_escape_char-escaped : (s : Option Bytes) → json_escape_char apr s ≡ Option.map escaped s
  unfolding json_escape_char
  json_escape_char-escaped none = refl
  json_escape_char-escaped (some s) =
      rw laws.pstrdup_lem (ap some (escape_loop-prefix (length s) [] s (omega arith)))

-- What the reader gives for the escaped text of a string.
read_back : Bytes → Bytes → Option (Bytes × Bytes)
read_back s rest = if all is_plain s then some (s, rest) else none

put_byte-read_back :
    (c : ℕ) (s rest : Bytes)
    → put_byte (some c) (read_back s rest) ≡ (if all is_plain s then some (c ∷ s, rest) else none)
unfolding put_byte read_back
put_byte-read_back c s rest = elim (Bool-cases (all is_plain s)) [
  | inl a ↦ rw a refl
  | inr a ↦ rw a refl
]

eq-true : (a b : ℕ) → (a == b) ≡ true → a ≡ b
eq-true a b h = ground (arith, h)

abbrev ReadsBack : Bytes → Bytes → Type 0
ReadsBack rest s = read_string (escaped s ++ b'"' ∷ rest) ≡ read_back s rest

read_string-escaped : (s rest : Bytes) → read_string (escaped s ++ b'"' ∷ rest) ≡ read_back s rest
unfolding read_string unescaped escaped read_back
read_string-escaped [] rest = refl
read_string-escaped (c ∷ cs) rest = elim (Bool-cases (c == b'"')) [
  | inl q ↦
      subst (λ x. ReadsBack rest (x ∷ cs)) (sym (eq-true c b'"' q))
        (ap (put_byte (some b'"')) (read_string-escaped cs rest) ∙ put_byte-read_back b'"' cs rest)
  | inr q ↦ elim (Bool-cases (c == b'\\')) [
    | inl b ↦
        subst (λ x. ReadsBack rest (x ∷ cs)) (sym (eq-true c b'\\' b))
          (ap (put_byte (some b'\\')) (read_string-escaped cs rest)
            ∙ put_byte-read_back b'\\' cs rest)
    | inr b ↦ elim (Bool-cases (is_plain c)) [
      | inl p ↦
          rw (q, b, read_string, q, b, p)
            (ap (put_byte (some c)) (read_string-escaped cs rest) ∙ put_byte-read_back c cs rest)
      | inr p ↦ rw (q, b, read_string, q, b, p) refl
    ]
  ]
]

-- A reader of JSON strings (one without `\u`, which the text never has) that meets the escaped
-- text between quotes gets back the string that was escaped, and stops at the closing quote, if the
-- string has no control byte; and if it has one, which the code leaves as it is, the reader refuses
-- the text.
pub read_string-json_escape_char :
    (apr : Apr) (laws : AprLaws apr) (s rest out : Bytes)
    → json_escape_char apr (some s) ≡ some out
    → read_string (out ++ b'"' ∷ rest) ≡ (if all is_plain s then some (s, rest) else none)
unfolding read_back
read_string-json_escape_char apr laws s rest out h =
    let e : escaped s ≡ out = cc (h, json_escape_char-escaped apr laws (some s)) in
    rw (← e) (read_string-escaped s rest)
