-- ===== src/Codecs/Vorbis/Entries.antt =====
-- find_vorbis_comment_entry of src/indexers/music/codecs/flac/tag_reader.c finds the first value.
use mod_mp.Base.{
  ◌==◌, if◌then◌else◌, Bool-cases, Option-cases, length, get_elem?, take, drop, take-all, Bytes,
  strchr, ℕ, zero, suc, ◌+◌, ◌-◌, ◌<◌, ◌≡◌, refl, sym, ap, ◌∙◌, inl, inr, Bool, Option, none, some,
  List, [], ◌∷◌, arith,
}
use mathlib.Core.Option
use mod_mp.Apr.{Apr}
use mod_mp.Codecs.Vorbis.{FindEntryFrom, take_value, find_loop, find_vorbis_comment_entry}

-- The index of the first entry with a property.
unfoldable pub find_index : (Bytes → Bool) → List Bytes → Option ℕ
find_index p [] = none
find_index p (x ∷ xs) = if p x then some 0 else Option.map suc (find_index p xs)

-- What libFLAC documents of the search, for its test of a name: the first entry from the offset on.
pub record FindLaws (find_entry_from : FindEntryFrom) : Type 0 where
  pub matches : Bytes → Bytes → Bool
  pub find_entry-from :
      (comments : List Bytes) (offset : ℕ) (entry : Bytes)
      → find_entry_from comments offset entry
        ≡ Option.map (λ k. offset + k) (find_index (matches entry) (drop offset comments))

-- What stands behind the first '='.
unfoldable pub value_of : Bytes → Option Bytes
value_of entry = Option.map (λ k. drop (k + 1) entry) (strchr b'=' entry)

-- The old value of a field if it has one, or else the new one.
unfoldable pub or_else : Option Bytes → Option Bytes → Option Bytes
or_else none new = new
or_else (some old) new = some old

-- The value of the first entry with the property that has one.
unfoldable pub first_value : (Bytes → Bool) → List Bytes → Option Bytes
first_value p [] = none
first_value p (x ∷ xs) = if p x then or_else (value_of x) (first_value p xs) else first_value p xs

or_else_assoc : (a b c : Option Bytes) → or_else (or_else a b) c ≡ or_else a (or_else b c)
unfolding or_else
or_else_assoc none b c = refl
or_else_assoc (some x) b c = refl

or_else-none : (a : Option Bytes) → or_else a none ≡ a
unfolding or_else
or_else-none none = refl
or_else-none (some x) = refl

find_index-none :
    (p : Bytes → Bool) (xs : List Bytes) → find_index p xs ≡ none → first_value p xs ≡ none
unfolding find_index first_value
find_index-none p [] e = refl
find_index-none p (x ∷ xs) e = elim (Bool-cases (p x)) [
  | inl t ↦ absurd (cc (rw t at e))
  | inr f ↦ elim (Option-cases (find_index p xs)) [
    | inl n ↦ rw f (find_index-none p xs n)
    | inr (k, s) ↦ absurd (cc (rw (f, s) at e))
  ]
]

find_index-some :
    (p : Bytes → Bool) (xs : List Bytes) (k : ℕ)
    → find_index p xs ≡ some k
    → (x : Bytes) × (get_elem? xs k ≡ some x)
      × (first_value p xs ≡ or_else (value_of x) (first_value p (drop (suc k) xs)))
      × (k < length xs)
unfolding find_index first_value
find_index-some p [] k e = cc e
find_index-some p (x ∷ xs) k e = elim (Bool-cases (p x)) [
  | inl t ↦ let z : 0 ≡ k = cc (rw t at e) in rw⁻¹ z (x, refl, rw t refl, omega arith)
  | inr f ↦ elim (Option-cases (find_index p xs)) [
    | inl n ↦ absurd (cc (rw (f, n) at e))
    | inr (j, s) ↦
        let z : suc j ≡ k = cc (rw (f, s) at e) in
        let (y, g, v, l) = find_index-some p xs j s in rw⁻¹ z (y, g, rw f v, omega arith)
  ]
]

strchr-lt : (c : ℕ) (xs : Bytes) (k : ℕ) → strchr c xs ≡ some k → k < length xs
unfolding strchr
strchr-lt c [] k e = cc e
strchr-lt c (x ∷ xs) k e = elim (Bool-cases (x == c)) [
  | inl t ↦ let z : 0 ≡ k = cc (rw t at e) in omega arith
  | inr f ↦ elim (Option-cases (strchr c xs)) [
    | inl n ↦ absurd (cc (rw (f, n) at e))
    | inr (j, s) ↦ let z : suc j ≡ k = cc (rw (f, s) at e) in omega (arith, strchr-lt c xs j s)
  ]
]

drop-nil : {A : Type 0} (n : ℕ) → drop {A = A} n [] ≡ []
drop-nil zero = refl
drop-nil (suc n) = refl

length-drop : {A : Type 0} (n : ℕ) (xs : List A) → length (drop n xs) ≡ length xs - n
length-drop zero xs = omega arith
length-drop (suc n) [] = omega arith
length-drop (suc n) (x ∷ xs) = omega (arith, length-drop n xs)

drop-drop : {A : Type 0} (m n : ℕ) (xs : List A) → drop n (drop m xs) ≡ drop (m + n) xs
drop-drop zero n xs = ap (λ k. drop k xs) (omega arith)
drop-drop (suc m) n [] = drop-nil n ∙ sym (drop-nil (suc m + n))
drop-drop (suc m) n (x ∷ xs) =
    let e : suc (m + n) ≡ suc m + n = omega arith in drop-drop m n xs ∙ ap (λ k. drop k (x ∷ xs)) e

get_elem?-drop :
    {A : Type 0} (m k : ℕ) (xs : List A) → get_elem? (drop m xs) k ≡ get_elem? xs (m + k)
get_elem?-drop zero k xs = ap (get_elem? xs) (omega arith)
get_elem?-drop (suc m) k [] = refl
get_elem?-drop (suc m) k (x ∷ xs) =
    let e : suc (m + k) ≡ suc m + k = omega arith in
    get_elem?-drop m k xs ∙ ap (get_elem? (x ∷ xs)) e

module _ (apr : Apr) (dup : (s : Bytes) (n : ℕ) → apr.pstrmemdup s n ≡ take n s)
    (find_entry_from : FindEntryFrom) (laws : FindLaws find_entry_from) where
  take_value-value_of :
      (e : Bytes) (field : Option Bytes)
      → take_value apr find_entry_from e field ≡ or_else field (value_of e)
  unfolding take_value or_else value_of
  take_value-value_of e none = elim (Option-cases (strchr b'=' e)) [
    | inl n ↦ rw (take_value, n) refl
    | inr (k, s) ↦
        rw (take_value, s)
          (ap some (
            dup (drop (k + 1) e) (length e - (k + 1))
            ∙ take-all (length e - (k + 1)) (drop (k + 1) e)
                (omega (arith, length-drop (k + 1) e))))
  ]
  take_value-value_of e (some v) = elim (Option-cases (strchr b'=' e)) [
    | inl n ↦ rw (take_value, n) refl
    | inr (k, s) ↦ rw (take_value, s) refl
  ]

  find_loop-none :
      (fuel : ℕ) (comments : List Bytes) (offset : ℕ) (entry : Bytes) (field : Option Bytes)
      → find_entry_from comments offset entry ≡ none
      → find_loop apr find_entry_from (suc fuel) comments offset entry field ≡ some field
  unfolding find_loop
  find_loop-none fuel comments offset entry field e = rw (find_loop, e) refl

  find_loop-some :
      (fuel : ℕ) (comments : List Bytes) (offset i : ℕ) (entry e : Bytes) (field : Option Bytes)
      → find_entry_from comments offset entry ≡ some i
      → get_elem? comments i ≡ some e
      → find_loop apr find_entry_from (suc fuel) comments offset entry field
        ≡ find_loop apr find_entry_from fuel comments
            (i + 1)
            entry
            (take_value apr find_entry_from e field)
  unfolding find_loop
  find_loop-some fuel comments offset i entry e field f g = rw (find_loop, f, g) refl

  find_loop-first_value :
      (fuel : ℕ) (comments : List Bytes) (offset : ℕ) (entry : Bytes) (field : Option Bytes)
      → length (drop offset comments) < fuel
      → find_loop apr find_entry_from fuel comments offset entry field
        ≡ some (or_else field (first_value (laws.matches entry) (drop offset comments)))
  find_loop-first_value zero comments offset entry field l = absurd (omega arith)
  find_loop-first_value (suc fuel) comments offset entry field l =
      elim (Option-cases (find_index (laws.matches entry) (drop offset comments))) [
        | inl n ↦
            find_loop-none fuel comments offset entry field
              (laws.find_entry-from comments offset entry ∙ ap (Option.map (λ k. offset + k)) n)
            ∙ ap some (
                sym (
                  ap (or_else field) (find_index-none (laws.matches entry) (drop offset comments) n)
                  ∙ or_else-none field))
        | inr (k, s) ↦
            let (x, g, v, below) =
              find_index-some (laws.matches entry) (drop offset comments) k s in
            let behind : drop (offset + k + 1) comments ≡ drop (suc k) (drop offset comments) =
              sym (drop-drop offset (suc k) comments ∙ ap (λ n. drop n comments) (omega arith)) in
            let shorter : length (drop (offset + k + 1) comments) < fuel = omega (
              arith,
              length-drop (offset + k + 1) comments,
              length-drop offset comments,
              l,
              below,
            ) in
            find_loop-some fuel comments offset (offset + k) entry x field
              (laws.find_entry-from comments offset entry ∙ ap (Option.map (λ n. offset + n)) s)
              (sym (get_elem?-drop offset k comments) ∙ g)
            ∙ (find_loop-first_value fuel comments (offset + k + 1) entry
                  (take_value apr find_entry_from x field) shorter
                ∙ ap some (
                    ap
                      (λ f.
                        or_else f
                          (first_value (laws.matches entry) (drop (offset + k + 1) comments)))
                      (take_value-value_of x field)
                    ∙ (or_else_assoc field (value_of x) _
                        ∙ ap (or_else field) (
                            ap (λ cs. or_else (value_of x) (first_value (laws.matches entry) cs))
                              behind
                            ∙ sym v))))
      ]

  -- The number of rounds is enough and every index is inside the comments: a field that has a
  -- value keeps it, and one that has none gets what stands behind the '=' of the first comment with
  -- the name that has a '='; it stays NULL if there is none.
  pub find_vorbis_comment_entry-first_value :
      (comments : List Bytes) (entry : Bytes) (field : Option Bytes)
      → find_vorbis_comment_entry apr find_entry_from comments entry field
        ≡ some (or_else field (first_value (laws.matches entry) comments))
  unfolding find_vorbis_comment_entry
  find_vorbis_comment_entry-first_value comments entry field =
      find_loop-first_value (length comments + 1) comments 0 entry field (omega arith)
