-- ===== src/Input/Parameters.antt =====
-- The loop of get_parameters_from_uri merges the query string's parameters, in their order.
use mod_mp.Base.{
  ltb, ◌==◌, if◌then◌else◌, Bool-cases, Option-cases, length, take, drop, length-take, ℤ, success,
  Bytes, strchr, strcspn, negsuc, ℕ, zero, suc, ◌+◌, ◌-◌, ◌≤◌, ◌<◌, ◌≡◌, refl, sym, ap, ◌∙◌, inl,
  inr, Option, none, some, List, [], ◌∷◌, arith,
}
use mathlib.Core.Path.{ap₂}
use native.Mathlib.Numerals.{add-one}
use mod_mp.Apr.{Apr, AprLaws}
use mod_mp.Input.{is_separator, name_length, merge_param, param_loop, get_parameters_from_uri}
use mod_mp.Input.Query.{
  segments, name_and_value, segments-strcspn, take-name_length, drop-name_length, name_length-le,
  strcspn-le,
}

take-take : (m n : ℕ) (s : Bytes) → m ≤ n → take m (take n s) ≡ take m s
take-take zero n s h = refl
take-take (suc m) zero s h = absurd (omega arith)
take-take (suc m) (suc n) [] h = refl
take-take (suc m) (suc n) (c ∷ s) h = ap (λ l. c ∷ l) (take-take m n s (omega arith))

drop-nil : (m : ℕ) → drop {A = ℕ} m [] ≡ []
drop-nil zero = refl
drop-nil (suc m) = refl

take-nil : (m : ℕ) → take {A = ℕ} m [] ≡ []
take-nil zero = refl
take-nil (suc m) = refl

take-drop : (m n : ℕ) (s : Bytes) → take (n - m) (drop m s) ≡ drop m (take n s)
take-drop zero n s = let e : n - 0 ≡ n = omega arith in rw e refl
take-drop (suc m) zero s = let e : 0 - suc m ≡ 0 = omega arith in rw e refl
take-drop (suc m) (suc n) [] = take-nil (suc n - suc m)
take-drop (suc m) (suc n) (c ∷ s) =
    let e : suc n - suc m ≡ n - m = omega arith in rw e (take-drop m n s)

drop-drop : (m n : ℕ) (s : Bytes) → drop m (drop n s) ≡ drop (n + m) s
drop-drop m zero s = let e : 0 + m ≡ m = omega arith in rw e refl
drop-drop m (suc n) [] = drop-nil m ∙ sym (drop-nil (suc n + m))
drop-drop m (suc n) (c ∷ s) =
    let e : suc n + m ≡ suc (n + m) = omega arith in rw e (drop-drop m n s)

drop-beyond : (n : ℕ) (s : Bytes) → length s ≤ n → drop n s ≡ []
drop-beyond n [] h = drop-nil n
drop-beyond zero (c ∷ s) h = absurd (omega arith)
drop-beyond (suc n) (c ∷ s) h = drop-beyond n s (omega arith)

module _ (apr : Apr) where
  -- One parameter of the query string into the table; an empty part is none.
  pub merge_segment : apr.Table → Bytes → apr.Table
  merge_segment table [] = table
  merge_segment table (c ∷ cs) =
      apr.table_mergen table (name_and_value (c ∷ cs)).0 (name_and_value (c ∷ cs)).1

  -- The parameters of a query string into a table, first to last.
  pub merge_all : apr.Table → List Bytes → apr.Table
  merge_all table [] = table
  merge_all table (part ∷ parts) = merge_all (merge_segment table part) parts

  merge_segment-eq :
      (table : apr.Table) (part : Bytes)
      → 0 < length part
      → merge_segment table part
        ≡ apr.table_mergen table (name_and_value part).0 (name_and_value part).1
  unfolding merge_segment
  merge_segment-eq table [] h = elim h [ ]
  merge_segment-eq table (c ∷ cs) h = refl

module _ (apr : Apr) (laws : AprLaws apr) where
  -- The two copies of the loop's body are the name and the value of the part.
  value-eq :
      (s : Bytes) (k n : ℕ)
      → n ≤ k
      → (if ltb 0 (k - n) then apr.pstrndup (drop (n + 1) s) (k - n - 1) else [])
        ≡ drop (suc n) (take k s)
  value-eq s k n h = elim (Bool-cases (ltb 0 (k - n))) [
    | inl some_value ↦
        let e : k - n - 1 ≡ k - suc n = omega arith in
        rw (some_value, laws.pstrndup_lem, add-one, e) (take-drop (suc n) k s)
    | inr no_value ↦
        rw no_value (sym (drop-beyond (suc n) (take k s) (ground (arith, length-take k s))))
  ]

  merge_param-eq :
      (s : Bytes) (k : ℕ) (table : apr.Table)
      → 0 < k
      → k ≤ length s
      → merge_param apr s k table ≡ merge_segment apr table (take k s)
  unfolding merge_param
  merge_param-eq s k table some_bytes inside =
      let part : Bytes = take k s in
      let long : length part ≡ k = omega (arith, length-take k s) in
      let n : ℕ = name_length part in
      let short : n ≤ k = omega (arith, name_length-le part) in
      ap₂ (apr.table_mergen table)
        (laws.pstrndup_lem s n ∙ sym (take-take n k s short) ∙ take-name_length part)
        (value-eq s k n short ∙ drop-name_length part)
      ∙ sym (merge_segment-eq apr table part (omega arith))

  merge_all-nil : (table : apr.Table) → merge_all apr table (segments []) ≡ table
  unfolding merge_all segments merge_segment
  merge_all-nil table = refl

  merge_all-first :
      (s : Bytes) (table : apr.Table)
      → merge_all apr table (segments s)
        ≡ merge_all apr
            (merge_segment apr table (take (strcspn is_separator s) s))
            (segments (drop (suc (strcspn is_separator s)) s))
  unfolding merge_all segments merge_segment
  merge_all-first s table = rw (segments-strcspn s) (elim (Bool-cases (ltb k (length s))) [
    | inl more ↦ rw more refl
    | inr last ↦ rw (last, drop-beyond (suc k) s (ground arith)) refl
  ])
    where
      k : ℕ
      k = strcspn is_separator s

  skipped :
      (s : Bytes) (table : apr.Table)
      → strcspn is_separator s ≡ 0
      → merge_all apr table (segments s) ≡ merge_all apr table (segments (drop 1 s))
  unfolding merge_segment
  skipped s table h = merge_all-first s table ∙ rw h refl

  merged :
      (index : ℕ) (uri : Bytes) (table : apr.Table)
      → 0 < strcspn is_separator (drop index uri)
      → merge_all apr
          (merge_param apr (drop index uri) (strcspn is_separator (drop index uri)) table)
          (segments (drop (index + strcspn is_separator (drop index uri) + 1) uri))
        ≡ merge_all apr table (segments (drop index uri))
  merged index uri table h =
      let s : Bytes = drop index uri in
      let k : ℕ = strcspn is_separator s in
      let e : index + k + 1 ≡ index + suc k = omega arith in
      rw (e, ← drop-drop (suc k) index uri, merge_param-eq s k table h (strcspn-le s))
        (sym (merge_all-first s table))

  param_loop-segments :
      (rounds index : ℕ) (uri : Bytes) (table : apr.Table)
      → length uri ≤ index + rounds
      → param_loop apr rounds index uri table ≡ merge_all apr table (segments (drop index uri))
  unfolding param_loop
  param_loop-segments zero index uri table h =
      rw (drop-beyond index uri (omega arith)) (sym (merge_all-nil table))
  param_loop-segments (suc rounds) index uri table h = elim (Bool-cases (ltb index (length uri))) [
    | inr over ↦ rw (over, drop-beyond index uri (ground arith)) (sym (merge_all-nil table))
    | inl inside ↦ rw inside (elim (Bool-cases (strcspn is_separator (drop index uri) == 0)) [
      | inl skip ↦ rw skip (
          param_loop-segments rounds (index + 1) uri table (omega arith)
          ∙ ap (λ s. merge_all apr table (segments s)) (sym (drop-drop 1 index uri))
          ∙ sym (skipped (drop index uri) table (ground arith)))
      | inr merge ↦ rw merge (
          param_loop-segments rounds (index + strcspn is_separator (drop index uri) + 1) uri _
            (omega arith)
          ∙ merged index uri table (ground arith))
    ])
  ]

  -- get_parameters_from_uri fails exactly on a URI without a question mark; otherwise the table
  -- holds, merged in their order, the name and the value of every part of the query string that
  -- is not empty, where `&` and `;` separate parts and the first `=` ends a name.
  pub get_parameters_from_uri-segments :
      (uri : Bytes)
      → get_parameters_from_uri apr uri ≡ elim (strchr b'?' uri) as (λ _. ℤ × Option apr.Table) [
        | none ↦ (negsuc 0, none)
        | some query ↦
            (success, some (merge_all apr apr.table_make (segments (drop (query + 1) uri))))
      ]
  unfolding get_parameters_from_uri
  get_parameters_from_uri-segments uri = elim (Option-cases (strchr b'?' uri)) [
    | inl missing ↦ rw (missing, get_parameters_from_uri) refl
    | inr (query, found) ↦
        rw (found, get_parameters_from_uri)
          (ap (λ (t : apr.Table). (success, some t))
            (param_loop-segments (length uri) (query + 1) uri apr.table_make (omega arith)))
  ]
