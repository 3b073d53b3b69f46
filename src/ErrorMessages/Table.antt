-- ===== src/ErrorMessages/Table.antt =====
-- The table seen as the list of the entries recorded so far.
use mod_mp.Base.{
  ltb, leb, Bool-cases, Option-cases, length, get_elem?, set, take, drop, length-set, length-take,
  take-all, get_elem?-lt, success, Bytes, negsuc, ℕ, zero, suc, ◌+◌, ◌≤◌, ◌<◌, ◌≡◌, refl, sym, ap,
  ◌∙◌, ◌⊎◌, inl, inr, true, false, none, some, List, [], ◌∷◌, ◌++◌, append-nil, append_assoc, arith,
}
use native.Mathlib.Numerals.{add-one}
use mod_mp.ErrorMessages.{
  ErrorType, ErrorMessage, ErrorMessages, max_errors, max_error_size, strncpy, error_messages_add,
  copy_entry, duplicate_loop, error_messages_duplicate,
}
use mod_mp.ErrorMessages.Invariant.{Fits, Fits-set, length-strncpy-le, IsValid}

-- The entries that readers of the table look at.
abbrev pub recorded : ErrorMessages → List ErrorMessage
recorded em = take em.num_errors em.messages

pub take-set-next {ℓ} :
    {A : Type ℓ} (xs : List A) (n : ℕ) (v : A)
    → n < length xs
    → take (n + 1) (set xs n v) ≡ take n xs ++ v ∷ []
take-set-next [] n v h = elim h [ ]
take-set-next (x ∷ xs) zero v h = refl
take-set-next (x ∷ xs) (suc n) v h =
    let next = take-set-next xs n v (omega arith) in
    rw add-one (ap (λ l. x ∷ l) (rw add-one at next))

strncpy-fits : (s : Bytes) → length s ≤ max_error_size → strncpy s ≡ s
unfolding strncpy
strncpy-fits s h = take-all max_error_size s h

le_or_lt : (m n : ℕ) → (m ≤ n) ⊎ (n < m)
le_or_lt m n = ground arith

pub error_messages_add_lem :
    (em : ErrorMessages) (type : ErrorType) (header message : Bytes)
    → IsValid em
    → (em.num_errors < max_errors
        → ((error_messages_add em type header message).0 ≡ success)
          × (recorded (error_messages_add em type header message).1
              ≡ recorded em
                ++ record { type = type; header = strncpy header; message = strncpy message } ∷ []))
      × (max_errors ≤ em.num_errors → error_messages_add em type header message ≡ (negsuc 0, em))
unfolding error_messages_add
error_messages_add_lem em type header message v = (
  (λ room.
      rw (not_full em.num_errors room)
        (refl, take-set-next em.messages em.num_errors _ (rw v.array room))),
  λ full. rw (le→leb max_errors em.num_errors full),
)
  where
    not_full : (n : ℕ) → n < max_errors → leb max_errors n ≡ false
    not_full n h = ground arith

    le→leb : (m n : ℕ) → m ≤ n → leb m n ≡ true
    le→leb m n h = ground arith

pub drop-get_elem? {ℓ} :
    {A : Type ℓ} (xs : List A) (i : ℕ) (a : A)
    → get_elem? xs i ≡ some a
    → drop i xs ≡ a ∷ drop (suc i) xs
drop-get_elem? [] i a h = cc
drop-get_elem? (x ∷ xs) zero a h = cc
drop-get_elem? (x ∷ xs) (suc i) a h = drop-get_elem? xs i a h

Fits-get_elem? :
    (ms : List ErrorMessage) (i : ℕ) (m : ErrorMessage)
    → Fits ms
    → get_elem? ms i ≡ some m
    → (length m.header ≤ max_error_size) × (length m.message ≤ max_error_size)
Fits-get_elem? [] i m f h = cc
Fits-get_elem? (x ∷ ms) zero m f h = ground arith
Fits-get_elem? (x ∷ ms) (suc i) m f h = Fits-get_elem? ms i m f.1 h

-- The entry that a round of the duplication writes is the entry that it reads.
copied-eq :
    (m : ErrorMessage)
    → length m.header ≤ max_error_size
    → length m.message ≤ max_error_size
    → record { type = m.type; header = strncpy m.header; message = strncpy m.message } ≡ m
copied-eq m a b = rw (strncpy-fits m.header a, strncpy-fits m.message b)

copy_entry-num :
    (new : ErrorMessages) (n : ℕ) (m : ErrorMessage)
    → (copy_entry new n m).num_errors ≡ new.num_errors + 1
unfolding copy_entry
copy_entry-num new n m = refl

length-copy_entry :
    (new : ErrorMessages) (n : ℕ) (m : ErrorMessage)
    → length (copy_entry new n m).messages ≡ length new.messages
unfolding copy_entry
length-copy_entry new n m = length-set new.messages n _

abbrev Appended : ErrorMessages → List ErrorMessage → ErrorMessages → Type 0
Appended new ms r =
    IsValid r × (r.num_errors ≡ new.num_errors + length ms) × (recorded r ≡ recorded new ++ ms)

copy_entry-IsValid :
    (new : ErrorMessages) (n : ℕ) (m : ErrorMessage)
    → IsValid new
    → new.num_errors < max_errors
    → IsValid (copy_entry new n m)
unfolding copy_entry
copy_entry-IsValid new n m v room = record {
  array = length-set new.messages _ _ ∙ v.array;
  counted = omega arith;
  fits =
      Fits-set new.messages n _ (length-strncpy-le m.header) (length-strncpy-le m.message) v.fits;
}

recorded-copy_entry :
    (new : ErrorMessages) (n : ℕ) (m : ErrorMessage)
    → IsValid new
    → new.num_errors < max_errors
    → n ≡ new.num_errors
    → length m.header ≤ max_error_size
    → length m.message ≤ max_error_size
    → recorded (copy_entry new n m) ≡ recorded new ++ m ∷ []
unfolding copy_entry
recorded-copy_entry new n m v room e a b =
    rw (e, copied-eq m a b) (take-set-next new.messages new.num_errors m (rw v.array room))

abbrev Duplicates : ℕ → ℕ → ℕ → ErrorMessages → ErrorMessages → Type 0
Duplicates rounds i offset new old =
    (r : ErrorMessages) × (duplicate_loop rounds i offset new old ≡ some r)
    × Appended new (take rounds (drop i old.messages)) r

duplicate_loop-step :
    (rounds i offset : ℕ) (new old : ErrorMessages) (m : ErrorMessage)
    → get_elem? old.messages i ≡ some m
    → i + offset < length new.messages
    → duplicate_loop (suc rounds) i offset new old
      ≡ duplicate_loop rounds (i + 1) offset (copy_entry new (i + offset) m) old
unfolding duplicate_loop
duplicate_loop-step rounds i offset new old m e h = rw (e, duplicate_loop) (ground arith)

-- One more round in front.
duplicate_round :
    (rounds i offset : ℕ) (new old : ErrorMessages) (m : ErrorMessage)
    → IsValid new
    → IsValid old
    → new.num_errors ≡ i + offset
    → new.num_errors < max_errors
    → get_elem? old.messages i ≡ some m
    → Duplicates rounds (i + 1) offset (copy_entry new (i + offset) m) old
    → Duplicates (suc rounds) i offset new old
duplicate_round rounds i offset new old m v w b room e (r, done, (v', count, entries)) = (
  r,
  duplicate_loop-step rounds i offset new old m e (omega (arith, v.array)) ∙ done,
  (
    v',
    rw (drop-get_elem? old.messages i m e, ← add-one i)
        (omega (arith, copy_entry-num new (i + offset) m)),
    entries
        ∙ rw
            (
              drop-get_elem? old.messages i m e,
              ← add-one i,
              recorded-copy_entry new (i + offset) m v room (sym b) fits.0 fits.1,
            )
            (append_assoc (recorded new) (m ∷ []) _),
  ),
)
  where
    fits : (length m.header ≤ max_error_size) × (length m.message ≤ max_error_size)
    fits = Fits-get_elem? old.messages i m w.fits e

duplicate_loop-Appended :
    (rounds i offset : ℕ) (new old : ErrorMessages)
    → IsValid new
    → IsValid old
    → i + rounds ≤ max_errors
    → new.num_errors ≡ i + offset
    → new.num_errors + rounds ≤ max_errors
    → Duplicates rounds i offset new old
unfolding duplicate_loop
duplicate_loop-Appended zero i offset new old v w a b c =
    (new, refl, (v, omega arith, sym (append-nil (recorded new))))
duplicate_loop-Appended (suc rounds) i offset new old v w a b c =
    let (m, e) = get_elem?-lt old.messages i (rw w.array (omega arith)) in
    let n = copy_entry-num new (i + offset) m in
    duplicate_round rounds i offset new old m v w b (omega arith) e (
      duplicate_loop-Appended rounds (i + 1) offset (copy_entry new (i + offset) m) old
        (copy_entry-IsValid new (i + offset) m v (omega arith)) w (omega arith) (omega (arith, n))
        (omega (arith, n)))

duplicate_loop_overflow :
    (rounds i offset : ℕ) (new old : ErrorMessages)
    → length new.messages ≡ max_errors
    → i + offset ≤ max_errors
    → max_errors < i + offset + rounds
    → duplicate_loop rounds i offset new old ≡ none
unfolding duplicate_loop
duplicate_loop_overflow zero i offset new old a b c = absurd (omega arith)
duplicate_loop_overflow (suc rounds) i offset new old a b c =
    elim (Option-cases (get_elem? old.messages i)) [
      | inl e ↦ rw (e, duplicate_loop)
      | inr (m, e) ↦
          rw (e, duplicate_loop)
            (elim (Bool-cases (ltb (i + offset) (length new.messages))) [
              | inl inside ↦
                  rw (inside, duplicate_loop)
                    (duplicate_loop_overflow rounds (i + 1) offset (copy_entry new (i + offset) m)
                      old (length-copy_entry new (i + offset) m ∙ a) (ground arith) (omega arith))
              | inr outside ↦ rw (outside, duplicate_loop)
            ])
    ]

pub error_messages_duplicate_lem :
    (new old : ErrorMessages)
    → IsValid new
    → IsValid old
    → (new.num_errors + old.num_errors ≤ max_errors
        → (r : ErrorMessages) × (error_messages_duplicate new old ≡ some r)
          × IsValid r
          × (recorded r ≡ recorded new ++ recorded old)
          × (r.num_errors ≡ new.num_errors + old.num_errors))
      × (max_errors < new.num_errors + old.num_errors → error_messages_duplicate new old ≡ none)
unfolding error_messages_duplicate
error_messages_duplicate_lem new old v w = (
  (λ room.
      let (r, done, (v', count, entries)) =
        duplicate_loop-Appended old.num_errors 0 new.num_errors new old v w (omega arith)
          (omega arith) room in
      (
        r,
        done,
        v',
        entries,
        omega (arith, count, length-take old.num_errors old.messages, w.array, w.counted),
      )),
  (λ over.
      duplicate_loop_overflow old.num_errors 0 new.num_errors new old v.array (omega arith)
        (omega arith)),
)

-- error_messages_add on a well-formed table: either the table has room, the status is APR_SUCCESS
-- and the entry, cut to its arrays, comes behind those recorded before; or the table is full, the
-- status is -1 and the table is unchanged.
pub error_messages_add-recorded :
    (em : ErrorMessages) (type : ErrorType) (header message : Bytes)
    → IsValid em
    → ((em.num_errors < max_errors)
        × ((error_messages_add em type header message).0 ≡ success)
        × (recorded (error_messages_add em type header message).1
            ≡ recorded em
              ++ record { type = type; header = strncpy header; message = strncpy message } ∷ []))
      ⊎ ((max_errors ≤ em.num_errors)
          × (error_messages_add em type header message ≡ (negsuc 0, em)))
error_messages_add-recorded em type header message v = elim (le_or_lt max_errors em.num_errors) [
  | inl full ↦ inr (full, (error_messages_add_lem em type header message v).1 full)
  | inr room ↦
      let (status, entries) = (error_messages_add_lem em type header message v).0 room in
      inl (room, status, entries)
]

-- error_messages_duplicate, from and to well-formed tables: either the entries of both fit the
-- array, and the result is well-formed, records the old table's entries behind the new one's, and
-- counts them; or they do not fit, and the copy goes on past the end of the array.
pub error_messages_duplicate-recorded :
    (new old : ErrorMessages)
    → IsValid new
    → IsValid old
    → ((new.num_errors + old.num_errors ≤ max_errors)
        × (r : ErrorMessages) × (error_messages_duplicate new old ≡ some r)
        × IsValid r
        × (recorded r ≡ recorded new ++ recorded old)
        × (r.num_errors ≡ new.num_errors + old.num_errors))
      ⊎ ((max_errors < new.num_errors + old.num_errors) × (error_messages_duplicate new old ≡ none))
error_messages_duplicate-recorded new old v w =
    elim (le_or_lt (new.num_errors + old.num_errors) max_errors) [
      | inl room ↦
          let (r, done, valid, entries, count) =
            (error_messages_duplicate_lem new old v w).0 room in
          inl (room, r, done, valid, entries, count)
      | inr over ↦ inr (over, (error_messages_duplicate_lem new old v w).1 over)
    ]
