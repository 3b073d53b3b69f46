-- ===== src/ErrorMessages/Print.antt =====
-- The JSON text that error_messages_print_json_bb of src/error_messages.c writes.
use mod_mp.Base.{
  ◌==◌, if◌then◌else◌, Bool-cases, length, get_elem?, take, drop, all, get_elem?-lt, Bytes, codes,
  ℕ, zero, suc, ◌+◌, ◌≤◌, ◌≡◌, refl, sym, ap, ◌∙◌, ◌⊎◌, inl, inr, Bool, true, false, ◌&&◌, Option,
  none, some, List, [], ◌∷◌, ◌++◌, append-nil, append_assoc, arith,
}
use native.Mathlib.Numerals.{add-one}
use mod_mp.Apr.{Apr, AprLaws, int, str, format}
use mod_mp.Json.Escape.{escaped, json_escape_char-escaped}
use mod_mp.ErrorMessages.{
  ErrorMessage, ErrorMessages, type_number, entry_format, put_entry, print_entry, print_loop,
  is_terminated, error_messages_print_json_bb,
}
use mod_mp.ErrorMessages.Invariant.{IsValid}
use mod_mp.ErrorMessages.Table.{recorded, drop-get_elem?}

-- The specification: one object for an entry, its strings escaped, ...
pub json_entry : Bytes → ErrorMessage → Bytes
json_entry null_text m =
    format null_text entry_format (
      int (type_number m.type)
      ∷ str (some (escaped m.header))
      ∷ str (some (escaped m.message))
      ∷ [])

-- ... the objects separated by commas, ...
pub json_entries : Bytes → List ErrorMessage → Bytes
json_entries null_text [] = []
json_entries null_text (m ∷ []) = json_entry null_text m ++ codes "\n"
json_entries null_text (m ∷ n ∷ rest) =
    json_entry null_text m ++ codes ",\n" ++ json_entries null_text (n ∷ rest)

-- ... and the array around them.
pub errors_json : Bytes → List ErrorMessage → Bytes
errors_json null_text ms =
    codes "\t\t\"Errors\" : [\n" ++ json_entries null_text ms ++ codes "\t\t]\n"

module _ (apr : Apr) (laws : AprLaws apr) where
  Writes : apr.Brigade → Bytes → Option apr.Brigade → Type 0
  Writes bb text r =
      (printed : apr.Brigade) × (r ≡ some printed)
      × (apr.brigade_bytes printed ≡ apr.brigade_bytes bb ++ text)

  put_entry-bytes :
      (m : ErrorMessage) (last : Bool) (bb : apr.Brigade)
      → apr.brigade_bytes (put_entry apr m last bb)
        ≡ apr.brigade_bytes bb
          ++ (json_entry apr.null_text m ++ (if last then codes "\n" else codes ",\n"))
  unfolding put_entry json_entry
  put_entry-bytes m true bb =
      rw
        (
          laws.brigade-puts,
          laws.brigade-printf,
          json_escape_char-escaped apr laws (some m.header),
          json_escape_char-escaped apr laws (some m.message),
        )
        (append_assoc (apr.brigade_bytes bb) _ _)
  put_entry-bytes m false bb =
      rw
        (
          laws.brigade-puts,
          laws.brigade-puts,
          laws.brigade-printf,
          json_escape_char-escaped apr laws (some m.header),
          json_escape_char-escaped apr laws (some m.message),
        )
        (append_assoc (apr.brigade_bytes bb ++ _) (codes ",") (codes "\n")
          ∙ append_assoc (apr.brigade_bytes bb) _ _)

  Writes-step :
      (m : ErrorMessage) (last : Bool) (bb : apr.Brigade) (rest text : Bytes)
      (q r : Option apr.Brigade)
      → r ≡ q
      → Writes (put_entry apr m last bb) rest q
      → text ≡ (json_entry apr.null_text m ++ (if last then codes "\n" else codes ",\n")) ++ rest
      → Writes bb text r
  unfolding Writes
  Writes-step m last bb rest text q r s (printed, done, bytes) e = (
    printed,
    s ∙ done,
    rw (bytes, e, put_entry-bytes m last bb) (append_assoc (apr.brigade_bytes bb) _ rest),
  )

  json_entries-cons :
      (m n : ErrorMessage) (ms rest : List ErrorMessage)
      → ms ≡ n ∷ rest
      → json_entries apr.null_text (m ∷ ms)
        ≡ json_entry apr.null_text m ++ codes ",\n" ++ json_entries apr.null_text ms
  unfolding json_entries
  json_entries-cons m n ms rest e = rw e refl

  print_loop-step :
      (rounds i : ℕ) (em : ErrorMessages) (m : ErrorMessage) (last : Bool) (bb : apr.Brigade)
      → get_elem? em.messages i ≡ some m
      → (i + 1 == em.num_errors) ≡ last
      → is_terminated m ≡ true
      → print_loop apr (suc rounds) i em bb
        ≡ print_loop apr rounds (i + 1) em (put_entry apr m last bb)
  unfolding print_loop print_entry
  print_loop-step rounds i em m last bb found e t = rw (print_loop, found, e, print_entry, t) refl

  print_loop-unterminated :
      (rounds i : ℕ) (em : ErrorMessages) (m : ErrorMessage) (bb : apr.Brigade)
      → get_elem? em.messages i ≡ some m
      → is_terminated m ≡ false
      → print_loop apr (suc rounds) i em bb ≡ none
  unfolding print_loop print_entry
  print_loop-unterminated rounds i em m bb found t = rw (print_loop, found, print_entry, t) refl

  both : (a b : Bool) → (a && b) ≡ true → (a ≡ true) × (b ≡ true)
  both true b e = (refl, e)
  both false b e = cc e

  -- The entries that the last rounds print, from the one that they start with.
  from_entry :
      (rounds i : ℕ) (em : ErrorMessages) (m : ErrorMessage)
      → get_elem? em.messages i ≡ some m
      → take (suc rounds) (drop i em.messages) ≡ m ∷ take rounds (drop (i + 1) em.messages)
  from_entry rounds i em m found = rw (drop-get_elem? em.messages i m found, add-one i) refl

  print_loop-Writes :
      (rounds i : ℕ) (em : ErrorMessages) (bb : apr.Brigade)
      → i + rounds ≡ em.num_errors
      → em.num_errors ≤ length em.messages
      → all is_terminated (take rounds (drop i em.messages)) ≡ true
      → Writes bb
          (json_entries apr.null_text (take rounds (drop i em.messages)))
          (print_loop apr rounds i em bb)
  unfolding print_loop json_entries Writes
  print_loop-Writes zero i em bb e h t = (bb, refl, sym (append-nil (apr.brigade_bytes bb)))
  print_loop-Writes (suc zero) i em bb e h t =
      let (m, found) = get_elem?-lt em.messages i (omega arith) in
      let (here, behind) =
        both (is_terminated m) _
          (sym (ap (all is_terminated) (from_entry zero i em m found)) ∙ t) in
      Writes-step m true bb [] _ _ _
        (print_loop-step zero i em m true bb found (ground (arith, e)) here)
        (print_loop-Writes zero (i + 1) em (put_entry apr m true bb) (omega arith) h behind)
        (rw (drop-get_elem? em.messages i m found) (sym (append-nil _)))
  print_loop-Writes (suc (suc rounds)) i em bb e h t =
      let (m, found) = get_elem?-lt em.messages i (omega arith) in
      let (n, next) = get_elem?-lt em.messages (suc i) (omega arith) in
      let (here, behind) =
        both (is_terminated m) _
          (sym (ap (all is_terminated) (from_entry (suc rounds) i em m found)) ∙ t) in
      Writes-step m false bb _ _ _ _
        (print_loop-step (suc rounds) i em m false bb found (ground (arith, e)) here)
        (print_loop-Writes (suc rounds) (i + 1) em (put_entry apr m false bb) (omega arith) h
          behind)
        (rw (drop-get_elem? em.messages i m found, add-one i)
          (json_entries-cons m n _ _
            (ap (λ l. take (suc rounds) l) (drop-get_elem? em.messages (suc i) n next))))

  print_loop-fault :
      (rounds i : ℕ) (em : ErrorMessages) (bb : apr.Brigade)
      → i + rounds ≡ em.num_errors
      → em.num_errors ≤ length em.messages
      → all is_terminated (take rounds (drop i em.messages)) ≡ false
      → print_loop apr rounds i em bb ≡ none
  print_loop-fault zero i em bb e h t = cc t
  print_loop-fault (suc rounds) i em bb e h t =
      let (m, found) = get_elem?-lt em.messages i (omega arith) in
      let behind = sym (ap (all is_terminated) (from_entry rounds i em m found)) ∙ t in
      elim (Bool-cases (is_terminated m)) [
        | inl here ↦
            print_loop-step rounds i em m (i + 1 == em.num_errors) bb found refl here
            ∙ print_loop-fault rounds (i + 1) em _ (omega arith) h (
                sym (ap (λ b. b && all is_terminated (take rounds (drop (i + 1) em.messages))) here)
                ∙ behind)
        | inr here ↦ print_loop-unterminated rounds i em m bb found here
      ]

  -- Printing a well-formed table: if both texts of every recorded entry end with a NUL inside their
  -- arrays, then nothing is read outside the table, and the brigade gets the JSON array with one
  -- object for each recorded entry, in order, separated by commas, their texts escaped. If a text of
  -- 1024 bytes was recorded, which has no NUL, then printing reads past its array.
  pub error_messages_print_json_bb-bytes :
      (em : ErrorMessages) (bb : apr.Brigade)
      → IsValid em
      → ((all is_terminated (recorded em) ≡ true)
          × (printed : apr.Brigade) × (error_messages_print_json_bb apr em bb ≡ some printed)
          × (apr.brigade_bytes printed
              ≡ apr.brigade_bytes bb ++ errors_json apr.null_text (recorded em)))
        ⊎ ((all is_terminated (recorded em) ≡ false)
            × (error_messages_print_json_bb apr em bb ≡ none))
  unfolding error_messages_print_json_bb errors_json Writes
  error_messages_print_json_bb-bytes em bb v =
      let opened = apr.brigade_puts bb (codes "\t\t\"Errors\" : [\n") in
      let inside : em.num_errors ≤ length em.messages = omega (arith, v.array, v.counted) in
      elim (Bool-cases (all is_terminated (recorded em))) [
        | inl t ↦
            let (printed, done, bytes) =
              print_loop-Writes em.num_errors 0 em opened (omega arith) inside t in
            inl (
              t,
              apr.brigade_puts printed (codes "\t\t]\n"),
              rw (error_messages_print_json_bb, done) refl,
              rw (laws.brigade-puts, bytes, laws.brigade-puts)
                  (ap (λ l. l ++ codes "\t\t]\n") (append_assoc (apr.brigade_bytes bb) _ _)
                    ∙ append_assoc (apr.brigade_bytes bb) _ _),
            )
        | inr t ↦ inr (
          t,
          rw
              (
                error_messages_print_json_bb,
                print_loop-fault em.num_errors 0 em opened (omega arith) inside t,
              )
              refl,
        )
      ]
