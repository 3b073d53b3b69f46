-- ===== src/Input/Address.antt =====
-- input_init on the URIs that clients send: /indexer/command?parameters.
use mod_mp.Base.{
  ◌==◌, Bool-cases, Option-cases, length, drop, any, length-append, take-prefix, drop-prefix,
  success, Bytes, strchr, ℕ, suc, ◌+◌, ◌<◌, ◌≡◌, refl, sym, ap, ◌∙◌, ◌≢◌, inl, inr, false, none,
  some, [], ◌∷◌, ◌++◌, append_assoc, arith,
}
use native.Mathlib.Numerals.{add-one}
use mod_mp.Apr.{Apr, AprLaws}
use mod_mp.Input.{get_indexer_from_uri, get_command_from_uri, get_parameters_from_uri, input_init}
use mod_mp.Input.Query.{segments}
use mod_mp.Input.Parameters.{merge_all, get_parameters_from_uri-segments}

-- The byte does not occur.
abbrev pub Lacks : ℕ → Bytes → Type 0
Lacks c [] = Unit {0}
Lacks c (x ∷ xs) = (x ≢ c) × Lacks c xs

-- The test that decides it.
pub Lacks-any : (c : ℕ) (xs : Bytes) → any (λ x. x == c) xs ≡ false → Lacks c xs
Lacks-any c [] h = tt
Lacks-any c (x ∷ xs) h = elim (Bool-cases (x == c)) [
  | inl e ↦ absurd (ground (arith, h, e))
  | inr e ↦ ((λ p. ground (arith, e, p)), Lacks-any c xs (ground (arith, h, e)))
]

Lacks-append : (c : ℕ) (p s : Bytes) → Lacks c p → Lacks c s → Lacks c (p ++ s)
Lacks-append c [] s a b = b
Lacks-append c (x ∷ p) s a b = (a.0, Lacks-append c p s a.1 b)

strchr-first : (c : ℕ) (p s : Bytes) → Lacks c p → strchr c (p ++ c ∷ s) ≡ some (length p)
unfolding strchr
strchr-first c [] s h = ground arith
strchr-first c (x ∷ p) s h = ground (arith, strchr-first c p s h.1)

-- The first question mark behind the uri's first byte.
strchr-query :
    (indexer command query : Bytes)
    → Lacks b'?' indexer
    → Lacks b'?' command
    → strchr b'?' (indexer ++ (b'/' ∷ (command ++ (b'?' ∷ query))))
      ≡ some (length indexer + suc (length command))
strchr-query indexer command query b d =
    ap (strchr b'?') (sym (append_assoc indexer (b'/' ∷ command) (b'?' ∷ query)))
    ∙ strchr-first b'?' (indexer ++ b'/' ∷ command) query
        (Lacks-append b'?' indexer (b'/' ∷ command) b ((λ e. absurd (omega arith)), d))
    ∙ ap some (length-append indexer (b'/' ∷ command))

-- The first slash, where it stands behind a question mark.
strchr-slash :
    (indexer query rest : Bytes)
    → Lacks b'/' indexer
    → Lacks b'/' query
    → strchr b'/' (indexer ++ (b'?' ∷ (query ++ (b'/' ∷ rest))))
      ≡ some (length indexer + suc (length query))
strchr-slash indexer query rest a d =
    ap (strchr b'/') (sym (append_assoc indexer (b'?' ∷ query) (b'/' ∷ rest)))
    ∙ strchr-first b'/' (indexer ++ b'?' ∷ query) rest
        (Lacks-append b'/' indexer (b'?' ∷ query) a ((λ e. absurd (omega arith)), d))
    ∙ ap some (length-append indexer (b'?' ∷ query))

module _ (apr : Apr) (laws : AprLaws apr) where
  get_indexer_from_uri-slash :
      (c : ℕ) (indexer rest : Bytes)
      → Lacks b'/' indexer
      → 0 < length indexer
      → get_indexer_from_uri apr (c ∷ (indexer ++ (b'/' ∷ rest))) ≡ some (success, some indexer)
  unfolding get_indexer_from_uri
  get_indexer_from_uri-slash c indexer rest h some_bytes =
      rw (strchr-first b'/' indexer rest h, laws.pstrmemdup_lem)
        (ground (arith, length-append indexer (b'/' ∷ rest), take-prefix indexer (b'/' ∷ rest)))

  get_command_from_uri-query :
      (c : ℕ) (indexer command query : Bytes)
      → Lacks b'/' indexer
      → Lacks b'?' indexer
      → Lacks b'?' command
      → get_command_from_uri apr (c ∷ (indexer ++ (b'/' ∷ (command ++ (b'?' ∷ query)))))
        ≡ some (success, some command)
  unfolding get_command_from_uri
  get_command_from_uri-query c indexer command query a b d =
      rw
        (
          get_command_from_uri,
          strchr-first b'/' indexer (command ++ (b'?' ∷ query)) a,
          strchr-query indexer command query b d,
        )
        (ground (
          arith,
          laws.pstrmemdup_lem (command ++ (b'?' ∷ query)) (length command),
          ap (λ (n : ℕ). drop n (indexer ++ (b'/' ∷ (command ++ (b'?' ∷ query)))))
              (add-one (length indexer)),
          drop-prefix indexer b'/' (command ++ (b'?' ∷ query)),
          take-prefix command (b'?' ∷ query),
        ))

  get_command_from_uri-negative :
      (c : ℕ) (indexer query rest : Bytes)
      → Lacks b'/' indexer
      → Lacks b'?' indexer
      → Lacks b'/' query
      → get_command_from_uri apr (c ∷ (indexer ++ (b'?' ∷ (query ++ (b'/' ∷ rest))))) ≡ none
  unfolding get_command_from_uri
  get_command_from_uri-negative c indexer query rest a b d =
      rw
        (
          get_command_from_uri,
          strchr-slash indexer query rest a d,
          strchr-first b'?' indexer (query ++ (b'/' ∷ rest)) b,
        )
        (ground arith)

  get_parameters_from_uri-prefix :
      (p query : Bytes)
      → Lacks b'?' p
      → get_parameters_from_uri apr (p ++ b'?' ∷ query)
        ≡ (success, some (merge_all apr apr.table_make (segments query)))
  get_parameters_from_uri-prefix p query h =
      get_parameters_from_uri-segments apr laws (p ++ b'?' ∷ query)
      ∙ rw (strchr-first b'?' p query h) (
          ap (λ (s : Bytes). (success, some (merge_all apr apr.table_make (segments s))))
            (ap (λ (n : ℕ). drop n (p ++ b'?' ∷ query)) (add-one (length p))
              ∙ drop-prefix p b'?' query))

  get_parameters_from_uri-query :
      (indexer command query : Bytes)
      → Lacks b'?' indexer
      → Lacks b'?' command
      → get_parameters_from_uri apr (b'/' ∷ (indexer ++ (b'/' ∷ (command ++ (b'?' ∷ query)))))
        ≡ (success, some (merge_all apr apr.table_make (segments query)))
  get_parameters_from_uri-query indexer command query b d =
      ap (λ (u : Bytes). get_parameters_from_uri apr (b'/' ∷ u))
        (sym (append_assoc indexer (b'/' ∷ command) (b'?' ∷ query)))
      ∙ get_parameters_from_uri-prefix (b'/' ∷ (indexer ++ b'/' ∷ command)) query (
        (λ e. absurd (omega arith)),
        Lacks-append b'?' indexer (b'/' ∷ command) b ((λ e. absurd (omega arith)), d),
      )

  -- input_init on `/indexer/command?query`, where the indexer's name is not empty and has no slash
  -- and no question mark, and the command has no question mark: the three parts come back, the
  -- query as its parameters merged in order.
  pub input_init-parts :
      (method : ℕ) (indexer command query : Bytes)
      → 0 < length indexer
      → Lacks b'/' indexer
      → Lacks b'?' indexer
      → Lacks b'?' command
      → input_init apr (some (b'/' ∷ (indexer ++ (b'/' ∷ (command ++ (b'?' ∷ query)))))) method
        ≡ some (record {
          method = method;
          uri = some (b'/' ∷ (indexer ++ (b'/' ∷ (command ++ (b'?' ∷ query)))));
          indexer_string = some indexer;
          command_string = some command;
          parameter_strings = some (merge_all apr apr.table_make (segments query));
        })
  unfolding input_init
  input_init-parts method indexer command query n a b d =
      rw
        (
          input_init,
          get_indexer_from_uri-slash b'/' indexer (command ++ (b'?' ∷ query)) a n,
          get_command_from_uri-query b'/' indexer command query a b d,
          get_parameters_from_uri-query indexer command query b d,
        )
        refl

  -- input_init on a URI whose first question mark stands before the first slash behind the first
  -- byte: the command's size is negative, and the copy is out of bounds.
  pub input_init-slash_in_query :
      (method c : ℕ) (indexer query rest : Bytes)
      → Lacks b'/' indexer
      → Lacks b'?' indexer
      → Lacks b'/' query
      → input_init apr (some (c ∷ (indexer ++ (b'?' ∷ (query ++ (b'/' ∷ rest)))))) method ≡ none
  unfolding input_init
  input_init-slash_in_query method c indexer query rest a b d =
      elim (Option-cases (get_indexer_from_uri apr uri)) [
        | inl e ↦ rw (input_init, e) refl
        | inr (r, e) ↦
            rw (input_init, e, get_command_from_uri-negative c indexer query rest a b d) refl
      ]
    where
      uri : Bytes
      uri = c ∷ (indexer ++ (b'?' ∷ (query ++ (b'/' ∷ rest))))
