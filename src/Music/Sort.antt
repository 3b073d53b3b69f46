-- ===== src/Music/Sort.antt =====
-- The clause `sort_by` of a query in src/indexers/music/music_query.c.
use mod_mp.Base.{
  Option-cases, take, success, Bytes, codes, ◌≡◌, refl, sym, ap, ◌∙◌, inl, inr, true, false, Option,
  none, some, List, [], ◌∷◌, ◌++◌, append-nil, append_assoc,
}
use mathlib.Core.List.{flatten}
use mod_mp.Apr.{Apr, AprLaws}
use mod_mp.ErrorMessages.{ErrorMessages}
use mod_mp.QueryParameters.{DbTableColumn, order_by_clause, db_query_parameters_init}
use mod_mp.Database.{DbQuery}
use mod_mp.Music.{
  QueryType, Lookups, MusicQuery, parameter_header, add_error, split_sign, set_value, query_type,
  append_column, column_parts, sort_loop, find_clause, apply_clause, query_noun, noun_loop,
  with_type, get_music_query,
}

-- A column as SQL names it, with the direction.
pub order_text : DbTableColumn → Bytes → Bytes
order_text column a_or_d = column.table.name ++ (codes "." ++ (column.name ++ a_or_d))

commas : List Bytes → Bytes
commas [] = []
commas (t ∷ ts) = codes "," ++ (t ++ commas ts)

-- The texts, separated by commas; NULL for none.
pub comma_separated : List Bytes → Option Bytes
unfolding commas
comma_separated [] = none
comma_separated (t ∷ ts) = some (t ++ commas ts)

module _ (look : Lookups) where
  -- The columns that the tokens name, in their order, each with its direction.
  pub ordered : DbQuery → List Bytes → List Bytes
  ordered q [] = []
  ordered q (token ∷ tokens) = elim (look.find_column q (split_sign token).0) [
    | some column ↦ order_text column (split_sign token).1 ∷ ordered q tokens
    | none ↦ ordered q tokens
  ]

  -- The messages with one more for each token that names no column.
  pub complaints : DbQuery → List Bytes → ErrorMessages → ErrorMessages
  complaints q [] em = em
  complaints q (token ∷ tokens) em = elim (look.find_column q (split_sign token).0) [
    | some column ↦ complaints q tokens em
    | none ↦ complaints q tokens (
        add_error parameter_header
          (codes "Column "
            ++ ((split_sign token).0 ++ codes " doesn't exists in the database schema."))
          em)
  ]

  module _ (apr : Apr) (laws : AprLaws apr) where
    three_parts : (a b c : Bytes) → apr.pstrcat (a ∷ b ∷ c ∷ []) ≡ a ++ (b ++ c)
    unfolding flatten
    three_parts a b c = laws.pstrcat_lem (a ∷ b ∷ c ∷ []) ∙ ap (λ l. a ++ (b ++ l)) (append-nil c)

    first_column :
        (column : DbTableColumn) (d : Bytes)
        → append_column apr look none column d ≡ order_text column d
    unfolding append_column column_parts order_text flatten
    first_column column d =
        laws.pstrcat_lem _
        ∙ ap (λ l. column.table.name ++ (codes "." ++ (column.name ++ l))) (append-nil d)

    next_column :
        (value : Bytes) (column : DbTableColumn) (d : Bytes)
        → append_column apr look (some value) column d ≡ value ++ (codes "," ++ order_text column d)
    unfolding append_column column_parts order_text flatten
    next_column value column d =
        laws.pstrcat_lem _
        ∙ ap (λ l. value ++ (codes "," ++ (column.table.name ++ (codes "." ++ (column.name ++ l)))))
            (append-nil d)

    grow : (v t ts : Bytes) → (v ++ (codes "," ++ t)) ++ ts ≡ v ++ (codes "," ++ (t ++ ts))
    grow v t ts = append_assoc v (codes "," ++ t) ts

    known :
        (q : DbQuery) (token : Bytes) (tokens : List Bytes) (value : Option Bytes)
        → (em : ErrorMessages) (column : DbTableColumn)
        → look.find_column q (split_sign token).0 ≡ some column
        → sort_loop apr look q (token ∷ tokens) value em
          ≡ sort_loop apr look q tokens
              (some (append_column apr look value column (split_sign token).1))
              em
    unfolding sort_loop
    known q token tokens value em column e = rw (sort_loop, e) refl

    sort_loop-some :
        (q : DbQuery) (tokens : List Bytes) (v : Bytes) (em : ErrorMessages)
        → sort_loop apr look q tokens (some v) em
          ≡ (some (v ++ commas (ordered q tokens)), complaints q tokens em)
    unfolding sort_loop ordered complaints commas
    sort_loop-some q [] v em = ap (λ l. (some l, em)) (sym (append-nil v))
    sort_loop-some q (token ∷ tokens) v em =
        elim (Option-cases (look.find_column q (split_sign token).0)) [
          | inl n ↦
              rw (sort_loop, ordered, complaints, n, three_parts) (sort_loop-some q tokens v _)
          | inr (column, s) ↦
              known q token tokens (some v) em column s
              ∙ (ap (λ l. sort_loop apr look q tokens (some l) em)
                    (next_column v column (split_sign token).1)
                  ∙ (sort_loop-some q tokens _ em
                      ∙ rw (ordered, complaints, s)
                          (ap (λ l. (some l, complaints q tokens em))
                            (grow v (order_text column (split_sign token).1)
                              (commas (ordered q tokens))))))
        ]

    pub sort_loop-none :
        (q : DbQuery) (tokens : List Bytes) (em : ErrorMessages)
        → sort_loop apr look q tokens none em
          ≡ (comma_separated (ordered q tokens), complaints q tokens em)
    unfolding sort_loop ordered complaints comma_separated
    sort_loop-none q [] em = refl
    sort_loop-none q (token ∷ tokens) em =
        elim (Option-cases (look.find_column q (split_sign token).0)) [
          | inl n ↦ rw (sort_loop, ordered, complaints, n, three_parts) (sort_loop-none q tokens _)
          | inr (column, s) ↦
              known q token tokens none em column s
              ∙ (ap (λ l. sort_loop apr look q tokens (some l) em)
                    (first_column column (split_sign token).1)
                  ∙ (sort_loop-some q tokens _ em ∙ rw (ordered, complaints, s) refl))
        ]

    -- The documented comparison of the word sort_by with the names of the clauses.
    pub record SortByLaws : Type 0 where
      pub limit : apr.strnatcasecmp_is_zero (codes "sort_by") (codes "limit") ≡ false
      pub offset : apr.strnatcasecmp_is_zero (codes "sort_by") (codes "offset") ≡ false
      pub sort_by : apr.strnatcasecmp_is_zero (codes "sort_by") (codes "sort_by") ≡ true

    find_clause-sort_by :
        SortByLaws
        → find_clause apr look (codes "sort_by") 0 db_query_parameters_init.sql_clauses
          ≡ some order_by_clause
    unfolding find_clause db_query_parameters_init
    find_clause-sort_by c = rw (c.limit, c.offset, c.sort_by) refl

    -- The tokens of the value, of which 255 bytes are read.
    abbrev pub sort_tokens : Bytes → List Bytes
    sort_tokens value = look.strtok (take 255 value)

    sorted_noun :
        (q : DbQuery) (value : Bytes) (em : ErrorMessages)
        → SortByLaws
        → look.find_column q (codes "sort_by") ≡ none
        → query_noun apr look q (codes "sort_by") value db_query_parameters_init em
          ≡ some (
              some (
                set_value order_by_clause
                    (comma_separated (ordered q (sort_tokens value)))
                    db_query_parameters_init,
                complaints q (sort_tokens value) em,
              ))
    unfolding query_noun apply_clause db_query_parameters_init
    sorted_noun q value em c n =
        rw (query_noun, n, find_clause-sort_by c)
          (ap (λ p. some (some (set_value order_by_clause p.0 db_query_parameters_init, p.1)))
            (ap (λ s. sort_loop apr look q (look.strtok s) none em) (laws.pstrndup_lem value 255)
              ∙ sort_loop-none q (sort_tokens value) em))

    -- A query of a valid type that is configured, with the words sort_by and a value behind it:
    -- get_music_query returns 0, with no condition and with the columns that the value's tokens
    -- name as the clause for the order, in their order, separated by commas and each as
    -- `table.column` with ASC or DESC for a plus or a minus; for every token that names no column
    -- there is a message, and it leaves no trace in the clause.
    pub get_music_query-sorted :
        (noun word value : Bytes) (mq : MusicQuery) (t : QueryType) (q : DbQuery)
        → SortByLaws
        → query_type apr look word ≡ some t
        → look.find_query_by_id word ≡ some q
        → look.find_column q (codes "sort_by") ≡ none
        → get_music_query apr look (some (noun ∷ word ∷ codes "sort_by" ∷ value ∷ [])) mq
          ≡ some (
            success,
            record {
              type = t;
              db_query = some q;
              db_query_parameters = some (
                  set_value order_by_clause
                    (comma_separated (ordered q (sort_tokens value)))
                    db_query_parameters_init);
              error_messages = complaints q (sort_tokens value) mq.error_messages;
            },
          )
    unfolding get_music_query with_type noun_loop
    get_music_query-sorted noun word value mq t q c a b n =
        rw (get_music_query, a, with_type, b, noun_loop, sorted_noun q value mq.error_messages c n)
          refl
