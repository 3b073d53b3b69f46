-- ===== src/Music.antt =====
-- src/indexers/music/music_query.h and music_query.c: a query of the music library, from the words of
-- the URI to the parameters of a database query. The lookups in the configuration of queries,
-- whose code is commented out, and apr_strtok are parameters. The outer `none` of a result is an
-- access outside an array or through NULL.
pub mod Sort
pub mod Answer
pub mod Start
use mod_mp.Base.{
  ltb, ◌==◌, if◌then◌else◌, length, get_or, set, ℤ, is_nonzero, success, Bytes, codes, negsuc, ℕ,
  ◌+◌, not, Option, none, some, List, [], ◌∷◌,
}
use mod_mp.Apr.{Apr}
use mod_mp.ErrorMessages.{ErrorMessages, error, error_messages_add}
use mod_mp.QueryParameters.{
  DbTableColumn, QuerySqlClause, DbQueryParameters, order_by_clause, db_query_parameters_init,
  db_query_parameter_add_where,
}
use mod_mp.Database.{DbQuery}

-- enum query_types.
pub data QueryType : Type 0 where
  songs albums artists sources transcode play status : QueryType

-- What the query is looked up in.
pub record Lookups : Type 0 where
  -- find_query_by_id, with none for a status that is not 0
  pub find_query_by_id : Bytes → Option DbQuery
  -- find_column_from_query_by_friendly_name, with none for a status that is not 0
  pub find_column : DbQuery → Bytes → Option DbTableColumn
  -- the tokens that apr_strtok gives one after the other for the separator ","
  pub strtok : Bytes → List Bytes

-- The parts of struct music_query_ that get_music_query writes.
pub record MusicQuery : Type 0 where
  pub type : QueryType
  pub db_query : Option DbQuery
  pub db_query_parameters : Option DbQueryParameters
  pub error_messages : ErrorMessages

abbrev pub query_header : Bytes
query_header = codes "Error With Music Query"

abbrev pub parameter_header : Bytes
parameter_header = codes "Error with query"

unfoldable pub add_error : Bytes → Bytes → ErrorMessages → ErrorMessages
add_error header text em = (error_messages_add em error header text).1

-- The sign of a sorted column: the name behind it, and what SQL gets.
unfoldable pub split_sign : Bytes → Bytes × Bytes
split_sign [] = ([], [])
split_sign (c ∷ cs) =
    if c == b'+'
    then (cs, codes " ASC")
    else if c == b'-'
    then (cs, codes " DESC")
    else (c ∷ cs, [])

unfoldable pub set_value : ℕ → Option Bytes → DbQueryParameters → DbQueryParameters
set_value index value p =
    let none_yet : QuerySqlClause = record { freindly_name = none; value = none } in
    record p {
      sql_clauses =
          set p.sql_clauses index (record (get_or p.sql_clauses index none_yet) { value = value });
    }

module _ (apr : Apr) (look : Lookups) where
  -- The chain of comparisons; none for an invalid type.
  unfoldable pub query_type : Bytes → Option QueryType
  query_type word =
      if apr.strnatcasecmp_is_zero word (codes "songs")
      then some songs
      else if apr.strnatcasecmp_is_zero word (codes "albums")
      then some albums
      else if apr.strnatcasecmp_is_zero word (codes "artists")
      then some artists
      else if apr.strnatcasecmp_is_zero word (codes "sources")
      then some sources
      else if apr.strnatcasecmp_is_zero word (codes "pull")
      then some play
      else if apr.strnatcasecmp_is_zero word (codes "transcode")
      then some transcode
      else if apr.strnatcasecmp_is_zero word (codes "status")
      then some status
      else none

  -- `table.column` with the sign, the parts of apr_pstrcat.
  unfoldable pub column_parts : DbTableColumn → Bytes → List Bytes
  column_parts column a_or_d = column.table.name ∷ codes "." ∷ column.name ∷ a_or_d ∷ []

  unfoldable pub append_column : Option Bytes → DbTableColumn → Bytes → Bytes
  unfolding column_parts
  append_column none column a_or_d = apr.pstrcat (column_parts column a_or_d)
  append_column (some value) column a_or_d =
      apr.pstrcat (value ∷ codes "," ∷ column_parts column a_or_d)

  -- The loop over the tokens: the value of the clause and the messages.
  unfoldable pub sort_loop :
      DbQuery → List Bytes → Option Bytes → ErrorMessages → Option Bytes × ErrorMessages
  unfolding split_sign append_column add_error
  sort_loop q [] value em = (value, em)
  sort_loop q (token ∷ tokens) value em = elim (look.find_column q (split_sign token).0) [
    | some column ↦ sort_loop q tokens (some (append_column value column (split_sign token).1)) em
    | none ↦ sort_loop q tokens value (
        add_error parameter_header
          (apr.pstrcat (
            codes "Column "
            ∷ (split_sign token).0
            ∷ codes " doesn't exists in the database schema."
            ∷ []))
          em)
  ]

  -- The search of a clause by its friendly name, from an index on.
  unfoldable pub find_clause : Bytes → ℕ → List QuerySqlClause → Option ℕ
  find_clause noun i [] = none
  find_clause noun i (clause ∷ clauses) =
      let next = find_clause noun (i + 1) clauses in
      elim clause.freindly_name [
        | none ↦ next
        | some name ↦ if apr.strnatcasecmp_is_zero noun name then some i else next
      ]

  -- A noun that names a clause.
  unfoldable pub apply_clause :
      DbQuery → ℕ → Bytes → DbQueryParameters → ErrorMessages → DbQueryParameters × ErrorMessages
  unfolding sort_loop set_value
  apply_clause q index word p em =
      if index == order_by_clause
      then (let none_yet : QuerySqlClause = record { freindly_name = none; value = none } in
          let (value, after) =
            sort_loop q (look.strtok (apr.pstrndup word 255))
              (get_or p.sql_clauses index none_yet).value em in
          (set_value index value p, after))
      else (set_value index (some word) p, em)

  -- One round of the loop; the inner none for a noun that nothing knows. The custom parameters are
  -- never looked at, since their flag stays 0.
  unfoldable pub query_noun :
      DbQuery
      → Bytes
      → Bytes
      → DbQueryParameters
      → ErrorMessages
      → Option (Option (DbQueryParameters × ErrorMessages))
  unfolding find_clause apply_clause add_error
  query_noun q noun word p em = elim (look.find_column q noun) [
    | some column ↦ elim (db_query_parameter_add_where apr p column word) [
      | none ↦ none
      | some (rv, after) ↦ some (
          some (
            after,
            if is_nonzero rv
                then add_error parameter_header
                    (codes "There was an error adding the where query parameter") em
                else em,
          ))
    ]
    | none ↦ elim (find_clause noun 0 p.sql_clauses) [
      | some index ↦ some (some (apply_clause q index word p em))
      | none ↦ some none
    ]
  ]

  -- The loop over every second word, with the word behind it.
  unfoldable pub noun_loop :
      DbQuery → List Bytes → DbQueryParameters → MusicQuery → Option (ℤ × MusicQuery)
  unfolding query_noun add_error
  noun_loop q [] p mq = some (success, record mq { db_query_parameters = some p })
  noun_loop q (noun ∷ []) p mq = some (success, record mq { db_query_parameters = some p })
  noun_loop q (noun ∷ word ∷ rest) p mq = elim (query_noun q noun word p mq.error_messages) [
    | none ↦ none
    | some none ↦ some (
      negsuc 8,
      record mq {
        db_query_parameters = some p;
        error_messages =
            add_error query_header
              (apr.pstrcat (codes "Query word " ∷ noun ∷ codes " is not supported by server." ∷ []))
              mq.error_messages;
      },
    )
    | some (some (after, em)) ↦ noun_loop q rest after (record mq { error_messages = em })
  ]

  -- Behind the type; fewer than four words have no parameters.
  unfoldable pub with_type : Bytes → List Bytes → MusicQuery → Option (ℤ × MusicQuery)
  unfolding noun_loop
  with_type word rest mq = elim (look.find_query_by_id word) [
    | none ↦ some (
      negsuc 0,
      record mq {
        error_messages =
            add_error query_header
              (apr.pstrcat
                (codes "Query type " ∷ word ∷ codes " is not supported by Database." ∷ []))
              mq.error_messages;
      },
    )
    | some q ↦
        if ltb (length rest + 2) 4
        then some (success, record mq { db_query = some q })
        else noun_loop q rest db_query_parameters_init (record mq { db_query = some q })
  ]

  -- The words are those of the URI, with a NULL behind the last one, or NULL.
  unfoldable pub get_music_query : Option (List Bytes) → MusicQuery → Option (ℤ × MusicQuery)
  unfolding query_type with_type add_error
  get_music_query none mq = some (
    negsuc 2,
    record mq {
      error_messages =
          add_error query_header (codes "Query doesn't contain enough words.") mq.error_messages;
    },
  )
  get_music_query (some []) mq = none
  get_music_query (some (noun ∷ [])) mq = some (
    negsuc 2,
    record mq {
      error_messages =
          add_error query_header (codes "Query doesn't contain enough words.") mq.error_messages;
    },
  )
  get_music_query (some (noun ∷ word ∷ rest)) mq = elim (query_type word) [
    | none ↦ some (
      negsuc 1,
      record mq {
        error_messages =
            add_error query_header
              (apr.pstrcat (codes "Query type " ∷ word ∷ codes " is not supported by API." ∷ []))
              mq.error_messages;
      },
    )
    | some t ↦ with_type word rest (record mq { type = t })
  ]
