-- ===== src/Database.antt =====
-- src/database/: the connections of db_config.c, db_connection.c and db_query.c, the results of a
-- query in db_config.c, and the lookups of db_query_xml_config.c. The outer `none` of a result is
-- an access through a NULL pointer or outside an array.
pub mod Connections
pub mod Results
pub mod Print
use mod_mp.Base.{
  ◌==◌, if◌then◌else◌, get_elem?, ℤ, success, Bytes, codes, pos, negsuc, ℕ, ◌+◌, Bool, true, false,
  Option, none, some, List, [], ◌∷◌,
}
use mathlib.Core.Option
use mod_mp.Apr.{Apr, str}
use mod_mp.Json.{json_escape_char}
use mod_mp.ErrorMessages.{ErrorMessages, error, error_messages_add}
use mod_mp.QueryParameters.{DbTableColumn}

-- struct db_params_
pub record DbParams : Type 0 where
  pub driver_name : Option Bytes
  pub hostname : Option Bytes
  pub username : Option Bytes
  pub password : Option Bytes

-- The parts of struct db_config_ that the code uses. A connection is its number; the list is the
-- one from `head`.
pub record DbConfig : Type 0 where
  pub error_messages : ErrorMessages
  pub db_params : Option DbParams
  pub db_conn_list : Option (List ℕ)

pub record DbQuery : Type 0 where
  pub id : Option Bytes
  pub db_config : DbConfig
  pub select_columns : List DbTableColumn

-- A row has one string for each selected column.
abbrev pub ResultsRow : Type 0
ResultsRow = List (Option Bytes)

pub record QueryResults : Type 0 where
  pub row_array : Option (List ResultsRow)

-- The status of db_config_init, by the status of apr_pool_create_ex, apr_dbd_get_driver on a name,
-- and whether the table of messages is not NULL. The parameters that it reads are those of the new
-- structure, which apr_pcalloc filled with zeros, not those that it was given.
unfoldable pub db_config_init : ℕ → (Option Bytes → ℕ) → Bool → DbParams → Option ℤ
db_config_init pool_status get_driver has_messages db_params =
    let own_params : Option DbParams = none in
    if pool_status == 0
    then elim own_params [
      | none ↦ none
      | some params ↦
          let rv = get_driver params.driver_name in
          some (if rv == 0 then (if has_messages then success else negsuc 0) else pos rv)
    ]
    else some (pos pool_status)

-- The number of the connection, or the status -1 with the pointer left alone.
unfoldable pub db_config_get_connection : DbConfig → Option (Option ℕ × DbConfig)
db_config_get_connection config = elim config.db_conn_list [
  | none ↦ none
  | some [] ↦ some (none, config)
  | some (db_conn ∷ next) ↦ some (some db_conn, record config { db_conn_list = some next })
]

-- The statement is commented out, so the results keep the zeros of apr_pcalloc. The connection's
-- mutex is locked and unlocked around nothing.
unfoldable pub db_query_run : DbConfig → Option (ℤ × QueryResults × DbConfig)
db_query_run config = elim (db_config_get_connection config) [
  | none ↦ none
  | some (none, same) ↦ some (
    negsuc 89,
    record { row_array = none },
    record same {
      error_messages =
          (error_messages_add same.error_messages error (codes "Database Query")
            (codes "Failed to get connection")).1;
    },
  )
  | some (some db_conn, rest) ↦ some (success, record { row_array = none }, rest)
]

-- The loop of get_column_results_for_row: the index of the column, by its address.
column_index : ℕ → ℕ → List DbTableColumn → Option ℕ
column_index i column [] = none
column_index i column (select_column ∷ rest) =
    let next = column_index (i + 1) column rest in
    if column == select_column.address then some i else next

-- A status and the entry; a row or an entry that is not there is a fault.
unfoldable pub get_column_results_for_row :
    DbQuery → QueryResults → DbTableColumn → ℕ → Option (ℤ × Option (Option Bytes))
unfolding column_index
get_column_results_for_row db_query query_results column row_index = elim query_results.row_array [
  | none ↦ some (negsuc 1, none)
  | some [] ↦ some (negsuc 1, none)
  | some (first ∷ rows) ↦ elim (column_index 0 column.address db_query.select_columns) [
    | none ↦ some (negsuc 0, none)
    | some i ↦ elim (get_elem? (first ∷ rows) row_index) [
      | none ↦ none
      | some row ↦ elim (get_elem? row i) [ none ↦ none | some entry ↦ some (success, some entry) ]
    ]
  ]
]

-- The strings up to the first NULL, which ends the arguments of apr_pstrcat.
until_null : List (Option Bytes) → List Bytes
until_null [] = []
until_null (none ∷ rest) = []
until_null (some s ∷ rest) = s ∷ until_null rest

module _ (apr : Apr) where
  unfoldable pub find_select_column_from_query_by_table_id_and_query_id :
      List DbTableColumn → Bytes → Bytes → Option DbTableColumn
  find_select_column_from_query_by_table_id_and_query_id [] table_id column_id = none
  find_select_column_from_query_by_table_id_and_query_id (column ∷ rest) table_id column_id =
      let next = find_select_column_from_query_by_table_id_and_query_id rest table_id column_id in
      if apr.strnatcmp_is_zero column.id column_id
      then (if apr.strnatcmp_is_zero column.table.id table_id then some column else next)
      else next

  -- The attributes of an element, with their values; the result is the copy, `none` for -1.
  unfoldable pub get_xml_attr : List (Bytes × Bytes) → Bytes → Option Bytes
  get_xml_attr [] attr_name = none
  get_xml_attr ((name, value) ∷ next) attr_name =
      let rest = get_xml_attr next attr_name in
      if apr.strnatcmp_is_zero name attr_name then some (apr.pstrdup value) else rest

  -- `mutex_status` is that of apr_thread_mutex_create. `open_ex` is apr_dbd_open_ex on the
  -- parameters: its status and the text of its error.
  unfoldable pub db_connection_init : ℕ → (Bytes → ℕ × Bytes) → DbConfig → Option (ℤ × DbConfig)
  unfolding until_null
  db_connection_init mutex_status open_ex config =
      let failed : Bytes → DbConfig = λ text. record config {
        error_messages =
            (error_messages_add config.error_messages error (codes "Failed to connect to database")
              text).1;
      } in
      if mutex_status == 0
      then elim config.db_params [
        | none ↦ none
        | some params ↦
            let (rv, error_string) = open_ex (
              apr.pstrcat (
                until_null (
                  some (codes "host=")
                  ∷ params.hostname
                  ∷ some (codes ",user=")
                  ∷ params.username
                  ∷ []))) in
            some (if rv == 0 then (success, config) else (negsuc 1, failed error_string))
      ]
      else some (negsuc 1, failed (codes "Failed to create mutex"))

abbrev pub is_last {ℓ} : {A : Type ℓ} → List A → Bool
is_last [] = true
is_last (x ∷ xs) = false

abbrev pub column_format : Bytes
column_format = codes "\t\t\t\t\"%s\": \"%s\""

module _ (apr : Apr) where
  -- The body of the inner loop of output_db_result_json.
  print_column : DbTableColumn → Option Bytes → Bool → apr.Brigade → apr.Brigade
  print_column column entry last bb =
      let printed =
        apr.brigade_printf bb column_format
          (str (some column.freindly_name) ∷ str (json_escape_char apr entry) ∷ []) in
      let separated = if last then printed else apr.brigade_puts printed (codes ", ") in
      apr.brigade_puts separated (codes "\n")

  -- The inner loop, from a column and its entry on.
  print_columns : List DbTableColumn → ResultsRow → apr.Brigade → Option apr.Brigade
  unfolding print_column
  print_columns [] row bb = some bb
  print_columns (column ∷ columns) [] bb = none
  print_columns (column ∷ columns) (entry ∷ row) bb =
      print_columns columns row (print_column column entry (is_last columns) bb)

  -- The outer loop, from a row on.
  print_rows : List DbTableColumn → List ResultsRow → apr.Brigade → Option apr.Brigade
  unfolding print_columns
  print_rows columns [] bb = some bb
  print_rows columns (row ∷ rows) bb =
      elim (print_columns columns row (apr.brigade_puts bb (codes "\t\t\t{\n"))) [
        | none ↦ none
        | some printed ↦
            let closed = apr.brigade_puts printed (codes "\t\t\t}") in
            print_rows columns rows
              (if is_last rows then closed else apr.brigade_puts closed (codes ","))
      ]

  unfoldable pub output_db_result_json : QueryResults → DbQuery → apr.Brigade → Option apr.Brigade
  unfolding print_rows
  output_db_result_json results db_query bb = elim results.row_array [
    | none ↦ none
    | some rows ↦ print_rows db_query.select_columns rows bb
  ]
