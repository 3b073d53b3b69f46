-- ===== src/Examples/Data.antt =====
-- The database connections and results at concrete inputs.
use mod_mp.Base.{length, success, codes, negsuc, ◌≡◌, refl, none, some, List, [], ◌∷◌, ◌++◌}
use mod_mp.ErrorMessages.{error_messages_init}
use mod_mp.QueryParameters.{DbTableColumn, varchar}
use mod_mp.Database.{
  DbConfig, DbQuery, ResultsRow, get_column_results_for_row, output_db_result_json,
}
use mod_mp.Database.Connections.{run_queries, statuses_of, Exhausts, run_queries-Exhausts}
use mod_mp.Database.Results.{IsTable, under, found_entry, get_column_results_for_row-under}
use mod_mp.Database.Print.{json_rows, output_db_result_json-bytes}
use mod_mp.Examples.Platform.{plain_apr, plain_laws}

abbrev two_connections : DbConfig
two_connections = record {
  error_messages = error_messages_init;
  db_params = none;
  db_conn_list = some (5 ∷ 6 ∷ []);
}

run_queries-Exhausts_example : Exhausts 4 (5 ∷ 6 ∷ []) (run_queries 4 two_connections)
run_queries-Exhausts_example = run_queries-Exhausts 4 two_connections (5 ∷ 6 ∷ []) refl

four_statuses : statuses_of 4 (5 ∷ 6 ∷ []) ≡ success ∷ success ∷ negsuc 89 ∷ negsuc 89 ∷ []
unfolding statuses_of
four_statuses = refl

abbrev pub title : DbTableColumn
title = record {
  address = 1;
  id = codes "t";
  name = codes "title";
  freindly_name = codes "title";
  type = varchar;
  table = record { id = codes "s"; name = codes "songs"; foreign_key = none };
}

abbrev album : DbTableColumn
album = record title { address = 2; freindly_name = codes "album" }

abbrev pub songs_query : DbQuery
songs_query = record {
  id = some (codes "songs");
  db_config = two_connections;
  select_columns = title ∷ album ∷ [];
}

abbrev second_row : ResultsRow
second_row = some (codes "b") ∷ none ∷ []

abbrev two_rows : List ResultsRow
two_rows = (some (codes "a") ∷ some (codes "x\"y") ∷ []) ∷ second_row ∷ []

two_rows-IsTable : IsTable (length songs_query.select_columns) two_rows
unfolding IsTable
two_rows-IsTable = (refl, (refl, tt))

get_column_results_for_row-under_example :
    get_column_results_for_row songs_query (record { row_array = some two_rows }) album 1
    ≡ some (found_entry (under 2 (title ∷ album ∷ []) second_row))
get_column_results_for_row-under_example =
    get_column_results_for_row-under songs_query two_rows album 1 second_row two_rows-IsTable refl

output_db_result_json-bytes_example :
    (printed : plain_apr.Brigade) × (output_db_result_json plain_apr
        (record { row_array = some two_rows })
        songs_query
        plain_apr.brigade_create
      ≡ some printed)
    × (plain_apr.brigade_bytes printed
        ≡ plain_apr.brigade_bytes plain_apr.brigade_create
          ++ json_rows plain_apr.null_text (title ∷ album ∷ []) two_rows)
output_db_result_json-bytes_example =
    output_db_result_json-bytes plain_apr plain_laws songs_query two_rows plain_apr.brigade_create
      two_rows-IsTable
