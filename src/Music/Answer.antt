-- ===== src/Music/Answer.antt =====
-- The answer to a query of the music library: music_query.c and pull_song.c of src/indexers/music/.
-- The transcoder, whose body is commented out, and the status page are parameters.
pub mod NoRows
use mod_mp.Base.{
  if◌then◌else◌, ℤ, is_nonzero, success, Bytes, codes, negsuc, ℕ, ◌*◌, Bool, Option, none, some,
  List, [], ◌∷◌,
}
use mod_mp.Apr.{Apr, int, str}
use mod_mp.ErrorMessages.{ErrorMessages, error_messages_duplicate, error_messages_print_json_bb}
use mod_mp.Output.{Output, output_status_json}
use mod_mp.QueryParameters.{DbTableColumn}
use mod_mp.Database.{
  DbQuery, QueryResults, db_query_run, get_column_results_for_row, output_db_result_json,
  find_select_column_from_query_by_table_id_and_query_id,
}
use mod_mp.Music.{
  QueryType, songs, albums, artists, sources, transcode, play, status, Lookups, MusicQuery,
  add_error, get_music_query,
}

abbrev pub print_header : Bytes
print_header = codes "Error printing query"

abbrev pub print_text : Bytes
print_text = codes "URI: %s, query->db_query: %d, query->results: %d, query->results->rows: %d"

-- What the answer needs of the system and of the parts left out.
pub record AnswerCalls (apr : Apr) : Type 1 where
  -- apr_file_open succeeds, and the size of apr_stat
  pub file_opens : Bytes → Bool
  pub file_size : Bytes → ℕ
  -- apr_brigade_insert_file from the start of the file
  pub brigade_insert_file : apr.Brigade → Bytes → ℕ → apr.Brigade
  pub itoa : ℤ → Bytes
  -- add_error_list, which pull_song.c calls and no file declares
  pub add_error_list : ErrorMessages → Bytes → Bytes → ErrorMessages
  pub transcode_audio : MusicQuery → Output apr → Option (ℤ × Output apr)
  pub output_dirsync_status : MusicQuery → Output apr → Option (Output apr)

module _ (apr : Apr) (calls : AnswerCalls apr) where
  -- The headers that a JSON answer starts with.
  unfoldable pub json_headers : Output apr → Output apr
  json_headers output = record output {
    headers = apr.table_add output.headers (codes "Access-Control-Allow-Origin") (codes "*");
    content_type = apr.cpystrn (codes "application/json") 255;
  }

  unfoldable pub set_messages : ErrorMessages → Output apr → Output apr
  set_messages em output = record output { error_messages = em }

  unfoldable pub add_message : Bytes → Bytes → Output apr → Output apr
  unfolding set_messages add_error
  add_message header text output = set_messages (add_error header text output.error_messages) output

  -- The id and the rows, unless one of the four pointers is NULL.
  unfoldable pub printable : DbQuery → QueryResults → Option Bytes
  printable q results = elim q.id [
    | none ↦ none
    | some id ↦ elim results.row_array [ none ↦ none | some rows ↦ some id ]
  ]

  -- The message, whose conversions get no arguments, if there is nothing to print.
  unfoldable pub note_missing : Option Bytes → Output apr → Output apr
  unfolding add_message
  note_missing none output = add_message print_header print_text output
  note_missing (some id) output = output

  unfoldable pub print_rows_part :
      Option Bytes → DbQuery → QueryResults → apr.Brigade → Option apr.Brigade
  print_rows_part none q results bb = some bb
  print_rows_part (some id) q results bb =
      elim (output_db_result_json apr results q
        (apr.brigade_printf bb (codes ",\n\t\"%s\" :[\n") (str (some id) ∷ []))) [
          | none ↦ none
          | some printed ↦ some (apr.brigade_puts printed (codes "\n\t]"))
        ]

  -- Behind the test, with the id if the rows are to be printed.
  unfoldable pub print_query :
      Option Bytes → DbQuery → QueryResults → Output apr → Option (Output apr)
  unfolding note_missing print_rows_part
  print_query id q results output =
      let noted = note_missing id output in
      elim (error_messages_duplicate noted.error_messages q.db_config.error_messages) [
        | none ↦ none
        | some em ↦
            elim (error_messages_print_json_bb apr em
              (apr.brigade_puts noted.bucket_brigade (codes "{\n"))) [
                | none ↦ none
                | some printed ↦ elim (print_rows_part id q results printed) [
                  | none ↦ none
                  | some bb ↦ some (record noted {
                    bucket_brigade = apr.brigade_puts bb (codes "\n}\n");
                    error_messages = em;
                  })
                ]
              ]
      ]

  unfoldable pub output_db_query_json : DbQuery → QueryResults → Output apr → Option (Output apr)
  unfolding json_headers printable print_query
  output_db_query_json q results output =
      print_query (printable q results) q results (json_headers output)

  unfoldable pub list_error : Bytes → Bytes → Output apr → Output apr
  unfolding set_messages
  list_error header text output =
      set_messages (calls.add_error_list output.error_messages header text) output

  -- Behind the two entries of the first row.
  unfoldable pub send_file : Option Bytes → Option Bytes → Output apr → ℤ × Output apr
  unfolding list_error
  send_file none file_type output = (
    negsuc 0,
    list_error (codes "Error Playing Song") (codes "Error with getting file_path from results")
        output,
  )
  send_file (some file_path) file_type output =
      if calls.file_opens file_path
      then (
        success,
        record output {
          content_type = apr.cpystrn (apr.psprintf (codes "audio/%s") (str file_type ∷ [])) 255;
          headers = apr.table_add output.headers (codes "Accept-Ranges") (codes "bytes");
          bucket_brigade =
              calls.brigade_insert_file output.bucket_brigade file_path (calls.file_size file_path);
        },
      )
      else (
        negsuc 6,
        list_error (codes "Error Playing Song")
            (apr.psprintf (codes "Error opening file (%s)") (str (some file_path) ∷ [])) output,
      )

  -- Behind the two columns; none for an entry that is not there.
  unfoldable pub pull_entries :
      DbQuery → QueryResults → DbTableColumn → DbTableColumn → Output apr → Option (ℤ × Output apr)
  unfolding send_file
  pull_entries q results file_path_col file_type_col output =
      elim (get_column_results_for_row q results file_path_col 0) [
        | none ↦ none
        | some (_, none) ↦ some (negsuc 13, output)
        | some (_, some file_path) ↦ elim (get_column_results_for_row q results file_type_col 0) [
          | none ↦ none
          | some (_, none) ↦ some (negsuc 13, output)
          | some (_, some file_type) ↦ some (send_file file_path file_type output)
        ]
      ]

  unfoldable pub pull_song : DbQuery → QueryResults → Output apr → Option (ℤ × Output apr)
  unfolding pull_entries
  pull_song q results output =
      elim (find_select_column_from_query_by_table_id_and_query_id apr q.select_columns
        (codes "sources") (codes "path")) [
          | none ↦ some (negsuc 10, output)
          | some file_path_col ↦
              elim (find_select_column_from_query_by_table_id_and_query_id apr q.select_columns
                (codes "sources") (codes "type")) [
                  | none ↦ some (negsuc 10, output)
                  | some file_type_col ↦ pull_entries q results file_path_col file_type_col output
                ]
        ]

  -- Behind pull_song and transcode_audio: a status that is not 0 is printed.
  unfoldable pub report : Bytes → ℤ × Output apr → Option (Output apr)
  unfolding add_message
  report header (error_num, output) =
      if is_nonzero error_num
      then output_status_json apr (add_message header (calls.itoa error_num) output)
      else some output

  -- The switch on the type.
  unfoldable pub answer :
      QueryType → MusicQuery → DbQuery → QueryResults → Output apr → Option (Output apr)
  unfolding output_db_query_json pull_song report json_headers
  answer songs mq q results output = output_db_query_json q results output
  answer albums mq q results output = output_db_query_json q results output
  answer artists mq q results output = output_db_query_json q results output
  answer sources mq q results output = output_db_query_json q results output
  answer play mq q results output = elim (pull_song q results output) [
    | none ↦ none
    | some r ↦ report (codes "Error playing audio") r
  ]
  answer transcode mq q results output = elim (calls.transcode_audio mq (json_headers output)) [
    | none ↦ none
    | some r ↦ report (codes "Error transcoding audio") r
  ]
  answer status mq q results output = calls.output_dirsync_status mq output

  -- Behind get_music_query with status 0. The results that db_query_run gives are never NULL.
  unfoldable pub run_query : MusicQuery → Output apr → Option (Output apr)
  unfolding answer add_message
  run_query mq output = elim mq.db_query [
    | none ↦ output_status_json apr output
    | some q ↦ elim (db_query_run q.db_config) [
      | none ↦ none
      | some (error_num, results, config) ↦
          if is_nonzero error_num
          then output_status_json apr
              (add_message (codes "Select DB Range Error") (codes "Couln't run music query") output)
          else answer mq.type mq (record q { db_config = config }) results output
    ]
  ]

  -- The status and the query of get_music_query; its messages are those of the output.
  unfoldable pub answer_query : ℤ × MusicQuery → Output apr → Option (Output apr)
  unfolding run_query set_messages
  answer_query (rv, mq) output =
      let noted = set_messages mq.error_messages output in
      if is_nonzero rv then output_status_json apr noted else run_query mq noted

  -- music_indexer_query, for the words of the URI; `has_queries` is whether globals->db_queries is
  -- not NULL.
  unfoldable pub music_indexer_query :
      Lookups → Bool → Option (List Bytes) → Output apr → Option (Output apr)
  unfolding answer_query
  music_indexer_query look has_queries words output =
      if has_queries
      then elim (get_music_query apr look words (record {
        type = songs;
        db_query = none;
        db_query_parameters = none;
        error_messages = output.error_messages;
      })) [ none ↦ none | some r ↦ answer_query r output ]
      else output_status_json apr output
