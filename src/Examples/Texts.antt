-- ===== src/Examples/Texts.antt =====
-- JSON texts, error messages, URIs and WHERE conditions at concrete inputs.
use mod_mp.Base.{
  drop, all, ℤ, success, Bytes, codes, strchr, negsuc, ◌+◌, ◌≤◌, ◌<◌, ◌≡◌, refl, ◌⊎◌, inl, true,
  false, Option, none, some, [], ◌∷◌, ◌++◌, arith,
}
use mathlib.Core.Option
use mod_mp.Json.{json_escape_char}
use mod_mp.Json.Escape.{
  escaped, read_string, read_string-json_escape_char, json_escape_char-escaped,
}
use mod_mp.ErrorMessages.{
  is_terminated, ErrorMessages, warn, max_errors, strncpy, error_messages_init, error_messages_add,
  error_messages_duplicate, error_messages_print_json_bb,
}
use mod_mp.ErrorMessages.Invariant.{
  IsValid, error_messages_init-IsValid, error_messages_add-IsValid,
}
use mod_mp.ErrorMessages.Table.{
  recorded, error_messages_add-recorded, error_messages_duplicate-recorded,
}
use mod_mp.ErrorMessages.Print.{errors_json, error_messages_print_json_bb-bytes}
use mod_mp.Input.{get_parameters_from_uri, input_init}
use mod_mp.Input.Query.{segments}
use mod_mp.Input.Parameters.{merge_all, get_parameters_from_uri-segments}
use mod_mp.Input.Address.{Lacks-any, input_init-parts, input_init-slash_in_query}
use mod_mp.QueryParameters.{
  DbTableColumn, DbQueryParameters, like, is_in, int, varchar, db_query_parameters_init,
  db_query_parameter_add_where,
}
use mod_mp.QueryParameters.Where.{
  added, where_of, is_number_byte, db_query_parameter_add_where-where_of,
  db_query_parameter_add_where-all,
}
use mod_mp.Examples.Platform.{plain_apr, plain_laws}

-- A text with a quote and a backslash.
abbrev nasty : Bytes
nasty = codes "a\"b\\c"

json_escape_char-escaped_example :
    json_escape_char plain_apr (some nasty) ≡ Option.map escaped (some nasty)
json_escape_char-escaped_example = json_escape_char-escaped plain_apr plain_laws (some nasty)

nasty_escaped : json_escape_char plain_apr (some nasty) ≡ some (codes "a\\\"b\\\\c")
unfolding escaped
nasty_escaped = json_escape_char-escaped plain_apr plain_laws (some nasty)

read_string-json_escape_char_example :
    read_string (codes "a\\\"b\\\\c" ++ b'"' ∷ codes "}") ≡ some (nasty, codes "}")
read_string-json_escape_char_example =
    read_string-json_escape_char plain_apr plain_laws nasty (codes "}") (codes "a\\\"b\\\\c")
      nasty_escaped

error_messages_add-recorded_example :
    ((0 < max_errors)
      × ((error_messages_add error_messages_init warn (codes "h") nasty).0 ≡ success)
      × (recorded (error_messages_add error_messages_init warn (codes "h") nasty).1
          ≡ recorded error_messages_init
            ++ record { type = warn; header = strncpy (codes "h"); message = strncpy nasty } ∷ []))
    ⊎ ((max_errors ≤ 0)
        × (error_messages_add error_messages_init warn (codes "h") nasty
            ≡ (negsuc 0, error_messages_init)))
unfolding error_messages_init
error_messages_add-recorded_example =
    error_messages_add-recorded error_messages_init warn (codes "h") nasty
      error_messages_init-IsValid

one_message : ErrorMessages
one_message = (error_messages_add error_messages_init warn (codes "h") nasty).1

one_message-IsValid : IsValid one_message
unfolding one_message
one_message-IsValid =
    error_messages_add-IsValid error_messages_init warn (codes "h") nasty
      error_messages_init-IsValid

error_messages_duplicate-recorded_example :
    ((error_messages_init.num_errors + one_message.num_errors ≤ max_errors)
      × (r : ErrorMessages) × (error_messages_duplicate error_messages_init one_message ≡ some r)
      × IsValid r
      × (recorded r ≡ recorded error_messages_init ++ recorded one_message)
      × (r.num_errors ≡ error_messages_init.num_errors + one_message.num_errors))
    ⊎ ((max_errors < error_messages_init.num_errors + one_message.num_errors)
        × (error_messages_duplicate error_messages_init one_message ≡ none))
error_messages_duplicate-recorded_example =
    error_messages_duplicate-recorded error_messages_init one_message error_messages_init-IsValid
      one_message-IsValid

error_messages_print_json_bb-bytes_example :
    ((all is_terminated (recorded one_message) ≡ true)
      × (printed : plain_apr.Brigade) × (error_messages_print_json_bb plain_apr one_message
            plain_apr.brigade_create
          ≡ some printed)
      × (plain_apr.brigade_bytes printed
          ≡ plain_apr.brigade_bytes plain_apr.brigade_create
            ++ errors_json plain_apr.null_text (recorded one_message)))
    ⊎ ((all is_terminated (recorded one_message) ≡ false)
        × (error_messages_print_json_bb plain_apr one_message plain_apr.brigade_create ≡ none))
error_messages_print_json_bb-bytes_example =
    error_messages_print_json_bb-bytes plain_apr plain_laws one_message plain_apr.brigade_create
      one_message-IsValid

get_parameters_from_uri-segments_example :
    get_parameters_from_uri plain_apr (codes "/a/b?x=1&&y;z=2=3")
    ≡ elim (strchr b'?' (codes "/a/b?x=1&&y;z=2=3")) as (λ _. ℤ × Option plain_apr.Table) [
      | none ↦ (negsuc 0, none)
      | some query ↦ (
        success,
        some (
            merge_all plain_apr plain_apr.table_make
              (segments (drop (query + 1) (codes "/a/b?x=1&&y;z=2=3")))),
      )
    ]
get_parameters_from_uri-segments_example =
    get_parameters_from_uri-segments plain_apr plain_laws (codes "/a/b?x=1&&y;z=2=3")

input_init-parts_example :
    input_init plain_apr (some (codes "/music/songs?sort_by=title")) 0
    ≡ some (record {
      method = 0;
      uri = some (codes "/music/songs?sort_by=title");
      indexer_string = some (codes "music");
      command_string = some (codes "songs");
      parameter_strings =
          some (merge_all plain_apr plain_apr.table_make (segments (codes "sort_by=title")));
    })
input_init-parts_example =
    input_init-parts plain_apr plain_laws 0 (codes "music") (codes "songs") (codes "sort_by=title")
      (omega arith) (Lacks-any b'/' (codes "music") refl) (Lacks-any b'?' (codes "music") refl)
      (Lacks-any b'?' (codes "songs") refl)

input_init-slash_in_query_example : input_init plain_apr (some (codes "/music?a/b")) 0 ≡ none
input_init-slash_in_query_example =
    input_init-slash_in_query plain_apr plain_laws 0 b'/' (codes "music") (codes "a") (codes "b")
      (Lacks-any b'/' (codes "music") refl) (Lacks-any b'?' (codes "music") refl)
      (Lacks-any b'/' (codes "a") refl)

abbrev number_column : DbTableColumn
number_column = record {
  address = 1;
  id = codes "id";
  name = codes "id";
  freindly_name = codes "id";
  type = int;
  table = record { id = codes "t"; name = codes "t"; foreign_key = none };
}

abbrev text_column : DbTableColumn
text_column = record number_column { type = varchar }

-- The parameters of a query, once the caller has set the pool.
abbrev ready_parameters : DbQueryParameters
ready_parameters = record db_query_parameters_init { has_pool = true }

db_query_parameter_add_where-where_of_example :
    db_query_parameter_add_where plain_apr ready_parameters text_column (codes "ab*c*")
    ≡ added ready_parameters text_column (where_of varchar (codes "ab*c*"))
db_query_parameter_add_where-where_of_example =
    db_query_parameter_add_where-where_of plain_apr plain_laws ready_parameters text_column
      (codes "ab*c*") refl

text_accepted : where_of varchar (codes "ab*c*") ≡ some (like, codes "\"ab%c%\"")
unfolding where_of
text_accepted = refl

-- After a list of two numbers.
abbrev with_numbers : DbQueryParameters
with_numbers = record ready_parameters {
  where_conditions =
      record { column = number_column; operator = is_in; condition = codes "(1,2)" } ∷ [];
}

numbers_accepted :
    db_query_parameter_add_where plain_apr ready_parameters number_column (codes "1,2")
    ≡ some (success, with_numbers)
unfolding where_of added db_query_parameters_init
numbers_accepted =
    db_query_parameter_add_where-where_of plain_apr plain_laws ready_parameters number_column
      (codes "1,2") refl

db_query_parameter_add_where-all_example :
    all (λ w. all is_number_byte w.condition) with_numbers.where_conditions ≡ true
unfolding db_query_parameters_init
db_query_parameter_add_where-all_example =
    db_query_parameter_add_where-all plain_apr plain_laws ready_parameters with_numbers
      number_column (codes "1,2") refl (inl refl) refl numbers_accepted
