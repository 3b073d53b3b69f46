-- ===== src/Database/Print.antt =====
-- The JSON text that output_db_result_json of src/database/db_config.c writes.
use mod_mp.Base.{
  if◌then◌else◌, length, Bytes, codes, ◌≡◌, refl, sym, ap, ◌∙◌, Bool, true, false, Option, some,
  List, [], ◌∷◌, ◌++◌, append-nil, append_assoc, arith,
}
use mathlib.Core.Option
use mod_mp.Apr.{Apr, AprLaws, str, format}
use mod_mp.Json.Escape.{escaped, json_escape_char-escaped}
use mod_mp.QueryParameters.{DbTableColumn}
use mod_mp.Database.{
  DbQuery, ResultsRow, is_last, column_format, print_column, print_columns, print_rows,
  output_db_result_json,
}
use mod_mp.Database.Results.{IsTable}

-- The specification: a member of an object, ...
pub json_member : Bytes → DbTableColumn → Option Bytes → Bytes
json_member null_text column entry =
    format null_text column_format
      (str (some column.freindly_name) ∷ str (Option.map escaped entry) ∷ [])

-- ... the members of a row, ...
pub json_members : Bytes → List DbTableColumn → ResultsRow → Bytes
json_members null_text [] row = []
json_members null_text (c ∷ columns) [] = []
json_members null_text (c ∷ columns) (entry ∷ row) =
    json_member null_text c entry
    ++ (if is_last columns then codes "\n" else codes ", \n")
    ++ json_members null_text columns row

-- ... and the objects of the rows, separated by commas.
pub json_rows : Bytes → List DbTableColumn → List ResultsRow → Bytes
json_rows null_text columns [] = []
json_rows null_text columns (row ∷ rows) =
    codes "\t\t\t{\n"
    ++ json_members null_text columns row
    ++ (if is_last rows then codes "\t\t\t}" else codes "\t\t\t},")
    ++ json_rows null_text columns rows

append_four : (b h m c r : Bytes) → (((b ++ h) ++ m) ++ c) ++ r ≡ b ++ (((h ++ m) ++ c) ++ r)
append_four b h m c r =
    ap (λ l. l ++ r) (ap (λ l. l ++ c) (append_assoc b h m) ∙ append_assoc b (h ++ m) c)
    ∙ append_assoc b ((h ++ m) ++ c) r

module _ (apr : Apr) (laws : AprLaws apr) where
  abbrev Writes : apr.Brigade → Bytes → Option apr.Brigade → Type 0
  Writes bb text r =
      (printed : apr.Brigade) × (r ≡ some printed)
      × (apr.brigade_bytes printed ≡ apr.brigade_bytes bb ++ text)

  print_column-bytes :
      (column : DbTableColumn) (entry : Option Bytes) (last : Bool) (bb : apr.Brigade)
      → apr.brigade_bytes (print_column apr column entry last bb)
        ≡ apr.brigade_bytes bb
          ++ (json_member apr.null_text column entry ++ (if last then codes "\n" else codes ", \n"))
  unfolding print_column json_member
  print_column-bytes column entry true bb =
      rw (laws.brigade-puts, laws.brigade-printf, json_escape_char-escaped apr laws entry)
        (append_assoc (apr.brigade_bytes bb) _ _)
  print_column-bytes column entry false bb =
      rw
        (
          laws.brigade-puts,
          laws.brigade-puts,
          laws.brigade-printf,
          json_escape_char-escaped apr laws entry,
        )
        (append_assoc (apr.brigade_bytes bb ++ _) (codes ", ") (codes "\n")
          ∙ append_assoc (apr.brigade_bytes bb) _ _)

  print_columns-Writes :
      (columns : List DbTableColumn) (row : ResultsRow) (bb : apr.Brigade)
      → length row ≡ length columns
      → Writes bb (json_members apr.null_text columns row) (print_columns apr columns row bb)
  unfolding print_columns json_members
  print_columns-Writes [] row bb h = (bb, refl, sym (append-nil (apr.brigade_bytes bb)))
  print_columns-Writes (c ∷ columns) [] bb h = absurd (omega arith)
  print_columns-Writes (c ∷ columns) (entry ∷ row) bb h =
      let (printed, done, bytes) =
        print_columns-Writes columns row (print_column apr c entry (is_last columns) bb)
          (omega arith) in
      (
        printed,
        done,
        bytes
            ∙ rw (print_column-bytes c entry (is_last columns) bb)
                (append_assoc (apr.brigade_bytes bb) _ _),
      )

  close_row : List ResultsRow → apr.Brigade → apr.Brigade
  close_row rows printed =
      let closed = apr.brigade_puts printed (codes "\t\t\t}") in
      if is_last rows then closed else apr.brigade_puts closed (codes ",")

  close_row-bytes :
      (rows : List ResultsRow) (bb : apr.Brigade)
      → apr.brigade_bytes (close_row rows bb)
        ≡ apr.brigade_bytes bb ++ (if is_last rows then codes "\t\t\t}" else codes "\t\t\t},")
  unfolding close_row
  close_row-bytes [] bb = laws.brigade-puts bb _
  close_row-bytes (x ∷ rows) bb =
      rw (laws.brigade-puts, laws.brigade-puts) (append_assoc (apr.brigade_bytes bb) _ _)

  print_rows-Writes :
      (columns : List DbTableColumn) (rows : List ResultsRow) (bb : apr.Brigade)
      → IsTable (length columns) rows
      → Writes bb (json_rows apr.null_text columns rows) (print_rows apr columns rows bb)
  unfolding print_rows json_rows close_row IsTable
  print_rows-Writes columns [] bb t = (bb, refl, sym (append-nil (apr.brigade_bytes bb)))
  print_rows-Writes columns (row ∷ rows) bb t =
      let (printed, done, bytes) =
        print_columns-Writes columns row (apr.brigade_puts bb (codes "\t\t\t{\n")) t.0 in
      let (last, all_done, rest) = print_rows-Writes columns rows (close_row rows printed) t.1 in
      (
        last,
        rw (print_rows, done) all_done,
        rest
            ∙ rw (close_row-bytes rows printed, bytes, laws.brigade-puts)
                (append_four (apr.brigade_bytes bb) (codes "\t\t\t{\n") _ _ _),
      )

  -- On results where every row has an entry for each selected column, the call stays inside them
  -- and appends to the brigade one JSON object for each row, separated by commas, with a member
  -- for each column: its friendly name and the entry, escaped.
  pub output_db_result_json-bytes :
      (db_query : DbQuery) (rows : List ResultsRow) (bb : apr.Brigade)
      → IsTable (length db_query.select_columns) rows
      → (printed : apr.Brigade) × (output_db_result_json apr
            (record { row_array = some rows })
            db_query
            bb
          ≡ some printed)
        × (apr.brigade_bytes printed
            ≡ apr.brigade_bytes bb ++ json_rows apr.null_text db_query.select_columns rows)
  unfolding output_db_result_json
  output_db_result_json-bytes db_query rows bb t =
      print_rows-Writes db_query.select_columns rows bb t
