-- ===== src/DirSync/Status.antt =====
-- output_dirsync_status of src/indexers/music/dir_sync/dir_sync.c: the status page.
use mod_mp.Base.{
  if◌then◌else◌, success, Bytes, codes, ℕ, ◌≡◌, refl, Bool, true, false, Option, none, some, List,
  [], ◌∷◌,
}
use mod_mp.Apr.{Apr, int, str}
use mod_mp.Output.{Output}
use mod_mp.ErrorMessages.{ErrorMessages}
use mod_mp.Database.{DbQuery, QueryResults, db_query_run, output_db_result_json}
use mod_mp.Database.Connections.{run_served}

-- The path of a directory, its progress as `%.2f` prints it, and its counter.
pub record DirProgress : Type 0 where
  pub path : Bytes
  pub sync_progress : Bytes
  pub files_scanned : ℕ

module _ (apr : Apr) where
  -- One round of the loop, with whether the directory is the last one.
  unfoldable pub print_dir : DirProgress → Bool → apr.Brigade → apr.Brigade
  print_dir dir last bb =
      let opened = apr.brigade_printf bb (codes "\t\t\"%s\" : {\n") (str (some dir.path) ∷ []) in
      let progress =
        apr.brigade_printf opened (codes "\t\t\"Progress\" :  \"%.2f\",\n")
          (str (some dir.sync_progress) ∷ []) in
      let scanned =
        apr.brigade_printf progress (codes "\t\t\"Files Scanned\" :  \"%d\"\n")
          (int dir.files_scanned ∷ []) in
      let closed = apr.brigade_printf scanned (codes "\t\t}") [] in
      if last then closed else apr.brigade_printf closed (codes ",") []

  unfoldable pub print_dirs : List DirProgress → apr.Brigade → apr.Brigade
  unfolding print_dir
  print_dirs [] bb = bb
  print_dirs (dir ∷ dirs) bb =
      print_dirs dirs (print_dir dir (elim dirs [ [] ↦ true | d ∷ ds ↦ false ]) bb)

  -- `print_error_messages`, which nothing defines, is a parameter.
  unfoldable pub output_dirsync_status :
      (apr.Brigade → ErrorMessages → apr.Brigade)
      → Option (List DirProgress)
      → QueryResults
      → DbQuery
      → Output apr
      → Option (Output apr)
  unfolding print_dirs
  output_dirsync_status print_error_messages music_dirs results q output =
      let opened = apr.brigade_puts output.bucket_brigade (codes "{\n") in
      let listed : apr.Brigade = elim music_dirs [
        | none ↦ opened
        | some dirs ↦
            apr.brigade_puts
              (print_dirs dirs (apr.brigade_puts opened (codes "\t\"dir_sync_status\" : {\n")))
              (codes "\t},\n")
      ] in
      elim (output_db_result_json apr results q
        (apr.brigade_puts listed (codes "\t\"db_status\" : "))) [
          | none ↦ none
          | some printed ↦ some (record output {
            headers =
                apr.table_add output.headers (codes "Access-Control-Allow-Origin") (codes "*");
            content_type = apr.cpystrn (codes "application/json") 255;
            bucket_brigade =
                apr.brigade_puts
                  (print_error_messages (apr.brigade_puts printed (codes "\n,"))
                    output.error_messages)
                  (codes "\n}\n");
          })
        ]

  -- With the results that db_query_run gives at this commit, on any free connection, the status page
  -- reads the rows through a NULL pointer, whatever the directories are.
  output_dirsync_status-run :
      (print_error_messages : apr.Brigade → ErrorMessages → apr.Brigade)
      → (music_dirs : Option (List DirProgress)) (q : DbQuery) (conn : ℕ) (conns : List ℕ)
      → (output : Output apr) → q.db_config.db_conn_list ≡ some (conn ∷ conns)
      → (results : QueryResults) × (db_query_run q.db_config
          ≡ some (success, results, record (q.db_config) { db_conn_list = some conns }))
        × (output_dirsync_status print_error_messages music_dirs results q output ≡ none)
  unfolding output_dirsync_status output_db_result_json
  output_dirsync_status-run print_error_messages music_dirs q conn conns output h =
      (record { row_array = none }, run_served q.db_config conn conns h, refl)
