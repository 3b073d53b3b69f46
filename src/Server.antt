-- ===== src/Server.antt =====
-- src/libmod_mp.h and libmod_mp.c, and src/web_server/apache_httpd/mod_mp.c: how the web server
-- starts the module, forks its processes, and handles a request. db_manager_init of
-- src/database/db_manager.c stands here too, for it does no more than start APR's drivers. The
-- outer `none` of a result is an access through a NULL pointer or another memory fault.
pub mod Startup
pub mod Fork
pub mod Handler
pub mod Hook
use mod_mp.Base.{
  ◌==◌, if◌then◌else◌, length, ℤ, is_nonzero, success, Bytes, codes, negsuc, ℕ, Bool, true, false,
  Option, none, some, List, [], ◌∷◌, map,
}
use mathlib.Core.Option
use mod_mp.Apr.{Apr}
use mod_mp.ErrorMessages.{
  ErrorMessage, ErrorMessages, error, error_messages_init_shared, error_messages_on_fork,
  error_messages_add, error_messages_duplicate,
}
use mod_mp.SharedMemory.{ShmCalls, setup_shared_memory}
use mod_mp.Input.{Input, input_init}
use mod_mp.Output.{Output, output_init_bb, output_finalize_bb, output_status_json}
use mod_mp.Indexers.{
  Indexer, IndexManager, file_indexer_callbacks, index_manager_init, index_manager_add,
  index_manager_on_fork, index_manager_find_indexer, indexer_init, file_indexer_query,
}

-- mp_srv_cfg. The database manager has no content that is read.
pub record SrvCfg : Type 0 where
  pub enable : ℕ
  pub pid : ℕ
  pub web_server_data : ℕ
  pub errors_shm_file : Bytes
  pub error_messages : Option ErrorMessages
  pub db_xml_config_dir : Option Bytes
  pub has_db_manager : Bool
  pub indexer_xml_config_dir : Option Bytes
  pub index_manager : Option IndexManager

-- What the operating system and the libraries answer while a server starts: getpid(), the calls on
-- shared memory and the segment at its base address (`none` for NULL), apr_dbd_init, and whether
-- apr_file_open succeeds on a path.
pub record Host : Type 0 where
  pub own_pid : ℕ
  pub shm : ShmCalls
  pub segment : Option (List ErrorMessage)
  pub dbd_init : ℕ
  pub opened : Bytes → Bool

unfoldable pub mod_mp_set_data : SrvCfg → ℕ → SrvCfg
mod_mp_set_data c value = record c { web_server_data = value }

-- The rest of the structure is zeros of apr_pcalloc.
unfoldable pub mp_config_srv : ℕ → SrvCfg
mp_config_srv s =
    mod_mp_set_data
      (record {
        enable = 0;
        pid = 0;
        web_server_data = 0;
        errors_shm_file = codes "/tmp/mp_errors";
        error_messages = none;
        db_xml_config_dir = none;
        has_db_manager = false;
        indexer_xml_config_dir = none;
        index_manager = none;
      })
      s

-- The three directives of the configuration file.
unfoldable pub mp_set_enable : SrvCfg → ℕ → SrvCfg
mp_set_enable c arg = record c { enable = arg }

unfoldable pub mp_set_db_xml_config_dir : SrvCfg → Bytes → SrvCfg
mp_set_db_xml_config_dir c arg = record c { db_xml_config_dir = some arg }

unfoldable pub mp_set_indexers_xml_config_dir : SrvCfg → Bytes → SrvCfg
mp_set_indexers_xml_config_dir c arg = record c { indexer_xml_config_dir = some arg }

-- `*db_manager_ptr` is set before the status of apr_dbd_init is read.
db_manager_init : Host → SrvCfg → ℕ × SrvCfg
db_manager_init host c = (host.dbd_init, record c { has_db_manager = true })

-- The label `error_out`.
error_out : SrvCfg → ℤ × SrvCfg
error_out c = (negsuc 0, record c { enable = 0 })

-- error_messages_init_shared with the call of setup_shared_memory that it makes.
init_shared : Host → Bytes → Option ErrorMessages
init_shared host file =
    error_messages_init_shared
      (if is_nonzero (setup_shared_memory host.shm).0 then none else host.segment) file

module _ (apr : Apr) where
  -- apr_pstrcat ends at its first NULL.
  file_indexer_xml_config : SrvCfg → Bytes
  file_indexer_xml_config c = elim c.indexer_xml_config_dir [
    | none ↦ apr.pstrcat []
    | some dir ↦ apr.pstrcat (dir ∷ codes "/file.xml" ∷ [])
  ]

  -- mod_mp_init behind the database manager.
  init_indexers : Host → SrvCfg → ErrorMessages → ℤ × SrvCfg
  unfolding file_indexer_xml_config
  init_indexers host c em =
      let (_, file_indexer, logged) =
        indexer_init apr host.own_pid host.opened (codes "file") (file_indexer_xml_config c)
          file_indexer_callbacks em in
      let (_, index_manager) = index_manager_add index_manager_init file_indexer in
      (success, record c { error_messages = some logged; index_manager = some index_manager })

  unfoldable pub mod_mp_init : Host → SrvCfg → ℤ × SrvCfg
  unfolding db_manager_init error_out init_shared init_indexers
  mod_mp_init host c =
      let started = record c { pid = host.own_pid } in
      elim (init_shared host c.errors_shm_file) [
        | none ↦ error_out started
        | some em ↦
            let (rv, managed) =
              db_manager_init host (record started { error_messages = some em }) in
            if rv == 0 then init_indexers host managed em else error_out managed
      ]

  -- mp_post_config: `data` says whether the user data of the process pool is set. Each server comes
  -- with what its host answers. The result has the user data.
  init_servers : List (Host × SrvCfg) → List (Host × SrvCfg)
  init_servers [] = []
  init_servers ((host, c) ∷ next) =
      (host, (if c.enable == 0 then c else (mod_mp_init host c).1)) ∷ init_servers next

  unfoldable pub mp_post_config : Bool → List (Host × SrvCfg) → Bool × List (Host × SrvCfg)
  unfolding init_servers
  mp_post_config false servers = (true, servers)
  mp_post_config true servers = (true, init_servers servers)

  -- `segment` is the table in the shared memory, and `attached` says whether it can be attached.
  -- db_manager_on_fork does nothing.
  fork_mod_mp : Bool → ErrorMessages → ℕ → SrvCfg → Option SrvCfg
  fork_mod_mp attached segment child_pool c = elim c.error_messages [
    | none ↦ none
    | some em ↦ elim (error_messages_on_fork attached segment em) [
      | none ↦ none
      | some (_, own) ↦ elim c.index_manager [
        | none ↦ none
        | some m ↦
            Option.map
              (λ forked. record c { error_messages = some own; index_manager = some forked })
              (index_manager_on_fork attached segment em m child_pool)
      ]
    ]
  ]

  -- The body of the loop of mp_child_init, in the process `own_pid`.
  unfoldable pub child_init : Bool → ErrorMessages → ℕ → SrvCfg → Option SrvCfg
  unfolding fork_mod_mp
  child_init attached segment own_pid c =
      if c.enable == 0
      then some c
      else if own_pid == c.pid
      then some c
      else fork_mod_mp attached segment own_pid c

  -- `output_filters` is the address of the request's first filter.
  pub record Request : Type 0 where
    pub output_filters : ℕ
    pub uri : Option Bytes
    pub method_number : ℕ
    pub headers_out : apr.Table

  -- What is sent, and the filter that the body is passed to.
  pub record Response : Type 0 where
    pub filters : ℕ
    pub content_type : Bytes
    pub content_length : ℕ
    pub headers : apr.Table
    pub body : apr.Brigade

  pub data Answer : Type 0 where
    declined : Answer
    ok : Response → Answer

  -- The input that it stores for the handler.
  unfoldable pub mp_fixups : Request → Option (Input apr)
  mp_fixups r = input_init apr r.uri r.method_number

  -- The part of mp_handler that ends the response. It passes the body to `output->filters`, which is
  -- commented out in output.h, so that the file does not compile: the filters here are those of the
  -- request, which the call of output_init_bb was meant to store there.
  finish : Output apr → Request → Answer
  finish output r =
      let (status, sent, headers_out) = output_finalize_bb apr output r.headers_out in
      if status == 0
      then ok (record {
        filters = r.output_filters;
        content_type = sent.content_type;
        content_length = sent.length;
        headers = headers_out;
        body = sent.bucket_brigade;
      })
      else declined

  -- The part that runs the indexer, by the status and the indexer that the search gave.
  -- file_indexer_query leaves the output as it is.
  run_indexer : ℤ → Output apr → Option (Output apr)
  run_indexer status output =
      if is_nonzero status
      then output_status_json apr (record output {
        error_messages =
            (error_messages_add output.error_messages error (codes "Error With Query")
              (codes "No indexer found!")).1;
      })
      else some output

  -- Behind the input. The call of output_init_bb has an argument more than the function takes,
  -- `r->output_filters`: the model makes the call that output.h declares.
  handle : SrvCfg → ErrorMessages → Request → Input apr → Option Answer
  unfolding finish run_indexer
  handle c em r input =
      let output = output_init_bb apr in
      elim (error_messages_duplicate output.error_messages em) [
        | none ↦ none
        | some copied ↦ elim c.index_manager [
          | none ↦ none
          | some m ↦ elim (index_manager_find_indexer apr m input.indexer_string) [
            | none ↦ none
            | some (status, indexer) ↦
                Option.map (λ done. finish done r)
                  (run_indexer status (record output { error_messages = copied }))
          ]
        ]
      ]

  -- `stored` is the input of mp_fixups, `none` if no fixup ran.
  unfoldable pub mp_handler : SrvCfg → Request → Option (Input apr) → Option Answer
  unfolding handle
  mp_handler c r stored =
      if c.enable == 1
      then elim c.error_messages [
        | none ↦ some declined
        | some em ↦ elim stored [
          | some input ↦ handle c em r input
          | none ↦ elim (input_init apr r.uri r.method_number) [
            | none ↦ none
            | some input ↦ handle c em r input
          ]
        ]
      ]
      else some declined
