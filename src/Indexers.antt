-- ===== src/Indexers.antt =====
-- src/indexers/: index_manager.h and index_manager.c, indexer.h and indexer.c, and
-- file/file_indexer.c, the one indexer that the server registers.
pub mod Registry
use mod_mp.Base.{
  if◌then◌else◌, ℤ, success, Bytes, codes, negsuc, ℕ, ◌+◌, Bool, Option, none, some, List, [], ◌∷◌,
  map,
}
use mod_mp.Apr.{Apr, str}
use mod_mp.ErrorMessages.{ErrorMessages, error, error_messages_addf, error_messages_on_fork}
use mathlib.Core.Option

-- The table of callbacks that an indexer points to; file_indexer_callbacks is the only one.
pub data IndexerCallbacks : Type 0 where
  file_indexer_callbacks : IndexerCallbacks

-- The pools are not kept, and `error_messages` is the server's own table. `pool` is the process
-- that owns it, by its number.
pub record Indexer : Type 0 where
  pub id : Bytes
  pub friendly_name : Option Bytes
  pub pool : ℕ
  pub callbacks : IndexerCallbacks

-- The linked list from `first_node`.
pub record IndexManager : Type 0 where
  pub count : ℕ
  pub nodes : List Indexer

unfoldable pub index_manager_init : IndexManager
index_manager_init = record { count = 0; nodes = [] }

-- The two branches on an empty list put the new node in front alike.
unfoldable pub index_manager_add : IndexManager → Indexer → ℤ × IndexManager
index_manager_add m indexer = (success, record m { count = m.count + 1; nodes = indexer ∷ m.nodes })

-- file_indexer_query and file_indexer_init, of which the manager calls the first.
unfoldable pub file_indexer_query : Option Indexer → ℤ
file_indexer_query none = negsuc 0
file_indexer_query (some indexer) = success

-- The loop of index_manager_on_fork: the new pool, then file_indexer_on_fork, which attaches the
-- indexer's table of messages again; its status is not read. `none` is the fault of the attach.
fork_nodes : Bool → ErrorMessages → ErrorMessages → ℕ → List Indexer → Option (List Indexer)
fork_nodes attached segment em child_pool [] = some []
fork_nodes attached segment em child_pool (indexer ∷ next) =
    let forked = record indexer { pool = child_pool } in
    elim (error_messages_on_fork attached segment em) [
      | none ↦ none
      | some _ ↦
          Option.map (λ nodes. forked ∷ nodes) (fork_nodes attached segment em child_pool next)
    ]

unfoldable pub index_manager_on_fork :
    Bool → ErrorMessages → ErrorMessages → IndexManager → ℕ → Option IndexManager
unfolding fork_nodes
index_manager_on_fork attached segment em m child_pool =
    Option.map (λ nodes. record m { nodes = nodes })
      (fork_nodes attached segment em child_pool m.nodes)

module _ (apr : Apr) where
  -- The loop over the nodes. The outer `none` is apr_strnatcmp on a NULL name.
  find_node : List Indexer → Option Bytes → Option (Option Indexer)
  find_node [] indexer_name = some none
  find_node (indexer ∷ next) indexer_name =
      let rest = find_node next indexer_name in
      elim indexer.friendly_name [
        | none ↦ rest
        | some friendly_name ↦ elim indexer_name [
          | none ↦ none
          | some name ↦
              if apr.strnatcmp_is_zero friendly_name name then some (some indexer) else rest
        ]
      ]

  unfoldable pub index_manager_find_indexer :
      IndexManager → Option Bytes → Option (ℤ × Option Indexer)
  unfolding find_node
  index_manager_find_indexer m indexer_name = elim (find_node m.nodes indexer_name) [
    | none ↦ none
    | some none ↦ some (negsuc 0, none)
    | some (some indexer) ↦ some (success, some indexer)
  ]

  -- `opened` says whether apr_file_open succeeds.
  indexer_read_xml_config : (Bytes → Bool) → Bytes → ErrorMessages → ℤ × ErrorMessages
  indexer_read_xml_config opened path em = if opened path then (success, em) else (
    negsuc 0,
    (error_messages_addf em error (codes "Indexer Error") (
        some (apr.psprintf (codes "Check file permission or path (%s)") (str (some path) ∷ [])))).1,
  )

  -- The status of indexer_read_xml_config is not read, and the friendly name stays NULL.
  unfoldable pub indexer_init :
      ℕ
      → (Bytes → Bool)
      → Bytes
      → Bytes
      → IndexerCallbacks
      → ErrorMessages
      → ℤ × Indexer × ErrorMessages
  unfolding indexer_read_xml_config
  indexer_init pool opened indexer_id xml_config_path callbacks em =
      let indexer : Indexer = record {
        id = apr.pstrdup indexer_id;
        friendly_name = none;
        pool = pool;
        callbacks = callbacks;
      } in
      (success, indexer, (indexer_read_xml_config opened xml_config_path em).1)
