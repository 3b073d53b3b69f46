-- ===== src/Indexers/Registry.antt =====
-- What index_manager_find_indexer of src/indexers/index_manager.c finds among the indexers that
-- were added.
use mod_mp.Base.{
  if◌then◌else◌, Bool-cases, length, all, ℤ, success, Bytes, codes, negsuc, ℕ, ◌+◌, ◌≡◌, refl, ◌⊎◌,
  inl, inr, Bool, true, false, Option, none, some, List, [], ◌∷◌, map, arith,
}
use mod_mp.Apr.{Apr}
use mod_mp.ErrorMessages.{ErrorMessages, error, error_messages_addf, error_messages_on_fork}
use mod_mp.Indexers.{
  Indexer, IndexerCallbacks, IndexManager, index_manager_init, index_manager_add,
  index_manager_find_indexer, find_node, index_manager_on_fork, fork_nodes, indexer_init,
  indexer_read_xml_config,
}

pub record IsCounted (m : IndexManager) : Type 0 where
  pub counted : m.count ≡ length m.nodes

-- The manager after a sequence of additions, the first one first.
pub register : IndexManager → List Indexer → IndexManager
register m [] = m
register m (indexer ∷ rest) = register (index_manager_add m indexer).1 rest

unfoldable pub named : Apr → Bytes → Indexer → Bool
named apr name indexer = elim indexer.friendly_name [
  | none ↦ false
  | some friendly_name ↦ apr.strnatcmp_is_zero friendly_name name
]

-- The last element that passes.
unfoldable pub last_where : (Indexer → Bool) → List Indexer → Option Indexer → Option Indexer
last_where f [] found = found
last_where f (x ∷ xs) found = last_where f xs (if f x then some x else found)

pub answer : Option Indexer → ℤ × Option Indexer
answer none = (negsuc 0, none)
answer (some indexer) = (success, some indexer)

module _ (apr : Apr) where
  find_node-register :
      (name : Bytes) (m : IndexManager) (added : List Indexer) (found : Option Indexer)
      → find_node apr m.nodes (some name) ≡ some found
      → find_node apr (register m added).nodes (some name)
        ≡ some (last_where (named apr name) added found)
  unfolding register last_where index_manager_add find_node named
  find_node-register name m [] found e = e
  find_node-register name m (x ∷ added) found e =
      find_node-register name (index_manager_add m x).1 added _ (ground (arith, e))

  register_count :
      (m : IndexManager) (added : List Indexer) → (register m added).count ≡ m.count + length added
  unfolding register index_manager_add
  register_count m [] = omega arith
  register_count m (x ∷ added) = omega (arith, register_count (index_manager_add m x).1 added)

  -- After any sequence of additions, a search by a name gives the indexer that was added last
  -- among those whose friendly name compares equal to it, and -1 if there is none; an indexer
  -- without a friendly name is never found. The count is the number of additions.
  pub index_manager_find_indexer-last_where :
      (added : List Indexer) (name : Bytes)
      → (index_manager_find_indexer apr (register index_manager_init added) (some name)
          ≡ some (answer (last_where (named apr name) added none)))
        × ((register index_manager_init added).count ≡ length added)
  unfolding index_manager_find_indexer answer index_manager_init find_node
  index_manager_find_indexer-last_where added name = (
    rw (index_manager_find_indexer, find_node-register name index_manager_init added none refl)
        (ground arith),
    omega (arith, register_count index_manager_init added),
  )

fork_nodes_lem :
    (attached : Bool) (segment em : ErrorMessages) (file : Bytes) (child_pool : ℕ)
    → em.shm_file ≡ some file
    → (nodes : List Indexer)
    → fork_nodes attached segment em child_pool nodes
      ≡ some (map {A = Indexer} (λ indexer. record indexer { pool = child_pool }) nodes)
unfolding fork_nodes error_messages_on_fork
fork_nodes_lem attached segment em file child_pool e [] = refl
fork_nodes_lem attached segment em file child_pool e (x ∷ nodes) =
    ground (arith, e, fork_nodes_lem attached segment em file child_pool e nodes)

-- The fork of a manager in a child process whose table of messages has a file: every indexer gets
-- the child's pool, and its id, its name and its place in the list stay.
pub index_manager_on_fork-map :
    (attached : Bool) (segment em : ErrorMessages) (file : Bytes) (m : IndexManager)
    (child_pool : ℕ)
    → em.shm_file ≡ some file
    → index_manager_on_fork attached segment em m child_pool
      ≡ some (record m {
        nodes = map {A = Indexer} (λ indexer. record indexer { pool = child_pool }) m.nodes;
      })
unfolding index_manager_on_fork
index_manager_on_fork-map attached segment em file m child_pool e =
    rw (fork_nodes_lem attached segment em file child_pool e m.nodes) refl

-- A new indexer has no friendly name, and at most one message was added to the table.
pub indexer_init_lem :
    (apr : Apr) (pool : ℕ) (opened : Bytes → Bool) (id path : Bytes) (callbacks : IndexerCallbacks)
    (em : ErrorMessages)
    → ((indexer_init apr pool opened id path callbacks em).1.friendly_name ≡ none)
      × (((indexer_init apr pool opened id path callbacks em).2 ≡ em)
          ⊎ ((message : Bytes) × ((indexer_init apr pool opened id path callbacks em).2
                ≡ (error_messages_addf em error (codes "Indexer Error") (some message)).1)))
unfolding indexer_init indexer_read_xml_config
indexer_init_lem apr pool opened id path callbacks em = (
  refl,
  elim (Bool-cases (opened path)) [ inl e ↦ rw e (inl refl) | inr e ↦ rw e (inr (_, refl)) ],
)

unfoldable pub is_unnamed : Indexer → Bool
is_unnamed indexer = elim indexer.friendly_name [ none ↦ true | some _ ↦ false ]

find_node-unnamed :
    (apr : Apr) (nodes : List Indexer) (indexer_name : Option Bytes)
    → all is_unnamed nodes ≡ true
    → find_node apr nodes indexer_name ≡ some none
unfolding find_node is_unnamed
find_node-unnamed apr [] indexer_name h = refl
find_node-unnamed apr (x ∷ nodes) indexer_name h =
    ground (arith, h, find_node-unnamed apr nodes indexer_name)

-- A search among indexers without friendly names compares nothing and finds nothing.
pub index_manager_find_indexer-unnamed :
    (apr : Apr) (m : IndexManager) (indexer_name : Option Bytes)
    → all is_unnamed m.nodes ≡ true
    → index_manager_find_indexer apr m indexer_name ≡ some (negsuc 0, none)
unfolding index_manager_find_indexer
index_manager_find_indexer-unnamed apr m indexer_name h =
    rw (index_manager_find_indexer, find_node-unnamed apr m.nodes indexer_name h) refl
