-- ===== src/Music/Start.antt =====
-- The start of the music indexer and its fork: src/indexers/music/music_query.c.
use mod_mp.Base.{
  if◌then◌else◌, Bool-cases, ℤ, is_nonzero, success, Bytes, codes, negsuc, ℕ, ◌≡◌, refl, sym, ◌∙◌,
  inl, inr, Option, none, some, List, [], ◌∷◌, ◌++◌, map, append-nil, append_assoc,
}
use mathlib.Core.Option
use mod_mp.Apr.{Apr}
use mod_mp.ErrorMessages.{ErrorMessages}
use mod_mp.DecodingQueue.{Queue, DecodingQueue}
use mod_mp.DecodingQueue.Setup.{reattach_decoding_queue}
use mod_mp.DirSync.Start.{Dir, DirStats, DirCalls, init_dir_sync, reattach_dir_sync}

-- An element of the configuration: its name, and the inner texts of its children.
pub record XmlParam : Type 0 where
  pub name : Bytes
  pub children : List Bytes

-- struct music_globals_ as far as the start and the fork use it.
pub record MusicGlobals : Type 0 where
  pub pool : ℕ
  pub error_messages : ErrorMessages
  pub decoding_queue : Option DecodingQueue
  pub music_dirs : Option (List Dir)

unfoldable pub push_dirs : List Bytes → List Dir → List Dir
push_dirs [] dirs = dirs
push_dirs (path ∷ paths) dirs =
    push_dirs paths
      (dirs ++ record { path = path; shm_file = none; stats = none; threads = 0 } ∷ [])

-- Every element `music_dirs` makes a new array; it is NULL without one.
unfoldable pub read_xml_parameters : Apr → List XmlParam → Option (List Dir) → Option (List Dir)
unfolding push_dirs
read_xml_parameters apr [] dirs = dirs
read_xml_parameters apr (param ∷ params) dirs = read_xml_parameters apr params (
    if apr.strnatcmp_is_zero param.name (codes "music_dirs")
    then some (push_dirs param.children [])
    else dirs)

-- init_dir_sync on an array that may be NULL, of which it reads the size behind its first test.
unfoldable pub init_dirs :
    (apr : Apr)
    → (ℕ → Bytes)
    → Bytes
    → ℤ
    → (ℕ → DirCalls)
    → Option (List Dir)
    → Option (ℤ × Option (List Dir))
init_dirs apr itoa tmp_dir db_status calls none =
    if is_nonzero db_status then some (negsuc 8, none) else none
init_dirs apr itoa tmp_dir db_status calls (some dirs) =
    elim (init_dir_sync apr itoa tmp_dir db_status calls dirs) [
      | none ↦ none
      | some (rv, started) ↦ some (rv, some started)
    ]

-- `queue` is what create_decoding_queue leaves; its status is overwritten.
unfoldable pub music_indexer_init :
    (apr : Apr)
    → (ℕ → Bytes)
    → Bytes
    → Option DecodingQueue
    → List XmlParam
    → ℤ
    → (ℕ → DirCalls)
    → ℕ
    → ErrorMessages
    → Option (ℤ × MusicGlobals)
unfolding read_xml_parameters init_dirs
music_indexer_init apr itoa tmp_dir queue xml_params db_status calls pool em =
    elim (init_dirs apr itoa tmp_dir db_status calls (read_xml_parameters apr xml_params none)) [
      | none ↦ none
      | some (rv, dirs) ↦ some (
        rv,
        record { pool = pool; error_messages = em; decoding_queue = queue; music_dirs = dirs },
      )
    ]

-- The status of reattach_dir_sync is not read, and it goes through `music_dirs`, which may be NULL.
-- `attach`, `segment` and `child_init` are the arguments of reattach_decoding_queue.
unfoldable pub music_indexer_on_fork :
    (Bytes → ℕ × Option DirStats)
    → ℕ
    → Queue
    → ℕ
    → ℕ
    → ErrorMessages
    → MusicGlobals
    → Option (ℤ × MusicGlobals)
music_indexer_on_fork attach_dir attach segment child_init child_pool em g = elim g.music_dirs [
  | none ↦ none
  | some dirs ↦
      let child : MusicGlobals = record g {
        pool = child_pool;
        error_messages = em;
        music_dirs = some (reattach_dir_sync attach_dir dirs).1;
      } in
      elim g.decoding_queue [
        | none ↦ some (success, child)
        | some dq ↦
            let (rv, joined) = reattach_decoding_queue attach segment child_init em dq in
            some (rv, record child { decoding_queue = some joined })
      ]
]

push_dirs-append :
    (paths : List Bytes) (dirs : List Dir)
    → push_dirs paths dirs
      ≡ dirs
        ++ map (λ path. record { path = path; shm_file = none; stats = none; threads = 0 }) paths
unfolding push_dirs
push_dirs-append [] dirs = sym (append-nil dirs)
push_dirs-append (path ∷ paths) dirs =
    push_dirs-append paths
      (dirs ++ record { path = path; shm_file = none; stats = none; threads = 0 } ∷ [])
    ∙ append_assoc dirs (record { path = path; shm_file = none; stats = none; threads = 0 } ∷ []) _

-- The directories of the last element `music_dirs`, in their order; NULL if there is none.
configured : Apr → List XmlParam → Option (List Bytes) → Option (List Bytes)
configured apr [] paths = paths
configured apr (param ∷ params) paths =
    configured apr params
      (if apr.strnatcmp_is_zero param.name (codes "music_dirs") then some param.children else paths)

new_dirs : List Bytes → List Dir
new_dirs paths =
    map (λ path. record { path = path; shm_file = none; stats = none; threads = 0 }) paths

read_xml_parameters-configured :
    (apr : Apr) (params : List XmlParam) (paths : Option (List Bytes))
    → read_xml_parameters apr params (Option.map new_dirs paths)
      ≡ Option.map new_dirs (configured apr params paths)
unfolding read_xml_parameters configured new_dirs
read_xml_parameters-configured apr [] paths = refl
read_xml_parameters-configured apr (param ∷ params) paths =
    elim (Bool-cases (apr.strnatcmp_is_zero param.name (codes "music_dirs"))) [
      | inl e ↦
          rw (e, push_dirs-append param.children [])
            (read_xml_parameters-configured apr params (some param.children))
      | inr e ↦ rw e (read_xml_parameters-configured apr params paths)
    ]
