-- ===== src/DirSync/Start.antt =====
-- init_dir_sync and reattach_dir_sync of src/indexers/music/dir_sync/dir_sync.c: the segment of
-- shared memory of every directory, and its thread.
use mod_mp.Base.{
  ◌==◌, if◌then◌else◌, ℤ, is_nonzero, success, Bytes, codes, pos, negsuc, ℕ, suc, ◌+◌, ◌≡◌, refl,
  Bool, true, false, Option, none, some, List, [], ◌∷◌,
}
use mod_mp.Apr.{Apr}
use mod_mp.SharedMemory.{ShmCalls, setup_shared_memory}

-- dir_sh_stats_t in shared memory, without the pointer `num_files` and the progress, which start as
-- NULL and as 0.0.
pub record DirStats : Type 0 where
  pub files_scanned : ℕ

-- dir_t; `threads` counts the threads that were started for it.
pub record Dir : Type 0 where
  pub path : Bytes
  pub shm_file : Option Bytes
  pub stats : Option DirStats
  pub threads : ℕ

-- The answers of the system for one directory: shared memory, whether its base address is not
-- NULL, and the status of apr_thread_create.
pub record DirCalls : Type 0 where
  pub shm : ShmCalls
  pub has_base : Bool
  pub thread_create : ℕ

module _ (apr : Apr) (itoa : ℕ → Bytes) (tmp_dir : Bytes) where
  unfoldable pub dir_shm_file : ℕ → Bytes
  dir_shm_file i = apr.pstrcat (tmp_dir ∷ codes "/mp_dir_sync[" ∷ itoa i ∷ codes "]" ∷ [])

  -- The body of the loop: a status and the directory; none for a NULL base address.
  unfoldable pub start_dir : ℕ → DirCalls → Dir → Option (ℤ × Dir)
  unfolding dir_shm_file
  start_dir i calls dir =
      let named = record dir { shm_file = some (dir_shm_file i) } in
      let rv = (setup_shared_memory calls.shm).0 in
      if is_nonzero rv
      then some (rv, named)
      else if calls.has_base
      then (let ready = record named { stats = some (record { files_scanned = 0 }) } in
          if calls.thread_create == 0
          then some (success, record ready { threads = ready.threads + 1 })
          else some (pos calls.thread_create, ready))
      else none

  -- The loop from a directory on, which stops at the first status that is not 0.
  unfoldable pub start_dirs : ℕ → (ℕ → DirCalls) → List Dir → Option (ℤ × List Dir)
  unfolding start_dir
  start_dirs i calls [] = some (success, [])
  start_dirs i calls (dir ∷ dirs) = elim (start_dir i (calls i) dir) [
    | none ↦ none
    | some (rv, started) ↦ elim (is_nonzero rv) [
      | true ↦ some (rv, started ∷ dirs)
      | false ↦ elim (start_dirs (suc i) calls dirs) [
        | none ↦ none
        | some (last, rest) ↦ some (last, started ∷ rest)
      ]
    ]
  ]

  -- `db_status` is that of indexer_get_db_object.
  unfoldable pub init_dir_sync : ℤ → (ℕ → DirCalls) → List Dir → Option (ℤ × List Dir)
  unfolding start_dirs
  init_dir_sync db_status calls dirs =
      if is_nonzero db_status then some (negsuc 8, dirs) else start_dirs 0 calls dirs

-- In a child process: the status of apr_shm_attach and the statistics at the base address, by the
-- file of the segment.
unfoldable pub reattach_dir_sync : (Bytes → ℕ × Option DirStats) → List Dir → ℤ × List Dir
reattach_dir_sync attach [] = (success, [])
reattach_dir_sync attach (dir ∷ dirs) = elim dir.shm_file [
  | none ↦ let (rv, rest) = reattach_dir_sync attach dirs in (rv, dir ∷ rest)
  | some file ↦ elim ((attach file).0 == 0) [
    | true ↦
        let (rv, rest) = reattach_dir_sync attach dirs in
        (rv, record dir { stats = (attach file).1 } ∷ rest)
    | false ↦ (pos (attach file).0, dir ∷ dirs)
  ]
]

module _ (apr : Apr) (itoa : ℕ → Bytes) (tmp_dir : Bytes) where
  -- Every directory has its segment, its numbered file, its statistics and one more thread.
  pub AreStarted : ℕ → List Dir → List Dir → Type 0
  AreStarted i [] [] = Unit
  AreStarted i [] (after ∷ afters) = ⊥
  AreStarted i (dir ∷ dirs) [] = ⊥
  AreStarted i (dir ∷ dirs) (after ∷ afters) =
      (after ≡ record {
        path = dir.path;
        shm_file = some (dir_shm_file apr itoa tmp_dir i);
        stats = some (record { files_scanned = 0 });
        threads = dir.threads + 1;
      })
      × AreStarted (suc i) dirs afters

  start_dirs-step :
      (i : ℕ) (calls : ℕ → DirCalls) (dir : Dir) (dirs rest : List Dir) (started : Dir)
      → start_dir apr itoa tmp_dir i (calls i) dir ≡ some (success, started)
      → start_dirs apr itoa tmp_dir (suc i) calls dirs ≡ some (success, rest)
      → start_dirs apr itoa tmp_dir i calls (dir ∷ dirs) ≡ some (success, started ∷ rest)
  unfolding start_dirs
  start_dirs-step i calls dir dirs rest started e f = rw (start_dirs, e, f) refl

  start_dir-success :
      (i : ℕ) (calls : DirCalls) (dir : Dir)
      → (setup_shared_memory calls.shm).0 ≡ success
      → calls.has_base ≡ true
      → calls.thread_create ≡ 0
      → start_dir apr itoa tmp_dir i calls dir
        ≡ some (
          success,
          record {
            path = dir.path;
            shm_file = some (dir_shm_file apr itoa tmp_dir i);
            stats = some (record { files_scanned = 0 });
            threads = dir.threads + 1;
          },
        )
  unfolding start_dir
  start_dir-success i calls dir a b c = rw (start_dir, a, b, c) refl

  -- Where the system grants every directory its segment and its thread, the loop returns 0 and has
  -- started each directory once, with a file named by its index.
  start_dirs-AreStarted :
      (i : ℕ) (calls : ℕ → DirCalls) (dirs : List Dir)
      → ((n : ℕ)
          → ((setup_shared_memory (calls n).shm).0 ≡ success)
            × ((calls n).has_base ≡ true)
            × ((calls n).thread_create ≡ 0))
      → (after : List Dir) × (start_dirs apr itoa tmp_dir i calls dirs ≡ some (success, after))
        × AreStarted i dirs after
  unfolding start_dirs AreStarted
  start_dirs-AreStarted i calls [] h = ([], refl, tt)
  start_dirs-AreStarted i calls (dir ∷ dirs) h =
      let (a, b, c) = h i in
      let (rest, done, are) = start_dirs-AreStarted (suc i) calls dirs h in
      (
        _ ∷ rest,
        start_dirs-step i calls dir dirs rest _ (start_dir-success i (calls i) dir a b c) done,
        (refl, are),
      )
