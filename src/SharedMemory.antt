-- ===== src/SharedMemory.antt =====
-- src/util_shmem.c: creating the segment of shared memory for the error messages.
use mod_mp.Base.{
  ◌==◌, if◌then◌else◌, ℤ, is_nonzero, success, negsuc, ℕ, Bool, true, false, Option, none, some,
}

-- The answers of the operating system, in the order of the calls: apr_shm_create, then for a
-- segment that is there (APR's status 17, EEXIST) a second apr_shm_create behind the attach and
-- the destroy, and the statuses of the two shmctl calls.
pub record ShmCalls : Type 0 where
  pub create : ℕ
  pub create_again : ℕ
  pub ipc_stat : ℤ
  pub ipc_set : ℤ
  -- apr_uid_get for the user "apache"
  pub uid : ℕ
  pub gid : ℕ

-- The owner that IPC_SET stores.
pub record ShmPerm : Type 0 where
  pub perm_uid : ℕ
  pub perm_gid : ℕ

abbrev pub eexist : ℕ
eexist = 17

-- The two assignments to `buf.shm_perm`, as the code writes them.
shm_perm : ShmCalls → ShmPerm
shm_perm sys = record { perm_gid = sys.uid; perm_uid = sys.gid }

-- The result has the status, whether `*shm` is not NULL, and the owner that was set. The statuses
-- of the attach, of the destroy, of chmod and of chown are not read.
unfoldable pub setup_shared_memory : ShmCalls → ℤ × Bool × Option ShmPerm
unfolding shm_perm
setup_shared_memory sys =
    let rv = if sys.create == eexist then sys.create_again else sys.create in
    if rv == 0
    then (if is_nonzero sys.ipc_stat
        then (negsuc 1, true, none)
        else if is_nonzero sys.ipc_set
        then (negsuc 2, true, none)
        else (success, true, some (shm_perm sys)))
    else (negsuc 0, false, none)
