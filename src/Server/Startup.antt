-- ===== src/Server/Startup.antt =====
-- What mod_mp_init of src/libmod_mp.c leaves behind.
use mod_mp.Base.{
  ◌==◌, length, all, ℤ, is_nonzero, success, Bytes, negsuc, ◌≤◌, ◌≡◌, ◌⊎◌, Bool, true, false, not,
  ◌&&◌, Option, none, some, List,
}
use mod_mp.Apr.{Apr}
use mod_mp.ErrorMessages.{ErrorMessage, ErrorMessages, max_errors}
use mod_mp.ErrorMessages.Invariant.{Fits, IsValid}
use mod_mp.SharedMemory.{setup_shared_memory}
use mod_mp.Indexers.{IndexManager}
use mod_mp.Indexers.Registry.{is_unnamed}
use mod_mp.Server.{SrvCfg, Host}

-- The memory of a segment is an array of the declared size, whatever an earlier server left in it.
unfoldable pub IsSegment : Option (List ErrorMessage) → Type 0
IsSegment none = Unit
IsSegment (some memory) = (length memory ≡ max_errors) × Fits memory

-- A server that is ready for requests.
pub record IsReady (c : SrvCfg) : Type 0 where
  pub em : ErrorMessages
  pub has_em : c.error_messages ≡ some em
  pub valid : IsValid em
  pub few : em.num_errors ≤ 1
  pub file : em.shm_file ≡ some c.errors_shm_file
  pub manager : IndexManager
  pub has_manager : c.index_manager ≡ some manager
  pub one : manager.count ≡ 1
  pub counted : length manager.nodes ≡ 1
  pub unnamed : all is_unnamed manager.nodes ≡ true

-- The shared memory of the messages can be set up and has an address.
has_shared : Bool → Option (List ErrorMessage) → Bool
has_shared failed none = false
has_shared failed (some memory) = not failed

-- The three conditions of a start: that of the shared memory, and that apr_dbd_init succeeds.
pub can_start : Host → Bool
can_start host =
    has_shared (is_nonzero (setup_shared_memory host.shm).0) host.segment && (host.dbd_init == 0)

-- If the conditions hold, then the status is 0, and the server is ready and as enabled as it was;
-- otherwise the status is -1, and the server is switched off. Both have the pid of the process.
unfoldable pub Started : Host → SrvCfg → ℤ × SrvCfg → Type 0
Started host c (status, started) =
    ((can_start host ≡ true)
      × (status ≡ success)
      × (started.enable ≡ c.enable)
      × (started.pid ≡ host.own_pid)
      × (started.has_db_manager ≡ true)
      × IsReady started)
    ⊎ ((can_start host ≡ false)
        × (status ≡ negsuc 0)
        × (started.enable ≡ 0)
        × (started.pid ≡ host.own_pid))

Fresh : Bytes → ErrorMessages → Type 0
Fresh file em = IsValid em × (em.num_errors ≡ 0) × (em.shm_file ≡ some file)
