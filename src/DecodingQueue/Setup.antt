-- ===== src/DecodingQueue/Setup.antt =====
-- create_decoding_queue and reattach_decoding_queue of src/indexers/music/decoding_queue.c: the
-- queue in the server and in its child processes.
use mod_mp.Base.{
  ◌==◌, if◌then◌else◌, length, ℤ, is_nonzero, success, Bytes, codes, pos, ℕ, ◌≡◌, refl, Option,
  none, some, List, [], ◌∷◌, arith,
}
use mod_mp.Apr.{Apr}
use mod_mp.ErrorMessages.{ErrorMessages}
use mod_mp.SharedMemory.{ShmCalls, setup_shared_memory}
use mod_mp.DecodingQueue.{DecodingJob, Queue, DecodingQueue, num_slots, create_queue}
use mod_mp.DecodingQueue.Holds.{Represents}
use mod_mp.DecodingQueue.Fifo.{create_queue-Holds}

-- What the calls answer: shared memory, the slots and the thread count that the segment holds at
-- its base address (`none` for NULL), and the statuses of apr_global_mutex_create and of
-- ap_unixd_set_global_mutex_perms.
pub record QueueCalls : Type 0 where
  pub shm : ShmCalls
  pub segment : Option (List DecodingJob × ℤ)
  pub mutex_create : ℕ
  pub mutex_perms : ℕ

-- The status and, once the shared memory is there, the queue in it. `none` is a NULL base address.
unfoldable pub create_decoding_queue : QueueCalls → Option (ℤ × Option Queue)
create_decoding_queue calls =
    let status = (setup_shared_memory calls.shm).0 in
    if is_nonzero status then some (status, none) else elim calls.segment [
      | none ↦ none
      | some (decoding, num_working_threads) ↦
          let queue = create_queue decoding num_working_threads in
          if calls.mutex_create == 0
          then (if calls.mutex_perms == 0
              then some (success, some queue)
              else some (pos calls.mutex_perms, some queue))
          else some (pos calls.mutex_create, some queue)
    ]

-- The path of the segment.
unfoldable pub queue_shm_file : Apr → Bytes → Bytes
queue_shm_file apr tmp_dir = apr.pstrcat (tmp_dir ∷ codes "/mp_decoding_queue" ∷ [])

-- In a child process: `attach` is the status of apr_shm_attach, `segment` the queue at the base
-- address, and `child_init` the status of apr_global_mutex_child_init.
unfoldable pub reattach_decoding_queue :
    ℕ → Queue → ℕ → ErrorMessages → DecodingQueue → ℤ × DecodingQueue
reattach_decoding_queue attach segment child_init em dq =
    let attached : DecodingQueue = record dq { error_messages = em; queue = segment } in
    let joined : ℤ × DecodingQueue =
      if child_init == 0 then (success, attached) else (pos child_init, attached) in
    elim dq.shm_file [
      | none ↦ joined
      | some file ↦ if attach == 0 then joined else (pos attach, dq)
    ]

-- The first status that is not zero.
abbrev mutex_status : QueueCalls → ℕ
mutex_status calls = if calls.mutex_create == 0 then calls.mutex_perms else calls.mutex_create

-- The end of create_decoding_queue.
abbrev mutex_result : QueueCalls → Queue → Option (ℤ × Option Queue)
mutex_result calls queue =
    if calls.mutex_create == 0
    then (if calls.mutex_perms == 0
        then some (success, some queue)
        else some (pos calls.mutex_perms, some queue))
    else some (pos calls.mutex_create, some queue)

mutex_cases :
    (calls : QueueCalls) (queue : Queue)
    → mutex_result calls queue ≡ some (pos (mutex_status calls), some queue)
mutex_cases calls queue = ground arith

-- Where the shared memory can be set up, create_decoding_queue leaves an empty queue in it,
-- whatever an earlier server left in the segment, and returns the first status of the two calls
-- on the mutex that is not zero, or else 0.
pub create_decoding_queue-Represents :
    (calls : QueueCalls) (decoding : List DecodingJob) (num_working_threads : ℤ)
    → (setup_shared_memory calls.shm).0 ≡ success
    → calls.segment ≡ some (decoding, num_working_threads)
    → length decoding ≡ num_slots
    → (queue : Queue) × (create_decoding_queue calls ≡ some (pos (mutex_status calls), some queue))
      × Represents queue []
unfolding create_decoding_queue
create_decoding_queue-Represents calls decoding num_working_threads e s size = (
  create_queue decoding num_working_threads,
  rw (create_decoding_queue, e, s) (mutex_cases calls (create_queue decoding num_working_threads)),
  record {
    order = [];
    holds = create_queue-Holds decoding num_working_threads size;
    contents = refl;
  },
)
