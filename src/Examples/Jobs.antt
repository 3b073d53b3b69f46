-- ===== src/Examples/Jobs.antt =====
-- The decoding queue at concrete inputs.
use mod_mp.Base.{
  replicate, length-replicate, success, codes, pos, ℕ, ◌<◌, ◌≡◌, refl, ◌⊎◌, true, false, none, some,
  [], ◌∷◌, arith,
}
use mod_mp.ErrorMessages.{error_messages_init}
use mod_mp.DecodingQueue.{
  JobInfo, blank_info, no_job, num_slots, Queue, DecodingQueue, Env, made, create_queue, add_at,
  get_decoding_job_queue, add_decoding_job_queue, does_decoding_job_exsits, popcount_4, same_job,
  place_job, link_tail,
}
use mod_mp.DecodingQueue.Bits.{word_size, zero_word, flag, word_or}
use mod_mp.DecodingQueue.Holds.{Holds, Represents, bit-zero, add_at-Holds}
use mod_mp.DecodingQueue.Fifo.{
  IsFree, Accepts, Refuses, Serves, create_queue-Holds, get_decoding_job_queue-Serves,
  add_decoding_job_queue-Represents,
}
use mod_mp.DecodingQueue.Locks.{locked-add_decoding_job_queue}
use mod_mp.DecodingQueue.Popcount.{ones, popcount_4-ones}
use mod_mp.DecodingQueue.Search.{
  IsSame, does_decoding_job_exsits-found, does_decoding_job_exsits-none,
}
use mod_mp.SharedMemory.{setup_shared_memory}
use mod_mp.DecodingQueue.Setup.{QueueCalls, create_decoding_queue, create_decoding_queue-Represents}
use mod_mp.Examples.Platform.{plain_apr}

abbrev calm : Env
calm = record { lock_succeeds = true; unlock_succeeds = true; add_error_list = λ em header. em }

abbrev song : JobInfo
song = record blank_info { source_id = codes "7"; output_file_type = codes "ogg" }

abbrev empty_queue : Queue
empty_queue = create_queue (replicate num_slots no_job) (pos 0)

empty_queue-Holds : Holds empty_queue []
empty_queue-Holds =
    create_queue-Holds (replicate num_slots no_job) (pos 0) (length-replicate num_slots no_job)

abbrev shared : Queue → DecodingQueue
shared q = record {
  num_decoding_threads = pos 4;
  error_messages = error_messages_init;
  locked = false;
  shm_file = none;
  queue = q;
}

-- The queue after its first job.
abbrev one_queue : Queue
one_queue = add_at 0 song empty_queue

one_queue-Holds : Holds one_queue (0 ∷ [])
unfolding create_queue zero_word
one_queue-Holds =
    add_at-Holds empty_queue 0 song [] (omega arith) (bit-zero word_size 0) (bit-zero word_size 0)
      empty_queue-Holds

one_queue-Represents : Represents one_queue (song ∷ [])
unfolding add_at place_job link_tail create_queue
one_queue-Represents = record { order = 0 ∷ []; holds = one_queue-Holds; contents = refl }

add_decoding_job_queue-Represents_example :
    (((k : ℕ) × IsFree one_queue k)
      × Accepts blank_info (song ∷ []) (add_decoding_job_queue calm blank_info (shared one_queue)))
    ⊎ (((k : ℕ) → ¬ IsFree one_queue k)
        × Refuses (shared one_queue) (add_decoding_job_queue calm blank_info (shared one_queue)))
add_decoding_job_queue-Represents_example =
    add_decoding_job_queue-Represents calm blank_info (shared one_queue) (song ∷ [])
      one_queue-Represents

get_decoding_job_queue-Serves_example :
    Serves (shared one_queue) (song ∷ []) (get_decoding_job_queue calm (shared one_queue))
get_decoding_job_queue-Serves_example =
    get_decoding_job_queue-Serves calm (shared one_queue) (song ∷ []) one_queue-Represents

locked-add_decoding_job_queue_example :
    (((k : ℕ) × IsFree one_queue k)
      × ((add_decoding_job_queue calm blank_info (shared one_queue)).1.locked ≡ false))
    ⊎ (((k : ℕ) → ¬ IsFree one_queue k)
        × ((add_decoding_job_queue calm blank_info (shared one_queue)).1.locked ≡ true))
locked-add_decoding_job_queue_example =
    locked-add_decoding_job_queue calm blank_info (shared one_queue) (song ∷ []) refl refl
      one_queue-Represents

first-IsSame : IsSame plain_apr (made song) (shared one_queue) 0
unfolding add_at place_job link_tail create_queue flag word_or zero_word same_job plain_apr
first-IsSame = (refl, refl)

does_decoding_job_exsits-found_example :
    0 < (does_decoding_job_exsits plain_apr calm [] (shared one_queue) (some (made song))).0
does_decoding_job_exsits-found_example =
    does_decoding_job_exsits-found plain_apr calm [] (shared one_queue) (made song) (0 ∷ []) 0
      one_queue-Holds first-IsSame

none-IsSame : (k : ℕ) → ¬ IsSame plain_apr (made song) (shared empty_queue) k
unfolding create_queue zero_word
none-IsSame k (used, same) = cc (used, bit-zero word_size k)

does_decoding_job_exsits-none_example :
    ((does_decoding_job_exsits plain_apr calm [] (shared empty_queue) (some (made song))).0 ≡ 0)
    × ((does_decoding_job_exsits plain_apr calm [] (shared empty_queue) (some (made song))).1
        ≡ some (made song))
    × ((does_decoding_job_exsits plain_apr calm [] (shared empty_queue) (some (made song))).2.queue
        ≡ empty_queue)
does_decoding_job_exsits-none_example =
    does_decoding_job_exsits-none plain_apr calm [] (shared empty_queue) (made song) []
      empty_queue-Holds none-IsSame

popcount_4-ones_example : popcount_4 (true ∷ false ∷ true ∷ []) ≡ ones (true ∷ false ∷ true ∷ [])
popcount_4-ones_example = popcount_4-ones (true ∷ false ∷ true ∷ [])

popcount_of_five : popcount_4 (true ∷ false ∷ true ∷ []) ≡ 2
unfolding ones
popcount_of_five = popcount_4-ones (true ∷ false ∷ true ∷ [])

abbrev calls : QueueCalls
calls = record {
  shm = record {
    create = 0;
    create_again = 0;
    ipc_stat = pos 0;
    ipc_set = pos 0;
    uid = 48;
    gid = 49;
  };
  segment = some (replicate num_slots no_job, pos 3);
  mutex_create = 0;
  mutex_perms = 13;
}

calls-success : (setup_shared_memory calls.shm).0 ≡ success
unfolding setup_shared_memory
calls-success = refl

create_decoding_queue-Represents_example :
    (queue : Queue) × (create_decoding_queue calls ≡ some (pos 13, some queue))
    × Represents queue []
create_decoding_queue-Represents_example =
    create_decoding_queue-Represents calls (replicate num_slots no_job) (pos 3) calls-success refl
      (length-replicate num_slots no_job)
