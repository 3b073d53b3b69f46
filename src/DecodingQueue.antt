-- ===== src/DecodingQueue.antt =====
-- src/indexers/music/decoding_queue.h and decoding_queue.c: the queue of decoding jobs in shared
-- memory. `waiting` and `working` are the bit sets of the slots; the waiting slots are linked by
-- `next` from `head` to `tail`.
pub mod Bits
pub mod Links
pub mod Holds
pub mod Fifo
pub mod Locks
pub mod Popcount
pub mod Search
pub mod Setup
use mod_mp.Base.{
  ltb, if◌then◌else◌, length, get_or, set, ℤ, success, Bytes, codes, pos, negsuc, ℕ, zero, suc, ◌+◌,
  Bool, true, false, ◌&&◌, Option, none, some, List, [], ◌∷◌,
}
use mod_mp.ErrorMessages.{ErrorMessages, error, error_messages_add}
use mod_mp.Apr.{Apr, PrintArg, int}
use Bits.{Word, zero_word, flag, word_and, word_or, word_not, word_pred, is_set, clz}

-- The fields of struct decoding_job_ that the queue hands on. `progress` is the bit pattern of
-- the float, which the queue only copies.
pub record JobInfo : Type 0 where
  pub song_id : Bytes
  pub artist_id : Bytes
  pub album_id : Bytes
  pub source_id : Bytes
  pub input_file_path : Bytes
  pub input_file_type : Bytes
  pub output_file_type : Bytes
  pub output_file_path : Bytes
  pub new_source_id : Bytes
  pub status : Bytes
  pub progress : ℕ

pub record DecodingJob : Type 0 where
  pub index : ℤ
  pub info : JobInfo
  pub next : ℤ

pub record Queue : Type 0 where
  pub head : ℤ
  pub tail : ℤ
  pub working : Word
  pub waiting : Word
  pub decoding : List DecodingJob
  pub num_working_threads : ℤ

-- `locked` says whether this process holds `mutex`.
pub record DecodingQueue : Type 0 where
  pub num_decoding_threads : ℤ
  pub error_messages : ErrorMessages
  pub locked : Bool
  pub shm_file : Option Bytes
  pub queue : Queue

-- What the run meets outside the repository: whether apr_global_mutex_lock and _unlock succeed,
-- and add_error_list, which the macros call and no file declares.
pub record Env : Type 0 where
  pub lock_succeeds : Bool
  pub unlock_succeeds : Bool
  pub add_error_list : ErrorMessages → Bytes → ErrorMessages

abbrev pub num_slots : ℕ
num_slots = 64

unfoldable pub blank_info : JobInfo
blank_info = record {
  song_id = [];
  artist_id = [];
  album_id = [];
  source_id = [];
  input_file_path = [];
  input_file_type = [];
  output_file_type = [];
  output_file_path = [];
  new_source_id = [];
  status = [];
  progress = 0;
}

-- A slot outside the array; no operation reads it.
unfoldable pub no_job : DecodingJob
no_job = record { index = pos 0; info = blank_info; next = pos 0 }

abbrev pub slot : List DecodingJob → ℕ → DecodingJob
slot decoding i = get_or decoding i no_job

-- `decoding[i].next = n`
abbrev pub set_next : List DecodingJob → ℕ → ℤ → List DecodingJob
set_next decoding i n = set decoding i (record (slot decoding i) { next = n })

-- LOCK_CHECK_ERRORS and UNLOCK_CHECK_ERRORS: a failure is reported and the code goes on.
unfoldable pub lock_check_errors : Env → Bytes → DecodingQueue → DecodingQueue
lock_check_errors env header dq =
    if env.lock_succeeds
    then record dq { locked = true }
    else record dq { error_messages = env.add_error_list dq.error_messages header }

unfoldable pub unlock_check_errors : Env → Bytes → DecodingQueue → DecodingQueue
unlock_check_errors env header dq =
    if env.unlock_succeeds
    then record dq { locked = false }
    else record dq { error_messages = env.add_error_list dq.error_messages header }

abbrev pub report : Bytes → Bytes → DecodingQueue → DecodingQueue
report header message dq = record dq {
  error_messages = (error_messages_add dq.error_messages error header message).1;
}

-- The four assignments of create_decoding_queue, on the slots that the shared memory held.
unfoldable pub create_queue : List DecodingJob → ℤ → Queue
create_queue decoding num_working_threads = record {
  head = pos 0;
  tail = negsuc 0;
  working = zero_word;
  waiting = zero_word;
  decoding = decoding;
  num_working_threads = num_working_threads;
}

-- The statements of get_decoding_job_queue on a head within the array.
pub take_head : ℕ → Queue → Queue
take_head index q = record q {
  waiting = word_and q.waiting (word_not (flag index));
  head = (slot q.decoding index).next;
  working = word_or q.working (flag index);
}

-- The head as an index, if it passes the test `head < 0 || head > 63`.
abbrev checked_index : ℤ → Option ℕ
checked_index (pos n) = if ltb 63 n then none else some n
checked_index (negsuc n) = none

-- get_decoding_job_queue under the lock: the slot's index stands for the pointer that the code
-- returns, `none` for NULL. The outer `none` is a shift and an access by a head outside 0 to 63,
-- which the code reports and then makes.
get_locked : DecodingQueue → Option (Option ℕ × DecodingQueue)
unfolding take_head
get_locked dq =
    if is_set dq.queue.waiting
    then elim (checked_index dq.queue.head) [
      | none ↦ none
      | some index ↦ some (some index, record dq { queue = take_head index dq.queue })
    ]
    else some (none, dq)

unfoldable pub get_decoding_job_queue : Env → DecodingQueue → Option (Option ℕ × DecodingQueue)
unfolding lock_check_errors unlock_check_errors get_locked
get_decoding_job_queue env dq =
    elim (get_locked (lock_check_errors env (codes "Error Locking in get decoding queue") dq)) [
      | none ↦ none
      | some (job, locked) ↦
          some (job, unlock_check_errors env (codes "Error Unlocking in get decoding queue") locked)
    ]

-- The array after `decoding[empty_index] = *job` and the two assignments behind it.
unfoldable pub place_job : ℕ → JobInfo → List DecodingJob → List DecodingJob
place_job empty_index info decoding =
    set decoding empty_index (record { index = pos empty_index; info = info; next = negsuc 0 })

-- The old tail is linked to the new slot if it is not negative.
unfoldable pub link_tail : ℤ → ℕ → List DecodingJob → List DecodingJob
link_tail (pos tail) empty_index decoding = set_next decoding tail (pos empty_index)
link_tail (negsuc n) empty_index decoding = decoding

-- The assignments of add_decoding_job_queue, with a free slot at `empty_index`.
unfoldable pub add_at : ℕ → JobInfo → Queue → Queue
unfolding place_job link_tail
add_at empty_index info q = record q {
  head = if is_set q.waiting then q.head else pos empty_index;
  decoding = link_tail q.tail empty_index (place_job empty_index info q.decoding);
  waiting = word_or q.waiting (flag empty_index);
  tail = pos empty_index;
}

pub free_slots : Queue → Word
free_slots q = word_not (word_or q.waiting q.working)

-- The full queue returns between the lock and the unlock.
unfoldable pub add_decoding_job_queue : Env → JobInfo → DecodingQueue → ℤ × DecodingQueue
unfolding lock_check_errors unlock_check_errors free_slots add_at
add_decoding_job_queue env info dq =
    let locked = lock_check_errors env (codes "Error Locking in add decoding job") dq in
    let free = free_slots dq.queue in
    if is_set free
    then (
      success,
      unlock_check_errors env (codes "Error Unlocking in add decoding job")
          (record locked { queue = add_at (clz free) info dq.queue }),
    )
    else (negsuc 0, report (codes "Error adding to queue") (codes "Queue is FULL!") locked)

-- popcount_4, by the rounds left: `x &= x - 1` until `x` is zero. `count` is the number of rounds.
popcount_loop : ℕ → Word → ℕ → ℕ
popcount_loop zero x count = count
popcount_loop (suc rounds) x count =
    let rest = popcount_loop rounds (word_and x (word_pred x)) (count + 1) in
    if is_set x then rest else count

-- A round clears a bit of the word, so it takes at most one for each bit.
unfoldable pub popcount_4 : Word → ℕ
unfolding popcount_loop
popcount_4 x = popcount_loop (suc (length x)) x 0

-- The pointer `*dec_job`: the job that the caller made, or a slot of the queue.
pub data JobRef : Type 0 where
  made : JobInfo → JobRef
  at_slot : ℕ → JobRef

abbrev pub deref : JobRef → List DecodingJob → JobInfo
deref (made info) decoding = info
deref (at_slot i) decoding = (slot decoding i).info

-- What the loop of does_decoding_job_exsits changes.
pub record SearchState : Type 0 where
  pub dec_job : JobRef
  pub decoding : List DecodingJob
  pub found : ℕ

module _ (apr : Apr) where
  -- The test of the loop's body, on slot `i`.
  unfoldable pub same_job : SearchState → ℕ → Bool
  same_job s i =
      let mine = deref s.dec_job s.decoding in
      let theirs = (slot s.decoding i).info in
      apr.strnatcmp_is_zero theirs.source_id mine.source_id
      && apr.strnatcmp_is_zero theirs.output_file_type mine.output_file_type

  -- The body on a slot that passes the test.
  note_job : SearchState → ℕ → SearchState
  note_job s i =
      let old = slot s.decoding i in
      let dec_job_status = apr.psprintf (codes "Decoding index: %d Working on") (int i ∷ []) in
      record {
        dec_job = at_slot i;
        decoding =
            set s.decoding i
              (record old { info = record (old.info) { status = apr.cpystrn dec_job_status 512 } });
        found = s.found + 1;
      }

  visit : SearchState → ℕ → SearchState
  unfolding same_job note_job
  visit s i = if same_job s i then note_job s i else s

  -- The loop, by the rounds left: `i` is the first slot of `has_job`, whose bit the step clears.
  search_loop : ℕ → Word → SearchState → SearchState
  unfolding visit
  search_loop zero has_job s = s
  search_loop (suc rounds) has_job s =
      let rest =
        search_loop rounds (word_and has_job (word_not (flag (clz has_job))))
          (visit s (clz has_job)) in
      if is_set has_job then rest else s

  -- A round clears a bit, so a word takes at most 64. The pointer that the code leaves in
  -- `*dec_job` comes back beside the count. `strerror` is the text that the report of a slot in
  -- both bit sets holds, which apr_strerror makes from an uninitialised status.
  unfoldable pub does_decoding_job_exsits :
      Env → Bytes → DecodingQueue → Option JobRef → ℕ × Option JobRef × DecodingQueue
  unfolding search_loop lock_check_errors unlock_check_errors
  does_decoding_job_exsits env strerror dq none = (0, none, dq)
  does_decoding_job_exsits env strerror dq (some dec_job) =
      let locked = lock_check_errors env (codes "Error locking in does decoding job exsits") dq in
      let has_job = word_or dq.queue.waiting dq.queue.working in
      let checked =
        if is_set (word_and dq.queue.waiting dq.queue.working)
        then report (codes "Working and waiting are set WTF MAN") strerror locked
        else locked in
      let end =
        search_loop (suc num_slots) has_job
          (record { dec_job = dec_job; decoding = dq.queue.decoding; found = 0 }) in
      let searched = record checked { queue = record dq.queue { decoding = end.decoding } } in
      let reported =
        if ltb 1 end.found
        then report (codes "Error found duplicate")
            (codes "found duplicate in working/waiting queue") searched
        else searched in
      (
        end.found,
        some end.dec_job,
        unlock_check_errors env (codes "Error Unlocking in does decoding job exists") reported,
      )
