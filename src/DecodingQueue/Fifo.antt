-- ===== src/DecodingQueue/Fifo.antt =====
-- The queue refines a first-in first-out list of jobs.
use mod_mp.Base.{
  Bool-cases, length, length-replicate, get_or-set, ℤ, success, Bytes, codes, negsuc, ℕ, ◌<◌, ◌≡◌,
  refl, sym, ap, ◌∙◌, subst, ◌⊎◌, inl, inr, true, false, Option, none, some, List, [], ◌∷◌, ◌++◌,
  arith,
}
use mod_mp.DecodingQueue.{
  DecodingJob, JobInfo, Queue, DecodingQueue, Env, slot, num_slots, create_queue, take_head,
  get_locked, get_decoding_job_queue, add_at, free_slots, add_decoding_job_queue, lock_check_errors,
  unlock_check_errors,
}
use mod_mp.DecodingQueue.Bits.{
  word_size, zero_word, is_set, clz, bit, mark-eq-set, bit-or, bit-not, is_set-of_bit, word_or,
  word_not, length-or,
}
use mod_mp.DecodingQueue.Links.{infos}
use mod_mp.DecodingQueue.Holds.{
  Holds, Represents, bit-zero, waits-lt, take_head-Holds, free-slot, add_at-Holds, add_at-infos,
  nothing_waits,
}

pub create_queue-Holds :
    (decoding : List DecodingJob) (n : ℤ)
    → length decoding ≡ num_slots
    → Holds (create_queue decoding n) []
unfolding create_queue zero_word
create_queue-Holds decoding n size = record {
  slots = size;
  waiting_size = length-replicate word_size false;
  working_size = length-replicate word_size false;
  members = λ k. bit-zero word_size k;
  disjoint = λ k. rw (bit-zero word_size k) refl;
  distinct = tt;
  starts = tt;
  ends = tt;
  tail_range = tt;
  links = tt;
}

abbrev pub Reply : Type 0
Reply = Option (Option ℕ × DecodingQueue)

-- What a worker that asks for a job sees, by the jobs that wait.
abbrev pub Serves : DecodingQueue → List JobInfo → Reply → Type 0
Serves dq [] reply = (dq' : DecodingQueue) × (reply ≡ some (none, dq')) × (dq'.queue ≡ dq.queue)
Serves dq (job ∷ jobs) reply =
    (index : ℕ) × (dq' : DecodingQueue) × (reply ≡ some (some index, dq'))
    × ((slot dq'.queue.decoding index).info ≡ job)
    × Represents dq'.queue jobs
    × (bit dq'.queue.working index ≡ true)

pub queue-lock :
    (env : Env) (header : Bytes) (dq : DecodingQueue)
    → (lock_check_errors env header dq).queue ≡ dq.queue
unfolding lock_check_errors
queue-lock env header dq = ground arith

pub queue-unlock :
    (env : Env) (header : Bytes) (dq : DecodingQueue)
    → (unlock_check_errors env header dq).queue ≡ dq.queue
unfolding unlock_check_errors
queue-unlock env header dq = ground arith

working-take_head :
    (q : Queue) (i : ℕ) (l : List ℕ) → Holds q (i ∷ l) → bit (take_head i q).working i ≡ true
unfolding take_head
working-take_head q i l v =
    ap (λ w. bit w i) (mark-eq-set q.working i v.working_size)
    ∙ ground (
      arith,
      get_or-set q.working i i true false
          (rw v.working_size (waits-lt q (i ∷ l) i v (ground arith))),
    )

get_locked-empty : (dq : DecodingQueue) → Holds dq.queue [] → get_locked dq ≡ some (none, dq)
unfolding get_locked
get_locked-empty dq v = rw (nothing_waits dq.queue v) refl

get_locked-head :
    (dq : DecodingQueue) (i : ℕ) (l : List ℕ)
    → Holds dq.queue (i ∷ l)
    → get_locked dq ≡ some (some i, record dq { queue = take_head i dq.queue })
unfolding get_locked
get_locked-head dq i l v =
    rw (is_set-of_bit dq.queue.waiting i (v.members i ∙ ground arith), v.starts)
      (ground (arith, waits-lt dq.queue (i ∷ l) i v (ground arith)))

get-of_locked :
    (env : Env) (dq : DecodingQueue) (job : Option ℕ) (dq' : DecodingQueue)
    → get_locked (lock_check_errors env (codes "Error Locking in get decoding queue") dq)
      ≡ some (job, dq')
    → get_decoding_job_queue env dq
      ≡ some (job, unlock_check_errors env (codes "Error Unlocking in get decoding queue") dq')
unfolding get_decoding_job_queue
get-of_locked env dq job dq' h = rw (get_decoding_job_queue, h) refl

decoding-take_head : (i : ℕ) (q : Queue) → (take_head i q).decoding ≡ q.decoding
unfolding take_head
decoding-take_head i q = refl

pub is_set-free_slots :
    (q : Queue) (l : List ℕ) (k : ℕ)
    → Holds q l
    → (k < num_slots) × (bit q.waiting k ≡ false) × (bit q.working k ≡ false)
    → is_set (free_slots q) ≡ true
unfolding free_slots
is_set-free_slots q l k v (inside, idle, rest) =
    is_set-of_bit (word_not (word_or q.waiting q.working)) k (
      ground (
        arith,
        bit-not (word_or q.waiting q.working) k (
            rw (length-or q.waiting q.working (v.waiting_size ∙ sym v.working_size), v.waiting_size)
              inside),
        bit-or q.waiting q.working k,
      ))

-- get_decoding_job_queue, on a queue that holds the jobs `jobs`, oldest first: with none it returns
-- NULL and leaves the queue; otherwise it returns the slot of the oldest job, marks it as worked on
-- and leaves the others in their order. It never meets the reported fault of a bad head.
pub get_decoding_job_queue-Serves :
    (env : Env) (dq : DecodingQueue) (jobs : List JobInfo)
    → Represents dq.queue jobs
    → Serves dq jobs (get_decoding_job_queue env dq)
get_decoding_job_queue-Serves env dq jobs r =
    subst (λ js. Serves dq js (get_decoding_job_queue env dq)) r.contents (serve r.order r.holds)
  where
    opened : DecodingQueue
    opened = lock_check_errors env (codes "Error Locking in get decoding queue") dq

    same : opened.queue ≡ dq.queue
    same = queue-lock env (codes "Error Locking in get decoding queue") dq

    closed : DecodingQueue → DecodingQueue
    closed = unlock_check_errors env (codes "Error Unlocking in get decoding queue")

    closed-queue : (d : DecodingQueue) → (closed d).queue ≡ d.queue
    closed-queue = queue-unlock env (codes "Error Unlocking in get decoding queue")

    serve :
        (l : List ℕ)
        → Holds dq.queue l
        → Serves dq (infos dq.queue.decoding l) (get_decoding_job_queue env dq)
    serve [] v = (
      closed opened,
      get-of_locked env dq none opened
          (get_locked-empty opened (subst (λ q. Holds q []) (sym same) v)),
      closed-queue opened ∙ same,
    )
    serve (i ∷ l) v =
        let taken : DecodingQueue = record opened { queue = take_head i opened.queue } in
        let after : (closed taken).queue ≡ take_head i dq.queue =
          closed-queue taken ∙ ap (take_head i) same in
        (
          i,
          closed taken,
          get-of_locked env dq (some i) taken
              (get_locked-head opened i l (subst (λ q. Holds q (i ∷ l)) (sym same) v)),
          ap (λ (q : Queue). (slot q.decoding i).info) after
              ∙ ap (λ d. (slot d i).info) (decoding-take_head i dq.queue),
          subst (λ q. Represents q (infos dq.queue.decoding l)) (sym after)
              (record {
                order = l;
                holds = take_head-Holds dq.queue i l v;
                contents = ap (λ d. infos d l) (decoding-take_head i dq.queue);
              }),
          ap (λ (q : Queue). bit q.working i) after ∙ working-take_head dq.queue i l v,
        )

pub add_with_room :
    (env : Env) (info : JobInfo) (dq : DecodingQueue)
    → is_set (free_slots dq.queue) ≡ true
    → ((add_decoding_job_queue env info dq).0 ≡ success)
      × ((add_decoding_job_queue env info dq).1.queue
          ≡ add_at (clz (free_slots dq.queue)) info dq.queue)
unfolding add_decoding_job_queue
add_with_room env info dq room = (
  rw (add_decoding_job_queue, room) refl,
  rw (add_decoding_job_queue, room)
      (queue-unlock env (codes "Error Unlocking in add decoding job") _),
)

add_when_full :
    (env : Env) (info : JobInfo) (dq : DecodingQueue)
    → is_set (free_slots dq.queue) ≡ false
    → ((add_decoding_job_queue env info dq).0 ≡ negsuc 0)
      × ((add_decoding_job_queue env info dq).1.queue ≡ dq.queue)
unfolding add_decoding_job_queue
add_when_full env info dq full = (
  rw (add_decoding_job_queue, full) refl,
  rw (add_decoding_job_queue, full) (queue-lock env (codes "Error Locking in add decoding job") dq),
)

-- What the caller of add_decoding_job_queue sees when a slot is free.
abbrev pub Accepts : JobInfo → List JobInfo → ℤ × DecodingQueue → Type 0
Accepts info jobs (status, dq') = (status ≡ success) × Represents dq'.queue (jobs ++ info ∷ [])

-- And when none is.
abbrev pub Refuses : DecodingQueue → ℤ × DecodingQueue → Type 0
Refuses dq (status, dq') = (status ≡ negsuc 0) × (dq'.queue ≡ dq.queue)

-- A slot that neither waits nor is worked on.
abbrev pub IsFree : Queue → ℕ → Type 0
IsFree q k = (k < num_slots) × (bit q.waiting k ≡ false) × (bit q.working k ≡ false)

-- add_decoding_job_queue, on a queue that holds the jobs `jobs`: either a slot is free, the result
-- is 0 and the new job waits behind all others; or every slot waits or is worked on, the result is
-- -1 and the queue is unchanged.
pub add_decoding_job_queue-Represents :
    (env : Env) (info : JobInfo) (dq : DecodingQueue) (jobs : List JobInfo)
    → Represents dq.queue jobs
    → (((k : ℕ) × IsFree dq.queue k) × Accepts info jobs (add_decoding_job_queue env info dq))
      ⊎ (((k : ℕ) → ¬ IsFree dq.queue k) × Refuses dq (add_decoding_job_queue env info dq))
add_decoding_job_queue-Represents env info dq jobs r =
    elim (Bool-cases (is_set (free_slots dq.queue))) [
      | inl room ↦
          inl ((clz (free_slots dq.queue), free-slot dq.queue r.order r.holds room), accepts room)
      | inr full ↦
          inr ((λ k f. cc (full, is_set-free_slots dq.queue r.order k r.holds f)), refuses full)
    ]
  where
    accepts :
        is_set (free_slots dq.queue) ≡ true → Accepts info jobs (add_decoding_job_queue env info dq)
    accepts room =
        let e : ℕ = clz (free_slots dq.queue) in
        let (status, queue) = add_with_room env info dq room in
        let (inside, idle, rest) = free-slot dq.queue r.order r.holds room in
        (
          status,
          subst (λ q. Represents q (jobs ++ info ∷ [])) (sym queue)
              (record {
                order = r.order ++ e ∷ [];
                holds = add_at-Holds dq.queue e info r.order inside idle rest r.holds;
                contents =
                    add_at-infos dq.queue e info r.order inside idle r.holds
                    ∙ ap (λ js. js ++ info ∷ []) r.contents;
              }),
        )

    refuses : is_set (free_slots dq.queue) ≡ false → Refuses dq (add_decoding_job_queue env info dq)
    refuses full = add_when_full env info dq full
