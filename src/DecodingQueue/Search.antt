-- ===== src/DecodingQueue/Search.antt =====
-- does_decoding_job_exsits visits every slot that waits or is worked on.
use mod_mp.Base.{
  ltb, ◌==◌, if◌then◌else◌, Bool-cases, length, set, length-set, get_or-set, Bytes, codes, ℕ, zero,
  suc, ◌+◌, ◌≤◌, ◌<◌, ◌≡◌, refl, sym, ap, ◌∙◌, inl, inr, Bool, true, false, ◌||◌, some, List, [],
  ◌∷◌, arith,
}
use mod_mp.Apr.{Apr}
use mod_mp.DecodingQueue.{
  DecodingQueue, Env, JobRef, SearchState, report, num_slots, same_job, visit, search_loop,
  does_decoding_job_exsits,
}
use mod_mp.DecodingQueue.Bits.{
  Word, word_size, is_set, clz, bit, flag, word_and, word_not, word_or, clear-eq-set, clz-bit,
  length-or, bit-or, is_set-of_bit,
}
use mod_mp.DecodingQueue.Popcount.{ones, ones-le}
use mod_mp.DecodingQueue.Holds.{Holds}
use mod_mp.DecodingQueue.Fifo.{queue-unlock}

-- Clearing a set bit.
abbrev cleared : Word → Word
cleared w = word_and w (word_not (flag (clz w)))

ones-set : (w : Word) (i : ℕ) → bit w i ≡ true → ones (set w i false) + 1 ≡ ones w
unfolding ones
ones-set [] i h = cc
ones-set (b ∷ w) zero h = ground arith
ones-set (b ∷ w) (suc i) h = omega (arith, ones-set w i h)

module _ (w : Word) (size : length w ≡ word_size) (some_set : is_set w ≡ true) where
  length-cleared : length (cleared w) ≡ word_size
  length-cleared = ap length (clear-eq-set w (clz w) size) ∙ length-set w (clz w) false ∙ size

  ones-cleared : ones (cleared w) + 1 ≡ ones w
  ones-cleared =
      ap (λ v. ones v + 1) (clear-eq-set w (clz w) size) ∙ ones-set w (clz w) (clz-bit w some_set).1

  bit-cleared : (k : ℕ) → bit (cleared w) k ≡ (if clz w == k then false else bit w k)
  bit-cleared k =
      ap (λ v. bit v k) (clear-eq-set w (clz w) size)
      ∙ get_or-set w (clz w) k false false (clz-bit w some_set).0

module _ (apr : Apr) where
  found-visit : (s : SearchState) (i : ℕ) → s.found ≤ (visit apr s i).found
  unfolding visit
  found-visit s i = ground arith

  found-search_loop :
      (rounds : ℕ) (w : Word) (s : SearchState) → s.found ≤ (search_loop apr rounds w s).found
  unfolding search_loop
  found-search_loop zero w s = omega arith
  found-search_loop (suc rounds) w s =
      ground
        (arith, found-visit s (clz w), found-search_loop rounds (cleared w) (visit apr s (clz w)))

  visit-miss : (s : SearchState) (i : ℕ) → same_job apr s i ≡ false → visit apr s i ≡ s
  unfolding visit
  visit-miss s i h = rw h refl

  visit-hit : (s : SearchState) (i : ℕ) → same_job apr s i ≡ true → s.found < (visit apr s i).found
  unfolding visit
  visit-hit s i h = rw h (omega arith)

  search_loop-step :
      (rounds : ℕ) (w : Word) (s : SearchState)
      → is_set w ≡ true
      → search_loop apr (suc rounds) w s ≡ search_loop apr rounds (cleared w) (visit apr s (clz w))
  unfolding search_loop
  search_loop-step rounds w s h = rw h refl

  -- No slot in the word passes the test: the loop changes nothing.
  search_loop-none :
      (rounds : ℕ) (w : Word) (s : SearchState)
      → length w ≡ word_size
      → ((k : ℕ) → bit w k ≡ true → same_job apr s k ≡ false)
      → search_loop apr rounds w s ≡ s
  unfolding search_loop
  search_loop-none zero w s size h = refl
  search_loop-none (suc rounds) w s size h = elim (Bool-cases (is_set w)) [
    | inr done ↦ rw done refl
    | inl more ↦
        rw (more, visit-miss s (clz w) (h (clz w) (clz-bit w more).1))
          (search_loop-none rounds (cleared w) s (length-cleared w size more)
            (λ k e. h k (ground (arith, bit-cleared w size more k))))
  ]

  -- Some slot in the word passes the test: the loop finds one.
  search_loop-some :
      (rounds : ℕ) (w : Word) (s : SearchState) (k : ℕ)
      → length w ≡ word_size
      → ones w < rounds
      → bit w k ≡ true
      → same_job apr s k ≡ true
      → s.found < (search_loop apr rounds w s).found
  search_loop-some zero w s k size h b e = elim h [ ]
  search_loop-some (suc rounds) w s k size h b e =
      let more : is_set w ≡ true = is_set-of_bit w k b in
      rw (search_loop-step rounds w s more) (elim (Bool-cases (same_job apr s (clz w))) [
        | inl hit ↦ omega (
          arith,
          visit-hit s (clz w) hit,
          found-search_loop rounds (cleared w) (visit apr s (clz w)),
        )
        | inr miss ↦ rw (visit-miss s (clz w) miss) (
            search_loop-some rounds (cleared w) s k (length-cleared w size more)
              (omega (arith, ones-cleared w size more))
              (bit-cleared w size more k ∙ ground (arith, ap (same_job apr s) {x = clz w} {y = k}))
              e)
      ])

-- The state before the loop.
abbrev pub start : JobRef → DecodingQueue → SearchState
start dec_job dq = record { dec_job = dec_job; decoding = dq.queue.decoding; found = 0 }

queue-report :
    (b : Bool) (header message : Bytes) (dq : DecodingQueue)
    → (if b then report header message dq else dq).queue ≡ dq.queue
queue-report true header message dq = refl
queue-report false header message dq = refl

-- What the call returns, by the state after the loop.
module _ (apr : Apr) (env : Env) (strerror : Bytes) (dq : DecodingQueue) (dec_job : JobRef) where
  abbrev ended : SearchState
  ended =
      search_loop apr (suc num_slots) (word_or dq.queue.waiting dq.queue.working) (start dec_job dq)

  found-does : (does_decoding_job_exsits apr env strerror dq (some dec_job)).0 ≡ ended.found
  unfolding does_decoding_job_exsits
  found-does = refl

  job-does : (does_decoding_job_exsits apr env strerror dq (some dec_job)).1 ≡ some ended.dec_job
  unfolding does_decoding_job_exsits
  job-does = refl

  queue-does :
      (does_decoding_job_exsits apr env strerror dq (some dec_job)).2.queue
      ≡ record (dq.queue) { decoding = ended.decoding }
  unfolding does_decoding_job_exsits
  queue-does =
      queue-unlock env (codes "Error Unlocking in does decoding job exists") _
      ∙ queue-report (ltb 1 ended.found) _ _ _

-- A slot that waits or is worked on, with a job of the same source and output type.
abbrev pub IsSame : Apr → JobRef → DecodingQueue → ℕ → Type 0
IsSame apr dec_job dq k =
    (bit dq.queue.waiting k || bit dq.queue.working k ≡ true)
    × (same_job apr (start dec_job dq) k ≡ true)

does_decoding_job_exsits_lem :
    (apr : Apr) (env : Env) (strerror : Bytes) (dq : DecodingQueue) (dec_job : JobRef) (l : List ℕ)
    → Holds dq.queue l
    → ((k : ℕ)
        → IsSame apr dec_job dq k
        → 0 < (does_decoding_job_exsits apr env strerror dq (some dec_job)).0)
      × (((k : ℕ) → ¬ IsSame apr dec_job dq k)
          → ((does_decoding_job_exsits apr env strerror dq (some dec_job)).0 ≡ 0)
            × ((does_decoding_job_exsits apr env strerror dq (some dec_job)).1 ≡ some dec_job)
            × ((does_decoding_job_exsits apr env strerror dq (some dec_job)).2.queue ≡ dq.queue))
does_decoding_job_exsits_lem apr env strerror dq dec_job l v = (
  λ k (used, same). rw (found-does apr env strerror dq dec_job) (
      search_loop-some apr (suc num_slots) has_job (start dec_job dq) k size
        (omega (arith, ones-le has_job, size)) (bit-or dq.queue.waiting dq.queue.working k ∙ used)
        same),
  λ h.
      let same : end ≡ start dec_job dq =
        search_loop-none apr (suc num_slots) has_job (start dec_job dq) size
          (λ k b. missing k h (sym (bit-or dq.queue.waiting dq.queue.working k) ∙ b)) in
      (
        found-does apr env strerror dq dec_job ∙ ap (λ (s : SearchState). s.found) same,
        job-does apr env strerror dq dec_job ∙ ap (λ (s : SearchState). some s.dec_job) same,
        queue-does apr env strerror dq dec_job
            ∙ ap (λ (s : SearchState). record (dq.queue) { decoding = s.decoding }) same,
      ),
)
  where
    has_job : Word
    has_job = word_or dq.queue.waiting dq.queue.working

    end : SearchState
    end = search_loop apr (suc num_slots) has_job (start dec_job dq)

    missing :
        (k : ℕ)
        → ((k : ℕ) → ¬ IsSame apr dec_job dq k)
        → bit dq.queue.waiting k || bit dq.queue.working k ≡ true
        → same_job apr (start dec_job dq) k ≡ false
    missing k h used = elim (Bool-cases (same_job apr (start dec_job dq) k)) [
      | inl same ↦ absurd (h k (used, same))
      | inr other ↦ other
    ]

    size : length has_job ≡ word_size
    size =
        length-or dq.queue.waiting dq.queue.working (v.waiting_size ∙ sym v.working_size)
        ∙ v.waiting_size

-- On a well-formed queue, does_decoding_job_exsits reports at least one job if a slot that waits or
-- is worked on holds a job of the same source and output type as the given one.
pub does_decoding_job_exsits-found :
    (apr : Apr) (env : Env) (strerror : Bytes) (dq : DecodingQueue) (dec_job : JobRef) (l : List ℕ)
    (k : ℕ)
    → Holds dq.queue l
    → IsSame apr dec_job dq k
    → 0 < (does_decoding_job_exsits apr env strerror dq (some dec_job)).0
does_decoding_job_exsits-found apr env strerror dq dec_job l k v =
    (does_decoding_job_exsits_lem apr env strerror dq dec_job l v).0 k

-- On a well-formed queue with no such slot, it returns 0, and the pointer and the queue stay as
-- they are.
pub does_decoding_job_exsits-none :
    (apr : Apr) (env : Env) (strerror : Bytes) (dq : DecodingQueue) (dec_job : JobRef) (l : List ℕ)
    → Holds dq.queue l
    → ((k : ℕ) → ¬ IsSame apr dec_job dq k)
    → ((does_decoding_job_exsits apr env strerror dq (some dec_job)).0 ≡ 0)
      × ((does_decoding_job_exsits apr env strerror dq (some dec_job)).1 ≡ some dec_job)
      × ((does_decoding_job_exsits apr env strerror dq (some dec_job)).2.queue ≡ dq.queue)
does_decoding_job_exsits-none apr env strerror dq dec_job l v =
    (does_decoding_job_exsits_lem apr env strerror dq dec_job l v).1
