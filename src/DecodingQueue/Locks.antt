-- ===== src/DecodingQueue/Locks.antt =====
-- The mutex of the queue.
use mod_mp.Base.{Bool-cases, ℕ, ◌≡◌, refl, ◌⊎◌, inl, inr, true, false, List}
use mod_mp.DecodingQueue.{JobInfo, DecodingQueue, Env, free_slots, add_decoding_job_queue}
use mod_mp.DecodingQueue.Bits.{is_set, clz}
use mod_mp.DecodingQueue.Holds.{Represents, free-slot}
use mod_mp.DecodingQueue.Fifo.{IsFree, is_set-free_slots}

-- add_decoding_job_queue, where the mutex calls succeed: either a slot is free and the mutex is
-- unlocked in the end, or no slot is free and the function returns with the mutex still locked.
pub locked-add_decoding_job_queue :
    (env : Env) (info : JobInfo) (dq : DecodingQueue) (jobs : List JobInfo)
    → env.lock_succeeds ≡ true
    → env.unlock_succeeds ≡ true
    → Represents dq.queue jobs
    → (((k : ℕ) × IsFree dq.queue k) × ((add_decoding_job_queue env info dq).1.locked ≡ false))
      ⊎ (((k : ℕ) → ¬ IsFree dq.queue k) × ((add_decoding_job_queue env info dq).1.locked ≡ true))
unfolding add_decoding_job_queue
locked-add_decoding_job_queue env info dq jobs a b r =
    elim (Bool-cases (is_set (free_slots dq.queue))) [
      | inl room ↦
          inl (
            (clz (free_slots dq.queue), free-slot dq.queue r.order r.holds room),
            rw (room, b) refl,
          )
      | inr full ↦
          inr
            ((λ k f. cc (full, is_set-free_slots dq.queue r.order k r.holds f)), rw (full, a) refl)
    ]
