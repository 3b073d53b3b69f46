-- ===== src/DecodingQueue/Links.antt =====
-- The linked slots: what the two array writes of add_decoding_job_queue do to the links and to the
-- jobs of the slots that wait.
use mod_mp.Base.{
  ◌==◌, length, set, get_or-set, ℤ, pos, ℕ, ◌<◌, ◌≡◌, refl, ap, Bool, true, false, ◌||◌, List, [],
  ◌∷◌, ◌++◌, arith,
}
use mod_mp.DecodingQueue.{DecodingJob, JobInfo, no_job, slot, set_next}

-- Membership and absence of repetition among slot numbers.
abbrev pub has : ℕ → List ℕ → Bool
has i [] = false
has i (j ∷ l) = j == i || has i l

abbrev pub Distinct : List ℕ → Type 0
Distinct [] = Unit {0}
Distinct (i ∷ l) = (has i l ≡ false) × Distinct l

abbrev pub StartsAt : ℤ → List ℕ → Type 0
StartsAt h [] = Unit {0}
StartsAt h (i ∷ l) = h ≡ pos i

abbrev pub EndsAt : ℤ → List ℕ → Type 0
EndsAt t [] = Unit {0}
EndsAt t (i ∷ []) = t ≡ pos i
EndsAt t (i ∷ j ∷ l) = EndsAt t (j ∷ l)

-- Each slot but the last points to the one behind it.
abbrev pub Links : List DecodingJob → List ℕ → Type 0
Links d [] = Unit {0}
Links d (i ∷ []) = Unit {0}
Links d (i ∷ j ∷ l) = ((slot d i).next ≡ pos j) × Links d (j ∷ l)

-- The jobs of some slots.
abbrev pub infos : List DecodingJob → List ℕ → List JobInfo
infos d [] = []
infos d (i ∷ l) = (slot d i).info ∷ infos d l

pub has-snoc : (k e : ℕ) (l : List ℕ) → has k (l ++ e ∷ []) ≡ has k l || e == k
has-snoc k e [] = ground arith
has-snoc k e (i ∷ l) = ground (arith, has-snoc k e l)

pub Distinct-snoc : (e : ℕ) (l : List ℕ) → Distinct l → has e l ≡ false → Distinct (l ++ e ∷ [])
Distinct-snoc e [] d h = (refl, tt)
Distinct-snoc e (i ∷ l) d h = (ground (arith, has-snoc i e l), Distinct-snoc e l d.1 (ground arith))

pub EndsAt-snoc : (e : ℕ) (l : List ℕ) → EndsAt (pos e) (l ++ e ∷ [])
EndsAt-snoc e [] = refl
EndsAt-snoc e (i ∷ []) = refl
EndsAt-snoc e (i ∷ j ∷ l) = EndsAt-snoc e (j ∷ l)

pub EndsAt-has : (t i : ℕ) (l : List ℕ) → EndsAt (pos t) (i ∷ l) → has t (i ∷ l) ≡ true
EndsAt-has t i [] h = ground arith
EndsAt-has t i (j ∷ l) h = ground (arith, EndsAt-has t j l h)

pub Links-tail : (d : List DecodingJob) (i : ℕ) (l : List ℕ) → Links d (i ∷ l) → Links d l
Links-tail d i [] h = tt
Links-tail d i (j ∷ l) h = h.1

-- A write to a slot outside the list leaves its links and its jobs.
pub Links-set :
    (d : List DecodingJob) (e : ℕ) (v : DecodingJob) (l : List ℕ)
    → e < length d
    → has e l ≡ false
    → Links d l
    → Links (set d e v) l
Links-set d e v [] b h k = tt
Links-set d e v (i ∷ []) b h k = tt
Links-set d e v (i ∷ j ∷ l) b h k =
    (ground (arith, get_or-set d e i v no_job b), Links-set d e v (j ∷ l) b (ground arith) k.1)

pub infos-set :
    (d : List DecodingJob) (e : ℕ) (v : DecodingJob) (l : List ℕ)
    → e < length d
    → has e l ≡ false
    → infos (set d e v) l ≡ infos d l
infos-set d e v [] b h = refl
infos-set d e v (i ∷ l) b h =
    ground (arith, get_or-set d e i v no_job b, infos-set d e v l b (ground arith))

-- Changing a `next` changes no job.
pub infos-set_next :
    (d : List DecodingJob) (t : ℕ) (n : ℤ) (l : List ℕ)
    → t < length d
    → infos (set_next d t n) l ≡ infos d l
infos-set_next d t n [] b = refl
infos-set_next d t n (i ∷ l) b =
    ground
      (arith, get_or-set d t i (record (slot d t) { next = n }) no_job b, infos-set_next d t n l b)

-- Linking the last slot to `e` extends the chain.
pub Links-set_next :
    (d : List DecodingJob) (t e i : ℕ) (l : List ℕ)
    → t < length d
    → Distinct (i ∷ l)
    → EndsAt (pos t) (i ∷ l)
    → Links d (i ∷ l)
    → Links (set_next d t (pos e)) ((i ∷ l) ++ e ∷ [])
Links-set_next d t e i [] b u h k =
    (ground (arith, get_or-set d t i (record (slot d t) { next = pos e }) no_job b), tt)
Links-set_next d t e i (j ∷ l) b u h k = (
  ground
      (arith, get_or-set d t i (record (slot d t) { next = pos e }) no_job b, EndsAt-has t j l h),
  Links-set_next d t e j l b u.1 h k.1,
)

pub infos-snoc :
    (d : List DecodingJob) (l : List ℕ) (e : ℕ)
    → infos d (l ++ e ∷ []) ≡ infos d l ++ (slot d e).info ∷ []
infos-snoc d [] e = refl
infos-snoc d (i ∷ l) e = ap (λ r. (slot d i).info ∷ r) (infos-snoc d l e)
