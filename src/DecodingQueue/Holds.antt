-- ===== src/DecodingQueue/Holds.antt =====
-- The invariant of the queue: the waiting bits and the links describe one list of slots. What
-- taking the head and adding at the tail do to it.
use mathlib.Core.Path.{ap₂}
use mod_mp.Base.{
  ◌==◌, if◌then◌else◌, Bool-cases, length, set, replicate, length-set, get_or-set, get_or-beyond, ℤ,
  pos, negsuc, ℕ, zero, suc, ◌<◌, ◌≡◌, refl, sym, ap, ◌∙◌, inl, inr, true, false, ◌&&◌, List, [],
  ◌∷◌, ◌++◌, arith,
}
use mod_mp.DecodingQueue.{
  DecodingJob, JobInfo, Queue, no_job, slot, num_slots, place_job, link_tail, take_head, add_at,
  free_slots,
}
use mod_mp.DecodingQueue.Bits.{
  Word, word_size, is_set, clz, bit, clear-eq-set, mark-eq-set, bit-or, bit-not, length-not,
  length-or, clz-bit, is_set-of_bit, flag, word_and, word_or, word_not,
}
use mod_mp.DecodingQueue.Links.{
  has, Distinct, StartsAt, EndsAt, Links, infos, has-snoc, Distinct-snoc, EndsAt-snoc, Links-tail,
  Links-set, infos-set, infos-set_next, Links-set_next, infos-snoc,
}

-- A tail that is not negative is a slot. It may be a stale one while nothing waits.
abbrev TailInRange : ℤ → Type 0
TailInRange (pos t) = t < num_slots
TailInRange (negsuc n) = Unit {0}

-- The slots of `l`, oldest first, are those that wait, linked from the head to the tail; none of
-- them is being worked on.
pub record Holds (q : Queue) (l : List ℕ) : Type 0 where
  pub slots : length q.decoding ≡ num_slots
  pub waiting_size : length q.waiting ≡ word_size
  pub working_size : length q.working ≡ word_size
  pub members : (k : ℕ) → bit q.waiting k ≡ has k l
  pub disjoint : (k : ℕ) → bit q.waiting k && bit q.working k ≡ false
  pub distinct : Distinct l
  pub starts : StartsAt q.head l
  pub ends : EndsAt q.tail l
  pub tail_range : TailInRange q.tail
  pub links : Links q.decoding l

-- The abstract view: the jobs that wait, oldest first.
pub record Represents (q : Queue) (jobs : List JobInfo) : Type 0 where
  pub order : List ℕ
  pub holds : Holds q order
  pub contents : infos q.decoding order ≡ jobs

pub bit-zero : (n k : ℕ) → bit (replicate n false) k ≡ false
bit-zero zero k = refl
bit-zero (suc n) zero = refl
bit-zero (suc n) (suc k) = bit-zero n k

-- A slot that waits lies within the array.
pub waits-lt : (q : Queue) (l : List ℕ) (k : ℕ) → Holds q l → has k l ≡ true → k < num_slots
waits-lt q l k v h = ground (arith, get_or-beyond q.waiting k false, v.members k, v.waiting_size)

pub take_head-Holds : (q : Queue) (i : ℕ) (l : List ℕ) → Holds q (i ∷ l) → Holds (take_head i q) l
unfolding take_head
take_head-Holds q i l v = record {
  slots = v.slots;
  waiting_size = ap length cleared ∙ length-set q.waiting i false ∙ v.waiting_size;
  working_size = ap length marked ∙ length-set q.working i true ∙ v.working_size;
  members =
      λ k. ap (λ w. bit w k) cleared ∙ ground (arith, at_waiting k, v.members k, v.distinct.0);
  disjoint = λ k. rw (cleared, marked) (ground (arith, at_waiting k, at_working k, v.disjoint k));
  distinct = v.distinct.1;
  starts = starts l v.links;
  ends = ends l v.ends;
  tail_range = v.tail_range;
  links = Links-tail q.decoding i l v.links;
}
  where
    inside : i < num_slots
    inside = waits-lt q (i ∷ l) i v (ground arith)

    cleared : word_and q.waiting (word_not (flag i)) ≡ set q.waiting i false
    cleared = clear-eq-set q.waiting i v.waiting_size

    marked : word_or q.working (flag i) ≡ set q.working i true
    marked = mark-eq-set q.working i v.working_size

    at_waiting :
        (k : ℕ) → bit (set q.waiting i false) k ≡ (if i == k then false else bit q.waiting k)
    at_waiting k = get_or-set q.waiting i k false false (rw v.waiting_size inside)

    at_working : (k : ℕ) → bit (set q.working i true) k ≡ (if i == k then true else bit q.working k)
    at_working k = get_or-set q.working i k true false (rw v.working_size inside)

    starts : (r : List ℕ) → Links q.decoding (i ∷ r) → StartsAt (slot q.decoding i).next r
    starts [] h = tt
    starts (j ∷ r) h = h.0

    ends : (r : List ℕ) → EndsAt q.tail (i ∷ r) → EndsAt q.tail r
    ends [] h = tt
    ends (j ∷ r) h = h

free-bit :
    (w v : Word) (k : ℕ)
    → length w ≡ word_size
    → length v ≡ word_size
    → k < length (word_not (word_or w v))
    → bit (word_not (word_or w v)) k ≡ true
    → (k < num_slots) × (bit w k ≡ false) × (bit v k ≡ false)
free-bit w v k a b h e =
    let size : length (word_or w v) ≡ word_size = length-or w v (a ∙ sym b) ∙ a in
    let inside : k < length (word_or w v) = omega (arith, length-not (word_or w v)) in
    (
      omega arith,
      ground (arith, bit-not (word_or w v) k inside, bit-or w v k),
      ground (arith, bit-not (word_or w v) k inside, bit-or w v k),
    )

-- What the free slot that clz finds satisfies.
pub free-slot :
    (q : Queue) (l : List ℕ)
    → Holds q l
    → is_set (free_slots q) ≡ true
    → (clz (free_slots q) < num_slots)
      × (bit q.waiting (clz (free_slots q)) ≡ false)
      × (bit q.working (clz (free_slots q)) ≡ false)
unfolding free_slots
free-slot q l v h =
    let (inside, found) = clz-bit (word_not (word_or q.waiting q.working)) h in
    free-bit q.waiting q.working _ v.waiting_size v.working_size inside found

module _ (q : Queue) (e : ℕ) (info : JobInfo) (inside : e < num_slots) where
  placed-slot : length q.decoding ≡ num_slots → (slot (place_job e info q.decoding) e).info ≡ info
  unfolding place_job
  placed-slot size = ground (
    arith,
    get_or-set q.decoding e e (record { index = pos e; info = info; next = negsuc 0 }) no_job
        (rw size inside),
  )

  length-place_job : length (place_job e info q.decoding) ≡ length q.decoding
  unfolding place_job
  length-place_job = length-set q.decoding e _

length-link_tail : (t : ℤ) (e : ℕ) (d : List DecodingJob) → length (link_tail t e d) ≡ length d
unfolding link_tail
length-link_tail (pos t) e d = length-set d t _
length-link_tail (negsuc n) e d = refl

infos-link_tail :
    (t : ℤ) (e : ℕ) (d : List DecodingJob) (l : List ℕ)
    → length d ≡ num_slots
    → TailInRange t
    → infos (link_tail t e d) l ≡ infos d l
unfolding link_tail
infos-link_tail (pos t) e d l size h = infos-set_next d t (pos e) l (rw size h)
infos-link_tail (negsuc n) e d l size h = refl

not-EndsAt-negsuc : (n i : ℕ) (l : List ℕ) → ¬ EndsAt (negsuc n) (i ∷ l)
not-EndsAt-negsuc n i [] h = cc
not-EndsAt-negsuc n i (j ∷ l) h = not-EndsAt-negsuc n j l h

pub nothing_waits : (q : Queue) → Holds q [] → is_set q.waiting ≡ false
nothing_waits q v = elim (Bool-cases (is_set q.waiting)) [
  | inl some_wait ↦
      let (inside, found) = clz-bit q.waiting some_wait in
      absurd (cc (found, v.members (clz q.waiting)))
  | inr none_wait ↦ none_wait
]

-- A queue in which something waits keeps its head; an empty one gets the new slot for its head.
add_at-StartsAt :
    (q : Queue) (e : ℕ) (l : List ℕ)
    → Holds q l
    → StartsAt (if is_set q.waiting then q.head else pos e) (l ++ e ∷ [])
add_at-StartsAt q e [] v = rw (nothing_waits q v) refl
add_at-StartsAt q e (i ∷ l) v = rw (is_set-of_bit q.waiting i (v.members i ∙ ground arith)) v.starts

Links-link_tail :
    (t : ℤ) (e : ℕ) (d : List DecodingJob) (l : List ℕ)
    → length d ≡ num_slots
    → TailInRange t
    → Distinct l
    → EndsAt t l
    → Links d l
    → Links (link_tail t e d) (l ++ e ∷ [])
unfolding link_tail
Links-link_tail t e d [] size h u w k = tt
Links-link_tail (pos t) e d (i ∷ l) size h u w k = Links-set_next d t e i l (rw size h) u w k
Links-link_tail (negsuc n) e d (i ∷ l) size h u w k = absurd (not-EndsAt-negsuc n i l w)

-- The new job goes into a free slot and waits behind all others.
pub add_at-Holds :
    (q : Queue) (e : ℕ) (info : JobInfo) (l : List ℕ)
    → e < num_slots
    → bit q.waiting e ≡ false
    → bit q.working e ≡ false
    → Holds q l
    → Holds (add_at e info q) (l ++ e ∷ [])
unfolding add_at
add_at-Holds q e info l inside idle free v = record {
  slots = length-link_tail q.tail e (place_job e info q.decoding) ∙ size;
  waiting_size = ap length marked ∙ length-set q.waiting e true ∙ v.waiting_size;
  working_size = v.working_size;
  members =
      λ k. ap (λ w. bit w k) marked ∙ ground (arith, at_waiting k, v.members k, has-snoc k e l);
  disjoint = λ k. rw marked (ground (arith, at_waiting k, v.disjoint k));
  distinct = Distinct-snoc e l v.distinct absent;
  starts = add_at-StartsAt q e l v;
  ends = EndsAt-snoc e l;
  tail_range = inside;
  links =
      Links-link_tail q.tail e (place_job e info q.decoding) l size v.tail_range v.distinct v.ends
        (unfold place_job in Links-set q.decoding e _ l (rw v.slots inside) absent v.links);
}
  where
    absent : has e l ≡ false
    absent = sym (v.members e) ∙ idle

    size : length (place_job e info q.decoding) ≡ num_slots
    size = length-place_job q e info inside ∙ v.slots

    marked : word_or q.waiting (flag e) ≡ set q.waiting e true
    marked = mark-eq-set q.waiting e v.waiting_size

    at_waiting : (k : ℕ) → bit (set q.waiting e true) k ≡ (if e == k then true else bit q.waiting k)
    at_waiting k = get_or-set q.waiting e k true false (rw v.waiting_size inside)

pub add_at-infos :
    (q : Queue) (e : ℕ) (info : JobInfo) (l : List ℕ)
    → e < num_slots
    → bit q.waiting e ≡ false
    → Holds q l
    → infos (add_at e info q).decoding (l ++ e ∷ []) ≡ infos q.decoding l ++ info ∷ []
unfolding add_at
add_at-infos q e info l inside idle v =
    infos-link_tail q.tail e (place_job e info q.decoding) (l ++ e ∷ []) size v.tail_range
    ∙ infos-snoc (place_job e info q.decoding) l e
    ∙ ap₂ (λ a b. a ++ b ∷ [])
        (unfold place_job in
          infos-set q.decoding e _ l (rw v.slots inside) (sym (v.members e) ∙ idle))
        (placed-slot q e info inside v.slots)
  where
    size : length (place_job e info q.decoding) ≡ num_slots
    size = length-place_job q e info inside ∙ v.slots
