-- ===== src/ErrorMessages/Race.antt =====
-- error_messages_add of src/error_messages.c on shared memory: the test on num_errors, the
-- fetch-and-add and the writes of several processes, interleaved.
use mod_mp.Base.{
  length, get_elem?, set, replicate, length-set, length-replicate, ℕ, zero, suc, ◌+◌, ◌≤◌, ◌<◌, ◌≡◌,
  refl, sym, ap, ◌∙◌, subst, ◌≢◌, ◌⊎◌, inl, inr, some, List, [], ◌∷◌, arith,
}
use mod_mp.ErrorMessages.{ErrorMessage, ErrorMessages, max_errors, strncpy}

-- Where a process stands in the function: outside it, behind the test, or behind the fetch-and-add
-- that gave it an index.
pub data Phase : Type 0 where
  idle : Phase
  tested : ErrorMessage → Phase
  claimed : ℕ → ErrorMessage → Phase

-- The table and the phase of each process.
pub record Shared : Type 0 where
  pub table : ErrorMessages
  pub phases : List Phase

-- One step of the process `i`. A write behind the array has no step: it is undefined.
pub data Step (s : Shared) (u : Shared) : Type 0 where
  test :
      (i : ℕ) (m : ErrorMessage)
      → get_elem? s.phases i ≡ some idle
      → s.table.num_errors < max_errors
      → u ≡ record s { phases = set s.phases i (tested m) }
      → Step s u
  refuse :
      (i : ℕ)
      → get_elem? s.phases i ≡ some idle
      → max_errors ≤ s.table.num_errors
      → u ≡ s
      → Step s u
  fetch_and_add :
      (i : ℕ) (m : ErrorMessage)
      → get_elem? s.phases i ≡ some (tested m)
      → u ≡ record s {
        table = record (s.table) { num_errors = s.table.num_errors + 1 };
        phases = set s.phases i (claimed s.table.num_errors m);
      }
      → Step s u
  write :
      (i n : ℕ) (m : ErrorMessage)
      → get_elem? s.phases i ≡ some (claimed n m)
      → n < max_errors
      → u ≡ record s {
        table = record (s.table) {
          messages =
              set s.table.messages n
                (record { type = m.type; header = strncpy m.header; message = strncpy m.message });
        };
        phases = set s.phases i idle;
      }
      → Step s u

pub data Reach (s : Shared) : Shared → Type 0 where
  here : Reach s s
  next : {t u : Shared} → Reach s t → Step t u → Reach s u

abbrev weight : Phase → ℕ
weight (tested m) = 1
weight _ = 0

-- The processes behind the test that have not counted yet.
abbrev pending : List Phase → ℕ
pending [] = 0
pending (p ∷ ps) = weight p + pending ps

pending-le : (ps : List Phase) → pending ps ≤ length ps
pending-le [] = omega arith
pending-le (idle ∷ ps) = omega (arith, pending-le ps)
pending-le (tested m ∷ ps) = omega (arith, pending-le ps)
pending-le (claimed n m ∷ ps) = omega (arith, pending-le ps)

pending-set :
    (ps : List Phase) (i : ℕ) (p q : Phase)
    → get_elem? ps i ≡ some p
    → pending (set ps i q) + weight p ≡ pending ps + weight q
pending-set [] i p q h = cc h
pending-set (x ∷ ps) zero p q h = let e : x ≡ p = cc h in rw e (omega arith)
pending-set (x ∷ ps) (suc i) p q h = omega (arith, pending-set ps i p q h)

get_elem?-set :
    (ps : List Phase) (i j : ℕ) (q : Phase) (p : Phase)
    → get_elem? (set ps i q) j ≡ some p
    → ((i ≡ j) × (p ≡ q)) ⊎ ((i ≢ j) × (get_elem? ps j ≡ some p))
get_elem?-set [] i j q p h = cc h
get_elem?-set (x ∷ ps) zero zero q p h = inl (refl, cc h)
get_elem?-set (x ∷ ps) zero (suc j) q p h = inr ((λ e. absurd (omega (arith, e))), h)
get_elem?-set (x ∷ ps) (suc i) zero q p h = inr ((λ e. absurd (omega (arith, e))), h)
get_elem?-set (x ∷ ps) (suc i) (suc j) q p h = elim (get_elem?-set ps i j q p h) [
  | inl (e, f) ↦ inl (ap suc e, f)
  | inr (e, f) ↦ inr ((λ d. e (omega (arith, d))), f)
]

-- The indices that processes hold, in a list of phases below a bound.
record Claims (ps : List Phase) (num : ℕ) : Type 0 where
  below : (i n : ℕ) (m : ErrorMessage) → get_elem? ps i ≡ some (claimed n m) → n < num
  apart :
      (i j n : ℕ) (m k : ErrorMessage)
      → get_elem? ps i ≡ some (claimed n m)
      → get_elem? ps j ≡ some (claimed n k)
      → i ≡ j

Claims-free :
    (ps : List Phase) (num i : ℕ) (q : Phase)
    → ((n : ℕ) (m : ErrorMessage) → claimed n m ≢ q)
    → Claims ps num
    → Claims (set ps i q) num
Claims-free ps num i q free c = record {
  below = λ j n m h. c.below j n m (old j n m h);
  apart = λ j l n m k h g. c.apart j l n m k (old j n m h) (old l n k g);
}
  where
    old :
        (j n : ℕ) (m : ErrorMessage)
        → get_elem? (set ps i q) j ≡ some (claimed n m)
        → get_elem? ps j ≡ some (claimed n m)
    old j n m h = elim (get_elem?-set ps i j q (claimed n m) h) [
      | inl (e, f) ↦ absurd (free n m f)
      | inr (e, f) ↦ f
    ]

Claims-claimed :
    (ps : List Phase) (num i : ℕ) (m : ErrorMessage)
    → Claims ps num
    → Claims (set ps i (claimed num m)) (num + 1)
Claims-claimed ps num i m c = record { below = below; apart = apart }
  where
    below :
        (j n : ℕ) (k : ErrorMessage)
        → get_elem? (set ps i (claimed num m)) j ≡ some (claimed n k)
        → n < num + 1
    below j n k h = elim (get_elem?-set ps i j (claimed num m) (claimed n k) h) [
      | inl (e, f) ↦ let same : n ≡ num = cc f in omega arith
      | inr (e, f) ↦ omega (arith, c.below j n k f)
    ]

    apart :
        (j l n : ℕ) (k k' : ErrorMessage)
        → get_elem? (set ps i (claimed num m)) j ≡ some (claimed n k)
        → get_elem? (set ps i (claimed num m)) l ≡ some (claimed n k')
        → j ≡ l
    apart j l n k k' h g = elim (get_elem?-set ps i j (claimed num m) (claimed n k) h) [
      | inl (e, f) ↦ elim (get_elem?-set ps i l (claimed num m) (claimed n k') g) [
        | inl (e', f') ↦ sym e ∙ e'
        | inr (e', f') ↦ let same : n ≡ num = cc f in absurd (omega (arith, c.below l n k' f'))
      ]
      | inr (e, f) ↦ elim (get_elem?-set ps i l (claimed num m) (claimed n k') g) [
        | inl (e', f') ↦ let same : n ≡ num = cc f' in absurd (omega (arith, c.below j n k f))
        | inr (e', f') ↦ c.apart j l n k k' f f'
      ]
    ]

-- What every reachable state satisfies, for `processes` processes.
record IsSafe (processes : ℕ) (s : Shared) : Type 0 where
  size : length s.phases ≡ processes
  bounded : s.table.num_errors + pending s.phases + 1 ≤ max_errors + processes
  claims : Claims s.phases s.table.num_errors

Step-IsSafe : {s u : Shared} (processes : ℕ) → Step s u → IsSafe processes s → IsSafe processes u
Step-IsSafe {s} {u} processes (test i m h lt e) v =
    subst (λ x. IsSafe processes x) (sym e)
      (record {
        size = length-set s.phases i (tested m) ∙ v.size;
        bounded = omega (
          arith,
          pending-set s.phases i idle (tested m) h,
          pending-le (set s.phases i (tested m)),
          length-set s.phases i (tested m),
          v.size,
        );
        claims = Claims-free s.phases s.table.num_errors i (tested m) (λ n k c. cc c) v.claims;
      })
Step-IsSafe processes (refuse i h le e) v = subst (λ x. IsSafe processes x) (sym e) v
Step-IsSafe {s} {u} processes (fetch_and_add i m h e) v =
    subst (λ x. IsSafe processes x) (sym e)
      (record {
        size = length-set s.phases i (claimed s.table.num_errors m) ∙ v.size;
        bounded =
            omega (
              arith,
              pending-set s.phases i (tested m) (claimed s.table.num_errors m) h,
              v.bounded,
            );
        claims = Claims-claimed s.phases s.table.num_errors i m v.claims;
      })
Step-IsSafe {s} {u} processes (write i n m h lt e) v =
    subst (λ x. IsSafe processes x) (sym e)
      (record {
        size = length-set s.phases i idle ∙ v.size;
        bounded = omega (arith, pending-set s.phases i (claimed n m) idle h, v.bounded);
        claims = Claims-free s.phases s.table.num_errors i idle (λ n k c. cc c) v.claims;
      })

Reach-IsSafe : {s u : Shared} (processes : ℕ) → IsSafe processes s → Reach s u → IsSafe processes u
Reach-IsSafe processes v here = v
Reach-IsSafe processes v (next r st) = Step-IsSafe processes st (Reach-IsSafe processes v r)

-- Nobody is inside the function.
abbrev pub all_idle : ℕ → List Phase
all_idle processes = replicate processes idle

pending-all_idle : (n : ℕ) → pending (all_idle n) ≡ 0
pending-all_idle zero = refl
pending-all_idle (suc n) = omega (arith, pending-all_idle n)

all_idle-eq : (n i : ℕ) (p : Phase) → get_elem? (all_idle n) i ≡ some p → p ≡ idle
all_idle-eq zero i p h = cc h
all_idle-eq (suc n) zero p h = cc h
all_idle-eq (suc n) (suc i) p h = all_idle-eq n i p h

all_idle-Claims : (n num : ℕ) → Claims (all_idle n) num
all_idle-Claims n num = record {
  below = λ i k m h. cc (all_idle-eq n i (claimed k m) h);
  apart = λ i j k m l h g. cc (all_idle-eq n i (claimed k m) h);
}

start-IsSafe :
    (processes : ℕ) (s : Shared)
    → s.phases ≡ all_idle (suc processes)
    → s.table.num_errors ≤ max_errors
    → IsSafe (suc processes) s
start-IsSafe processes s e le = record {
  size = ap length e ∙ length-replicate (suc processes) idle;
  bounded = omega (arith, le, ap pending e, pending-all_idle (suc processes));
  claims =
      subst (λ x. Claims x s.table.num_errors) (sym e)
        (all_idle-Claims (suc processes) s.table.num_errors);
}

-- From a table of at most 1024 messages with every process outside the function, whatever the
-- order of the steps: a process never gets an index that another one still holds, and with
-- `processes + 1` processes every index is below 1024 + processes. So one process alone stays
-- inside the array, and each further one can pass the end by one entry.
pub Reach-claimed :
    (processes i j n : ℕ) (m k : ErrorMessage) (s u : Shared)
    → s.phases ≡ all_idle (suc processes)
    → s.table.num_errors ≤ max_errors
    → Reach s u
    → get_elem? u.phases i ≡ some (claimed n m)
    → get_elem? u.phases j ≡ some (claimed n k)
    → (n < max_errors + processes) × (i ≡ j)
Reach-claimed processes i j n m k s u e le r h g =
    let v = Reach-IsSafe (suc processes) (start-IsSafe processes s e le) r in
    (omega (arith, v.bounded, v.claims.below i n m h), v.claims.apart i j n m k h g)

-- The bound is met: with two processes and room for one message, both can pass the test, and then
-- one of them gets the index 1024, behind the end of the array.
pub Reach-overflow :
    (table : ErrorMessages) (m k : ErrorMessage)
    → table.num_errors + 1 ≡ max_errors
    → (u : Shared) × Reach (record { table = table; phases = all_idle 2 }) u
      × (get_elem? u.phases 1 ≡ some (claimed max_errors k))
Reach-overflow table m k room =
    let first : Step (at (idle ∷ idle ∷ [])) (at (tested m ∷ idle ∷ [])) =
      test 0 m refl (omega arith) refl in
    let second : Step (at (tested m ∷ idle ∷ [])) (at (tested m ∷ tested k ∷ [])) =
      test 1 k refl (omega arith) refl in
    let third : Step (at (tested m ∷ tested k ∷ [])) one = fetch_and_add 0 m refl refl in
    let fourth : Step one two = fetch_and_add 1 k refl refl in
    (
      two,
      next (next (next (next here first) second) third) fourth,
      ap (λ n. some (claimed n k)) room,
    )
  where
    at : List Phase → Shared
    at phases = record { table = table; phases = phases }

    one : Shared
    one = record {
      table = record table { num_errors = table.num_errors + 1 };
      phases = claimed table.num_errors m ∷ tested k ∷ [];
    }

    two : Shared
    two = record {
      table = record table { num_errors = table.num_errors + 1 + 1 };
      phases = claimed table.num_errors m ∷ claimed (table.num_errors + 1) k ∷ [];
    }
