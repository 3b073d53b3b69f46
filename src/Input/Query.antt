-- ===== src/Input/Query.antt =====
-- What a query string means: the parts between separators, and a name and a value in each.
use mod_mp.Base.{
  ltb, ◌==◌, if◌then◌else◌, Bool-cases, length, take, drop, Bytes, strchr, strcspn, ℕ, suc, ◌≤◌,
  ◌≡◌, refl, inl, inr, List, [], ◌∷◌, arith,
}
use mod_mp.Input.{is_separator, name_length}

-- Puts a byte in front of the first part.
cons_head : ℕ → List Bytes → List Bytes
cons_head c [] = (c ∷ []) ∷ []
cons_head c (part ∷ parts) = (c ∷ part) ∷ parts

-- The parts between the separators, empty ones included.
unfoldable pub segments : Bytes → List Bytes
unfolding cons_head
segments [] = [] ∷ []
segments (c ∷ cs) = let rest = segments cs in if is_separator c then [] ∷ rest else cons_head c rest

-- A part's name is what stands before its first `=`, its value what stands behind it.
pub name_and_value : Bytes → Bytes × Bytes
name_and_value [] = ([], [])
name_and_value (c ∷ cs) =
    let rest = name_and_value cs in if c == b'=' then ([], cs) else (c ∷ rest.0, rest.1)

-- The parts behind the first one.
abbrev pub later_segments : Bytes → List Bytes
later_segments s =
    if ltb (strcspn is_separator s) (length s)
    then segments (drop (suc (strcspn is_separator s)) s)
    else []

-- The first part is as long as strcspn says.
pub segments-strcspn : (s : Bytes) → segments s ≡ take (strcspn is_separator s) s ∷ later_segments s
unfolding segments strcspn
segments-strcspn [] = refl
segments-strcspn (c ∷ cs) = elim (Bool-cases (is_separator c)) [
  | inl stop ↦ rw (stop, segments) (ground arith)
  | inr go ↦ rw (go, segments-strcspn cs) (ground arith)
]

pub take-name_length : (s : Bytes) → take (name_length s) s ≡ (name_and_value s).0
unfolding name_and_value strchr
take-name_length [] = refl
take-name_length (c ∷ cs) = ground (arith, take-name_length cs)

pub drop-name_length : (s : Bytes) → drop (suc (name_length s)) s ≡ (name_and_value s).1
unfolding name_and_value strchr
drop-name_length [] = refl
drop-name_length (c ∷ cs) = ground (arith, drop-name_length cs)

pub name_length-le : (s : Bytes) → name_length s ≤ length s
unfolding strchr
name_length-le [] = omega arith
name_length-le (c ∷ cs) = ground (arith, name_length-le cs)

pub strcspn-le : (s : Bytes) → strcspn is_separator s ≤ length s
unfolding strcspn
strcspn-le [] = omega arith
strcspn-le (c ∷ cs) = ground (arith, strcspn-le cs)
