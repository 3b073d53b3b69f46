-- ===== src/ErrorMessages/Invariant.antt =====
-- The well-formedness of the table of error messages, and that every operation keeps it.
use mod_mp.Base.{
  leb, Bool-cases, length, set, replicate, length-set, length-replicate, length-take, Bytes, ℕ,
  zero, suc, ◌≤◌, ◌≡◌, ◌∙◌, inl, inr, List, [], ◌∷◌, arith,
}
use mod_mp.ErrorMessages.{
  ErrorType, ErrorMessage, ErrorMessages, max_errors, max_error_size, zeroed, strncpy,
  error_messages_init, error_messages_add,
}

-- Both strings of an entry fit their arrays.
abbrev pub Fits : List ErrorMessage → Type 0
Fits [] = Unit {0}
Fits (m ∷ ms) = ((length m.header ≤ max_error_size) × (length m.message ≤ max_error_size)) × Fits ms

pub record IsValid (em : ErrorMessages) : Type 0 where
  pub array : length em.messages ≡ max_errors
  pub counted : em.num_errors ≤ max_errors
  pub fits : Fits em.messages

pub length-strncpy-le : (s : Bytes) → length (strncpy s) ≤ max_error_size
unfolding strncpy
length-strncpy-le s = omega (arith, length-take max_error_size s)

pub Fits-replicate : (n : ℕ) → Fits (replicate n zeroed)
Fits-replicate zero = tt
Fits-replicate (suc n) = ((omega arith, omega arith), Fits-replicate n)

pub Fits-set :
    (ms : List ErrorMessage) (i : ℕ) (m : ErrorMessage)
    → length m.header ≤ max_error_size
    → length m.message ≤ max_error_size
    → Fits ms
    → Fits (set ms i m)
Fits-set [] i m a b f = tt
Fits-set (x ∷ ms) zero m a b f = ((a, b), f.1)
Fits-set (x ∷ ms) (suc i) m a b f = (f.0, Fits-set ms i m a b f.1)

pub error_messages_init-IsValid : IsValid error_messages_init
unfolding error_messages_init
error_messages_init-IsValid = record {
  array = length-replicate max_errors zeroed;
  counted = omega arith;
  fits = Fits-replicate max_errors;
}

pub error_messages_add-IsValid :
    (em : ErrorMessages) (type : ErrorType) (header message : Bytes)
    → IsValid em
    → IsValid (error_messages_add em type header message).1
unfolding error_messages_add
error_messages_add-IsValid em type header message v =
    elim (Bool-cases (leb max_errors em.num_errors)) [
      | inl full ↦ rw full v
      | inr room ↦ rw room (record {
        array = length-set em.messages em.num_errors _ ∙ v.array;
        counted = ground arith;
        fits =
            Fits-set em.messages em.num_errors _ (length-strncpy-le header)
              (length-strncpy-le message) v.fits;
      })
    ]
