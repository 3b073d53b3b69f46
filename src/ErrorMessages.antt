-- ===== src/ErrorMessages.antt =====
-- src/error_messages.h and src/error_messages.c: the table of error messages that processes share.
pub mod Invariant
pub mod Table
pub mod Print
pub mod Race
use mod_mp.Base.{
  ltb, leb, ◌==◌, if◌then◌else◌, length, get_elem?, set, take, replicate, ℤ, success, Bytes, codes,
  negsuc, ℕ, zero, suc, ◌+◌, Bool, true, false, ◌&&◌, Option, none, some, List, [], ◌∷◌,
}
use mod_mp.Apr.{Apr, PrintArg, int, str}
use mod_mp.Json.{json_escape_char}

pub data ErrorType : Type 0 where
  error debug warn : ErrorType

-- MAX_ERROR_SIZE, the size of both character arrays of an entry.
abbrev pub max_error_size : ℕ
max_error_size = 1024

-- The length of the array `messages`.
abbrev pub max_errors : ℕ
max_errors = 1024

-- A character array is given by its bytes before the first NUL; one of `max_error_size` bytes has
-- no NUL.
pub record ErrorMessage : Type 0 where
  pub type : ErrorType
  pub header : Bytes
  pub message : Bytes

pub record ErrorMessages : Type 0 where
  pub num_errors : ℕ
  pub messages : List ErrorMessage
  pub shm_file : Option Bytes

-- strncpy into an array of `max_error_size` bytes: the rest is filled by NULs, and a longer source
-- is cut with no NUL behind it.
unfoldable pub strncpy : Bytes → Bytes
strncpy source = take max_error_size source

-- The entry after apr_pcalloc.
abbrev pub zeroed : ErrorMessage
zeroed = record { type = error; header = []; message = [] }

-- apr_pcalloc gives zeros, and the pointer is not NULL.
unfoldable pub error_messages_init : ErrorMessages
error_messages_init = record {
  num_errors = 0;
  messages = replicate max_errors zeroed;
  shm_file = none;
}

-- Shared memory that another server left behind keeps the old entries; `none` stands for a failure
-- of setup_shared_memory or a NULL base address, APR_ENOMEM to the caller.
unfoldable pub error_messages_init_shared :
    Option (List ErrorMessage) → Bytes → Option ErrorMessages
error_messages_init_shared none errors_shm_file = none
error_messages_init_shared (some memory) errors_shm_file =
    some (record { num_errors = 0; messages = memory; shm_file = some errors_shm_file })

-- A new process: `attached` says whether apr_shm_attach succeeds, and `segment` is what the
-- shared memory holds. Without a file, apr_shm_baseaddr_get reads a NULL pointer.
unfoldable pub error_messages_on_fork :
    Bool → ErrorMessages → ErrorMessages → Option (ℤ × ErrorMessages)
error_messages_on_fork attached segment em = elim em.shm_file [
  | none ↦ none
  | some errors_shm_file ↦ some (if attached then (success, segment) else (negsuc 0, em))
]

-- The test and the fetch-and-add behind it are one step here; Race has them apart.
unfoldable pub error_messages_add : ErrorMessages → ErrorType → Bytes → Bytes → ℤ × ErrorMessages
unfolding strncpy
error_messages_add em type error_header error_message =
    if leb max_errors em.num_errors then (negsuc 0, em) else (
      success,
      record em {
        num_errors = em.num_errors + 1;
        messages = set em.messages em.num_errors (record {
          type = type;
          header = strncpy error_header;
          message = strncpy error_message;
        });
      },
    )

-- The formatted message is what apr_pvsprintf gave, `none` for NULL.
unfoldable pub error_messages_addf :
    ErrorMessages → ErrorType → Bytes → Option Bytes → ℤ × ErrorMessages
error_messages_addf em type error_header none = (negsuc 0, em)
error_messages_addf em type error_header (some error_message) =
    error_messages_add em type error_header error_message

-- A round of error_messages_duplicate, with `error_num` and the entry that it copies.
copy_entry : ErrorMessages → ℕ → ErrorMessage → ErrorMessages
unfolding strncpy
copy_entry new error_num m = record new {
  num_errors = new.num_errors + 1;
  messages =
      set new.messages error_num
        (record { type = m.type; header = strncpy m.header; message = strncpy m.message });
}

-- The loop of error_messages_duplicate, by the rounds left. `none` is an access behind the end of
-- an array, which the code does not guard against. `new` and `old` are different objects.
duplicate_loop : ℕ → ℕ → ℕ → ErrorMessages → ErrorMessages → Option ErrorMessages
unfolding copy_entry
duplicate_loop zero i offset new old = some new
duplicate_loop (suc rounds) i offset new old = elim (get_elem? old.messages i) [
  | none ↦ none
  | some m ↦ elim (ltb (i + offset) (length new.messages)) [
    | false ↦ none
    | true ↦ duplicate_loop rounds (i + 1) offset (copy_entry new (i + offset) m) old
  ]
]

unfoldable pub error_messages_duplicate : ErrorMessages → ErrorMessages → Option ErrorMessages
unfolding duplicate_loop
error_messages_duplicate new old = duplicate_loop old.num_errors 0 new.num_errors new old

abbrev pub type_number : ErrorType → ℕ
type_number error = 0
type_number debug = 1
type_number warn = 2

abbrev pub entry_format : Bytes
entry_format =
    codes
      "\t\t\t{\n\t\t\t\t\"type\" : %d,\n\t\t\t\t\"header\" : \"%s\",\n\t\t\t\t\"message\" : \"%s\"\n\t\t\t}\n"

-- Both texts of an entry have their NUL.
abbrev pub is_terminated : ErrorMessage → Bool
is_terminated m = ltb (length m.header) max_error_size && ltb (length m.message) max_error_size

module _ (apr : Apr) where
  -- The calls of a round of error_messages_print_json_bb; `last` is the test on `i + 1`.
  put_entry : ErrorMessage → Bool → apr.Brigade → apr.Brigade
  put_entry m last bb =
      let entry = apr.brigade_printf bb entry_format (
        int (type_number m.type)
        ∷ str (json_escape_char apr (some m.header))
        ∷ str (json_escape_char apr (some m.message))
        ∷ []) in
      let separated = if last then entry else apr.brigade_puts entry (codes ",") in
      apr.brigade_puts separated (codes "\n")

  -- The round. The texts are read up to their NUL: one without it is read past its array, a fault.
  print_entry : ErrorMessage → Bool → apr.Brigade → Option apr.Brigade
  unfolding put_entry
  print_entry m last bb = if is_terminated m then some (put_entry m last bb) else none

  -- The loop over the entries from `i`, by the rounds left. An entry past the table is a fault.
  print_loop : ℕ → ℕ → ErrorMessages → apr.Brigade → Option apr.Brigade
  unfolding print_entry
  print_loop zero i em bb = some bb
  print_loop (suc rounds) i em bb = elim (get_elem? em.messages i) [
    | none ↦ none
    | some m ↦ elim (print_entry m (i + 1 == em.num_errors) bb) [
      | none ↦ none
      | some printed ↦ print_loop rounds (i + 1) em printed
    ]
  ]

  unfoldable pub error_messages_print_json_bb : ErrorMessages → apr.Brigade → Option apr.Brigade
  unfolding print_loop
  error_messages_print_json_bb em bb =
      elim (print_loop em.num_errors 0 em (apr.brigade_puts bb (codes "\t\t\"Errors\" : [\n"))) [
        | none ↦ none
        | some printed ↦ some (apr.brigade_puts printed (codes "\t\t]\n"))
      ]
