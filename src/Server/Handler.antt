-- ===== src/Server/Handler.antt =====
-- How mp_handler of src/web_server/apache_httpd/mod_mp.c answers a request, from the start of the
-- server on.
use mod_mp.Base.{all, Bytes, codes, ℕ, ◌≡◌, ◌⊎◌, true, false, Option, none, some, List, ◌++◌}
use mathlib.Core.Option
use mod_mp.Apr.{Apr}
use mod_mp.ErrorMessages.{ErrorMessage, ErrorMessages, error, is_terminated}
use mod_mp.ErrorMessages.Print.{errors_json}
use mod_mp.Input.{Input}
use mod_mp.Output.{Output}
use mod_mp.Server.{Response, Answer, ok}

pub no_indexer : ErrorMessage
no_indexer = record {
  type = error;
  header = codes "Error With Query";
  message = codes "No indexer found!";
}

pub response_text : Bytes → List ErrorMessage → Bytes
response_text null_text ms = codes "{\n" ++ errors_json null_text ms ++ codes "\n}\n"

-- The answer: the JSON text of the given entries, to the given filters.
abbrev pub Answers : (apr : Apr) → ℕ → List ErrorMessage → Option (Answer apr) → Type 0
Answers apr filters ms r =
    (response : Response apr) × (r ≡ some (ok response))
    × (response.filters ≡ filters)
    × (response.content_type ≡ codes "application/json")
    × (apr.brigade_bytes response.body ≡ response_text apr.null_text ms)

-- That answer, if all texts of the entries have their NUL, and a fault if one has none.
abbrev pub AnswersOrFaults : (apr : Apr) → ℕ → List ErrorMessage → Option (Answer apr) → Type 0
AnswersOrFaults apr filters ms r =
    ((all is_terminated ms ≡ true) × Answers apr filters ms r)
    ⊎ ((all is_terminated ms ≡ false) × (r ≡ none))
