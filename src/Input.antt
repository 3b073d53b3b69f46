-- ===== src/Input.antt =====
-- src/input.h and src/input.c: the indexer, the command and the parameters of a request's URI.
-- A pointer into `uri` is its offset. The outer `none` of a result is an access outside the
-- string or a copy of a negative size.
pub mod Query
pub mod Parameters
pub mod Address
use mod_mp.Base.{
  ltb, ◌==◌, if◌then◌else◌, length, take, drop, ℤ, success, Bytes, strchr, strcspn, negsuc, ℕ, zero,
  suc, ◌+◌, ◌-◌, Bool, ◌||◌, Option, none, some, [], ◌∷◌,
}
use mod_mp.Apr.{Apr}

-- The characters of the set "&;".
unfoldable pub is_separator : ℕ → Bool
is_separator c = c == b'&' || c == b';'

-- The size of the command, from the offsets of the slash and of a question mark that were
-- searched from `uri_start`; a negative one makes apr_pstrmemdup copy almost the whole memory.
abbrev command_size : ℕ → Option ℕ → ℕ → Option ℕ
command_size slash none uri_length = some (uri_length - (slash + 2))
command_size slash (some param) uri_length =
    if ltb param (slash + 1) then none else some (param - (slash + 1))

-- `param_name_len`, for the bytes of one parameter.
abbrev name_length : Bytes → ℕ
name_length param = elim (strchr b'=' param) [ none ↦ length param | some equal ↦ equal ]

module _ (apr : Apr) where
  -- input_t without the pool and the error messages, which input_init leaves alone.
  pub record Input : Type 0 where
    pub method : ℕ
    pub uri : Option Bytes
    pub indexer_string : Option Bytes
    pub command_string : Option Bytes
    pub parameter_strings : Option apr.Table

  -- `uri_start` is offset 1, which lies behind the NUL of an empty string. The offset of a slash
  -- below is the one from `uri_start`.
  unfoldable pub get_indexer_from_uri : Bytes → Option (ℤ × Option Bytes)
  get_indexer_from_uri [] = none
  get_indexer_from_uri (c ∷ uri_start) =
      let uri_length = suc (length uri_start) in
      let at_end = uri_length - 1 in
      let slash_index : ℕ = elim (strchr b'/' uri_start) [
        | none ↦ at_end
        | some slash ↦ if ltb uri_length slash then at_end else slash
      ] in
      some (
        if ltb 0 slash_index
        then (success, some (apr.pstrmemdup uri_start slash_index))
        else (negsuc 0, none))

  unfoldable pub get_command_from_uri : Bytes → Option (ℤ × Option Bytes)
  get_command_from_uri [] = none
  get_command_from_uri (c ∷ uri_start) = elim (strchr b'/' uri_start) [
    | none ↦ some (negsuc 0, none)
    | some slash ↦ elim (command_size slash (strchr b'?' uri_start) (suc (length uri_start))) [
      | none ↦ none
      | some size ↦ some (success, some (apr.pstrmemdup (drop (slash + 1) uri_start) size))
    ]
  ]

  -- The body behind the `continue`: the parameter of `param_len` bytes at `param_index`.
  merge_param : Bytes → ℕ → apr.Table → apr.Table
  merge_param param_index param_len parameter_strings =
      let param_name_len = name_length (take param_len param_index) in
      let param_name = apr.pstrndup param_index param_name_len in
      let param_value =
        if ltb 0 (param_len - param_name_len)
        then apr.pstrndup (drop (param_name_len + 1) param_index) (param_len - param_name_len - 1)
        else [] in
      apr.table_mergen parameter_strings param_name param_value

  -- The loop from the offset `index`, by the rounds left.
  param_loop : ℕ → ℕ → Bytes → apr.Table → apr.Table
  unfolding merge_param
  param_loop zero index uri parameter_strings = parameter_strings
  param_loop (suc rounds) index uri parameter_strings =
      let param_len = strcspn is_separator (drop index uri) in
      let skipped = param_loop rounds (index + 1) uri parameter_strings in
      let merged =
        param_loop rounds (index + param_len + 1) uri
          (merge_param (drop index uri) param_len parameter_strings) in
      if ltb index (length uri)
      then (if param_len == 0 then skipped else merged)
      else parameter_strings

  -- Every round moves the index on, so the length of the URI bounds their number.
  unfoldable pub get_parameters_from_uri : Bytes → ℤ × Option apr.Table
  unfolding param_loop
  get_parameters_from_uri uri = elim (strchr b'?' uri) [
    | none ↦ (negsuc 0, none)
    | some query_start ↦
        (success, some (param_loop (length uri) (query_start + 1) uri apr.table_make))
  ]

  -- input_init ignores the three statuses. It always returns 0.
  unfoldable pub input_init : Option Bytes → ℕ → Option Input
  input_init none method_num = some (record {
    method = method_num;
    uri = none;
    indexer_string = none;
    command_string = none;
    parameter_strings = none;
  })
  input_init (some uri) method_num = elim (get_indexer_from_uri uri) [
    | none ↦ none
    | some (_, indexer) ↦ elim (get_command_from_uri uri) [
      | none ↦ none
      | some (_, command) ↦ some (record {
        method = method_num;
        uri = some uri;
        indexer_string = indexer;
        command_string = command;
        parameter_strings = (get_parameters_from_uri uri).1;
      })
    ]
  ]
