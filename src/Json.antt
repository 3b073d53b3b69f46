-- ===== src/Json.antt =====
-- src/util_json.c: escaping a C string for a JSON text.
pub mod Escape
use mod_mp.Base.{
  ltb, ◌==◌, if◌then◌else◌, length, get_or, take, drop, Bytes, ℕ, zero, suc, ◌+◌, Option, none,
  some, [], ◌∷◌,
}
use mod_mp.Apr.{Apr}

module _ (apr : Apr) where
  -- The body for a quote or a backslash at `i`: the byte at `i` becomes NUL, so the first part is
  -- the bytes before it, and `++i` steps to the part behind it.
  splice : Bytes → ℕ → Bytes → Bytes
  splice escape_string i escape =
      apr.pstrcat (take i escape_string ∷ escape ∷ drop (i + 1) escape_string ∷ [])

  -- The loop, with its `i` and `escape_string`; both branches that splice leave by `continue`,
  -- which adds one more to `i`. The fuel bounds the rounds.
  escape_loop : ℕ → ℕ → Bytes → Bytes
  unfolding splice
  escape_loop zero i escape_string = escape_string
  escape_loop (suc fuel) i escape_string =
      let quoted = escape_loop fuel (i + 1 + 1) (splice escape_string i (b'\\' ∷ b'"' ∷ [])) in
      let slashed = escape_loop fuel (i + 1 + 1) (splice escape_string i (b'\\' ∷ b'\\' ∷ [])) in
      let plain = escape_loop fuel (i + 1) escape_string in
      if ltb i (length escape_string)
      then (if get_or escape_string i 0 == b'"'
          then quoted
          else if get_or escape_string i 0 == b'\\'
          then slashed
          else plain)
      else escape_string

  -- A round of the loop uses up one byte of `string`.
  unfoldable pub json_escape_char : Option Bytes → Option Bytes
  unfolding escape_loop
  json_escape_char none = none
  json_escape_char (some string) = some (escape_loop (length string) 0 (apr.pstrdup string))
