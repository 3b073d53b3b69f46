-- ===== src/Base/Strings.antt =====
-- C strings: the bytes before the terminating NUL. A pointer that may be NULL is an `Option`.
use Prim.Native.Nat.{ℕ, suc}
use Prim.Native.Char.{code}
use Prim.Native.String.{String}
use mathlib.Core.Bool.{Bool}
use mathlib.Core.Option
use mathlib.Core.Option.{Option, none, some}
use mathlib.Core.List.{List, [], ◌∷◌}
use mod_mp.Base.Tests.{◌==◌, if◌then◌else◌}

abbrev pub Bytes : Type 0
Bytes = List ℕ

-- The bytes of a literal of the source.
abbrev pub codes : String → Bytes
codes String.[] = []
codes (String.◌∷◌ c s) = code c ∷ codes s

-- strchr and memchr: the offset of the first `c`.
unfoldable pub strchr : ℕ → Bytes → Option ℕ
strchr c [] = none
strchr c (x ∷ xs) = if x == c then some 0 else Option.map suc (strchr c xs)

-- strcspn: the length of the longest start without a byte that `stop` accepts.
unfoldable pub strcspn : (ℕ → Bool) → Bytes → ℕ
strcspn stop [] = 0
strcspn stop (x ∷ xs) = if stop x then 0 else suc (strcspn stop xs)
