-- ===== src/Base/Int.antt =====
-- C's `int` where a value may be negative: a status code, the head and the tail of a queue.
use Prim.Native.Nat.{ℕ}
use mathlib.Core.Bool.{Bool, true, false}
use mod_mp.Base.Tests.{◌==◌}

-- `negsuc n` is -(n + 1).
pub data ℤ : Type 0 where
  pos : ℕ → ℤ
  negsuc : ℕ → ℤ

-- The test `a != 0`, by which callers read a status.
abbrev pub is_nonzero : ℤ → Bool
is_nonzero (pos n) = elim (n == 0) [ true ↦ false | false ↦ true ]
is_nonzero (negsuc n) = true

-- The test `a >= 0`.
abbrev pub is_nonneg : ℤ → Bool
is_nonneg (pos n) = true
is_nonneg (negsuc n) = false

-- APR_SUCCESS and the other zero statuses.
abbrev pub success : ℤ
success = pos 0
