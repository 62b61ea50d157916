-- ===== src/Common/Int.antt =====
-- C's `int` arguments: integers over the native numbers.
use Prim.Native.Nat.{ℕ}
use mathlib.Core.Bool.{Bool, false}
use mathlib.Core.Option.{Option, none, some}
use os_ass.Common.Tests.{ltb, ◌==◌, if◌then◌else◌}

-- `negsuc n` is -(n + 1).
pub data ℤ : Type 0 where
  pos : ℕ → ℤ
  negsuc : ℕ → ℤ

-- `a == n` for an `int` and a number that is not negative.
abbrev pub eq_nat : ℤ → ℕ → Bool
eq_nat (pos a) n = a == n
eq_nat (negsuc a) n = false

-- The guard `if(a < 0 || a >= limit) return -1;`, with the value that passes it.
abbrev pub below : ℕ → ℤ → Option ℕ
below limit (pos a) = if ltb a limit then some a else none
below limit (negsuc a) = none

abbrev pub minus_one : ℤ
minus_one = negsuc 0
