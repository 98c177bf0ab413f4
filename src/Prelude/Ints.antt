-- ===== src/Prelude/Ints.antt =====
-- Go's signed integers, as far as the code compares them.
use Prim.Native.Nat.{ℕ, ◌-◌}
use mathlib.Core.Bool.{Bool, true}
use hotstuff_repbased_leader.Prelude.Tests.{ltb, leb, if◌then◌else◌}

-- `negsuc n` is -(n + 1).
pub data ℤ : Type 0 where
  pos : ℕ → ℤ
  negsuc : ℕ → ℤ

-- `int(x)` of a `uint64`, on a 64-bit machine.
abbrev pub to_int : ℕ → ℤ
to_int x = if ltb x 9223372036854775808 then pos x else negsuc (18446744073709551615 - x)

-- Is an integer at most a number that is not negative?
abbrev pub at_most : ℤ → ℕ → Bool
at_most (pos m) n = leb m n
at_most (negsuc m) n = true
