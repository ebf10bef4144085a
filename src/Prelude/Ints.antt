-- ===== src/Prelude/Ints.antt =====
-- An `i64` as an integer over the native numbers.
use Prim.Native.Nat.{ℕ, suc}
use Prim.Native.String.{String, ◌++◌}
use mathlib.Core.Bool.{Bool, false}
use di_rac.Prelude.Tests.{◌==◌}
use di_rac.Prelude.Text.{decimal}

-- `negsuc n` is -(n + 1).
pub data ℤ : Type 0 where
  pos : ℕ → ℤ
  negsuc : ℕ → ℤ

abbrev pub int_eq : ℤ → ℤ → Bool
int_eq (pos a) (pos b) = a == b
int_eq (negsuc a) (negsuc b) = a == b
int_eq _ _ = false

-- `i64::to_string`
unfoldable pub decimal_int : ℤ → String
unfolding decimal
decimal_int (pos n) = decimal n
decimal_int (negsuc n) = "-" ++ decimal (suc n)
