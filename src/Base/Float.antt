-- ===== src/Base/Float.antt =====
-- Go's float64, which has no model here: the type and the operations that the program uses are a
-- parameter. Laws that a theorem needs are named there as hypotheses.
use tsa_bench.Base.Int.{ℤ}
use mathlib.Core.Bool.{Bool}
use Prim.Native.Nat.{ℕ}

pub record Float64 : Type 1 where
  pub F : Type 0
  -- float64(n)
  pub of_int : ℤ → F
  -- The literal n / 10 ^ k.
  pub decimal : ℕ → ℕ → F
  pub add : F → F → F
  pub mul : F → F → F
  pub div : F → F → F
  pub lt_F : F → F → Bool
  pub le_F : F → F → Bool
  -- int64(x), rounded towards zero.
  pub trunc : F → ℤ
