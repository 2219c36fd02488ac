-- ===== src/Prelude/Float.antt =====
-- The f64 operations that the program uses, as a parameter: there are no floats here, and a theorem
-- that needs a law of theirs says so.
use Prim.Native.Nat.{ℕ}
use mathlib.Core.Bool.{Bool}

pub record Float : Type 1 where
  pub F64 : Type 0
  pub zero_f : F64
  pub one_f : F64
  pub quarter_f : F64
  pub million_f : F64
  pub add_f : F64 → F64 → F64
  pub sub_f : F64 → F64 → F64
  pub mul_f : F64 → F64 → F64
  pub div_f : F64 → F64 → F64
  pub neg_f : F64 → F64
  -- `x.min(y)` and `x.max(y)`, and `2f64.powf(x)`.
  pub min_f : F64 → F64 → F64
  pub max_f : F64 → F64 → F64
  pub pow2_f : F64 → F64
  -- The comparisons `x <= y`, `x < y` and `x == y`.
  pub le_f : F64 → F64 → Bool
  pub lt_f : F64 → F64 → Bool
  pub eq_f : F64 → F64 → Bool
  -- `Duration::as_secs_f64` of a number of nanoseconds, and `n as f64`.
  pub secs_f : ℕ → F64
  pub of_u64 : ℕ → F64
