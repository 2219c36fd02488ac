-- ===== src/Prelude/Whole.antt =====
-- Whole numbers in place of f64: a concrete value of the parameter, for instances of the theorems.
use Prim.Native.Nat.{ℕ, ◌+◌, ◌-◌, ◌*◌, ◌/◌, min, max}
use xddp.Prelude.Tests.{ltb, leb, ◌==◌}
use xddp.Prelude.Float.{Float}

abbrev pub whole : Float
whole = record {
  F64 = ℕ;
  zero_f = 0;
  one_f = 1;
  quarter_f = 0;
  million_f = 1000000;
  add_f = λ a b. a + b;
  sub_f = λ a b. a - b;
  mul_f = λ a b. a * b;
  div_f = λ a b. a / b;
  neg_f = λ a. 0;
  min_f = min;
  max_f = max;
  pow2_f = λ a. 1;
  le_f = leb;
  lt_f = ltb;
  eq_f = ◌==◌;
  secs_f = λ n. n / 1000000000;
  of_u64 = λ n. n;
}
