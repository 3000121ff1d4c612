-- ===== src/Mouse/Samples.antt =====
-- Concrete parameters for the programs with a motion sensor (lab4_1 and lab4_3): floats are integers
-- here, in thousandths of a g, and a raw value is taken for thousandths as it is.
use cse.Base.{◌+◌, ◌/◌, true, false, ℤ, pos, ◌+ℤ◌, ◌-ℤ◌, pos_part, neg_part, ltb_ℤ, sub_ℕ}
use cse.Mouse.Motion.{Float}
use cse.Mouse.Task.{Try}

abbrev pub thousandths : Float
thousandths = record {
  F = ℤ;
  zero_float = pos 0;
  add = λ a b. a +ℤ b;
  mul = λ a b. a;
  div_int = λ a n. sub_ℕ (pos_part a / n) (neg_part a / n);
  neg = λ a. pos 0 -ℤ a;
  fabsf = λ a. pos (pos_part a + neg_part a);
  below = ltb_ℤ;
  of_int = λ a. a;
  inverse = λ n. pos 0;
  deadband = pos 120;
  small_tilt = pos 350;
}

abbrev pub answers : Try
answers = record { desc_ok = true; init_ok = true }

abbrev pub silent : Try
silent = record { desc_ok = false; init_ok = false }
