-- ===== src/Mouse/Motion.antt =====
-- The motion of lab4_3/main/lab4_3.c: the filter, the tilt and the movement that it makes. Times
-- are in milliseconds, below 2 ^ 63. C's float is a parameter.
use cse.Base.{
  ℕ, zero, suc, ◌+◌, ◌*◌, ◌%◌, Bool, true, false, not, ◌||◌, List, [], ◌∷◌, ltb, ◌==◌,
  if◌then◌else◌, ℤ, pos, negsuc, ◌-ℤ◌, ltb_ℤ, set, replicate,
}

-- float, with the operations that the program uses; `below` is <.
pub record Float : Type 1 where
  pub F : Type 0
  pub zero_float : F
  pub add : F → F → F
  pub mul : F → F → F
  pub div_int : F → ℕ → F
  pub neg : F → F
  pub fabsf : F → F
  pub below : F → F → Bool
  pub of_int : ℤ → F
  -- 1.0f / n
  pub inverse : ℕ → F
  -- 0.12f and 0.35f
  pub deadband : F
  pub small_tilt : F

-- tilt_level_t
pub data TiltLevel : Type 0 where
  tilt_none : TiltLevel
  tilt_a_bit : TiltLevel
  tilt_a_lot : TiltLevel

abbrev pub same_level : TiltLevel → TiltLevel → Bool
same_level tilt_none tilt_none = true
same_level tilt_a_bit tilt_a_bit = true
same_level tilt_a_lot tilt_a_lot = true
same_level _ _ = false

-- icm42670_accel_fsr_t
pub data AccelFsr : Type 0 where
  range_16g : AccelFsr
  range_8g : AccelFsr
  range_4g : AccelFsr
  range_2g : AccelFsr

unfoldable pub lsb_per_g : AccelFsr → ℕ
lsb_per_g range_2g = 16384
lsb_per_g range_4g = 8192
lsb_per_g range_8g = 4096
lsb_per_g range_16g = 2048

-- direction_state_t
pub record DirectionState : Type 0 where
  pub start_time_ms : ℕ
  pub level : TiltLevel
  pub active : Bool

-- `base_speed * accel_mult`
unfoldable pub speed : ℕ → DirectionState → ℕ
speed now_ms dir =
    let duration_ms = pos now_ms -ℤ pos dir.start_time_ms in
    (if same_level dir.level tilt_a_bit then 3 else 8)
    * (if ltb_ℤ (pos 500) duration_ms then 3 else if ltb_ℤ (pos 200) duration_ms then 2 else 1)

unfoldable pub neg_int : ℕ → ℤ
neg_int zero = pos 0
neg_int (suc n) = negsuc n

-- The tilt's level, and whether it is above 0, are what calculate_mouse_delta takes of g_value.
unfoldable pub delta_of : TiltLevel → Bool → ℕ → DirectionState → DirectionState × ℤ
delta_of new_level positive now_ms dir =
    if same_level new_level tilt_none || not dir.active
    then (
      record {
        active = not (same_level new_level tilt_none);
        level = new_level;
        start_time_ms = now_ms;
      },
      pos 0,
    )
    else (let dir' =
          if same_level new_level dir.level
          then dir
          else record dir { level = new_level; start_time_ms = now_ms } in
        (dir', if positive then pos (speed now_ms dir') else neg_int (speed now_ms dir')))

module _ (float : Float) where
  -- sma8_t
  pub record Sma8 : Type 0 where
    pub bx : List float.F
    pub by : List float.F
    pub bz : List float.F
    pub idx : ℕ
    pub n : ℕ

  unfoldable pub sma8_init : Sma8
  sma8_init = record {
    bx = replicate 8 float.zero_float;
    by = replicate 8 float.zero_float;
    bz = replicate 8 float.zero_float;
    idx = 0;
    n = 0;
  }

  unfoldable pub sma8_push : Sma8 → float.F → float.F → float.F → Sma8
  sma8_push f x y z = record {
    bx = set f.bx f.idx x;
    by = set f.by f.idx y;
    bz = set f.bz f.idx z;
    idx = (f.idx + 1) % 8;
    n = if ltb f.n 8 then f.n + 1 else f.n;
  }

  -- The sum of the first n entries, in order.
  unfoldable pub sum_first : ℕ → List float.F → float.F → float.F
  sum_first zero b s = s
  sum_first (suc n) [] s = s
  sum_first (suc n) (v ∷ b) s = sum_first n b (float.add s v)

  unfoldable pub sma8_get : Sma8 → float.F × float.F × float.F
  sma8_get f =
      let n = if f.n == 0 then 1 else f.n in
      (
        float.div_int (sum_first n f.bx float.zero_float) n,
        float.div_int (sum_first n f.by float.zero_float) n,
        float.div_int (sum_first n f.bz float.zero_float) n,
      )

  unfoldable pub get_tilt_level : float.F → TiltLevel
  get_tilt_level g_value =
      let abs_g = float.fabsf g_value in
      if float.below abs_g float.deadband
      then tilt_none
      else if float.below abs_g float.small_tilt
      then tilt_a_bit
      else tilt_a_lot

  unfoldable pub calculate_mouse_delta : ℕ → DirectionState → float.F → DirectionState × ℤ
  calculate_mouse_delta now_ms dir g_value =
      delta_of (get_tilt_level g_value) (float.below float.zero_float g_value) now_ms dir
