-- ===== src/Mouse/Held.antt =====
-- A tilt that is held (calculate_mouse_delta in lab4_3/main/lab4_3.c).
use cse.Base.{
  ℕ, ◌*◌, ◌-◌, ◌≤◌, ◌≡◌, refl, ap, ◌∙◌, Bool, true, false, List, [], ◌∷◌, All, ℤ, pos, ltb_ℤ, ◌-ℤ◌,
  ltb, if◌then◌else◌, arith,
}
use cse.Mouse.Motion.{
  Float, TiltLevel, tilt_none, tilt_a_bit, tilt_a_lot, same_level, DirectionState, speed, neg_int,
  delta_of, get_tilt_level, calculate_mouse_delta,
}

-- The units of a movement for a level, and how often they are taken after a time.
abbrev pub base : TiltLevel → ℕ
base tilt_none = 0
base tilt_a_bit = 3
base tilt_a_lot = 8

abbrev pub factor : ℕ → ℕ
factor held = if ltb 500 held then 3 else if ltb 200 held then 2 else 1

abbrev pub signed : Bool → ℕ → ℤ
signed positive n = if positive then pos n else neg_int n

-- Active at a level since a time.
record Holding (level : TiltLevel) (since : ℕ) (dir : DirectionState) : Type 0 where
  pub steady : dir.level ≡ level
  pub since_lem : dir.start_time_ms ≡ since
  pub active : dir.active ≡ true

delta_of-begins :
    (level : TiltLevel) (positive : Bool) (now : ℕ) (dir : DirectionState)
    → dir.active ≡ false
    → same_level level tilt_none ≡ false
    → Holding level now (delta_of level positive now dir).0
unfolding delta_of
delta_of-begins level positive now dir off tilted =
    rw (off, tilted) (record { steady = refl; since_lem = refl; active = refl })

same_level_self : (level : TiltLevel) → same_level level level ≡ true
same_level_self tilt_none = refl
same_level_self tilt_a_bit = refl
same_level_self tilt_a_lot = refl

module _ (level : TiltLevel) (positive : Bool) (now since : ℕ) (dir : DirectionState) where
  -- A call at the level that is held leaves the state.
  delta_of-holds :
      same_level level tilt_none ≡ false
      → Holding level since dir
      → delta_of level positive now dir ≡ (dir, signed positive (speed now dir))
  unfolding delta_of
  delta_of-holds tilted h = rw (tilted, h.active, h.steady, same_level_self level) refl

  factor-held :
      dir.start_time_ms ≡ since
      → since ≤ now
      → (if ltb_ℤ (pos 500) (pos now -ℤ pos dir.start_time_ms)
          then 3
          else if ltb_ℤ (pos 200) (pos now -ℤ pos dir.start_time_ms)
          then 2
          else 1)
        ≡ factor (now - since)
  unfolding ◌-ℤ◌
  factor-held e order = ground (arith, e)

  base-held :
      (l : TiltLevel)
      → dir.level ≡ l
      → same_level l tilt_none ≡ false
      → (if same_level dir.level tilt_a_bit then 3 else 8) ≡ base l
  base-held tilt_none e tilted = ground (arith, tilted)
  base-held tilt_a_bit e tilted = rw e refl
  base-held tilt_a_lot e tilted = rw e refl

  speed-held :
      same_level level tilt_none ≡ false
      → Holding level since dir
      → since ≤ now
      → speed now dir ≡ base level * factor (now - since)
  unfolding speed
  speed-held tilted h order =
      rw (base-held level h.steady tilted, factor-held h.since_lem order) refl

module _ (float : Float) where
  -- The state after calls at the given times with the given tilts.
  unfoldable pub hold : List (ℕ × float.F) → DirectionState → DirectionState
  hold [] dir = dir
  hold ((now, g_value) ∷ calls) dir = hold calls (calculate_mouse_delta float now dir g_value).0

  hold-Holding :
      (level : TiltLevel) (since : ℕ) (calls : List (ℕ × float.F)) (dir : DirectionState)
      → same_level level tilt_none ≡ false
      → All (λ c. get_tilt_level float c.1 ≡ level) calls
      → Holding level since dir
      → Holding level since (hold calls dir)
  unfolding hold calculate_mouse_delta
  hold-Holding level since [] dir tilted a h = h
  hold-Holding level since ((now, g_value) ∷ calls) dir tilted (e, a) h =
      hold-Holding level since calls _ tilted a (
        rw (e, delta_of-holds level (float.below float.zero_float g_value) now since dir tilted h)
          h)

-- While a tilt is held at one level, from the call that finds the direction at rest on, the
-- movement is 3 units for a small tilt and 8 for a large one, doubled after more than 200 ms and
-- tripled after more than 500 ms, however often it was calculated in between, with the sign of the
-- tilt.
pub hold-calculate_mouse_delta :
    (float : Float) (level : TiltLevel) (dir : DirectionState) (since now : ℕ)
    (first last : float.F) (calls : List (ℕ × float.F))
    → dir.active ≡ false
    → same_level level tilt_none ≡ false
    → get_tilt_level float first ≡ level
    → All (λ c. get_tilt_level float c.1 ≡ level) calls
    → get_tilt_level float last ≡ level
    → since ≤ now
    → (calculate_mouse_delta float now
        (hold float calls (calculate_mouse_delta float since dir first).0)
        last).1
      ≡ signed (float.below float.zero_float last) (base level * factor (now - since))
unfolding calculate_mouse_delta
hold-calculate_mouse_delta float level dir since now first last calls rest tilted e a e' order =
    let begun : Holding level since
        (delta_of (get_tilt_level float first) (float.below float.zero_float first) since dir).0 =
      rw e (delta_of-begins level (float.below float.zero_float first) since dir rest tilted) in
    let h = hold-Holding float level since calls _ tilted a begun in
    let p = float.below float.zero_float last in
    let held =
      hold float calls
        (delta_of (get_tilt_level float first) (float.below float.zero_float first) since dir).0 in
    ap (λ l. (delta_of l p now held).1) e'
    ∙ ap (λ r. r.1) (delta_of-holds level p now since held tilted h)
    ∙ ap (signed p) (speed-held level p now since held tilted h order)
