-- ===== src/Mouse/Link.antt =====
-- The runs of lab4_3/main/lab4_3.c, and what is sent over the connection.
use cse.Base.{
  ℕ, zero, suc, ◌≤◌, ◌≡◌, refl, ap, ◌∙◌, sym, Bool, true, false, not, ◌&&◌, ◌||◌, List, [], ◌∷◌,
  All, Option, none, some, ℤ, pos, pos_part, neg_part, if◌then◌else◌, arith, Bool-cases, inl, inr,
}
use cse.Mouse.Motion.{
  Float, TiltLevel, tilt_none, same_level, DirectionState, speed, neg_int, delta_of,
  calculate_mouse_delta,
}
use cse.Mouse.Task.{
  Request, mouse_value, Mouse, send_mouse_move, HiddEvent, reg_finish, ble_connect, ble_disconnect,
  other_event, hidd_event_callback, Input, ImuTask, is_zero, imu_try_init, configure, read_axes,
  reinit, read_failed, move, on_axes, round,
}

-- What happens to the program: a round of its task, or an event of the HID profile.
pub data Step : Type 0 where
  task_round : Input → Step
  hidd_event : HiddEvent → Step

module _ (float : Float) where
  unfoldable pub step : Step → ImuTask float × Mouse → ImuTask float × Mouse
  step (task_round input) (t, m) = let (t', m', calls) = round float input t m in (t', m')
  step (hidd_event event) (t, m) = (t, (hidd_event_callback event m).0)

  unfoldable pub steps : List Step → ImuTask float × Mouse → ImuTask float × Mouse
  steps [] s = s
  steps (happening ∷ happenings) s = steps happenings (step happening s)

-- The connection that events leave: the last one opened, unless one was closed after it.
unfoldable pub after_event : HiddEvent → Option ℕ → Option ℕ
after_event (ble_connect conn_id) c = some conn_id
after_event ble_disconnect c = none
after_event (reg_finish state) c = c
after_event other_event c = c

unfoldable pub connection : List Step → Option ℕ → Option ℕ
connection [] c = c
connection (hidd_event event ∷ happenings) c = connection happenings (after_event event c)
connection (task_round input ∷ happenings) c = connection happenings c

-- A mouse report goes to the open connection, moves the pointer, and by 24 at most each way; the
-- other requests are free.
pub record Moves (conn_id : ℕ) (x y : ℤ) (c : Option ℕ) : Type 0 where
  pub linked : c ≡ some conn_id
  pub x_right : pos_part x ≤ 24
  pub x_left : neg_part x ≤ 24
  pub y_down : pos_part y ≤ 24
  pub y_up : neg_part y ≤ 24
  pub moves : (is_zero x && is_zero y) ≡ false

abbrev pub Allowed : Option ℕ → Request → Type 0
Allowed c (mouse_value conn_id buttons x y) = (buttons ≡ 0) × Moves conn_id x y c
Allowed c _ = Unit

pub record Bounded (v : ℤ) : Type 0 where
  pub most : pos_part v ≤ 24
  pub least : neg_part v ≤ 24

speed-most : (now_ms : ℕ) (dir : DirectionState) → speed now_ms dir ≤ 24
unfolding speed
speed-most now_ms dir = ground arith

neg_int-Bounded : (n : ℕ) → n ≤ 24 → Bounded (neg_int n)
unfolding neg_int
neg_int-Bounded zero h = record { most = omega arith; least = omega arith }
neg_int-Bounded (suc n) h = record { most = omega arith; least = h }

pos-Bounded : (n : ℕ) → n ≤ 24 → Bounded (pos n)
pos-Bounded n h = record { most = h; least = omega arith }

if-Bounded : (b : Bool) (v w : ℤ) → Bounded v → Bounded w → Bounded (if b then v else w)
if-Bounded true v w p q = p
if-Bounded false v w p q = q

pub delta_of-Bounded :
    (new_level : TiltLevel) (positive : Bool) (now_ms : ℕ) (dir : DirectionState)
    → Bounded (delta_of new_level positive now_ms dir).1
unfolding delta_of
delta_of-Bounded new_level positive now_ms dir =
    elim (Bool-cases (same_level new_level tilt_none || not dir.active)) [
      | inl stopped ↦ rw stopped (pos-Bounded 0 (omega arith))
      | inr held ↦ rw held (
          if-Bounded positive _ _ (pos-Bounded _ (speed-most now_ms _))
            (neg_int-Bounded _ (speed-most now_ms _)))
    ]

-- The program's view of the connection.
pub Tracks : Mouse → Option ℕ → Type 0
Tracks m none = m.connected ≡ false
Tracks m (some conn_id) = (m.connected ≡ true) × (m.hid_conn_id ≡ conn_id)

event-Tracks :
    (event : HiddEvent) (m : Mouse) (c : Option ℕ)
    → Tracks m c
    → Tracks (hidd_event_callback event m).0 (after_event event c)
unfolding hidd_event_callback after_event Tracks
event-Tracks (reg_finish state) m c v = v
event-Tracks (ble_connect conn_id) m c v = (refl, refl)
event-Tracks ble_disconnect m c v = refl
event-Tracks other_event m c v = v

-- Only events change the connection.
Tracks-same :
    (m n : Mouse) (c : Option ℕ)
    → n.connected ≡ m.connected
    → n.hid_conn_id ≡ m.hid_conn_id
    → Tracks m c
    → Tracks n c
unfolding Tracks
Tracks-same m n none e f v = e ∙ v
Tracks-same m n (some conn_id) e f v = (e ∙ v.0, f ∙ v.1)

module _ (float : Float) where
  round-connected :
      (input : Input) (t : ImuTask float) (m : Mouse)
      → ((round float input t m).1.connected ≡ m.connected)
        × ((round float input t m).1.hid_conn_id ≡ m.hid_conn_id)
  unfolding round on_axes move
  round-connected input t m = same (read_axes input)
    where
      same :
          (axes : Option (ℤ × ℤ × ℤ))
          → ((on_axes float input axes t m).1.connected ≡ m.connected)
            × ((on_axes float input axes t m).1.hid_conn_id ≡ m.hid_conn_id)
      same none = (refl, refl)
      same (some axes) = (refl, refl)

  steps-Tracks :
      (happenings : List Step) (t : ImuTask float) (m : Mouse) (c : Option ℕ)
      → Tracks m c
      → Tracks (steps float happenings (t, m)).1 (connection happenings c)
  unfolding steps step connection
  steps-Tracks [] t m c v = v
  steps-Tracks (task_round input ∷ happenings) t m c v =
      let same = round-connected input t m in
      steps-Tracks happenings (round float input t m).0 (round float input t m).1 c
        (Tracks-same m _ c same.0 same.1 v)
  steps-Tracks (hidd_event event ∷ happenings) t m c v =
      steps-Tracks happenings t (hidd_event_callback event m).0 (after_event event c)
        (event-Tracks event m c v)

  -- The requests of a round: those to the sensor, or one report.
  sent-Allowed :
      (m : Mouse) (c : Option ℕ) (x y : ℤ)
      → Tracks m c
      → Bounded x
      → Bounded y
      → All (Allowed c) (
          if m.connected && (not (is_zero x) || not (is_zero y)) then send_mouse_move m x y else [])
  unfolding send_mouse_move Tracks
  sent-Allowed m none x y v p q = rw v tt
  sent-Allowed m (some conn_id) x y (on, own) p q =
      elim (Bool-cases (not (is_zero x) || not (is_zero y))) [
        | inl moved ↦
            rw (on, moved)
              (
                (
                  refl,
                  record {
                    linked = ap some (sym own);
                    x_right = p.most;
                    x_left = p.least;
                    y_down = q.most;
                    y_up = q.least;
                    moves = not_both (is_zero x) (is_zero y) moved;
                  },
                ),
                tt,
              )
        | inr still ↦ rw (on, still) tt
      ]
    where
      not_both : (a b : Bool) → (not a || not b) ≡ true → (a && b) ≡ false
      not_both a b e = ground (arith, e)

  imu-Allowed :
      (c : Option ℕ) (input : Input) (t : ImuTask float)
      → All (Allowed c) (read_failed float input t).1
  unfolding read_failed reinit imu_try_init configure
  imu-Allowed c input t = ground arith

  round-Tracked :
      (input : Input) (t : ImuTask float) (m : Mouse) (c : Option ℕ)
      → Tracks m c
      → All (Allowed c) (round float input t m).2
  unfolding round on_axes move calculate_mouse_delta
  round-Tracked input t m c v = by_axes (read_axes input)
    where
      by_axes : (axes : Option (ℤ × ℤ × ℤ)) → All (Allowed c) (on_axes float input axes t m).2
      by_axes none = imu-Allowed c input t
      by_axes (some axes) =
          sent-Allowed m c _ _ v (delta_of-Bounded _ _ _ m.dir_x) (delta_of-Bounded _ _ _ m.dir_y)

-- Whatever events and rounds came before, starting unconnected, a round of the task sends a mouse
-- report only over the connection that the events left open, without buttons, not for a tilt that
-- moves nothing, and with at most 24 units each way.
pub steps-Allowed :
    (float : Float) (happenings : List Step) (input : Input) (t : ImuTask float) (m : Mouse)
    → m.connected ≡ false
    → let s = steps float happenings (t, m) in
      All (Allowed (connection happenings none)) (round float input s.0 s.1).2
unfolding Tracks
steps-Allowed float happenings input t m unconnected =
    round-Tracked float input _ _ (connection happenings none)
      (steps-Tracks float happenings t m none unconnected)
