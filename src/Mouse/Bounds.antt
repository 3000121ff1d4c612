-- ===== src/Mouse/Bounds.antt =====
-- The arrays, the address and the failures of the task of lab4_3/main/lab4_3.c.
use cse.Base.{
  ℕ, ◌≤◌, ◌<◌, ◌≡◌, refl, ◌∙◌, sym, subst, ◌⊎◌, List, [], ◌∷◌, length, length-set, Option, none,
  some, ℤ, arith,
}
use cse.Mouse.Motion.{Float, Sma8, sma8_init, sma8_push}
use cse.Mouse.Task.{
  Try, find_imu, Mouse, Input, ImuTask, addr_gnd, addr_vcc, read_axes, reinit, read_failed, move,
  on_axes, round, start, hidd_event_callback,
}
use cse.Mouse.Link.{Step, task_round, hidd_event, step, steps}

found-address :
    (first second : Try) (addr : ℕ)
    → (find_imu first second).0 ≡ some addr
    → (addr ≡ addr_gnd) ⊎ (addr ≡ addr_vcc)
unfolding find_imu
found-address first second addr e = grind (arith, e)

module _ (float : Float) where
  -- The next write to the filter's arrays is in bounds, and a mean is over at most their entries.
  pub record InBounds (f : Sma8 float) : Type 0 where
    pub size_x : length f.bx ≡ 8
    pub size_y : length f.by ≡ 8
    pub size_z : length f.bz ≡ 8
    pub write : f.idx < 8
    pub entries : f.n ≤ 8

  pub record Sane (t : ImuTask float) : Type 0 where
    pub filter : InBounds t.filt
    pub address : (t.addr ≡ addr_gnd) ⊎ (t.addr ≡ addr_vcc)
    pub failures : t.consecutive_fail < 5

  pub sma8_push-InBounds :
      (f : Sma8 float) (x y z : float.F) → InBounds f → InBounds (sma8_push float f x y z)
  unfolding sma8_push
  sma8_push-InBounds f x y z b = record {
    size_x = length-set f.bx f.idx x ∙ b.size_x;
    size_y = length-set f.by f.idx y ∙ b.size_y;
    size_z = length-set f.bz f.idx z ∙ b.size_z;
    write = omega arith;
    entries = ground (arith, b.entries);
  }

  read_failed-address :
      (input : Input) (t : ImuTask float)
      → (t.addr ≡ addr_gnd) ⊎ (t.addr ≡ addr_vcc)
      → ((read_failed float input t).0.addr ≡ addr_gnd)
        ⊎ ((read_failed float input t).0.addr ≡ addr_vcc)
  unfolding read_failed reinit
  read_failed-address input t a = ground (arith, a)

  read_failed-failures :
      (input : Input) (t : ImuTask float) → (read_failed float input t).0.consecutive_fail < 5
  unfolding read_failed reinit
  read_failed-failures input t = ground arith

  read_failed-filter :
      (input : Input) (t : ImuTask float) → (read_failed float input t).0.filt ≡ t.filt
  unfolding read_failed reinit
  read_failed-filter input t = ground arith

  round-Sane :
      (input : Input) (t : ImuTask float) (m : Mouse) → Sane t → Sane (round float input t m).0
  unfolding round on_axes move
  round-Sane input t m s = by_axes (read_axes input)
    where
      by_axes : (axes : Option (ℤ × ℤ × ℤ)) → Sane (on_axes float input axes t m).0
      by_axes none = record {
        filter = subst InBounds (sym (read_failed-filter input t)) s.filter;
        address = read_failed-address input t s.address;
        failures = read_failed-failures input t;
      }
      by_axes (some axes) = record {
        filter = sma8_push-InBounds t.filt _ _ _ s.filter;
        address = s.address;
        failures = omega arith;
      }

  pub start-Sane : (addr : ℕ) → (addr ≡ addr_gnd) ⊎ (addr ≡ addr_vcc) → Sane (start float addr)
  unfolding start sma8_init
  start-Sane addr a = record {
    filter = record {
      size_x = refl;
      size_y = refl;
      size_z = refl;
      write = omega arith;
      entries = omega arith;
    };
    address = a;
    failures = omega arith;
  }

  steps_keep :
      (happenings : List Step) (t : ImuTask float) (m : Mouse)
      → Sane t
      → Sane (steps float happenings (t, m)).0
  unfolding steps step
  steps_keep [] t m s = s
  steps_keep (task_round input ∷ happenings) t m s =
      steps_keep happenings (round float input t m).0 (round float input t m).1
        (round-Sane input t m s)
  steps_keep (hidd_event event ∷ happenings) t m s =
      steps_keep happenings t (hidd_event_callback event m).0 s

-- However reads and driver fail, once a sensor was found the task's filter stays in its arrays and
-- takes its mean over at most eight entries, the address in use is one of the sensor's two, and
-- fewer than five failures in a row are pending.
pub steps-Sane :
    (float : Float) (first second : Try) (addr : ℕ) (happenings : List Step) (m : Mouse)
    → (find_imu first second).0 ≡ some addr
    → Sane float (steps float happenings (start float addr, m)).0
steps-Sane float first second addr happenings m found =
    steps_keep float happenings (start float addr) m
      (start-Sane float addr (found-address first second addr found))
