-- ===== src/Incline/Rounds.antt =====
-- What the rounds of lab4_1/main/lab4_1.c announce and keep.
use cse.Base.{
  ℕ, ◌≡◌, refl, ◌⊎◌, subst, sym, List, [], ◌∷◌, ◌++◌, ◌+◌, ◌<◌, All, All-append, Option, none, some,
  ℤ, arith,
}
use cse.Mouse.Motion.{Float, Sma8, sma8_get}
use cse.Mouse.Task.{ImuTask, imu_try_init, configure, addr_gnd, addr_vcc}
use cse.Mouse.Bounds.{InBounds, Sane, sma8_push-InBounds}
use cse.Incline.Search.{begin-Sane}
use cse.Incline.Task.{
  Input, read_axes, Action, init_i2cdev, ask, delay_ms, announce, recover, read_failed, say, show,
  on_axes, round, rounds, Start, begin,
}
use cse.Incline.Quadrants.{text, Reads, message-text, side, vert_word-side, horiz_word-side}

abbrev pub one_if {ℓ} : {A : Type ℓ} → Option A → ℕ
one_if none = 0
one_if (some a) = 1

-- How many rounds read all three axes.
abbrev pub readings : List Input → ℕ
readings [] = 0
readings (input ∷ inputs) = one_if (read_axes input) + readings inputs

module _ (float : Float) (th : float.F) where
  -- An announcement names the sides of its means, in bounds, and one of the sensor's addresses.
  abbrev pub Announced : Action float th → Type 0
  Announced (announce msg fx fy fz addr) =
      Reads (text (side float th fy) (side float th fx)) msg
      × ((addr ≡ addr_gnd) ⊎ (addr ≡ addr_vcc))
  Announced _ = Unit

  abbrev announcements : List (Action float th) → ℕ
  announcements [] = 0
  announcements (announce msg fx fy fz addr ∷ actions) = 1 + announcements actions
  announcements (ask request ∷ actions) = announcements actions
  announcements (delay_ms n ∷ actions) = announcements actions
  announcements (init_i2cdev ∷ actions) = announcements actions

  announcements-append :
      (xs ys : List (Action float th))
      → announcements (xs ++ ys) ≡ announcements xs + announcements ys
  announcements-append [] ys = omega arith
  announcements-append (announce msg fx fy fz addr ∷ xs) ys =
      omega (arith, announcements-append xs ys)
  announcements-append (ask request ∷ xs) ys = announcements-append xs ys
  announcements-append (delay_ms n ∷ xs) ys = announcements-append xs ys
  announcements-append (init_i2cdev ∷ xs) ys = announcements-append xs ys

  -- The outcome is there, with a task that is sane, and n true announcements.
  pub record Kept (outcome : Option (ImuTask float × List (Action float th))) (n : ℕ) : Type 0 where
    pub task : ImuTask float
    pub actions : List (Action float th)
    pub ends : outcome ≡ some (task, actions)
    pub sane : Sane float task
    pub announced : All Announced actions
    pub count : announcements actions ≡ n

  failed-Announced :
      (input : Input) (t : ImuTask float) → All Announced (read_failed float th input t).1
  unfolding read_failed recover imu_try_init configure
  failed-Announced input t = ground arith

  failed-silent :
      (input : Input) (t : ImuTask float) → announcements (read_failed float th input t).1 ≡ 0
  unfolding read_failed recover imu_try_init configure
  failed-silent input t = ground arith

  failed-address :
      (input : Input) (t : ImuTask float)
      → (t.addr ≡ addr_gnd) ⊎ (t.addr ≡ addr_vcc)
      → ((read_failed float th input t).0.addr ≡ addr_gnd)
        ⊎ ((read_failed float th input t).0.addr ≡ addr_vcc)
  unfolding read_failed recover
  failed-address input t a = ground (arith, a)

  failed-failures :
      (input : Input) (t : ImuTask float) → (read_failed float th input t).0.consecutive_fail < 5
  unfolding read_failed recover
  failed-failures input t = ground arith

  failed-filter :
      (input : Input) (t : ImuTask float) → (read_failed float th input t).0.filt ≡ t.filt
  unfolding read_failed recover
  failed-filter input t = ground arith

  say-Kept :
      (filt : Sma8 float) (t : ImuTask float)
      → InBounds float filt
      → Sane float t
      → Kept (say float th filt t) 1
  unfolding say
  say-Kept filt t b s =
      let (fx, fy, fz) = sma8_get float filt in
      let shown = message-text (side float th fy) (side float th fx) in
      record {
        task = record t { filt = filt; consecutive_fail = 0 };
        actions = announce shown.0 fx fy fz t.addr ∷ delay_ms 20 ∷ [];
        ends = rw (vert_word-side float th fy, horiz_word-side float th fx, shown.1) refl;
        sane = record { filter = b; address = s.address; failures = omega arith };
        announced = ((shown.2, s.address), (tt, tt));
        count = refl;
      }

  show-Kept : (axes : ℤ × ℤ × ℤ) (t : ImuTask float) → Sane float t → Kept (show float th axes t) 1
  unfolding show
  show-Kept axes t s = say-Kept _ t (sma8_push-InBounds float t.filt _ _ _ s.filter) s

  round-Kept :
      (input : Input) (t : ImuTask float)
      → Sane float t
      → Kept (round float th input t) (one_if (read_axes input))
  unfolding round on_axes
  round-Kept input t s = by_axes (read_axes input)
    where
      by_axes : (axes : Option (ℤ × ℤ × ℤ)) → Kept (on_axes float th input axes t) (one_if axes)
      by_axes none = record {
        task = _;
        actions = _;
        ends = refl;
        sane = record {
          filter = subst (InBounds float) (sym (failed-filter input t)) s.filter;
          address = failed-address input t s.address;
          failures = failed-failures input t;
        };
        announced = failed-Announced input t;
        count = failed-silent input t;
      }
      by_axes (some axes) = show-Kept axes t s

  rounds-Kept :
      (inputs : List Input) (t : ImuTask float)
      → Sane float t
      → Kept (rounds float th inputs t) (readings inputs)
  unfolding rounds
  rounds-Kept [] t s = record {
    task = t;
    actions = [];
    ends = refl;
    sane = s;
    announced = tt;
    count = refl;
  }
  rounds-Kept (input ∷ inputs) t s =
      let first = round-Kept input t s in
      let rest = rounds-Kept inputs first.task first.sane in
      record {
        task = _;
        actions = _;
        ends = rw (first.ends, rest.ends) refl;
        sane = rest.sane;
        announced = All-append Announced first.actions rest.actions first.announced rest.announced;
        count =
            omega (arith, announcements-append first.actions rest.actions, first.count, rest.count);
      }

-- Wherever the start of the task of lab 4.1 has found a sensor, every sequence of rounds after it
-- ends, however reads and driver fail: no announcement writes outside the 24 bytes of msg, there
-- is one for each round that reads all three axes, its text names the sides of the filter's means,
-- and its address is one of the sensor's two; the filter stays in its arrays, and fewer than five
-- failures in a row are pending.
pub rounds_announce :
    (float : Float) (th : float.F) (s : Start) (inputs : List Input) (t : ImuTask float)
    → (begin float th s).0 ≡ some t
    → Kept float th (rounds float th inputs t) (readings inputs)
rounds_announce float th s inputs t started =
    rounds-Kept float th inputs t (begin-Sane float th s t started)
