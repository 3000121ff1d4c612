-- ===== src/Incline/Recovery.antt =====
-- How the loop of task_lab4_1 (lab4_1/main/lab4_1.c) deals with reads that fail.
use cse.Base.{
  ℕ, ◌+◌, ◌*◌, ◌/◌, ◌%◌, ◌<◌, ◌≡◌, refl, ◌∙◌, subst, List, [], ◌∷◌, ◌++◌, All, Option, none, some,
  length, arith,
}
use cse.Mouse.Motion.{Float, range_4g}
use cse.Mouse.Task.{
  Request, free_desc, init_desc, init_imu, set_accel_fsr, set_accel_avg, set_accel_odr,
  set_accel_pwr_mode, ImuTask, imu_try_init, configure,
}
use cse.Incline.Task.{
  Input, read_axes, Action, init_i2cdev, ask, delay_ms, announce, recover, read_failed, on_axes,
  round, rounds,
}
use cse.Incline.Search.{waited}

-- How far the driver has been started anew: its descriptor released, opened again at an address, and
-- set up to the range, the average and the rate.
pub data Phase : Type 0 where
  idle : Phase
  freed : Phase
  opened : Phase
  range_set : Phase
  average_set : Phase
  rate_set : Phase

-- Each request must follow on the one before it; the start of the sensor follows on the opening.
abbrev pub after : Request → Phase → Phase
after free_desc _ = freed
after (init_desc addr) freed = opened
after init_imu opened = opened
after (set_accel_fsr range_4g) opened = range_set
after set_accel_avg range_set = average_set
after set_accel_odr average_set = rate_set
after _ _ = idle

-- 1 for the request that ends a whole restart.
abbrev pub ends_restart : Request → Phase → ℕ
ends_restart set_accel_pwr_mode rate_set = 1
ends_restart _ _ = 0

module _ (float : Float) (th : float.F) where
  abbrev phase_after : Phase → List (Action float th) → Phase
  phase_after p [] = p
  phase_after p (ask request ∷ actions) = phase_after (after request p) actions
  phase_after p (_ ∷ actions) = phase_after p actions

  -- How often the driver is started anew: the descriptor released, opened again and the four
  -- settings made, in this order and with nothing else asked in between.
  abbrev pub restarts : Phase → List (Action float th) → ℕ
  restarts p [] = 0
  restarts p (ask request ∷ actions) = ends_restart request p + restarts (after request p) actions
  restarts p (_ ∷ actions) = restarts p actions

  restarts-append :
      (p : Phase) (xs ys : List (Action float th))
      → restarts p (xs ++ ys) ≡ restarts p xs + restarts (phase_after p xs) ys
  restarts-append p [] ys = omega arith
  restarts-append p (ask request ∷ xs) ys = omega (arith, restarts-append (after request p) xs ys)
  restarts-append p (delay_ms n ∷ xs) ys = restarts-append p xs ys
  restarts-append p (init_i2cdev ∷ xs) ys = restarts-append p xs ys
  restarts-append p (announce msg fx fy fz addr ∷ xs) ys = restarts-append p xs ys

  waited-append :
      (xs ys : List (Action float th))
      → waited float th (xs ++ ys) ≡ waited float th xs + waited float th ys
  waited-append [] ys = omega arith
  waited-append (ask request ∷ xs) ys = waited-append xs ys
  waited-append (delay_ms n ∷ xs) ys = omega (arith, waited-append xs ys)
  waited-append (init_i2cdev ∷ xs) ys = waited-append xs ys
  waited-append (announce msg fx fy fz addr ∷ xs) ys = waited-append xs ys

  -- What n failed rounds leave, and what they have done.
  pub record Endured (before : ImuTask float) (n : ℕ)
      (outcome : Option (ImuTask float × List (Action float th))) : Type 0 where
    pub task : ImuTask float
    pub actions : List (Action float th)
    pub ends : outcome ≡ some (task, actions)
    pub filter : task.filt ≡ before.filt
    pub failures : task.consecutive_fail ≡ (before.consecutive_fail + n) % 5
    pub restarted : restarts idle actions ≡ (before.consecutive_fail + n) / 5
    pub pauses : waited float th actions ≡ 20 * n

  -- One failed round, by the failures pending before it.
  failed-failures :
      (input : Input) (t : ImuTask float)
      → t.consecutive_fail < 5
      → (read_failed float th input t).0.consecutive_fail ≡ (t.consecutive_fail + 1) % 5
  unfolding read_failed recover
  failed-failures input t h = ground (arith, h)

  failed-restarts :
      (input : Input) (t : ImuTask float)
      → t.consecutive_fail < 5
      → (restarts idle (read_failed float th input t).1 ≡ (t.consecutive_fail + 1) / 5)
        × (phase_after idle (read_failed float th input t).1 ≡ idle)
  unfolding read_failed recover imu_try_init configure
  failed-restarts input t h = ground (arith, h)

  failed-filter :
      (input : Input) (t : ImuTask float) → (read_failed float th input t).0.filt ≡ t.filt
  unfolding read_failed recover
  failed-filter input t = ground arith

  failed-pauses :
      (input : Input) (t : ImuTask float) → waited float th (read_failed float th input t).1 ≡ 20
  unfolding read_failed recover imu_try_init configure
  failed-pauses input t = ground arith

  rounds-Endured :
      (inputs : List Input) (t : ImuTask float)
      → t.consecutive_fail < 5
      → All (λ input. read_axes input ≡ none) inputs
      → Endured t (length inputs) (rounds float th inputs t)
  unfolding rounds round on_axes
  rounds-Endured [] t h failed = record {
    task = t;
    actions = [];
    ends = refl;
    filter = refl;
    failures = omega arith;
    restarted = omega arith;
    pauses = omega arith;
  }
  rounds-Endured (input ∷ inputs) t h failed =
      let r = read_failed float th input t in
      let kept = failed-failures input t h in
      let anew = failed-restarts input t h in
      let rest = rounds-Endured inputs r.0 (omega (arith, kept)) failed.1 in
      record {
        task = rest.task;
        actions = r.1 ++ rest.actions;
        ends = rw (failed.0, rest.ends) refl;
        filter = rest.filter ∙ failed-filter input t;
        failures = omega (arith, rest.failures, kept);
        restarted = omega (
          arith,
          subst
              (λ p.
                restarts idle (r.1 ++ rest.actions) ≡ restarts idle r.1 + restarts p rest.actions)
              anew.1 (restarts-append idle r.1 rest.actions),
          rest.restarted,
          kept,
          anew.0,
        );
        pauses = omega (arith, waited-append r.1 rest.actions, rest.pauses, failed-pauses input t);
      }

-- While the reads of lab 4.1 fail, from fewer than five failures in a row on, every round ends and
-- waits 20 ms, the filter keeps its readings, the failures are counted modulo 5, and the driver
-- is started anew once for every five of them: its descriptor is released, an address is tried
-- again, and the four settings are made.
pub rounds_endure :
    (float : Float) (th : float.F) (inputs : List Input) (t : ImuTask float)
    → t.consecutive_fail < 5
    → All (λ input. read_axes input ≡ none) inputs
    → Endured float th t (length inputs) (rounds float th inputs t)
rounds_endure = rounds-Endured
