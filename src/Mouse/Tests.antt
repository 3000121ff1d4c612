-- ===== src/Mouse/Tests.antt =====
-- The mice at concrete inputs.
use cse.Base.{
  length, replicate, ◌++◌, Bool, ℕ, ◌*◌, ◌≡◌, refl, true, false, List, [], ◌∷◌, All, none, some,
  pos, negsuc, arith,
}
use cse.Mouse.Motion.{
  delta_of, sma8_get, sum_first, sma8_push, sma8_init, speed, tilt_none, tilt_a_bit, DirectionState,
  get_tilt_level, calculate_mouse_delta,
}
use cse.Mouse.Task.{
  Mouse, Input, imu_try_init, find_imu, start, read_axes, round, on_axes, move, ble_connect,
  addr_vcc,
}
use cse.Base.{◌+ℤ◌, ◌-ℤ◌}
use cse.Mouse.Task
use cse.Mouse.Link.{Step, task_round, hidd_event, steps, connection, Allowed, steps-Allowed}
use cse.Mouse.Held.{hold, signed, base, factor, hold-calculate_mouse_delta}
use cse.Mouse.Bounds.{Sane, steps-Sane}
use cse.Mouse.Samples.{thousandths, answers, silent}
use cse.Mouse.Sweep.{Sweeper, cycle, mouse_move_task, sweep_cycles, sweep, send_mouse_move}
use cse.Mouse.Delivery.{Delivers, mouse_reports, due, movement, round-Delivers}
use cse.Hid.Profile.{Hid}
use cse.Mouse.Setup.{
  Answers, app_main, flash_ok, until_failure, initialisations, init_flash, nvs_flash_init,
  mem_release, controller_init,
}

abbrev resting : DirectionState
resting = record { start_time_ms = 0; level = tilt_none; active = false }

abbrev idle : Mouse
idle = record { hid_conn_id = 0; connected = false; dir_x = resting; dir_y = resting }

abbrev tilted : ℕ → Input
tilted now = record {
  rx = some (pos 200);
  ry = some (pos 10);
  rz = some (pos 900);
  again = answers;
  elsewhere = answers;
  now_x = now;
  now_y = now;
}

abbrev connects_and_tilts : List Step
connects_and_tilts =
    hidd_event (ble_connect 7) ∷ task_round (tilted 1000) ∷ task_round (tilted 1020) ∷ []

steps-Allowed_example :
    let s = steps thousandths connects_and_tilts (start thousandths addr_vcc, idle) in
    All (Allowed (connection connects_and_tilts none)) (round thousandths (tilted 1300) s.0 s.1).2
steps-Allowed_example =
    steps-Allowed thousandths connects_and_tilts (tilted 1300) (start thousandths addr_vcc) idle
      refl

finds_vcc : (find_imu silent answers).0 ≡ some addr_vcc
unfolding find_imu imu_try_init
finds_vcc = refl

steps-Sane_example :
    Sane thousandths (steps thousandths connects_and_tilts (start thousandths addr_vcc, idle)).0
steps-Sane_example =
    steps-Sane thousandths silent answers addr_vcc connects_and_tilts idle finds_vcc

hold-calculate_mouse_delta_example :
    (calculate_mouse_delta thousandths 1250
      (hold thousandths
        ((1020, pos 210) ∷ (1040, negsuc 200) ∷ [])
        (calculate_mouse_delta thousandths 1000 resting (pos 200)).0)
      (negsuc 250)).1
    ≡ signed false (base tilt_a_bit * factor 250)
unfolding get_tilt_level
hold-calculate_mouse_delta_example =
    hold-calculate_mouse_delta thousandths tilt_a_bit resting 1000 1250 (pos 200) (negsuc 250)
      ((1020, pos 210) ∷ (1040, negsuc 200) ∷ []) refl refl refl (refl, (refl, tt)) refl
      (omega arith)

abbrev no_controller : Answers
no_controller = record {
  flash = flash_ok;
  erased = true;
  flash_again = true;
  released = true;
  controller_ready = false;
  controller_on = true;
  bluedroid_ready = true;
  bluedroid_on = true;
  gap_ok = true;
  profile_ok = true;
  callbacks_ok = true;
}

app_main_stops : app_main no_controller ≡ nvs_flash_init ∷ mem_release ∷ controller_init ∷ []
unfolding app_main until_failure initialisations init_flash
app_main_stops = refl

abbrev host : Bool → Sweeper
host up = record { hid_conn_id = 3; connected = up }

-- The second look finds a connection, which is lost in the last five steps to the left.
abbrev lost_at_last : List (List Sweeper × List Sweeper)
lost_at_last = (replicate 20 (host true), replicate 15 (host true) ++ replicate 5 (host false)) ∷ []

-- The profile with the mouse's report in report mode.
abbrev profile : Hid
profile = record {
  clcb = record { in_use = true; conn_id = 7; connected = true; remote_bda = [] };
  gatt_if = 4;
  enabled = true;
  att_tbl = [];
  callback = true;
  reports = record {
    rpt_tbl = record { handle = 52; cccd_handle = 52; id = 1; rpt_type = 1; mode = 1 } ∷ [];
    protocol_mode = 1;
  };
  start_hdl = 40;
  end_hdl = 76;
  profile_if = 4;
}

abbrev tilting : Mouse
tilting = record {
  hid_conn_id = 7;
  connected = true;
  dir_x = record { start_time_ms = 900; level = tilt_a_bit; active = true };
  dir_y = resting;
}

round-Delivers_example :
    let requests = (round thousandths (tilted 1300) (start thousandths addr_vcc) tilting).2 in
    let moved =
      movement thousandths
        (tilted 1300)
        (read_axes (tilted 1300))
        (start thousandths addr_vcc)
        tilting in
    All (Delivers profile moved) requests × (mouse_reports requests ≡ due true moved)
round-Delivers_example =
    round-Delivers thousandths profile (tilted 1300) (start thousandths addr_vcc) tilting

one_report :
    mouse_reports (round thousandths (tilted 1300) (start thousandths addr_vcc) tilting).2 ≡ 1
unfolding round on_axes read_axes move calculate_mouse_delta delta_of get_tilt_level sma8_get
    sum_first sma8_push start sma8_init ◌+ℤ◌ speed ◌-ℤ◌ Task.send_mouse_move
one_report = refl

-- Lab 4.2 waits for a connection, and then moves 20 times to the right and 20 times back.
sweeps_after_wait :
    let away : Sweeper = record { hid_conn_id = 7; connected = false } in
    let here : Sweeper = record { hid_conn_id = 7; connected = true } in
    length (mouse_move_task (away ∷ here ∷ []) ((replicate 20 here, replicate 20 here) ∷ [])) ≡ 40
unfolding mouse_move_task sweep_cycles cycle sweep send_mouse_move
sweeps_after_wait = refl
