-- ===== src/Mouse/Task.antt =====
-- The callbacks and the task of lab4_3/main/lab4_3.c. A round of the task's loop is one step: no
-- event comes inside it. Log lines and delays are left out.
use cse.Base.{
  ℕ, ◌+◌, Bool, true, false, not, ◌&&◌, ◌||◌, List, [], ◌∷◌, ◌++◌, leb, ◌==◌, if◌then◌else◌, Option,
  none, some, ◌>>=◌, ℤ, pos, negsuc,
}
use cse.Mouse.Motion.{
  Float, AccelFsr, range_4g, lsb_per_g, DirectionState, Sma8, sma8_init, sma8_push, sma8_get,
  calculate_mouse_delta,
}

-- What the program asks of the stack, of the HID profile and of the sensor's driver.
pub data Request : Type 0 where
  -- esp_hidd_send_mouse_value with conn_id, the buttons and both movements
  mouse_value : ℕ → ℕ → ℤ → ℤ → Request
  set_device_name : Request
  config_adv_data : Request
  start_advertising : Request
  security_rsp : Request
  free_desc : Request
  init_desc : ℕ → Request
  init_imu : Request
  set_accel_fsr : AccelFsr → Request
  set_accel_avg : Request
  set_accel_odr : Request
  set_accel_pwr_mode : Request

-- hid_conn_id, connected, dir_x and dir_y.
pub record Mouse : Type 0 where
  pub hid_conn_id : ℕ
  pub connected : Bool
  pub dir_x : DirectionState
  pub dir_y : DirectionState

unfoldable pub send_mouse_move : Mouse → ℤ → ℤ → List Request
send_mouse_move m x y = if m.connected then mouse_value m.hid_conn_id 0 x y ∷ [] else []

-- The events of the HID profile that the program tells apart; state 0 is ESP_HIDD_INIT_OK.
pub data HiddEvent : Type 0 where
  reg_finish : ℕ → HiddEvent
  ble_connect : ℕ → HiddEvent
  ble_disconnect : HiddEvent
  other_event : HiddEvent

abbrev pub inactive : DirectionState → DirectionState
inactive d = record d { active = false }

unfoldable pub hidd_event_callback : HiddEvent → Mouse → Mouse × List Request
hidd_event_callback (reg_finish state) m =
    (m, if state == 0 then set_device_name ∷ config_adv_data ∷ [] else [])
hidd_event_callback (ble_connect conn_id) m = (
  record {
    hid_conn_id = conn_id;
    connected = true;
    dir_x = inactive m.dir_x;
    dir_y = inactive m.dir_y;
  },
  [],
)
hidd_event_callback ble_disconnect m = (record m { connected = false }, start_advertising ∷ [])
hidd_event_callback other_event m = (m, [])

pub data GapEvent : Type 0 where
  adv_data_set_complete : GapEvent
  sec_req : GapEvent
  auth_cmpl : GapEvent
  other_gap_event : GapEvent

unfoldable pub gap_event_handler : GapEvent → List Request
gap_event_handler adv_data_set_complete = start_advertising ∷ []
gap_event_handler sec_req = security_rsp ∷ []
gap_event_handler auth_cmpl = []
gap_event_handler other_gap_event = []

-- ICM42670_I2C_ADDR_GND and _VCC
abbrev pub addr_gnd : ℕ
addr_gnd = 0x68

abbrev pub addr_vcc : ℕ
addr_vcc = 0x69

-- What the driver answers to one try: whether each of its two calls succeeds.
pub record Try : Type 0 where
  pub desc_ok : Bool
  pub init_ok : Bool

unfoldable pub imu_try_init : Try → ℕ → Bool × List Request
imu_try_init answer addr =
    if answer.desc_ok
    then (answer.init_ok, free_desc ∷ init_desc addr ∷ init_imu ∷ [])
    else (false, free_desc ∷ init_desc addr ∷ [])

unfoldable pub configure : List Request
configure = set_accel_fsr range_4g ∷ set_accel_avg ∷ set_accel_odr ∷ set_accel_pwr_mode ∷ []

-- The start of the task up to the configuration; none where no sensor answers.
unfoldable pub find_imu : Try → Try → Option ℕ × List Request
find_imu first second =
    let (ok1, calls1) = imu_try_init first addr_gnd in
    let (ok2, calls2) = imu_try_init second addr_vcc in
    if ok1
    then (some addr_gnd, calls1 ++ configure)
    else if ok2
    then (some addr_vcc, calls1 ++ (calls2 ++ configure))
    else (none, calls1 ++ calls2)

-- What a round meets: the axes that can be read, the answers of the driver where it starts anew,
-- and the times at which the two movements are calculated.
pub record Input : Type 0 where
  pub rx : Option ℤ
  pub ry : Option ℤ
  pub rz : Option ℤ
  pub again : Try
  pub elsewhere : Try
  pub now_x : ℕ
  pub now_y : ℕ

-- The three reads, of which a failed one ends the row.
unfoldable pub read_axes : Input → Option (ℤ × ℤ × ℤ)
read_axes input = do rx ← input.rx; ry ← input.ry; rz ← input.rz; some (rx, ry, rz)

-- `uint8_t other = (addr==ADDR_GND)?ADDR_VCC:ADDR_GND`
abbrev pub other_addr : ℕ → ℕ
other_addr addr = if addr == addr_gnd then addr_vcc else addr_gnd

abbrev pub is_zero : ℤ → Bool
is_zero (pos n) = n == 0
is_zero (negsuc n) = false

module _ (float : Float) where
  -- filt, addr and consecutive_fail.
  pub record ImuTask : Type 0 where
    pub filt : Sma8 float
    pub addr : ℕ
    pub consecutive_fail : ℕ

  unfoldable pub start : ℕ → ImuTask
  start addr = record { filt = sma8_init float; addr = addr; consecutive_fail = 0 }

  unfoldable pub reinit : Input → ImuTask → ImuTask × List Request
  reinit input t =
      let (ok1, calls1) = imu_try_init input.again t.addr in
      let (ok2, calls2) = imu_try_init input.elsewhere (other_addr t.addr) in
      if ok1 then (record t { consecutive_fail = 0 }, free_desc ∷ (calls1 ++ configure)) else (
        record t { addr = if ok2 then other_addr t.addr else t.addr; consecutive_fail = 0 },
        free_desc ∷ (calls1 ++ (calls2 ++ configure)),
      )

  unfoldable pub read_failed : Input → ImuTask → ImuTask × List Request
  read_failed input t =
      let t' = record t { consecutive_fail = t.consecutive_fail + 1 } in
      if leb 5 t'.consecutive_fail then reinit input t' else (t', [])

  unfoldable pub move : Input → ℤ × ℤ × ℤ → ImuTask → Mouse → ImuTask × Mouse × List Request
  move input (rx, ry, rz) t m =
      let inv_lsb_g = float.inverse (lsb_per_g range_4g) in
      let filt =
        sma8_push float t.filt (float.mul (float.of_int rx) inv_lsb_g)
          (float.mul (float.of_int ry) inv_lsb_g) (float.mul (float.of_int rz) inv_lsb_g) in
      let (fx, fy, fz) = sma8_get float filt in
      let (dir_x, mouse_x) = calculate_mouse_delta float input.now_x m.dir_x fx in
      let (dir_y, mouse_y) = calculate_mouse_delta float input.now_y m.dir_y (float.neg fy) in
      (
        record t { filt = filt; consecutive_fail = 0 },
        record m { dir_x = dir_x; dir_y = dir_y },
        (if m.connected && (not (is_zero mouse_x) || not (is_zero mouse_y))
            then send_mouse_move m mouse_x mouse_y
            else []),
      )

  unfoldable pub on_axes :
      Input → Option (ℤ × ℤ × ℤ) → ImuTask → Mouse → ImuTask × Mouse × List Request
  on_axes input none t m = let (t', calls) = read_failed input t in (t', m, calls)
  on_axes input (some axes) t m = move input axes t m

  -- One round of the loop of imu_mouse_task.
  unfoldable pub round : Input → ImuTask → Mouse → ImuTask × Mouse × List Request
  round input t m = on_axes input (read_axes input) t m
