-- ===== src/Incline/Task.antt =====
-- task_lab4_1 of lab4_1/main/lab4_1.c. Its filter, its tries of an address and its settings are
-- those of lab4_3/main/lab4_3.c. Of its log lines the announcement is kept.
use cse.Base.{
  ℕ, ◌+◌, Bool, false, List, [], ◌∷◌, ◌++◌, map, leb, if◌then◌else◌, Option, none, some, ◌>>=◌, ℤ,
}
use cse.Mouse.Motion.{Float, range_4g, lsb_per_g, Sma8, sma8_push, sma8_get}
use cse.Mouse.Task.{
  Request, free_desc, set_accel_fsr, set_accel_avg, set_accel_odr, set_accel_pwr_mode, Try,
  imu_try_init, configure, other_addr, addr_gnd, addr_vcc, ImuTask, start,
}
use cse.Incline.Message.{message, vert_word, horiz_word}

-- What a round meets: the axes that can be read, and the driver's answers where it starts anew.
pub record Input : Type 0 where
  pub rx : Option ℤ
  pub ry : Option ℤ
  pub rz : Option ℤ
  pub again : Try
  pub elsewhere : Try

unfoldable pub read_axes : Input → Option (ℤ × ℤ × ℤ)
read_axes input = do rx ← input.rx; ry ← input.ry; rz ← input.rz; some (rx, ry, rz)

-- Both addresses are tried, the second one where the first does not answer.
unfoldable pub try_both : Try → Try → Option ℕ × List Request
try_both first second =
    let (ok1, calls1) = imu_try_init first addr_gnd in
    let (ok2, calls2) = imu_try_init second addr_vcc in
    if ok1
    then (some addr_gnd, calls1)
    else if ok2
    then (some addr_vcc, calls1 ++ calls2)
    else (none, calls1 ++ calls2)

-- Whether each of the four settings is taken.
pub record Settings : Type 0 where
  pub fsr_ok : Bool
  pub avg_ok : Bool
  pub odr_ok : Bool
  pub pwr_ok : Bool

-- The settings at the start: a failed one aborts the program.
unfoldable pub configure_checked : Settings → Bool × List Request
configure_checked s =
    if s.fsr_ok
    then if s.avg_ok
      then if s.odr_ok
        then (
          s.pwr_ok,
          set_accel_fsr range_4g ∷ set_accel_avg ∷ set_accel_odr ∷ set_accel_pwr_mode ∷ [],
        )
        else (false, set_accel_fsr range_4g ∷ set_accel_avg ∷ set_accel_odr ∷ [])
      else (false, set_accel_fsr range_4g ∷ set_accel_avg ∷ [])
    else (false, set_accel_fsr range_4g ∷ [])

-- What the start meets: whether i2cdev_init succeeds, the answers to the tries of an address,
-- and those to the settings.
pub record Start : Type 0 where
  pub i2cdev_ok : Bool
  pub first : Try × Try
  pub tries : List (Try × Try)
  pub settings : Settings

module _ (float : Float) (th : float.F) where
  -- What the task does: it asks the driver, waits, or announces a text with the three means and
  -- the address.
  pub data Action : Type 0 where
    init_i2cdev : Action
    ask : Request → Action
    delay_ms : ℕ → Action
    announce : List ℕ → float.F → float.F → float.F → ℕ → Action

  -- A try of both addresses, and what comes of it where neither answers.
  unfoldable pub or_else : Option ℕ × List Request → Option ℕ × List Action → Option ℕ × List Action
  or_else (some addr, calls) (found, actions) = (some addr, map ask calls)
  or_else (none, calls) (found, actions) = (found, map ask calls ++ actions)

  -- The loop where no sensor was found; none while it has not ended.
  unfoldable pub retry : List (Try × Try) → Option ℕ × List Action
  retry [] = (none, [])
  retry ((first, second) ∷ tries) =
      let (found, actions) = or_else (try_both first second) (retry tries) in
      (found, delay_ms 500 ∷ actions)

  unfoldable pub search : Try × Try → List (Try × Try) → Option ℕ × List Action
  search (first, second) tries = or_else (try_both first second) (retry tries)

  unfoldable pub recover : Input → ImuTask float → ImuTask float × List Action
  recover input t =
      let (ok1, calls1) = imu_try_init input.again t.addr in
      let (ok2, calls2) = imu_try_init input.elsewhere (other_addr t.addr) in
      if ok1
      then (record t { consecutive_fail = 0 }, map ask (free_desc ∷ (calls1 ++ configure)))
      else (
        record t { addr = if ok2 then other_addr t.addr else t.addr; consecutive_fail = 0 },
        map ask (free_desc ∷ (calls1 ++ (calls2 ++ configure))),
      )

  unfoldable pub read_failed : Input → ImuTask float → ImuTask float × List Action
  read_failed input t =
      let t' = record t { consecutive_fail = t.consecutive_fail + 1 } in
      let (t'', actions) = if leb 5 t'.consecutive_fail then recover input t' else (t', []) in
      (t'', actions ++ (delay_ms 20 ∷ []))

  -- The announcement of the filter's means; none where the text does not fit msg.
  unfoldable pub say : Sma8 float → ImuTask float → Option (ImuTask float × List Action)
  say filt t =
      let (fx, fy, fz) = sma8_get float filt in
      do
        msg ← message (vert_word float th fy) (horiz_word float th fx)
        some (
          record t { filt = filt; consecutive_fail = 0 },
          announce msg fx fy fz t.addr ∷ delay_ms 20 ∷ [],
        )

  unfoldable pub show : ℤ × ℤ × ℤ → ImuTask float → Option (ImuTask float × List Action)
  show (rx, ry, rz) t =
      let inv_lsb_g = float.inverse (lsb_per_g range_4g) in
      say
        (sma8_push float t.filt (float.mul (float.of_int rx) inv_lsb_g)
          (float.mul (float.of_int ry) inv_lsb_g) (float.mul (float.of_int rz) inv_lsb_g))
        t

  unfoldable pub on_axes :
      Input → Option (ℤ × ℤ × ℤ) → ImuTask float → Option (ImuTask float × List Action)
  on_axes input none t = some (read_failed input t)
  on_axes input (some axes) t = show axes t

  -- One round of the loop of task_lab4_1; none where it writes outside msg.
  unfoldable pub round : Input → ImuTask float → Option (ImuTask float × List Action)
  round input t = on_axes input (read_axes input) t

  unfoldable pub rounds : List Input → ImuTask float → Option (ImuTask float × List Action)
  rounds [] t = some (t, [])
  rounds (input ∷ inputs) t = do
    (t', actions) ← round input t
    (t'', more) ← rounds inputs t'
    some (t'', actions ++ more)

  -- The task that starts at the address found, with the settings: none while there is no address,
  -- or where a setting is refused.
  unfoldable pub configured :
      Option ℕ × List Action → Bool × List Request → Option (ImuTask float) × List Action
  configured (none, actions) (ok, calls) = (none, actions)
  configured (some addr, actions) (ok, calls) =
      (if ok then some (start float addr) else none, actions ++ map ask calls)

  -- The task before its loop: none where it aborts or is still searching.
  unfoldable pub begin : Start → Option (ImuTask float) × List Action
  begin s =
      let (task, actions) = configured (search s.first s.tries) (configure_checked s.settings) in
      if s.i2cdev_ok then (task, init_i2cdev ∷ actions) else (none, init_i2cdev ∷ [])
