-- ===== src/Mouse/Delivery.antt =====
-- The movements of lab4_3/main/lab4_3.c on their way through lab4_3/main/esp_hidd_prf_api.c to the
-- host.
use cse.Base.{
  ℕ, ◌+◌, ◌≡◌, refl, Bool, true, false, not, ◌&&◌, ◌||◌, if◌then◌else◌, Option, none, some, List,
  [], ◌∷◌, All, ℤ, pos, arith,
}
use cse.Hid.Profile.{Hid}
use cse.Hid.Api.{esp_hidd_send_mouse_value}
use cse.Hid.Described.{HostReads, send_mouse_value-HostReads}
use cse.Mouse.Motion.{Float, range_4g, lsb_per_g, sma8_push, sma8_get, calculate_mouse_delta}
use cse.Mouse.Task.{
  Request, mouse_value, Mouse, send_mouse_move, Input, ImuTask, is_zero, imu_try_init, configure,
  read_axes, reinit, read_failed, move, on_axes, round,
}
use cse.Mouse.Link.{Bounded, delta_of-Bounded}

-- The host reads a movement, and no button and no wheel, in the mouse report of a request; without
-- a movement there is no report. The other requests are free.
abbrev pub Delivers : Hid → Option (ℤ × ℤ) → Request → Type 0
Delivers h (some (dx, dy)) (mouse_value conn_id buttons x y) =
    All (HostReads 1 (pos 0 ∷ pos 0 ∷ pos 0 ∷ pos 0 ∷ dx ∷ dy ∷ pos 0 ∷ []))
      (esp_hidd_send_mouse_value h conn_id buttons x y)
Delivers h none (mouse_value conn_id buttons x y) = ⊥
Delivers h movement _ = Unit

abbrev pub mouse_reports : List Request → ℕ
mouse_reports [] = 0
mouse_reports (mouse_value conn_id buttons x y ∷ requests) = 1 + mouse_reports requests
mouse_reports (_ ∷ requests) = mouse_reports requests

-- A movement is due over an open connection, unless it is 0 both ways.
abbrev pub due : Bool → Option (ℤ × ℤ) → ℕ
due connected none = 0
due connected (some (dx, dy)) = if connected && not (is_zero dx && is_zero dy) then 1 else 0

module _ (float : Float) where
  -- The movement of a round: to the side by the tilt of the filter's mean of x, and up and down by
  -- that of its mean of y, negated; none where an axis cannot be read.
  unfoldable pub movement : Input → Option (ℤ × ℤ × ℤ) → ImuTask float → Mouse → Option (ℤ × ℤ)
  movement input none t m = none
  movement input (some (rx, ry, rz)) t m =
      let g : ℤ → float.F =
        λ raw. float.mul (float.of_int raw) (float.inverse (lsb_per_g range_4g)) in
      let mean = sma8_get float (sma8_push float t.filt (g rx) (g ry) (g rz)) in
      some (
        (calculate_mouse_delta float input.now_x m.dir_x mean.0).1,
        (calculate_mouse_delta float input.now_y m.dir_y (float.neg mean.1)).1,
      )

  failed-Delivers :
      (h : Hid) (input : Input) (t : ImuTask float)
      → All (Delivers h none) (read_failed float input t).1
        × (mouse_reports (read_failed float input t).1 ≡ 0)
  unfolding read_failed reinit imu_try_init configure
  failed-Delivers h input t = ground arith

  sent-Delivers :
      (h : Hid) (m : Mouse) (x y : ℤ)
      → Bounded x
      → Bounded y
      → let requests =
          if m.connected && (not (is_zero x) || not (is_zero y))
          then send_mouse_move m x y
          else [] in
        All (Delivers h (some (x, y))) requests
        × (mouse_reports requests ≡ due m.connected (some (x, y)))
  unfolding send_mouse_move
  sent-Delivers h m x y p q = by_sign m.connected (is_zero x) (is_zero y)
    where
      read :
          All
            (HostReads 1 (pos 0 ∷ pos 0 ∷ pos 0 ∷ pos 0 ∷ x ∷ y ∷ pos 0 ∷ []))
            (esp_hidd_send_mouse_value h m.hid_conn_id 0 x y)
      read =
          send_mouse_value-HostReads h m.hid_conn_id 0 x y (omega arith) (omega (arith, p.most))
            (omega (arith, p.least)) (omega (arith, q.most)) (omega (arith, q.least))

      by_sign :
          (connected a b : Bool)
          → let requests =
              if connected && (not a || not b)
              then (if connected then mouse_value m.hid_conn_id 0 x y ∷ [] else [])
              else [] in
            All (Delivers h (some (x, y))) requests
            × (mouse_reports requests ≡ (if connected && not (a && b) then 1 else 0))
      by_sign false a b = (tt, refl)
      by_sign true true true = (tt, refl)
      by_sign true true false = ((read, tt), refl)
      by_sign true false b = ((read, tt), refl)

-- Whatever the state of the task, of the program and of the HID profile, a host that reads by the
-- report descriptor takes from a mouse report of a round exactly the movement of the round, with no
-- button and no wheel. A round has one report where a connection is open, the three axes can be
-- read and the movement is not 0 both ways, and none otherwise.
pub round-Delivers :
    (float : Float) (h : Hid) (input : Input) (t : ImuTask float) (m : Mouse)
    → let requests = (round float input t m).2 in
      let moved = movement float input (read_axes input) t m in
      All (Delivers h moved) requests × (mouse_reports requests ≡ due m.connected moved)
unfolding round on_axes move movement calculate_mouse_delta
round-Delivers float h input t m = by_axes (read_axes input)
  where
    by_axes :
        (axes : Option (ℤ × ℤ × ℤ))
        → let requests = (on_axes float input axes t m).2 in
          let moved = movement float input axes t m in
          All (Delivers h moved) requests × (mouse_reports requests ≡ due m.connected moved)
    by_axes none = failed-Delivers float h input t
    by_axes (some axes) =
        sent-Delivers float h m _ _ (delta_of-Bounded _ _ _ m.dir_x)
          (delta_of-Bounded _ _ _ m.dir_y)
