-- ===== src/Panel/App.antt =====
-- app_main of lab3_3/main/main.cpp. C's float and the conversions of snprintf are parameters. A text is
-- a list of bytes without its end.
use cse.Base.{
  ℕ, zero, suc, ◌-◌, List, [], ◌∷◌, ◌++◌, length, take, replicate, codes, Option, none, some, ltb,
  if◌then◌else◌, ℤ, pos, negsuc,
}
use cse.Shtc3.Sensor.{Float}
use cse.Panel.I2c.{Driver, Io, pure, ◌>>=◌, ◌>>◌, delay_ms}
use cse.Panel.Detect.{Sensor, no_sensor, detect_sensor, read_sensor}
use cse.Panel.Lcd.{Lcd, new_lcd, lcd_addr, init, set_cursor, printstr, clear}

-- roundf and lroundf, and what "%5.1f" and "%3d" print.
pub record Text (float : Float) : Type 0 where
  pub roundf : float.F → float.F
  pub lroundf : float.F → ℤ
  pub one_decimal : float.F → List ℕ
  pub integer : ℤ → List ℕ

-- What snprintf leaves in a buffer of this size.
unfoldable pub snprintf : ℕ → List ℕ → List ℕ
snprintf size text = take (size - 1) text

-- "Temp:" and "Hum :"
unfoldable pub temp_label : List ℕ
temp_label = codes "Temp:"

unfoldable pub hum_label : List ℕ
hum_label = codes "Hum :"

-- COL_VAL
abbrev pub col_val : ℕ
col_val = 7

-- rhfield of rhval.
unfoldable pub rh_field : List ℕ → List ℕ
rh_field rhval =
    let n = if ltb 9 (length rhval) then 9 else length rhval in
    take n rhval ++ replicate (9 - n) 0x20

-- g_kind, g_addr and g_mux_channel after the search.
unfoldable pub stored : Option Sensor → Sensor
stored none = no_sensor
stored (some sensor) = sensor

module _ (float : Float) (text : Text float) where
  abbrev pub Reading : Type 0
  Reading = float.F × float.F

  unfoldable pub t_disp : float.F → float.F
  t_disp t_c =
      float.div
        (text.roundf (float.mul (float.add t_c (float.lit (negsuc 1) 0)) (float.lit (pos 10) 0)))
        (float.lit (pos 10) 0)

  -- buf and rhfield.
  unfoldable pub temp_text : Reading → List ℕ
  temp_text (t_c, rh) = snprintf 16 (text.one_decimal (t_disp t_c) ++ (0x43 ∷ 0x20 ∷ []))

  unfoldable pub rh_text : Reading → List ℕ
  rh_text (t_c, rh) = rh_field (snprintf 8 (text.integer (text.lroundf rh) ++ (0x25 ∷ [])))

abbrev pub m_addr : ℕ
m_addr = lcd_addr 0x3E

module _ (float : Float) (text : Text float) (d : Driver) where
  unfoldable pub print_at : Lcd → ℕ → ℕ → List ℕ → Io d.State (Unit {0})
  print_at lcd col row line = do
    placed ← set_cursor d m_addr lcd col row
    printed ← printstr d m_addr lcd line
    pure tt

  unfoldable pub labels : Lcd → Io d.State (Unit {0})
  labels lcd = print_at lcd 0 0 temp_label >> print_at lcd 0 1 hum_label

  unfoldable pub show : Lcd → Option (Reading float text) → Io d.State (Unit {0})
  show lcd none = pure tt
  show lcd (some reading) =
      print_at lcd col_val 0 (temp_text float text reading)
      >> print_at lcd col_val 1 (rh_text float text reading)

  -- A round of the loop, and what it has read.
  unfoldable pub round : Lcd → Sensor → Io d.State (Option (Reading float text))
  round lcd sensor = do
    labels lcd
    reading ← read_sensor float d sensor
    show lcd reading
    delay_ms d 1000
    pure reading

  unfoldable pub newer :
      Option (Reading float text) → Option (Reading float text) → Option (Reading float text)
  newer none latest = latest
  newer (some reading) latest = some reading

  -- This many rounds; the latest reading is not kept by the program.
  unfoldable pub rounds :
      ℕ → Lcd → Sensor → Option (Reading float text) → Io d.State (Option (Reading float text))
  rounds zero lcd sensor latest = pure latest
  rounds (suc left) lcd sensor latest =
      round lcd sensor >>= λ reading. rounds left lcd sensor (newer reading latest)

  -- app_main up to its loop.
  unfoldable pub start : Io d.State (Lcd × Sensor)
  start = do
    (ok, lcd) ← init d m_addr new_lcd
    cleared ← clear d m_addr
    sensor ← detect_sensor float d
    pure (lcd, stored sensor)

  unfoldable pub app_main : ℕ → Io d.State (Option (Reading float text))
  app_main n = start >>= λ (lcd, sensor). rounds n lcd sensor none
