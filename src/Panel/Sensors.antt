-- ===== src/Panel/Sensors.antt =====
-- The sensors of lab3_3/main/main.cpp. C's float is a parameter; a reading is the temperature and
-- the humidity where the function returns true.
use cse.Base.{
  ℕ, ◌+◌, ◌*◌, ◌/◌, ◌%◌, ◌^◌, Bool, not, ◌||◌, List, [], ◌∷◌, Option, none, some, if◌then◌else◌, ℤ,
  pos, negsuc,
}
use cse.Shtc3.Sensor.{Float, crc_ok, raw, celsius, humidity}
use cse.Panel.I2c.{
  Driver, Io, or_none, pure, ◌>>=◌, ◌>>◌, delay_ms, i2c_write_bytes, i2c_read_bytes,
}

-- ADDR_SHTC3 and ADDR_TCA9548, ADDR_SHT3X_1, ADDR_SHT3X_2, ADDR_AHT20, ADDR_SI7021
abbrev pub addr_shtc3 : ℕ
addr_shtc3 = 0x70

abbrev pub addr_sht3x_1 : ℕ
addr_sht3x_1 = 0x44

abbrev pub addr_sht3x_2 : ℕ
addr_sht3x_2 = 0x45

abbrev pub addr_aht20 : ℕ
addr_aht20 = 0x38

abbrev pub addr_si7021 : ℕ
addr_si7021 = 0x40

-- rT and rH of six bytes whose checks hold.
unfoldable pub checked : Option (List ℕ) → Option (ℕ × ℕ)
checked (some (b0 ∷ b1 ∷ b2 ∷ b3 ∷ b4 ∷ b5 ∷ [])) =
    if not (crc_ok b0 b1 b2) || not (crc_ok b3 b4 b5) then none else some (raw b0 b1, raw b3 b4)
checked _ = none

-- rT and rH of the six bytes of an AHT20.
unfoldable pub unpacked : Option (List ℕ) → Option (ℕ × ℕ)
unpacked (some (b0 ∷ b1 ∷ b2 ∷ b3 ∷ b4 ∷ b5 ∷ [])) =
    some (b3 % 16 * 2 ^ 16 + b4 * 2 ^ 8 + b5, b1 * 2 ^ 12 + b2 * 2 ^ 4 + b3 / 16 % 16)
unpacked _ = none

unfoldable pub raw2 : Option (List ℕ) → Option ℕ
raw2 (some (b0 ∷ b1 ∷ [])) = some (raw b0 b1)
raw2 _ = none

module _ (float : Float) (d : Driver) where
  abbrev pub Measure : Type 0
  Measure = Io d.State (Option (float.F × float.F))

  unfoldable pub sht_values : Option (ℕ × ℕ) → Option (float.F × float.F)
  sht_values none = none
  sht_values (some (r_t, r_h)) = some (celsius float r_t, humidity float r_h)

  -- A checked SHTC3 goes to sleep again.
  unfoldable pub then_sleep : Option (ℕ × ℕ) → Measure
  then_sleep none = pure none
  then_sleep (some raws) = do
    slept ← i2c_write_bytes d addr_shtc3 (0xB0 ∷ 0x98 ∷ [])
    pure (sht_values (some raws))

  unfoldable pub shtc3_measure : Measure
  shtc3_measure = do
    woken ← i2c_write_bytes d addr_shtc3 (0x35 ∷ 0x17 ∷ [])
    or_none woken do
      delay_ms d 2
      asked ← i2c_write_bytes d addr_shtc3 (0x78 ∷ 0x66 ∷ [])
      or_none asked do delay_ms d 25; rx ← i2c_read_bytes d addr_shtc3 6; then_sleep (checked rx)

  unfoldable pub sht3x_measure : ℕ → Measure
  sht3x_measure addr = do
    asked ← i2c_write_bytes d addr (0x24 ∷ 0x00 ∷ [])
    or_none asked do delay_ms d 15; rx ← i2c_read_bytes d addr 6; pure (sht_values (checked rx))

  unfoldable pub aht20_init : ℕ → Io d.State Bool
  aht20_init addr = do
    reset ← i2c_write_bytes d addr (0xBA ∷ [])
    delay_ms d 20
    i2c_write_bytes d addr (0xBE ∷ 0x08 ∷ 0x00 ∷ [])

  unfoldable pub aht20_values : Option (ℕ × ℕ) → Option (float.F × float.F)
  aht20_values none = none
  aht20_values (some (r_t, r_h)) = some (
    float.add
        (float.div (float.mul (float.lit (pos r_t) 0) (float.lit (pos 200) 0))
          (float.lit (pos 1048576) 0))
        (float.lit (negsuc 49) 0),
    float.div (float.mul (float.lit (pos r_h) 0) (float.lit (pos 100) 0))
        (float.lit (pos 1048576) 0),
  )

  unfoldable pub aht20_measure : ℕ → Measure
  aht20_measure addr = do
    asked ← i2c_write_bytes d addr (0xAC ∷ 0x33 ∷ 0x00 ∷ [])
    or_none asked do delay_ms d 80; rx ← i2c_read_bytes d addr 6; pure (aht20_values (unpacked rx))

  -- `(k * raw) / 65536.0f + offset`, where k and offset have this many decimal places.
  unfoldable pub si7021_value : ℕ → ℕ → ℤ → ℕ → float.F
  si7021_value k places offset raw_value =
      float.add
        (float.div (float.mul (float.lit (pos k) places) (float.lit (pos raw_value) 0))
          (float.lit (pos 65536) 0))
        (float.lit offset places)

  unfoldable pub si7021_values : ℕ → Option ℕ → Option (float.F × float.F)
  si7021_values raw_rh none = none
  si7021_values raw_rh (some raw_t) =
      some (si7021_value 17572 2 (negsuc 4684) raw_t, si7021_value 125 0 (negsuc 5) raw_rh)

  unfoldable pub si7021_temperature : Option ℕ → Measure
  si7021_temperature none = pure none
  si7021_temperature (some raw_rh) = do
    asked ← i2c_write_bytes d addr_si7021 (0xE3 ∷ [])
    or_none asked do t2 ← i2c_read_bytes d addr_si7021 2; pure (si7021_values raw_rh (raw2 t2))

  unfoldable pub si7021_measure : Measure
  si7021_measure = do
    asked ← i2c_write_bytes d addr_si7021 (0xE5 ∷ [])
    or_none asked do rh2 ← i2c_read_bytes d addr_si7021 2; si7021_temperature (raw2 rh2)

  unfoldable pub tca_select : ℕ → Io d.State Bool
  tca_select channel = i2c_write_bytes d addr_shtc3 (2 ^ channel % 256 ∷ [])
