-- ===== src/Panel/Quiet.antt =====
-- The sensors of lab3_3/main/main.cpp leave the display as it is: none is at the display's address.
pub mod Search
use cse.Base.{
  ℕ, zero, suc, ◌+◌, ◌*◌, ◌%◌, Bool, true, false, List, [], ◌∷◌, Option, none, some, ◌≡◌, ◌≢◌, refl,
  if◌then◌else◌, arith, ==→eq, ◌==◌,
}
use cse.Shtc3.Sensor.{Float}
use cse.Panel.I2c.{
  Link, start_bit, write_byte, Driver, Io, or_none, pure, ◌>>=◌, delay_ms, transact, i2c_probe,
  i2c_write_bytes, i2c_read_bytes, is_some,
}
use cse.Panel.Sensors.{
  then_sleep, checked, unpacked, raw2, sht_values, shtc3_measure, sht3x_measure, aht20_init,
  aht20_measure, aht20_values, si7021_temperature, si7021_values, si7021_measure, tca_select,
  addr_shtc3, addr_sht3x_1, addr_sht3x_2, addr_aht20, addr_si7021,
}
use cse.Panel.Display.{Display, Kept, Kept-bind, Kept-pure, Kept-or_none, Kept-delay, Kept-transact}

-- A device with this address is not the display.
abbrev pub Away : ℕ → Type 0
Away addr7 = (addr7 * 2 % 256 ≢ 0x7C) × ((addr7 * 2 + 1) % 256 ≢ 0x7C)

module _ (float : Float) (d : Driver) (display : Display d) where
  abbrev pub Still : {A : Type 0} → Io d.State A → Type 0
  Still = Kept d display

  abbrev pub then_still :
      {A B : Type 0} (m : Io d.State A) (k : A → Io d.State B)
      → Still m
      → ((a : A) → Still (k a))
      → Still (m >>= k)
  then_still = Kept-bind d display

  pub Kept-i2c_probe : (addr7 : ℕ) → Away addr7 → Still (i2c_probe d addr7)
  unfolding i2c_probe
  Kept-i2c_probe addr7 h =
      then_still _ _ (Kept-transact d display 50 (addr7 * 2 % 256) _ h.0)
        λ result. Kept-pure d display (is_some result)

  pub Kept-i2c_write_bytes :
      (addr7 : ℕ) (bytes : List ℕ) → Away addr7 → Still (i2c_write_bytes d addr7 bytes)
  unfolding i2c_write_bytes
  Kept-i2c_write_bytes addr7 bytes h =
      then_still _ _ (Kept-transact d display 100 (addr7 * 2 % 256) _ h.0)
        λ result. Kept-pure d display (is_some result)

  Kept-if :
      {A : Type 0} (b : Bool) (m k : Io d.State A) → Still m → Still k → Still (if b then m else k)
  Kept-if true m k h j = h
  Kept-if false m k h j = j

  Kept-i2c_read_bytes : (addr7 n : ℕ) → Away addr7 → Still (i2c_read_bytes d addr7 n)
  unfolding i2c_read_bytes
  Kept-i2c_read_bytes addr7 n h =
      Kept-if (n == 0) _ _ (Kept-pure d display (some []))
        (Kept-transact d display 100 ((addr7 * 2 + 1) % 256) _ h.1)

  pub addr_shtc3-Away : Away addr_shtc3
  addr_shtc3-Away = (omega arith, omega arith)

  Kept-then_sleep : (raws : Option (ℕ × ℕ)) → Still (then_sleep float d raws)
  unfolding then_sleep
  Kept-then_sleep none = Kept-pure d display none
  Kept-then_sleep (some (r_t, r_h)) =
      then_still _ _ (Kept-i2c_write_bytes addr_shtc3 _ addr_shtc3-Away)
        λ slept. Kept-pure d display (sht_values float d (some (r_t, r_h)))

  pub Kept-shtc3_measure : Still (shtc3_measure float d)
  unfolding shtc3_measure
  Kept-shtc3_measure = then_still _ _ (Kept-i2c_write_bytes addr_shtc3 _ addr_shtc3-Away) λ woken.
      Kept-or_none d display woken _ (
        then_still (delay_ms d 2) _ (Kept-delay d display 2) λ late.
          then_still _ _ (Kept-i2c_write_bytes addr_shtc3 (0x78 ∷ 0x66 ∷ []) addr_shtc3-Away)
            λ asked. Kept-or_none d display asked _ (
              then_still (delay_ms d 25) _ (Kept-delay d display 25) λ later.
                then_still _ _ (Kept-i2c_read_bytes addr_shtc3 6 addr_shtc3-Away)
                  λ rx. Kept-then_sleep (checked rx)))

  pub Kept-sht3x_measure : (addr : ℕ) → Away addr → Still (sht3x_measure float d addr)
  unfolding sht3x_measure
  Kept-sht3x_measure addr h = then_still _ _ (Kept-i2c_write_bytes addr _ h) λ asked.
      Kept-or_none d display asked _ (
        then_still (delay_ms d 15) _ (Kept-delay d display 15) λ late.
          then_still _ _ (Kept-i2c_read_bytes addr 6 h)
            λ rx. Kept-pure d display (sht_values float d (checked rx)))

  pub Kept-aht20_init : (addr : ℕ) → Away addr → Still (aht20_init float d addr)
  unfolding aht20_init
  Kept-aht20_init addr h = then_still _ _ (Kept-i2c_write_bytes addr _ h) λ reset.
      then_still (delay_ms d 20) _ (Kept-delay d display 20)
        λ late. Kept-i2c_write_bytes addr (0xBE ∷ 0x08 ∷ 0x00 ∷ []) h

  pub Kept-aht20_measure : (addr : ℕ) → Away addr → Still (aht20_measure float d addr)
  unfolding aht20_measure
  Kept-aht20_measure addr h = then_still _ _ (Kept-i2c_write_bytes addr _ h) λ asked.
      Kept-or_none d display asked _ (
        then_still (delay_ms d 80) _ (Kept-delay d display 80) λ late.
          then_still _ _ (Kept-i2c_read_bytes addr 6 h)
            λ rx. Kept-pure d display (aht20_values float d (unpacked rx)))

  pub addr_si7021-Away : Away addr_si7021
  addr_si7021-Away = (omega arith, omega arith)

  Kept-si7021_temperature : (raw_rh : Option ℕ) → Still (si7021_temperature float d raw_rh)
  unfolding si7021_temperature
  Kept-si7021_temperature none = Kept-pure d display none
  Kept-si7021_temperature (some raw_rh) =
      then_still _ _ (Kept-i2c_write_bytes addr_si7021 _ addr_si7021-Away) λ asked.
        Kept-or_none d display asked _ (
          then_still _ _ (Kept-i2c_read_bytes addr_si7021 2 addr_si7021-Away)
            λ t2. Kept-pure d display (si7021_values float d raw_rh (raw2 t2)))

  pub Kept-si7021_measure : Still (si7021_measure float d)
  unfolding si7021_measure
  Kept-si7021_measure =
      then_still _ _ (Kept-i2c_write_bytes addr_si7021 _ addr_si7021-Away) λ asked.
        Kept-or_none d display asked _ (
          then_still _ _ (Kept-i2c_read_bytes addr_si7021 2 addr_si7021-Away)
            λ rh2. Kept-si7021_temperature (raw2 rh2))
