-- ===== src/Panel/Tests.antt =====
-- The display of lab 3 at concrete inputs.
use cse.Base.{
  ℕ, true, false, List, [], ◌∷◌, codes, Option, none, some, ◌≡◌, ◌≢◌, refl, ◌==◌, if◌then◌else◌, ℤ,
  Bool-cases, inl, inr, ==→eq, arith, ◌+ℤ◌, ◌*ℤ◌, bit_or, or_bits, bit_and, and_bits, bit_xor,
  xor_bits,
}
use cse.Shtc3.Sensor.{Float, crc_ok, crc_byte, crc_shifts, crc_shift}
use cse.Panel.I2c.{
  Link, start_bit, write_byte, write_bytes, stop_bit, Driver, queue_all, transact, or_none,
  or_error, i2c_probe, i2c_write_bytes, i2c_read_bytes,
}
use cse.Panel.Sensors.{addr_shtc3, checked, shtc3_measure, then_sleep, sht_values}
use cse.Panel.Detect.{
  site, shtc3_direct, detect_sensor, detect_from, try_direct, found, or_first, read_sensor, select,
  measure,
}
use cse.Panel.Found.{Measured, detect_sensor-Measured}
use cse.Panel.Lcd.{
  byte_links, data_links, probe_links, init, init_display, commands, i2c_write_cmd_byte, succeeds,
  or_return, i2c_device_present, queue_each, probe_rgb, first_rgb, rgb_probed, inited, set_rgb,
  rgb_ready, write_rgb, registers, set_cursor, printstr, i2c_write_data, ddram_address, lcd_addr,
  new_lcd, clear, clear_or_home,
}
use cse.Panel.Screen.{Screen, command, write_cells, write_cell, line, cells_from}
use cse.Panel.Display.{Display}
use cse.Panel.Hello.{hello}
use cse.Panel.App.{
  Text, app_main, start, round, rounds, labels, show, print_at, temp_label, hum_label, temp_text,
  rh_text, rh_field, t_disp, snprintf, newer, stored,
}
use cse.Panel.Shown.{Shows}
use cse.Panel.Rounds.{app_main-Shows}

-- Numbers as integers, with division left out: 1000 / 10 is 1000.
abbrev whole : Float
whole = record {
  F = ℤ;
  lit = λ n places. n;
  add = ◌+ℤ◌;
  mul = ◌*ℤ◌;
  div = λ a b. a;
  to_int = λ a. a;
}

abbrev same_text : Text whole
same_text = record {
  roundf = λ x. x;
  lroundf = λ x. x;
  one_decimal = λ x. codes " 21.5";
  integer = λ n. codes " 45";
}

-- A display at 0x3E and an SHTC3 at 0x70, which answers with 0xBEEF twice.
abbrev obey : List Link → Screen → Option (List ℕ) × Screen
obey (stop_bit ∷ []) s = (some [], s)
obey (write_byte control ∷ write_byte byte ∷ stop_bit ∷ []) s =
    (some [], if control == 0 then command byte s else s)
obey (write_byte control ∷ write_bytes bytes ∷ stop_bit ∷ []) s =
    (some [], if control == 0x40 then write_cells bytes s else s)
obey _ s = (none, s)

abbrev answer : ℕ → Option (List ℕ)
answer dev =
    if dev == 0xE0
    then some []
    else if dev == 0xE1
    then some (0xBE ∷ 0xEF ∷ 0x92 ∷ 0xBE ∷ 0xEF ∷ 0x92 ∷ [])
    else none

abbrev addressed : ℕ → List Link → Screen → Option (List ℕ) × Screen
addressed dev links s = if dev == 0x7C then obey links s else (answer dev, s)

abbrev bus : ℕ → List Link → Screen → Option (List ℕ) × Screen
bus ms (start_bit ∷ write_byte dev ∷ links) s = addressed dev links s
bus ms _ s = (none, s)

abbrev bench : Driver
bench = record {
  State = Screen;
  config = λ s. (true, s);
  install = λ s. (true, s);
  queue = λ link s. (true, s);
  run = bus;
  delay = λ ms s. s;
}

addressed_other :
    (dev : ℕ) (links : List Link) (s : Screen) → dev ≢ 0x7C → (addressed dev links s).1 ≡ s
addressed_other dev links s h = elim (Bool-cases (dev == 0x7C)) [
  | inl e ↦ ground (arith, ==→eq dev 0x7C e)
  | inr e ↦ rw e refl
]

bench_display : Display bench
unfolding byte_links data_links probe_links
bench_display = record {
  screen = λ s. s;
  config_taken = λ s. refl;
  install_taken = λ s. refl;
  queue_taken = λ link s. refl;
  queue_kept = λ link s. refl;
  delay_kept = λ ms s. refl;
  probe_taken = λ s. refl;
  probe_kept = λ s. refl;
  command_taken = λ cmd s. refl;
  command_obeyed = λ cmd s. refl;
  data_obeyed = λ bytes s. refl;
  other_kept = λ ms dev links s h. addressed_other dev links s h;
}

abbrev dark : Screen
dark = record {
  cursor = 5;
  cells = λ addr. 0x41;
  shown = false;
  extended = false;
  forward = false;
  in_cells = false;
}

app_main-Shows_example :
    let (latest, s) = app_main whole same_text bench 3 dark in
    Shows whole same_text latest (bench_display.screen s)
app_main-Shows_example =
    app_main-Shows whole same_text bench bench_display 2 dark (λ sensor s reading e. refl)

shtc3_found : (detect_sensor whole bench dark).0 ≡ some (site shtc3_direct addr_shtc3 none)
unfolding detect_sensor detect_from try_direct found or_first i2c_probe i2c_write_bytes
    i2c_read_bytes transact queue_all or_none shtc3_measure then_sleep sht_values checked crc_ok
    crc_byte crc_shifts crc_shift bit_and and_bits bit_xor xor_bits
shtc3_found = refl

detect_sensor-Measured_example :
    Measured whole bench (site shtc3_direct addr_shtc3 none) (detect_sensor whole bench dark).1
detect_sensor-Measured_example =
    detect_sensor-Measured whole bench dark (site shtc3_direct addr_shtc3 none) shtc3_found

-- The display after lab 3.2, and after one round of lab 3.3.
hello_shown :
    let s = (hello bench dark).1 in
    (line 0 s ≡ codes "Hello CSE121!   ") × (line 1 s ≡ codes "Abdelshahid     ")
unfolding hello init init_display commands i2c_write_cmd_byte succeeds transact queue_all or_return
    or_error byte_links data_links probe_links i2c_device_present queue_each probe_rgb first_rgb
    rgb_probed inited set_rgb rgb_ready write_rgb registers set_cursor printstr i2c_write_data
    ddram_address lcd_addr new_lcd command write_cells write_cell line cells_from bit_or or_bits
    bit_and and_bits
hello_shown = (refl, refl)

measured_shown :
    let s = (app_main whole same_text bench 1 dark).1 in
    (line 0 s ≡ codes "Temp:   21.5C   ") × (line 1 s ≡ codes "Hum :   45%     ")
unfolding app_main start round rounds labels show print_at temp_label hum_label temp_text rh_text
    rh_field t_disp snprintf newer stored read_sensor select measure clear clear_or_home
    detect_sensor detect_from try_direct found or_first i2c_probe i2c_write_bytes i2c_read_bytes
    or_none shtc3_measure then_sleep sht_values checked crc_ok crc_byte crc_shifts crc_shift init
    init_display commands i2c_write_cmd_byte succeeds transact queue_all or_return or_error
    byte_links data_links probe_links i2c_device_present queue_each probe_rgb first_rgb rgb_probed
    inited set_cursor printstr i2c_write_data ddram_address lcd_addr new_lcd command write_cells
    write_cell line cells_from bit_or or_bits bit_and and_bits bit_xor xor_bits
measured_shown = (refl, refl)
