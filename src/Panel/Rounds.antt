-- ===== src/Panel/Rounds.antt =====
-- The screen after app_main (lab3_3/main/main.cpp) and its rounds.
use cse.Base.{
  ℕ, zero, suc, true, List, Option, none, some, ◌≡◌, refl, sym, ap, ◌∙◌, subst, bit_or, or_bits,
}
use cse.Shtc3.Sensor.{Float}
use cse.Panel.I2c.{Driver, or_none}
use cse.Panel.Detect.{Sensor, no_sensor, read_sensor, detect_sensor, select, measure}
use cse.Panel.Found.{detect_sensor-Measured, Measured}
use cse.Panel.Lcd.{Lcd, new_lcd, lcd_addr, init, clear, ddram_address}
use cse.Panel.App.{
  Text, temp_label, hum_label, stored, temp_text, rh_text, print_at, labels, show, round, newer,
  rounds, start, app_main,
}
use cse.Panel.Screen.{Screen, line, command, at_address, write_cells, cells_from}
use cse.Panel.Display.{Display, Kept, Does}
use cse.Panel.Quiet.Search.{Kept-read_sensor, Kept-detect_sensor}
use cse.Panel.Fields.{put, labelled}
use cse.Panel.Written.{set_cursor_screen, printstr_screen, Does-init, Does-clear, fresh}
use cse.Panel.Shown.{
  Shows, Under, Five, Fits, Shows-Under, Under-labelled, Shows-put, Five-Fits, top_line,
  bottom_line,
}

module _ (float : Float) (text : Text float) (d : Driver) (display : Display d) where
  print_at_screen :
      (lcd : Lcd) (col row addr : ℕ) (content : List ℕ) (s : d.State)
      → lcd.m_inited ≡ true
      → ((x : Screen) → command (bit_or 0x80 (ddram_address col row)) x ≡ at_address addr x)
      → display.screen (print_at float text d lcd col row content s).1
        ≡ put addr content (display.screen s)
  unfolding print_at lcd_addr
  print_at_screen lcd col row addr content s h at =
      printstr_screen d display lcd content _ h
      ∙ ap (write_cells content)
          (set_cursor_screen d display lcd col row s h ∙ at (display.screen s))

  labels_screen :
      (lcd : Lcd) (s : d.State)
      → lcd.m_inited ≡ true
      → display.screen (labels float text d lcd s).1 ≡ labelled (display.screen s)
  unfolding labels command bit_or or_bits ddram_address
  labels_screen lcd s h =
      print_at_screen lcd 0 1 0x40 hum_label _ h (λ x. refl)
      ∙ ap (put 0x40 hum_label) (print_at_screen lcd 0 0 0 temp_label s h (λ x. refl))

  show_screen :
      (lcd : Lcd) (reading : float.F × float.F) (s : d.State)
      → lcd.m_inited ≡ true
      → display.screen (show float text d lcd (some reading) s).1
        ≡ put 0x47
            (rh_text float text reading)
            (put 7 (temp_text float text reading) (display.screen s))
  unfolding show command bit_or or_bits ddram_address
  show_screen lcd reading s h =
      print_at_screen lcd 7 1 0x47 (rh_text float text reading) _ h (λ x. refl)
      ∙ ap (put 0x47 (rh_text float text reading))
          (print_at_screen lcd 7 0 7 (temp_text float text reading) s h (λ x. refl))

  -- That a reading, and the latest one, print with five characters.
  AllFive : Option (float.F × float.F) → Type 0
  AllFive result = (reading : float.F × float.F) → result ≡ some reading → Five float text reading

  show-Shows :
      (lcd : Lcd) (result latest : Option (float.F × float.F)) (s : d.State)
      → lcd.m_inited ≡ true
      → AllFive result
      → Fits float text latest
      → Shows float text latest (display.screen s)
      → Shows float text
          (newer float text d result latest)
          (display.screen (show float text d lcd result s).1)
        × Fits float text (newer float text d result latest)
  unfolding newer AllFive show
  show-Shows lcd none latest s h five fits shows = (shows, fits)
  show-Shows lcd (some reading) latest s h five fits shows = (
    subst (Shows float text (some reading)) (sym (show_screen lcd reading s h))
        (Shows-put float text latest reading _ shows (five reading refl) fits),
    Five-Fits float text reading (five reading refl),
  )

  -- The readings of a sensor, whatever the bus answers.
  abbrev pub AlwaysFive : Sensor → Type 0
  AlwaysFive sensor =
      (s : d.State) (reading : float.F × float.F)
      → (read_sensor float d sensor s).0 ≡ some reading
      → Five float text reading

  round-Shows :
      (lcd : Lcd) (sensor : Sensor) (latest : Option (float.F × float.F)) (s : d.State)
      → lcd.m_inited ≡ true
      → Kept d display (read_sensor float d sensor)
      → AlwaysFive sensor
      → Fits float text latest
      → Under float text latest (display.screen s)
      → let (result, s') = round float text d lcd sensor s in
        Shows float text (newer float text d result latest) (display.screen s')
        × Fits float text (newer float text d result latest)
  unfolding round Kept AllFive
  round-Shows lcd sensor latest s h quiet five fits under =
      let s1 = (labels float text d lcd s).1 in
      let (result, s2) = read_sensor float d sensor s1 in
      let before : Shows float text latest (display.screen s2) =
        subst (Shows float text latest) (sym (quiet s1 ∙ labels_screen lcd s h))
          (Under-labelled float text latest (display.screen s) under) in
      let shown = show-Shows lcd result latest s2 h (five s1) fits before in
      (
        subst (Shows float text (newer float text d result latest))
            (sym (display.delay_kept 1000 (show float text d lcd result s2).1)) shown.0,
        shown.1,
      )

  rounds-Shows :
      (left : ℕ) (lcd : Lcd) (sensor : Sensor) (latest : Option (float.F × float.F)) (s : d.State)
      → lcd.m_inited ≡ true
      → Kept d display (read_sensor float d sensor)
      → AlwaysFive sensor
      → Fits float text latest
      → Under float text latest (display.screen s)
      → let (result, s') = rounds float text d (suc left) lcd sensor latest s in
        Shows float text result (display.screen s')
  unfolding rounds
  rounds-Shows zero lcd sensor latest s h quiet five fits under =
      (round-Shows lcd sensor latest s h quiet five fits under).0
  rounds-Shows (suc left) lcd sensor latest s h quiet five fits under =
      let once = round-Shows lcd sensor latest s h quiet five fits under in
      rounds-Shows left lcd sensor _ _ h quiet five once.1 (Shows-Under float text _ _ once.0)

  Kept-no_sensor : Kept d display (read_sensor float d no_sensor)
  unfolding Kept read_sensor select measure no_sensor or_none
  Kept-no_sensor s = refl

  Under-fresh : Under float text none fresh
  unfolding Under top_line bottom_line line cells_from
  Under-fresh = (refl, refl, refl, refl)

  Kept-stored :
      (s : d.State) (result : Option Sensor)
      → (detect_sensor float d s).0 ≡ result
      → Kept d display (read_sensor float d (stored result))
  unfolding stored Measured
  Kept-stored s none e = Kept-no_sensor
  Kept-stored s (some sensor) e =
      Kept-read_sensor float d display sensor (detect_sensor-Measured float d s sensor e).0

  start_screen :
      (s : d.State)
      → ((start float text d s).0.0.m_inited ≡ true)
        × (display.screen (start float text d s).1 ≡ fresh)
  unfolding start lcd_addr Does Kept command
  start_screen s =
      let begun = Does-init d display new_lcd s in
      let cleared = Does-clear d display (init d 0x3E new_lcd s).1 in
      (begun.0.1, Kept-detect_sensor float d display _ ∙ cleared.1 ∙ ap (command 0x01) begun.1)

  -- Where a display answers at 0x3E and temperatures print with five characters, after any number of
  -- rounds, but one at least, the display is on and its lines are the labels and the latest reading
  -- that succeeded, or blanks before the first, and nothing else.
  pub app_main-Shows :
      (n : ℕ) (s : d.State)
      → ((sensor : Sensor) → AlwaysFive sensor)
      → let (latest, s') = app_main float text d (suc n) s in
        Shows float text latest (display.screen s')
  unfolding app_main start
  app_main-Shows n s five =
      let started = start_screen s in
      let before = (clear d (lcd_addr 0x3E) (init d (lcd_addr 0x3E) new_lcd s).1).1 in
      rounds-Shows n _ _ none _ started.0 (Kept-stored before _ refl) (five _) refl
        (subst (Under float text none) (sym started.1) Under-fresh)
