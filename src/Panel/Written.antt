-- ===== src/Panel/Written.antt =====
-- What the functions of DFRobot_lcd.cpp (lab 3.3) do to the screen.
use cse.Base.{
  ℕ, zero, suc, ◌+◌, ◌*◌, ◌%◌, ◌≤◌, Bool, true, false, List, [], ◌∷◌, Option, none, some, foldl,
  ◌≡◌, ◌≢◌, refl, ◌∙◌, arith, bit_or, or_bits, bit_and, and_bits,
}
use cse.Panel.I2c.{Driver, Io, or_error, stop_bit, pure, ◌>>=◌, is_some, delay_ms, transact}
use cse.Panel.Lcd.{
  Lcd, byte_links, data_links, probe_links, succeeds, i2c_write_cmd_byte, i2c_write_data,
  i2c_device_present, commands, first_rgb, probe_rgb, rgb_probed, inited, or_return, init_display,
  init, set_cursor, printstr, clear, clear_or_home, ddram_address,
}
use cse.Panel.Screen.{Screen, blank, command, write_cells}
use cse.Panel.Display.{
  Display, Does, Does-bind, Does-transact, Yes, Kept, Kept-bind, Kept-pure, Kept-delay,
  queue_each-taken,
}

abbrev obeyed : List ℕ → Screen → Screen
obeyed cmds screen = foldl (λ before cmd. command cmd before) screen cmds

-- The screen that init leaves: blank and on, with the cursor at its first cell.
abbrev pub fresh : Screen
fresh = record {
  cursor = 0;
  cells = λ addr. blank;
  shown = true;
  extended = false;
  forward = true;
  in_cells = true;
}

abbrev Usable : Bool × Lcd → Type 0
Usable (ok, lcd) = (ok ≡ true) × (lcd.m_inited ≡ true)

module _ (d : Driver) (display : Display d) where
  Does-pure : {A : Type 0} (Q : A → Type 0) (a : A) → Q a → Does d display Q (λ x. x) (pure a)
  unfolding Does
  Does-pure Q a q s = (q, refl)

  Does-Kept :
      {A : Type 0} (m : Io d.State A) → Kept d display m → Does d display (λ a. Unit {0}) (λ x. x) m
  unfolding Does Kept
  Does-Kept m h s = (tt, h s)

  Does-command : (cmd : ℕ) → Does d display Yes (command cmd) (i2c_write_cmd_byte d 0x3E cmd)
  unfolding i2c_write_cmd_byte succeeds Does
  Does-command cmd =
      Does-bind d display (λ r. is_some r ≡ true) Yes (command cmd) (λ x. x)
        (transact d 100 (byte_links 0x3E 0x00 cmd)) (λ r. pure (is_some r))
        (Does-transact d display (λ r. is_some r ≡ true) (command cmd) 100
          (byte_links 0x3E 0x00 cmd)
          (λ s. (display.command_taken cmd s, display.command_obeyed cmd s)))
        λ r q. Does-pure Yes (is_some r) q

  Does-or_error :
      (f : Screen → Screen) (m : Io d.State Bool) (ok : Bool)
      → ok ≡ true
      → Does d display Yes f m
      → Does d display Yes f (or_error m ok)
  unfolding or_error
  Does-or_error f m true q h = h
  Does-or_error f m false q h = ground arith

  Does-commands : (cmds : List ℕ) → Does d display Yes (obeyed cmds) (commands d 0x3E cmds)
  unfolding commands
  Does-commands [] = Does-pure Yes true refl
  Does-commands (cmd ∷ cmds) =
      Does-bind d display Yes Yes (command cmd) (obeyed cmds) (i2c_write_cmd_byte d 0x3E cmd)
        (or_error (commands d 0x3E cmds)) (Does-command cmd)
        λ ok q. Does-or_error (obeyed cmds) (commands d 0x3E cmds) ok q (Does-commands cmds)

  Does-present : Does d display Yes (λ x. x) (i2c_device_present d 0x3E)
  unfolding Does i2c_device_present
  Does-present s =
      let queued = queue_each-taken d display (probe_links 0x3E) s in
      rw (queued.0) (display.probe_taken _, display.probe_kept _ ∙ queued.1)

  Kept-present : (a : ℕ) → a * 2 % 256 ≢ 0x7C → Kept d display (i2c_device_present d a)
  unfolding Kept i2c_device_present probe_links
  Kept-present a h s =
      let queued = queue_each-taken d display (probe_links a) s in
      rw (queued.0) (display.other_kept 50 (a * 2 % 256) (stop_bit ∷ []) _ h ∙ queued.1)

  Kept-first_rgb :
      (answered : Bool) (a : ℕ) (next : Io d.State (Option ℕ))
      → Kept d display next
      → Kept d display (first_rgb d answered a next)
  unfolding first_rgb
  Kept-first_rgb true a next h = Kept-pure d display (some a)
  Kept-first_rgb false a next h = h

  Kept-probe_rgb : (left a : ℕ) → left + a ≤ 0x68 → 0x60 ≤ a → Kept d display (probe_rgb d left a)
  unfolding probe_rgb
  Kept-probe_rgb zero a h j = Kept-pure d display none
  Kept-probe_rgb (suc left) a h j =
      Kept-bind d display (i2c_device_present d a) _ (Kept-present a (ground arith)) λ answered.
        Kept-first_rgb answered a _ (Kept-probe_rgb left (a + 1) (ground arith) (ground arith))

  Does-probe_rgb : Does d display (λ rgb. Unit {0}) (λ x. x) (probe_rgb d 8 0x60)
  Does-probe_rgb =
      Does-Kept (probe_rgb d 8 0x60) (Kept-probe_rgb 8 0x60 (omega arith) (omega arith))

  Does-delay : (ms : ℕ) → Does d display (λ late. Unit {0}) (λ x. x) (delay_ms d ms)
  Does-delay ms = Does-Kept (delay_ms d ms) (Kept-delay d display ms)

  Does-or_return :
      (f : Screen → Screen) (lcd : Lcd) (m : Io d.State (Bool × Lcd)) (ok : Bool)
      → ok ≡ true
      → Does d display Usable f m
      → Does d display Usable f (or_return d lcd ok m)
  unfolding or_return
  Does-or_return f lcd m true q h = h
  Does-or_return f lcd m false q h = ground arith

  Does-probed :
      (lcd : Lcd)
      → Does d display Usable
          (λ x. x)
          (probe_rgb d 8 0x60 >>= λ rgb. pure (true, inited d (rgb_probed d lcd rgb)))
  unfolding inited
  Does-probed lcd =
      Does-bind d display _ Usable _ (λ x. x) (probe_rgb d 8 0x60) _ Does-probe_rgb
        λ rgb q. Does-pure Usable (true, inited d (rgb_probed d lcd rgb)) (refl, refl)

  -- Commands, a wait of some milliseconds, and what follows.
  Does-then :
      (f : Screen → Screen) (lcd : Lcd) (cmds : List ℕ) (ms : ℕ) (m : Io d.State (Bool × Lcd))
      → Does d display Usable f m
      → Does d display Usable
          (λ x. f (obeyed cmds x))
          (commands d 0x3E cmds >>= λ ok. or_return d lcd ok (delay_ms d ms >>= λ late. m))
  Does-then f lcd cmds ms m h =
      Does-bind d display Yes Usable (obeyed cmds) f (commands d 0x3E cmds) _ (Does-commands cmds)
        λ ok q. Does-or_return f lcd _ ok q (
          Does-bind d display _ Usable (λ x. x) f (delay_ms d ms) (λ late. m) (Does-delay ms)
            λ late r. h)

  -- The screen after init, whatever it was.
  Does-init_display :
      (lcd : Lcd) → Does d display Usable (λ x. fresh) (init_display d 0x3E lcd true)
  unfolding init_display command bit_or or_bits bit_and and_bits
  Does-init_display lcd =
      Does-then (λ x. fresh) lcd _ 250 _
        (Does-then (obeyed (0x06 ∷ [])) lcd _ 2 _ (
          Does-bind d display Yes Usable (obeyed (0x06 ∷ [])) (λ x. x) (commands d 0x3E (0x06 ∷ []))
            _ (Does-commands (0x06 ∷ []))
            λ ok q. Does-or_return (λ x. x) lcd _ ok q (Does-probed lcd)))

  -- A call that succeeds before what leaves a screen of its own.
  after_success :
      (c : Screen) (lcd : Lcd) (call : Io d.State Bool) (m : Io d.State (Bool × Lcd))
      → ((s : d.State) → (call s).0 ≡ true)
      → Does d display Usable (λ x. c) m
      → Does d display Usable (λ x. c) (call >>= λ ok. or_return d lcd ok m)
  unfolding Does or_return
  after_success c lcd call m h j s = rw (h s) (j (call s).1)

  init_present :
      (lcd : Lcd) (present : Bool)
      → present ≡ true
      → Does d display Usable (λ x. fresh) (init_display d 0x3E lcd present)
  init_present lcd true q = Does-init_display lcd
  init_present lcd false q = ground arith

  pub Does-init : (lcd : Lcd) → Does d display Usable (λ x. fresh) (init d 0x3E lcd)
  unfolding init
  Does-init lcd = after_success fresh lcd d.config _ display.config_taken (
      after_success fresh lcd d.install _ display.install_taken (
        Does-bind d display _ Usable (λ x. x) (λ x. fresh) (delay_ms d 50) _ (Does-delay 50)
          λ late r.
            Does-bind d display Yes Usable (λ x. x) (λ x. fresh) (i2c_device_present d 0x3E) _
              Does-present (init_present lcd)))

  pub Does-clear : Does d display Yes (command 0x01) (clear d 0x3E)
  unfolding clear clear_or_home
  Does-clear =
      Does-bind d display Yes Yes (command 0x01) (λ x. x) (i2c_write_cmd_byte d 0x3E 0x01) _
        (Does-command 0x01)
        λ ok q.
          Does-or_error (λ x. x) _ ok q
            (Does-bind d display _ Yes (λ x. x) (λ x. x) (delay_ms d 2) _ (Does-delay 2)
              λ late r. Does-pure Yes true refl)

  pub set_cursor_screen :
      (lcd : Lcd) (col row : ℕ) (s : d.State)
      → lcd.m_inited ≡ true
      → display.screen (set_cursor d 0x3E lcd col row s).1
        ≡ command (bit_or 0x80 (ddram_address col row)) (display.screen s)
  unfolding set_cursor Does
  set_cursor_screen lcd col row s h = rw h ((Does-command _ s).1)

  pub printstr_screen :
      (lcd : Lcd) (text : List ℕ) (s : d.State)
      → lcd.m_inited ≡ true
      → display.screen (printstr d 0x3E lcd text s).1 ≡ write_cells text (display.screen s)
  unfolding printstr i2c_write_data succeeds Does
  printstr_screen lcd text s h = rw h (
      (Does-transact d display (λ r. Unit {0}) (write_cells text) 100 (data_links 0x3E text)
        (λ s'. (tt, display.data_obeyed text s')) s).1)
