-- ===== src/Panel/Lcd.antt =====
-- components/lcd/DFRobot_lcd.cpp of lab 3.3, the display; lab 3.2 has the same file. An error code is
-- a Bool, true for ESP_OK. Log lines are left out.
use cse.Base.{
  ℕ, zero, suc, ◌+◌, ◌*◌, ◌/◌, ◌%◌, ◌^◌, Bool, true, false, List, [], ◌∷◌, Option, none, some, ◌==◌,
  if◌then◌else◌, bit_and, bit_or,
}
use cse.Panel.I2c.{
  Link, start_bit, write_byte, write_bytes, stop_bit, Driver, Io, or_error, pure, ◌>>=◌, ◌>>◌,
  is_some, delay_ms, transact,
}

-- The fields of DFRobot_LCD that change; the address of the display is an argument.
pub record Lcd : Type 0 where
  pub m_inited : Bool
  pub m_rgb_present : Bool
  pub m_rgb_probed : Bool
  pub m_rgb_addr : ℕ

-- As the constructor leaves it.
unfoldable pub new_lcd : Lcd
new_lcd = record {
  m_inited = false;
  m_rgb_present = false;
  m_rgb_probed = false;
  m_rgb_addr = 0x60;
}

-- m_addr, of the argument of the constructor.
unfoldable pub lcd_addr : ℕ → ℕ
lcd_addr i2c_addr = if i2c_addr == 0 then 0x3E else i2c_addr

-- The items of a byte for a device, after a control byte or the number of a register.
unfoldable pub byte_links : ℕ → ℕ → ℕ → List Link
byte_links dev7 control byte =
    start_bit ∷ write_byte (dev7 * 2 % 256) ∷ write_byte control ∷ write_byte byte ∷ stop_bit ∷ []

unfoldable pub data_links : ℕ → List ℕ → List Link
data_links dev7 bytes =
    start_bit ∷ write_byte (dev7 * 2 % 256) ∷ write_byte 0x40 ∷ write_bytes bytes ∷ stop_bit ∷ []

unfoldable pub probe_links : ℕ → List Link
probe_links addr7 = start_bit ∷ write_byte (addr7 * 2 % 256) ∷ stop_bit ∷ []

-- The address that setCursor sends.
unfoldable pub ddram_address : ℕ → ℕ → ℕ
ddram_address col row = if row == 0 then col % 256 else (0x40 + col) % 256

module _ (d : Driver) where
  unfoldable pub succeeds : ℕ → List Link → Io d.State Bool
  succeeds ms links = do result ← transact d ms links; pure (is_some result)

  unfoldable pub i2c_write_cmd_byte : ℕ → ℕ → Io d.State Bool
  i2c_write_cmd_byte dev7 cmd = succeeds 100 (byte_links dev7 0x00 cmd)

  unfoldable pub i2c_write_data : ℕ → List ℕ → Io d.State Bool
  i2c_write_data dev7 bytes = succeeds 100 (data_links dev7 bytes)

  -- The items that the driver takes, whether or not it took those before; the result of the last
  -- call counts.
  unfoldable pub queue_each : List Link → d.State → List Link × d.State
  queue_each [] s = ([], s)
  queue_each (link ∷ links) s =
      let (ok, s') = d.queue link s in
      let (taken, s'') = queue_each links s' in (if ok then link ∷ taken else taken, s'')

  unfoldable pub i2c_device_present : ℕ → Io d.State Bool
  i2c_device_present addr7 s =
      let (taken, s') = queue_each (probe_links addr7) s in
      let (result, s'') = d.run 50 taken s' in (is_some result, s'')

  -- Commands up to the first that fails.
  unfoldable pub commands : ℕ → List ℕ → Io d.State Bool
  commands dev7 [] = pure true
  commands dev7 (cmd ∷ cmds) = i2c_write_cmd_byte dev7 cmd >>= or_error (commands dev7 cmds)

  unfoldable pub first_rgb : Bool → ℕ → Io d.State (Option ℕ) → Io d.State (Option ℕ)
  first_rgb true a next = pure (some a)
  first_rgb false a next = next

  -- The first of the addresses from a on that answers, where this many are left.
  unfoldable pub probe_rgb : ℕ → ℕ → Io d.State (Option ℕ)
  probe_rgb zero a = pure none
  probe_rgb (suc left) a =
      i2c_device_present a >>= λ answered. first_rgb answered a (probe_rgb left (a + 1))

  -- What a probe for the PCA9633 stores.
  unfoldable pub rgb_probed : Lcd → Option ℕ → Lcd
  rgb_probed lcd none = record {
    m_inited = lcd.m_inited;
    m_rgb_present = false;
    m_rgb_probed = true;
    m_rgb_addr = lcd.m_rgb_addr;
  }
  rgb_probed lcd (some addr) = record {
    m_inited = lcd.m_inited;
    m_rgb_present = true;
    m_rgb_probed = true;
    m_rgb_addr = addr;
  }

  unfoldable pub inited : Lcd → Lcd
  inited lcd = record {
    m_inited = true;
    m_rgb_present = lcd.m_rgb_present;
    m_rgb_probed = lcd.m_rgb_probed;
    m_rgb_addr = lcd.m_rgb_addr;
  }

  -- Returning the error, with the fields as they are, where a call failed.
  unfoldable pub or_return : Lcd → Bool → Io d.State (Bool × Lcd) → Io d.State (Bool × Lcd)
  or_return lcd true m = m
  or_return lcd false m = pure (false, lcd)

  -- init from the test whether the display answers.
  unfoldable pub init_display : ℕ → Lcd → Bool → Io d.State (Bool × Lcd)
  init_display m_addr lcd false = pure (true, inited lcd)
  init_display m_addr lcd true = do
    set_up ← commands m_addr (
        0x38
        ∷ 0x39
        ∷ 0x14
        ∷ bit_or 0x70 (bit_and 0x3F 0x0F)
        ∷ bit_or 0x5F (bit_and (0x3F / 2 ^ 4) 0x03)
        ∷ 0x6C
        ∷ [])
    or_return lcd set_up do
      delay_ms d 250
      cleared ← commands m_addr (0x38 ∷ 0x0C ∷ 0x01 ∷ [])
      or_return lcd cleared do
        delay_ms d 2
        entered ← commands m_addr (0x06 ∷ [])
        or_return lcd entered do rgb ← probe_rgb 8 0x60; pure (true, inited (rgb_probed lcd rgb))

  unfoldable pub init : ℕ → Lcd → Io d.State (Bool × Lcd)
  init m_addr lcd = do
    configured ← d.config
    or_return lcd configured do
      installed ← d.install
      or_return lcd installed
          do delay_ms d 50; present ← i2c_device_present m_addr; init_display m_addr lcd present

  unfoldable pub set_cursor : ℕ → Lcd → ℕ → ℕ → Io d.State Bool
  set_cursor m_addr lcd col row =
      if lcd.m_inited
      then i2c_write_cmd_byte m_addr (bit_or 0x80 (ddram_address col row))
      else pure false

  unfoldable pub printstr : ℕ → Lcd → List ℕ → Io d.State Bool
  printstr m_addr lcd text = if lcd.m_inited then i2c_write_data m_addr text else pure false

  -- clear and home, with their commands.
  unfoldable pub clear_or_home : ℕ → ℕ → Io d.State Bool
  clear_or_home cmd m_addr = do
    sent ← i2c_write_cmd_byte m_addr cmd
    or_error (do delay_ms d 2; pure true) sent

  unfoldable pub clear : ℕ → Io d.State Bool
  clear = clear_or_home 0x01

  unfoldable pub home : ℕ → Io d.State Bool
  home = clear_or_home 0x02

  -- The registers of the PCA9633 up to the first that is not written.
  unfoldable pub registers : ℕ → List (ℕ × ℕ) → Io d.State Bool
  registers dev7 [] = pure true
  registers dev7 ((reg, val) ∷ rest) =
      succeeds 100 (byte_links dev7 reg val) >>= or_error (registers dev7 rest)

  unfoldable pub rgb_ready : Lcd → Io d.State Lcd
  rgb_ready lcd =
      if lcd.m_rgb_probed then pure lcd else (probe_rgb 8 0x60 >>= λ rgb. pure (rgb_probed lcd rgb))

  unfoldable pub write_rgb : Lcd → ℕ → ℕ → ℕ → Io d.State (Bool × Lcd)
  write_rgb lcd r g b = do
    written ←
        registers (lcd.m_rgb_addr)
          ((0x00, 0x00) ∷ (0x01, 0x04) ∷ (0x08, 0xAA) ∷ (0x04, r) ∷ (0x03, g) ∷ (0x02, b) ∷ [])
    pure (written, lcd)

  unfoldable pub set_rgb : Lcd → ℕ → ℕ → ℕ → Io d.State (Bool × Lcd)
  set_rgb lcd r g b =
      if lcd.m_inited
      then (do
        ready ← rgb_ready lcd
        if ready.m_rgb_present then write_rgb ready r g b else pure (true, ready))
      else pure (false, lcd)
