-- ===== src/Shtc3/Sensor.antt =====
-- lab2_2/main/main.c as it is built, with KEEP_SENSOR_AWAKE set. Bytes are below 256. The I2C
-- driver's answers and C's float are parameters; log lines and delays are left out.
use cse.Base.{
  ℕ, zero, suc, ◌+◌, ◌*◌, ◌/◌, ◌%◌, ◌^◌, Bool, not, ◌||◌, List, [], ◌∷◌, ◌==◌, if◌then◌else◌,
  Option, none, some, ℤ, pos, negsuc, bit_and, bit_xor,
}

-- One round of the inner loop of crc_ok.
unfoldable pub crc_shift : ℕ → ℕ
crc_shift c = if bit_and c 0x80 == 0 then c * 2 % 256 else bit_xor (c * 2 % 256) 0x31

unfoldable pub crc_shifts : ℕ → ℕ → ℕ
crc_shifts zero c = c
crc_shifts (suc left) c = crc_shifts left (crc_shift c)

-- One round of the outer loop.
unfoldable pub crc_byte : ℕ → ℕ → ℕ
crc_byte c d = crc_shifts 8 (bit_xor c d)

unfoldable pub crc_ok : ℕ → ℕ → ℕ → Bool
crc_ok d0 d1 crc8 = crc_byte (crc_byte 0xFF d0) d1 == crc8

-- CMD_WAKE, CMD_MEAS_T
abbrev pub cmd_wake : ℕ
cmd_wake = 0x3517

abbrev pub cmd_meas_t : ℕ
cmd_meas_t = 0x7866

-- The two bytes that tx16 transmits.
unfoldable pub tx16 : ℕ → List ℕ
tx16 cmd = cmd / 2 ^ 8 % 256 ∷ cmd % 256 ∷ []

-- The six bytes of an answer: the temperature, its CRC, the humidity, and its CRC.
pub record Frame : Type 0 where
  pub t_high : ℕ
  pub t_low : ℕ
  pub t_crc : ℕ
  pub h_high : ℕ
  pub h_low : ℕ
  pub h_crc : ℕ

-- The driver at one reading: whether it takes the command for the bytes, and what it receives.
pub record Bus : Type 0 where
  pub transmit : List ℕ → Bool
  pub receive : Option Frame

-- float; `lit n k` is n / 10 ^ k, and `to_int` the conversion to int.
pub record Float : Type 1 where
  pub F : Type 0
  pub lit : ℤ → ℕ → F
  pub add : F → F → F
  pub mul : F → F → F
  pub div : F → F → F
  pub to_int : F → ℤ

unfoldable pub raw : ℕ → ℕ → ℕ
raw high low = high * 2 ^ 8 + low

-- The raw values of a frame whose checks hold.
unfoldable pub checked : Option Frame → Option (ℕ × ℕ)
checked none = none
checked (some rx) =
    if not (crc_ok rx.t_high rx.t_low rx.t_crc) || not (crc_ok rx.h_high rx.h_low rx.h_crc)
    then none
    else some (raw rx.t_high rx.t_low, raw rx.h_high rx.h_low)

-- The result where read_once returns true, before it is converted.
unfoldable pub read_once : Bus → Option (ℕ × ℕ)
read_once bus = if bus.transmit (tx16 cmd_meas_t) then checked bus.receive else none

module _ (float : Float) where
  -- tC, tF and RH of raw values.
  unfoldable pub celsius : ℕ → float.F
  celsius r_t = float.add (float.lit (negsuc 44) 0) (
      float.mul (float.lit (pos 175) 0)
        (float.div (float.lit (pos r_t) 0) (float.lit (pos 65535) 0)))

  unfoldable pub fahrenheit : ℕ → float.F
  fahrenheit r_t = float.add (float.mul (celsius r_t) (float.lit (pos 18) 1)) (float.lit (pos 32) 0)

  unfoldable pub humidity : ℕ → float.F
  humidity r_h =
      float.mul (float.lit (pos 100) 0)
        (float.div (float.lit (pos r_h) 0) (float.lit (pos 65535) 0))

  unfoldable pub rounded : float.F → ℤ
  rounded x = float.to_int (float.add x (float.lit (pos 5) 1))

  -- What a round of app_main prints: the three numbers of its line, or that the read failed.
  unfoldable pub report : Option (ℕ × ℕ) → Option (ℤ × ℤ × ℤ)
  report none = none
  report (some (r_t, r_h)) =
      some (rounded (celsius r_t), rounded (fahrenheit r_t), rounded (humidity r_h))

  unfoldable pub round : Bus → Option (ℤ × ℤ × ℤ)
  round bus = report (read_once bus)
