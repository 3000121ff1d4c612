-- ===== src/Shtc3/Tests.antt =====
-- The thermometer at concrete inputs.
use cse.Base.{
  false, ◌≡◌, refl, true, none, some, arith, [], ◌∷◌, bit_and, and_bits, bit_xor, xor_bits,
}
use cse.Shtc3.App.{
  app_main, rounds, read_actions, new_master_bus, bus_add_device, transmit, delay, print,
}
use cse.Shtc3.Sensor.{
  Float, tx16, round, report, Frame, read_once, checked, crc_ok, crc_byte, crc_shifts, crc_shift,
  raw,
}
use cse.Shtc3.Refusal.{in_t_low, corrupt, read_once-corrupt}

-- The word 0xBEEF with the CRC 0x92, twice.
abbrev beef : Frame
beef = record {
  t_high = 0xBE;
  t_low = 0xEF;
  t_crc = 0x92;
  h_high = 0xBE;
  h_low = 0xEF;
  h_crc = 0x92;
}

beef_read :
    read_once (record { transmit = λ bytes. true; receive = some beef }) ≡ some (0xBEEF, 0xBEEF)
unfolding read_once checked crc_ok crc_byte crc_shifts crc_shift bit_xor xor_bits bit_and and_bits
    raw
beef_read = refl

read_once-corrupt_example :
    read_once (record { transmit = λ bytes. true; receive = some (corrupt (in_t_low 0xEE) beef) })
    ≡ none
read_once-corrupt_example =
    read_once-corrupt (λ bytes. true) beef (in_t_low 0xEE) (0xBEEF, 0xBEEF)
      (record {
        t_high_lem = omega arith;
        t_low_lem = omega arith;
        h_high_lem = omega arith;
        h_low_lem = omega arith;
      })
      (omega arith, λ e. omega arith) beef_read

-- A bus that takes no command: the wake-up, and a round that prints that the read failed.
dead_bus :
    (float : Float)
    → app_main float true true (record { transmit = λ bytes. false; receive = none } ∷ [])
      ≡ new_master_bus
        ∷ bus_add_device
        ∷ transmit (0x35 ∷ 0x17 ∷ [])
        ∷ delay 2
        ∷ transmit (0x78 ∷ 0x66 ∷ [])
        ∷ print none
        ∷ delay 2000
        ∷ []
unfolding app_main rounds read_actions tx16 round report read_once checked
dead_bus float = refl
