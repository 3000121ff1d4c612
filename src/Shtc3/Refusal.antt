-- ===== src/Shtc3/Refusal.antt =====
-- Corrupted answers of the sensor of lab2_2/main/main.c.
use cse.Base.{
  ℕ, ◌<◌, ◌≡◌, ◌≢◌, refl, Bool, true, false, Bool-cases, inl, inr, List, none, some, arith,
}
use cse.Shtc3.Sensor.{Frame, crc_ok, checked, read_once, tx16, cmd_meas_t}
use cse.Shtc3.Crc.{high_corrupted, low_corrupted, crc_corrupted}

-- One byte of an answer, and what it is changed to.
pub data Corruption : Type 0 where
  in_t_high : ℕ → Corruption
  in_t_low : ℕ → Corruption
  in_t_crc : ℕ → Corruption
  in_h_high : ℕ → Corruption
  in_h_low : ℕ → Corruption
  in_h_crc : ℕ → Corruption

unfoldable pub corrupt : Corruption → Frame → Frame
corrupt (in_t_high b) rx = record rx { t_high = b }
corrupt (in_t_low b) rx = record rx { t_low = b }
corrupt (in_t_crc b) rx = record rx { t_crc = b }
corrupt (in_h_high b) rx = record rx { h_high = b }
corrupt (in_h_low b) rx = record rx { h_low = b }
corrupt (in_h_crc b) rx = record rx { h_crc = b }

-- The byte changes, to a byte.
abbrev pub Changes : Corruption → Frame → Type 0
Changes (in_t_high b) rx = (b < 256) × (b ≢ rx.t_high)
Changes (in_t_low b) rx = (b < 256) × (b ≢ rx.t_low)
Changes (in_t_crc b) rx = (b < 256) × (b ≢ rx.t_crc)
Changes (in_h_high b) rx = (b < 256) × (b ≢ rx.h_high)
Changes (in_h_low b) rx = (b < 256) × (b ≢ rx.h_low)
Changes (in_h_crc b) rx = (b < 256) × (b ≢ rx.h_crc)

pub record AreBytes (rx : Frame) : Type 0 where
  pub t_high_lem : rx.t_high < 256
  pub t_low_lem : rx.t_low < 256
  pub h_high_lem : rx.h_high < 256
  pub h_low_lem : rx.h_low < 256

-- The checks of an answer that is taken.
record Passes (rx : Frame) : Type 0 where
  pub t : crc_ok rx.t_high rx.t_low rx.t_crc ≡ true
  pub h : crc_ok rx.h_high rx.h_low rx.h_crc ≡ true

checked-Passes : (rx : Frame) (r : ℕ × ℕ) → checked (some rx) ≡ some r → Passes rx
unfolding checked
checked-Passes rx r e = record { t = ground (arith, e); h = ground (arith, e) }

refused_t : (rx : Frame) → crc_ok rx.t_high rx.t_low rx.t_crc ≡ false → checked (some rx) ≡ none
unfolding checked
refused_t rx e = ground (arith, e)

refused_h : (rx : Frame) → crc_ok rx.h_high rx.h_low rx.h_crc ≡ false → checked (some rx) ≡ none
unfolding checked
refused_h rx e = ground (arith, e)

corrupt-checked :
    (c : Corruption) (rx : Frame)
    → AreBytes rx
    → Changes c rx
    → Passes rx
    → checked (some (corrupt c rx)) ≡ none
unfolding corrupt
corrupt-checked (in_t_high b) rx s (below, apart) p =
    refused_t _
      (high_corrupted rx.t_high rx.t_low rx.t_crc s.t_high_lem s.t_low_lem p.t b below apart)
corrupt-checked (in_t_low b) rx s (below, apart) p =
    refused_t _
      (low_corrupted rx.t_high rx.t_low rx.t_crc s.t_high_lem s.t_low_lem p.t b below apart)
corrupt-checked (in_t_crc b) rx s (below, apart) p =
    refused_t _ (crc_corrupted rx.t_high rx.t_low rx.t_crc s.t_high_lem s.t_low_lem p.t b apart)
corrupt-checked (in_h_high b) rx s (below, apart) p =
    refused_h _
      (high_corrupted rx.h_high rx.h_low rx.h_crc s.h_high_lem s.h_low_lem p.h b below apart)
corrupt-checked (in_h_low b) rx s (below, apart) p =
    refused_h _
      (low_corrupted rx.h_high rx.h_low rx.h_crc s.h_high_lem s.h_low_lem p.h b below apart)
corrupt-checked (in_h_crc b) rx s (below, apart) p =
    refused_h _ (crc_corrupted rx.h_high rx.h_low rx.h_crc s.h_high_lem s.h_low_lem p.h b apart)

-- Where read_once takes an answer of the sensor, it refuses the same answer with any one of its six
-- bytes changed to another.
pub read_once-corrupt :
    (transmit : List ℕ → Bool) (rx : Frame) (c : Corruption) (r : ℕ × ℕ)
    → AreBytes rx
    → Changes c rx
    → read_once (record { transmit = transmit; receive = some rx }) ≡ some r
    → read_once (record { transmit = transmit; receive = some (corrupt c rx) }) ≡ none
unfolding read_once
read_once-corrupt transmit rx c r s changes e = elim (Bool-cases (transmit (tx16 cmd_meas_t))) [
  | inl sent ↦
      rw sent (corrupt-checked c rx s changes (checked-Passes rx r (ground (arith, e, sent))))
  | inr lost ↦ rw lost refl
]
