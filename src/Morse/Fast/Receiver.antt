-- ===== src/Morse/Fast/Receiver.antt =====
-- lab5_3/receiver/main/lab5_3.c. Timestamps are numbers below 2 ^ 63, and a duration is the int
-- that their difference converts to; the counters are not wrapped. Log lines are left out.
use cse.Base.{
  ℕ, ◌+◌, ◌-◌, ◌*◌, ◌&&◌, List, [], ◌∷◌, ◌++◌, codes, ltb, ltb_ℤ, leb_ℤ, ◌==◌, if◌then◌else◌, set,
  c_string, length, ℤ, int_diff, signed32, ◌%◌, ◌^◌,
}
use cse.Morse.Code.{decode_morse}
use cse.Morse.Pattern.{buffer_size}
use cse.Morse.Host.{Double}

pub record Config : Type 0 where
  pub dot_min_us : ℤ
  pub dot_max_us : ℤ
  pub dash_min_us : ℤ
  pub dash_max_us : ℤ
  pub letter_gap_min_us : ℤ
  pub word_gap_min_us : ℤ

-- The thresholds for a dot's duration and the tolerance in microseconds, both below 2 ^ 31; sums and
-- products are those of int, and wrap around.
unfoldable pub config_of : ℕ → ℕ → Config
config_of dot_duration_us tol_us =
    let dash_duration_us = dot_duration_us * 3 % 2 ^ 32 in
    record {
      dot_min_us = signed32 ((dot_duration_us + 2 ^ 32 - tol_us) % 2 ^ 32);
      dot_max_us = signed32 ((dot_duration_us + tol_us) % 2 ^ 32);
      dash_min_us = signed32 ((dash_duration_us + 2 ^ 32 - tol_us) % 2 ^ 32);
      dash_max_us = signed32 ((dash_duration_us + tol_us) % 2 ^ 32);
      letter_gap_min_us = signed32 (dot_duration_us * 2 % 2 ^ 32);
      word_gap_min_us = signed32 (dot_duration_us * 6 % 2 ^ 32);
    }

unfoldable pub configure_timing : (F : Double) → ℕ → F.Val → Config
unfolding config_of
configure_timing F dot_duration_us tolerance =
    config_of dot_duration_us (F.to_int (F.mul (F.of_ℕ dot_duration_us) tolerance))

pub record EdgeEvent : Type 0 where
  pub timestamp_us : ℕ
  pub level : ℕ

-- The variables of morse_decoder_task, and what it has printed.
pub record Decoder : Type 0 where
  pub morse_buffer : List ℕ
  pub morse_idx : ℕ
  pub last_rising_edge : ℕ
  pub last_falling_edge : ℕ
  pub total_chars : ℕ
  pub first_char_time : ℕ
  pub correct_chars : ℕ
  pub error_chars : ℕ
  pub printed : List ℕ

-- `morse_buffer[morse_idx] = '\0'`
unfoldable pub terminate : Decoder → Decoder
terminate s = record s { morse_buffer = set s.morse_buffer s.morse_idx 0 }

-- What both boundaries do with the decoded character, and the text behind it.
unfoldable pub emit : Decoder → ℕ → List ℕ → Decoder
emit s decoded behind = record s {
  printed = s.printed ++ (decoded ∷ behind);
  correct_chars = (if decoded == b'?' then s.correct_chars else s.correct_chars + 1);
  error_chars = (if decoded == b'?' then s.error_chars + 1 else s.error_chars);
  total_chars = s.total_chars + 1;
  morse_idx = 0;
}

unfoldable pub word_boundary : Decoder → Decoder
unfolding terminate emit
word_boundary s =
    let s' = terminate s in emit s' (decode_morse (c_string s'.morse_buffer)) (codes " ")

unfoldable pub letter_boundary : ℕ → Decoder → Decoder
unfolding terminate emit
letter_boundary timestamp_us s =
    let s' = terminate s in
    let decoded = decode_morse (c_string s'.morse_buffer) in
    emit
      (record s' {
        first_char_time = (if s.first_char_time == 0 then timestamp_us else s.first_char_time);
      })
      decoded []

module _ (cfg : Config) where
  -- The check of the gap before a pulse.
  unfoldable pub gap_ends : ℕ → Decoder → Decoder
  unfolding int_diff word_boundary letter_boundary
  gap_ends timestamp_us s =
      let gap_us = int_diff timestamp_us s.last_falling_edge in
      if ltb_ℤ cfg.word_gap_min_us gap_us && ltb 0 s.morse_idx
      then word_boundary s
      else if ltb_ℤ cfg.letter_gap_min_us gap_us && ltb 0 s.morse_idx
      then letter_boundary timestamp_us s
      else s

  unfoldable pub rising : ℕ → Decoder → Decoder
  unfolding gap_ends
  rising timestamp_us s =
      let s' = record s { last_rising_edge = timestamp_us } in
      if ltb 0 s.last_falling_edge then gap_ends timestamp_us s' else s'

-- `if (morse_idx < sizeof(morse_buffer) - 1) morse_buffer[morse_idx++] = symbol`
unfoldable pub push : ℕ → Decoder → Decoder
push symbol s =
    if ltb s.morse_idx (buffer_size - 1)
    then record s {
      morse_buffer = set s.morse_buffer s.morse_idx symbol;
      morse_idx = s.morse_idx + 1;
    }
    else s

module _ (cfg : Config) where
  -- A pulse in neither range is only logged.
  unfoldable pub pulse_ends : ℤ → Decoder → Decoder
  unfolding push
  pulse_ends pulse_us s =
      if leb_ℤ cfg.dash_min_us pulse_us && leb_ℤ pulse_us cfg.dash_max_us
      then push b'-' s
      else if leb_ℤ cfg.dot_min_us pulse_us && leb_ℤ pulse_us cfg.dot_max_us
      then push b'.' s
      else s

  unfoldable pub falling : ℕ → Decoder → Decoder
  unfolding pulse_ends int_diff
  falling timestamp_us s =
      let s' = record s { last_falling_edge = timestamp_us } in
      if ltb 0 s.last_rising_edge
      then pulse_ends (int_diff timestamp_us s.last_rising_edge) s'
      else s'

  -- One round of the task's loop, for the event that it has received.
  unfoldable pub decode_edge : Decoder → EdgeEvent → Decoder
  unfolding rising falling
  decode_edge s event =
      if event.level == 1 then rising cfg event.timestamp_us s else falling event.timestamp_us s

-- The state in which the task starts; the buffer's bytes are not set.
unfoldable pub start : List ℕ → Decoder
start bytes = record {
  morse_buffer = bytes;
  morse_idx = 0;
  last_rising_edge = 0;
  last_falling_edge = 0;
  total_chars = 0;
  first_char_time = 0;
  correct_chars = 0;
  error_chars = 0;
  printed = [];
}

-- gpio_isr_handler: xQueueSendFromISR drops the event if the queue is full.
abbrev pub queue_size : ℕ
queue_size = 100

unfoldable pub gpio_isr_handler : ℕ → ℕ → List EdgeEvent → List EdgeEvent
gpio_isr_handler now level queue =
    if ltb (length queue) queue_size
    then queue ++ (record { timestamp_us = now; level = level } ∷ [])
    else queue
