-- ===== src/Morse/Slow/Receiver.antt =====
-- lab5_2/main/lab5_2.c. Times are in milliseconds, below 2 ^ 63; a duration is the int that their
-- difference converts to, and idle_time the int64_t difference itself. Log lines are left out.
use cse.Base.{
  ℕ, ◌+◌, ◌-◌, Bool, true, false, not, ◌&&◌, List, [], ◌∷◌, ◌++◌, codes, ltb, ltb_ℤ, leb_ℤ,
  if◌then◌else◌, set, c_string, ℤ, pos, int_diff, ◌-ℤ◌,
}
use cse.Morse.Code.{decode_morse}
use cse.Morse.Pattern.{buffer_size}

-- DASH_MIN_DURATION, DOT_DURATION / 2, LETTER_GAP_MIN, WORD_GAP_MIN, TIMEOUT_MS, LIGHT_THRESHOLD
abbrev pub dash_min_duration : ℕ
dash_min_duration = 250

abbrev pub dot_min_duration : ℕ
dot_min_duration = 50

abbrev pub letter_gap_min : ℕ
letter_gap_min = 250

abbrev pub word_gap_min : ℕ
word_gap_min = 600

abbrev pub timeout_ms : ℕ
timeout_ms = 1000

abbrev pub light_threshold : ℕ
light_threshold = 22

-- The variables of morse_receiver_task, and what it has printed behind the heading.
pub record Receiver : Type 0 where
  pub morse_buffer : List ℕ
  pub morse_idx : ℕ
  pub light_on : Bool
  pub light_start_time : ℕ
  pub gap_start_time : ℕ
  pub last_activity_time : ℕ
  pub printed : List ℕ

-- Terminate the pattern, print its character and the text behind it, and start a new pattern.
unfoldable pub print_letter : List ℕ → Receiver → Receiver
print_letter behind s =
    let terminated = set s.morse_buffer s.morse_idx 0 in
    record s {
      morse_buffer = terminated;
      printed = s.printed ++ (decode_morse (c_string terminated) ∷ behind);
      morse_idx = 0;
    }

unfoldable pub check_timeout : ℕ → Receiver → Receiver
unfolding ◌-ℤ◌
check_timeout current_time s =
    if ltb 0 s.morse_idx && ltb 0 s.last_activity_time
    then (if ltb_ℤ (pos timeout_ms) (pos current_time -ℤ pos s.last_activity_time)
        then record (print_letter (codes "\n") s) { last_activity_time = 0 }
        else s)
    else s

unfoldable pub gap_ends : ℕ → Receiver → Receiver
gap_ends current_time s =
    let gap_duration = int_diff current_time s.gap_start_time in
    if ltb_ℤ (pos word_gap_min) gap_duration && ltb 0 s.morse_idx
    then print_letter (codes " ") s
    else if ltb_ℤ (pos letter_gap_min) gap_duration && ltb 0 s.morse_idx
    then print_letter [] s
    else s

unfoldable pub light_on : ℕ → Receiver → Receiver
light_on current_time s =
    let s' = record s {
      light_on = true;
      light_start_time = current_time;
      last_activity_time = current_time;
    } in
    if ltb 0 s.gap_start_time then gap_ends current_time s' else s'

-- `if (morse_idx < sizeof(morse_buffer) - 1) morse_buffer[morse_idx++] = symbol`
unfoldable pub push : ℕ → Receiver → Receiver
push symbol s =
    if ltb s.morse_idx (buffer_size - 1)
    then record s {
      morse_buffer = set s.morse_buffer s.morse_idx symbol;
      morse_idx = s.morse_idx + 1;
    }
    else s

-- A shorter pulse is dropped.
unfoldable pub pulse_ends : ℤ → Receiver → Receiver
pulse_ends pulse_duration s =
    if leb_ℤ (pos dash_min_duration) pulse_duration
    then push b'-' s
    else if leb_ℤ (pos dot_min_duration) pulse_duration
    then push b'.' s
    else s

unfoldable pub light_off : ℕ → Receiver → Receiver
light_off current_time s = pulse_ends (int_diff current_time s.light_start_time) (record s {
  light_on = false;
  gap_start_time = current_time;
  last_activity_time = current_time;
})

unfoldable pub detect : ℤ → ℕ → Receiver → Receiver
detect adc_value current_time s =
    if ltb_ℤ (pos light_threshold) adc_value && not s.light_on
    then light_on current_time s
    else if leb_ℤ adc_value (pos light_threshold) && s.light_on
    then light_off current_time s
    else s

-- What read_adc and the clock give.
pub record Sample : Type 0 where
  pub adc_value : ℤ
  pub current_time : ℕ

-- One round of the task's loop.
unfoldable pub poll : Receiver → Sample → Receiver
poll s sample = detect sample.adc_value sample.current_time (check_timeout sample.current_time s)

-- The state in which the task starts; the buffer's bytes are not set.
unfoldable pub start : List ℕ → Receiver
start bytes = record {
  morse_buffer = bytes;
  morse_idx = 0;
  light_on = false;
  light_start_time = 0;
  gap_start_time = 0;
  last_activity_time = 0;
  printed = [];
}
