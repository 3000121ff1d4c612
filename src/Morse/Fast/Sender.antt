-- ===== src/Morse/Fast/Sender.antt =====
-- lab5_3/sender/send.c. The timing variables are kept in a record, each int as its 32-bit pattern,
-- so that one from 2 ^ 31 on is negative; a sleep of a negative time, which nanosleep refuses, is
-- left out. A function that writes the LED takes whether `line` is not NULL. Text on stderr and the
-- elapsed time that send_message measures and prints are left out.
use cse.Base.{
  ℕ, zero, suc, ◌+◌, ◌-◌, ◌*◌, ◌/◌, ◌%◌, ◌^◌, Bool, true, false, Option, none, some, List, [], ◌∷◌,
  ◌++◌, codes, ltb, ltb_ℤ, ◌==◌, if◌then◌else◌, str_eq, pos, pos_part,
}
use cse.Morse.Code.{get_morse_code}
use cse.Morse.Host.{
  Action, set_value, nanosleep, print, print_sent, request_output, release_line, close_chip,
  GpioLib, Gpio, Double, atoi,
}

pub record Timing : Type 0 where
  pub dot_duration_us : ℕ
  pub dash_duration_us : ℕ
  pub symbol_gap_us : ℕ
  pub letter_gap_us : ℕ
  pub word_gap_us : ℕ

unfoldable pub timing_of_dot : ℕ → Timing
timing_of_dot dot = record {
  dot_duration_us = dot;
  dash_duration_us = dot * 3 % 2 ^ 32;
  symbol_gap_us = dot;
  letter_gap_us = dot * 3 % 2 ^ 32;
  word_gap_us = dot * 7 % 2 ^ 32;
}

unfoldable pub calculate_timing : (F : Double) → F.Val → Timing
unfolding timing_of_dot
calculate_timing F speed =
    let dot_duration_sec = F.div (F.of_ℕ 1) (F.mul speed (F.of_ℕ 10)) in
    timing_of_dot (F.to_int (F.mul dot_duration_sec (F.of_ℕ 1000000)))

unfoldable pub precise_sleep_us : ℕ → List Action
precise_sleep_us us =
    if ltb us (2 ^ 31) then nanosleep (us / 1000000) (us % 1000000 * 1000) ∷ [] else []

-- The handles, whether the result is 0, and what was done.
unfoldable pub gpio_init : GpioLib → Gpio × Bool × List Action
gpio_init lib =
    if lib.chip_opens
    then (if lib.has_line
        then (if lib.grants_output
            then (record { chip = true; line = true }, true, request_output 0 ∷ [])
            else (record { chip = true; line = true }, false, close_chip ∷ []))
        else (record { chip = true; line = false }, false, close_chip ∷ []))
    else (record { chip = false; line = false }, false, [])

unfoldable pub gpio_write : Bool → ℕ → List Action
gpio_write line value = if line then set_value value ∷ [] else []

unfoldable pub gpio_cleanup : Gpio → Gpio × List Action
gpio_cleanup g = (
  record { chip = false; line = false },
  (if g.line then set_value 0 ∷ release_line ∷ [] else [])
      ++ (if g.chip then close_chip ∷ [] else []),
)

unfoldable pub count_chars : List ℕ → ℕ
count_chars [] = 0
count_chars (c ∷ message) = (if c == b' ' then 0 else 1) + count_chars message

module _ (line : Bool) (t : Timing) where
  unfoldable pub send_dot : List Action
  unfolding gpio_write precise_sleep_us
  send_dot =
      gpio_write line 1
      ++ (precise_sleep_us t.dot_duration_us
          ++ (gpio_write line 0 ++ precise_sleep_us t.symbol_gap_us))

  unfoldable pub send_dash : List Action
  unfolding gpio_write precise_sleep_us
  send_dash =
      gpio_write line 1
      ++ (precise_sleep_us t.dash_duration_us
          ++ (gpio_write line 0 ++ precise_sleep_us t.symbol_gap_us))

  -- One round of the loop over the symbols.
  unfoldable pub send_symbol : ℕ → List Action
  unfolding send_dot send_dash
  send_symbol s = if s == b'.' then send_dot else if s == b'-' then send_dash else []

  unfoldable pub send_symbols : List ℕ → List Action
  unfolding send_symbol
  send_symbols [] = []
  send_symbols (s ∷ morse) = send_symbol s ++ send_symbols morse

  unfoldable pub send_morse_char : List ℕ → List Action
  unfolding send_symbols precise_sleep_us str_eq
  send_morse_char morse =
      if str_eq morse (codes "/")
      then precise_sleep_us ((t.word_gap_us + 2 ^ 32 - t.letter_gap_us) % 2 ^ 32)
      else send_symbols morse
        ++ precise_sleep_us ((t.letter_gap_us + 2 ^ 32 - t.symbol_gap_us) % 2 ^ 32)

  unfoldable pub send_encoded : Option (List ℕ) → List Action
  send_encoded none = []
  send_encoded (some morse) = print (morse ++ codes " ") ∷ send_morse_char morse

  -- The loop of send_message over the characters.
  unfoldable pub send_chars : List ℕ → List Action
  send_chars [] = []
  send_chars (c ∷ message) = send_encoded (get_morse_code c) ++ send_chars message

  unfoldable pub send_message : List ℕ → List Action
  send_message message =
      send_chars message ++ (print (codes "\n") ∷ print_sent (count_chars message) ∷ [])

  -- The loop of main; `left` rounds are to come.
  unfoldable pub repeat : ℕ → List ℕ → List Action
  repeat zero message = []
  repeat (suc left) message =
      send_message message
      ++ ((if ltb 0 left then precise_sleep_us (t.word_gap_us * 2 % 2 ^ 32) else [])
          ++ repeat left message)

-- From gpio_init to the end of main.
unfoldable pub transmit : GpioLib → Timing → ℕ → List ℕ → ℕ × List Action
transmit lib t repetitions message =
    let (g, ready, opened) = gpio_init lib in
    if ready
    then (
      0,
      opened
          ++ (gpio_write g.line 0 ++ (repeat g.line t repetitions message ++ (gpio_cleanup g).1)),
    )
    else (1, opened)

-- The speed argument: its default, or `none` for one that is refused.
unfoldable pub parse_speed : (F : Double) → List (List ℕ) → Option F.Val
parse_speed F [] = some (F.of_ℕ 10)
parse_speed F (arg ∷ args) = if F.is_positive (F.atof arg) then some (F.atof arg) else none

unfoldable pub with_speed : (F : Double) → GpioLib → ℕ → List ℕ → Option F.Val → ℕ × List Action
unfolding transmit calculate_timing
with_speed F lib repetitions message none = (1, [])
with_speed F lib repetitions message (some speed) =
    transmit lib (calculate_timing F speed) repetitions message

-- The arguments after argv[0]; the result is the exit status and what was done.
unfoldable pub main : (F : Double) → GpioLib → List (List ℕ) → ℕ × List Action
unfolding with_speed parse_speed atoi
main F lib (reps ∷ message ∷ args) =
    if ltb_ℤ (pos 0) (atoi reps)
    then with_speed F lib (pos_part (atoi reps)) message (parse_speed F args)
    else (1, [])
main F lib _ = (1, [])
