-- ===== src/Morse/Slow/Sender.antt =====
-- lab5_1/send.c. The LED is on while the line's value is 0. A function that writes the LED takes
-- whether `line` is not NULL; text on stderr and the progress lines of main are left out.
use cse.Base.{
  ℕ, zero, suc, ◌*◌, Bool, true, false, Option, none, some, List, [], ◌∷◌, ◌++◌, codes, ltb, ltb_ℤ,
  ◌==◌, if◌then◌else◌, str_eq, pos, pos_part,
}
use cse.Morse.Code.{get_morse_code}
use cse.Morse.Host.{
  Action, set_value, usleep, print, request_output, release_line, close_chip, GpioLib, Gpio, atoi,
}

-- DOT_DURATION
abbrev pub dot_duration : ℕ
dot_duration = 100000

-- The handles, whether the result is 0, and what was done.
unfoldable pub gpio_init : GpioLib → Gpio × Bool × List Action
gpio_init lib =
    if lib.chip_opens
    then (if lib.has_line
        then (if lib.grants_output
            then (record { chip = true; line = true }, true, request_output 1 ∷ [])
            else (record { chip = true; line = true }, false, close_chip ∷ []))
        else (record { chip = true; line = false }, false, close_chip ∷ []))
    else (record { chip = false; line = false }, false, [])

unfoldable pub gpio_write : Bool → ℕ → List Action
gpio_write line value = if line then set_value value ∷ [] else []

unfoldable pub gpio_cleanup : Gpio → Gpio × List Action
gpio_cleanup g = (
  record { chip = false; line = false },
  (if g.line then set_value 1 ∷ release_line ∷ [] else [])
      ++ (if g.chip then close_chip ∷ [] else []),
)

module _ (line : Bool) where
  unfoldable pub send_dot : List Action
  send_dot =
      gpio_write line 0 ++ (usleep dot_duration ∷ (gpio_write line 1 ++ (usleep dot_duration ∷ [])))

  unfoldable pub send_dash : List Action
  send_dash =
      gpio_write line 0
      ++ (usleep (dot_duration * 3) ∷ (gpio_write line 1 ++ (usleep dot_duration ∷ [])))

  unfoldable pub send_symbol : ℕ → List Action
  send_symbol s = if s == b'.' then send_dot else if s == b'-' then send_dash else []

  unfoldable pub send_symbols : List ℕ → List Action
  send_symbols [] = []
  send_symbols (s ∷ morse) = send_symbol s ++ send_symbols morse

  unfoldable pub send_morse_char : List ℕ → List Action
  send_morse_char morse =
      if str_eq morse (codes "/")
      then usleep (dot_duration * 4) ∷ []
      else send_symbols morse ++ (usleep (dot_duration * 2) ∷ [])

  unfoldable pub send_encoded : Option (List ℕ) → List Action
  send_encoded none = []
  send_encoded (some morse) = print (morse ++ codes " ") ∷ send_morse_char morse

  unfoldable pub send_chars : List ℕ → List Action
  send_chars [] = []
  send_chars (c ∷ message) = send_encoded (get_morse_code c) ++ send_chars message

  unfoldable pub send_message : List ℕ → List Action
  send_message message =
      print (message ++ codes "\n") ∷ (send_chars message ++ (print (codes "\n") ∷ []))

  -- The loop of main; `left` rounds are to come.
  unfoldable pub repeat : ℕ → List ℕ → List Action
  repeat zero message = []
  repeat (suc left) message =
      send_message message
      ++ ((if ltb 0 left then usleep (dot_duration * 7) ∷ [] else []) ++ repeat left message)

-- From gpio_init to the end of main.
unfoldable pub transmit : GpioLib → ℕ → List ℕ → ℕ × List Action
transmit lib repetitions message =
    let (g, ready, opened) = gpio_init lib in
    if ready
    then (
      0,
      opened ++ (gpio_write g.line 1 ++ (repeat g.line repetitions message ++ (gpio_cleanup g).1)),
    )
    else (1, opened)

-- The arguments after argv[0]; the result is the exit status and what was done.
unfoldable pub main : GpioLib → List (List ℕ) → ℕ × List Action
main lib (reps ∷ message ∷ args) =
    if ltb_ℤ (pos 0) (atoi reps) then transmit lib (pos_part (atoi reps)) message else (1, [])
main lib _ = (1, [])
