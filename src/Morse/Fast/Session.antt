-- ===== src/Morse/Fast/Session.antt =====
-- A run of lab5_3/sender/send.c as a whole: its duration, and the state in which it leaves the LED
-- and the chip.
use mathlib.Core.Path.{ap₂}
use cse.Base.{
  ℕ, zero, suc, ◌+◌, ◌-◌, ◌*◌, ◌%◌, ◌^◌, ◌<◌, ◌≡◌, refl, ap, ◌∙◌, Bool, true, false, Option, none,
  some, List, [], ◌∷◌, codes, if◌then◌else◌, str_eq, arith, ltb, ◌==◌, lt→ltb, Bool-cases, inl, inr,
}
use cse.Morse.Code.{get_morse_code}
use cse.Morse.Host.{GpioLib}
use cse.Morse.Effects.{
  duration, final_value, chip_closings, duration-append, final_value-append, chip_closings-append,
}
use cse.Morse.Fast.Durations.{plain, timing_of_dot-plain, sleep_kept, letter_rest, word_rest}
use cse.Morse.Fast.Sender.{
  Timing, timing_of_dot, precise_sleep_us, gpio_init, gpio_write, gpio_cleanup, send_dot, send_dash,
  send_symbol, send_symbols, send_morse_char, send_encoded, send_chars, send_message, repeat,
  transmit,
}

-- The units of Morse time for a symbol with its gap, and for a letter with its gap.
abbrev symbol_units : ℕ → ℕ
symbol_units s = if s == b'.' then 2 else if s == b'-' then 4 else 0

abbrev symbols_units : List ℕ → ℕ
symbols_units [] = 0
symbols_units (s ∷ p) = symbol_units s + symbols_units p

abbrev code_units : Option (List ℕ) → ℕ
code_units none = 0
code_units (some p) = if str_eq p (codes "/") then 4 else symbols_units p + 2

-- The units of a message: a dot is on for one and a dash for three, with one between symbols,
-- three between letters and seven between words.
unfoldable pub units : List ℕ → ℕ
units [] = 0
units (c ∷ m) = code_units (get_morse_code c) + units m

module _ (dot : ℕ) (small : dot * 14 < 2 ^ 31) where
  abbrev timing : Timing
  timing = plain dot

  duration-sleep : (us : ℕ) → us < 2 ^ 31 → duration (precise_sleep_us us) ≡ us
  unfolding duration
  duration-sleep us h = rw (sleep_kept us h) (omega arith)

  duration-send_symbol : (s : ℕ) → duration (send_symbol true timing s) ≡ symbol_units s * dot
  unfolding send_symbol send_dot send_dash gpio_write duration
  duration-send_symbol s =
      rw (sleep_kept dot (omega arith), sleep_kept (dot * 3) (omega arith)) (ground arith)

  duration-send_symbols :
      (p : List ℕ) → duration (send_symbols true timing p) ≡ symbols_units p * dot
  unfolding send_symbols
  duration-send_symbols [] = unfold duration in omega arith
  duration-send_symbols (s ∷ p) =
      rw duration-append (omega (arith, duration-send_symbol s, duration-send_symbols p))

  duration-send_morse_char :
      (p : List ℕ)
      → duration (send_morse_char true timing p)
        ≡ (if str_eq p (codes "/") then 4 else symbols_units p + 2) * dot
  unfolding send_morse_char
  duration-send_morse_char p = elim (Bool-cases (str_eq p (codes "/"))) [
    | inl word ↦
        rw (word, word_rest dot (omega arith))
          (omega (arith, duration-sleep (dot * 7 - dot * 3) (omega arith)))
    | inr letter ↦
        rw (letter, letter_rest dot (omega arith), duration-append)
          (omega (arith, duration-send_symbols p, duration-sleep (dot * 3 - dot) (omega arith)))
  ]

  duration-send_encoded :
      (o : Option (List ℕ)) → duration (send_encoded true timing o) ≡ code_units o * dot
  unfolding send_encoded duration
  duration-send_encoded none = omega arith
  duration-send_encoded (some p) = omega (arith, duration-send_morse_char p)

  duration-send_chars : (m : List ℕ) → duration (send_chars true timing m) ≡ units m * dot
  unfolding send_chars units
  duration-send_chars [] = unfold duration in omega arith
  duration-send_chars (c ∷ m) =
      rw duration-append
        (omega (arith, duration-send_encoded (get_morse_code c), duration-send_chars m))

  pub duration-send_message : (m : List ℕ) → duration (send_message true timing m) ≡ units m * dot
  unfolding send_message
  duration-send_message m =
      rw duration-append (unfold duration in omega (arith, duration-send_chars m))

  repeat-suc :
      (left : ℕ) (m : List ℕ)
      → duration (repeat true timing (suc left) m)
        ≡ units m * dot
          + (duration (if ltb 0 left then precise_sleep_us (dot * 7 * 2 % 2 ^ 32) else [])
              + duration (repeat true timing left m))
  unfolding repeat
  repeat-suc left m =
      duration-append (send_message true timing m) _
      ∙ ap₂ ◌+◌ (duration-send_message m)
          (duration-append (if ltb 0 left then precise_sleep_us (dot * 7 * 2 % 2 ^ 32) else []) _)

  rounds :
      (left : ℕ) (m : List ℕ)
      → duration (repeat true timing (suc left) m) ≡ (suc left * units m + 14 * left) * dot
  rounds zero m = rw repeat-suc (unfold repeat duration in omega arith)
  rounds (suc left) m =
      rw (repeat-suc, lt→ltb {a = 0} {b = suc left} (omega arith))
        (omega (arith, rounds left m, duration-sleep (dot * 7 * 2 % 2 ^ 32) (omega arith)))

  -- For a dot of which fourteen fit an int, the repetitions of a message take its units each, and
  -- fourteen units between two of them.
  pub duration-repeat :
      (left : ℕ) (m : List ℕ)
      → duration (repeat true (timing_of_dot dot) left m) ≡ (left * units m + 14 * (left - 1)) * dot
  duration-repeat left m =
      ap (λ t. duration (repeat true t left m)) (timing_of_dot-plain dot (omega arith))
      ∙ in_units left
    where
      in_units : (n : ℕ) → duration (repeat true timing n m) ≡ (n * units m + 14 * (n - 1)) * dot
      in_units zero = unfold repeat duration in omega arith
      in_units (suc n) = rounds n m ∙ ap (λ k. (suc n * units m + 14 * k) * dot) (omega arith)

closings-sleep : (us : ℕ) → chip_closings (precise_sleep_us us) ≡ 0
unfolding chip_closings precise_sleep_us
closings-sleep us = ground arith

module _ (line : Bool) (t : Timing) where
  closings-send_symbol : (s : ℕ) → chip_closings (send_symbol line t s) ≡ 0
  unfolding send_symbol send_dot send_dash gpio_write precise_sleep_us chip_closings
  closings-send_symbol s = ground arith

  closings-send_symbols : (p : List ℕ) → chip_closings (send_symbols line t p) ≡ 0
  unfolding send_symbols
  closings-send_symbols [] = unfold chip_closings in refl
  closings-send_symbols (s ∷ p) =
      rw chip_closings-append (omega (arith, closings-send_symbol s, closings-send_symbols p))

  closings-send_morse_char : (p : List ℕ) → chip_closings (send_morse_char line t p) ≡ 0
  unfolding send_morse_char
  closings-send_morse_char p = elim (Bool-cases (str_eq p (codes "/"))) [
    | inl word ↦ rw word (closings-sleep _)
    | inr letter ↦
        rw (letter, chip_closings-append)
          (omega (
            arith,
            closings-send_symbols p,
            closings-sleep ((t.letter_gap_us + 2 ^ 32 - t.symbol_gap_us) % 2 ^ 32),
          ))
  ]

  closings-send_encoded : (o : Option (List ℕ)) → chip_closings (send_encoded line t o) ≡ 0
  unfolding send_encoded chip_closings
  closings-send_encoded none = refl
  closings-send_encoded (some p) = omega (arith, closings-send_morse_char p)

  closings-send_chars : (m : List ℕ) → chip_closings (send_chars line t m) ≡ 0
  unfolding send_chars
  closings-send_chars [] = unfold chip_closings in refl
  closings-send_chars (c ∷ m) =
      rw chip_closings-append
        (omega (arith, closings-send_encoded (get_morse_code c), closings-send_chars m))

  closings-send_message : (m : List ℕ) → chip_closings (send_message line t m) ≡ 0
  unfolding send_message
  closings-send_message m =
      rw chip_closings-append (unfold chip_closings in omega (arith, closings-send_chars m))

  closings-pause : (b : Bool) (us : ℕ) → chip_closings (if b then precise_sleep_us us else []) ≡ 0
  unfolding chip_closings
  closings-pause true us = closings-sleep us
  closings-pause false us = refl

  closings-repeat : (left : ℕ) (m : List ℕ) → chip_closings (repeat line t left m) ≡ 0
  unfolding repeat
  closings-repeat zero m = unfold chip_closings in refl
  closings-repeat (suc left) m =
      rw (chip_closings-append, chip_closings-append)
        (omega (
          arith,
          closings-send_message m,
          closings-pause (ltb 0 left) (t.word_gap_us * 2 % 2 ^ 32),
          closings-repeat left m,
        ))

-- Whatever libgpiod answers, the chip is closed as often as it was opened, and a run that ends
-- with status 0 leaves the line at 0, the LED off.
pub transmit_releases :
    (lib : GpioLib) (t : Timing) (repetitions v : ℕ) (m : List ℕ)
    → let (status, done) = transmit lib t repetitions m in
      (chip_closings done ≡ (if lib.chip_opens then 1 else 0))
      × (status ≡ 0 → final_value v done ≡ 0)
unfolding transmit gpio_init gpio_write chip_closings final_value gpio_cleanup
transmit_releases lib t repetitions v m = ground (
  arith,
  chip_closings-append (repeat true t repetitions m)
      (gpio_cleanup (record { chip = true; line = true })).1,
  closings-repeat true t repetitions m,
  final_value-append 0 (repeat true t repetitions m)
      (gpio_cleanup (record { chip = true; line = true })).1,
)
