-- ===== src/Morse/Effects.antt =====
-- What a list of actions comes to: how long it sleeps, the value that it leaves on the line, and
-- how often it closes the chip.
use cse.Base.{ℕ, ◌+◌, ◌*◌, ◌/◌, ◌≡◌, refl, List, [], ◌∷◌, ◌++◌, arith}
use cse.Morse.Host.{
  Action, set_value, usleep, nanosleep, print, print_sent, request_output, release_line, close_chip,
}

abbrev pub slept : Action → ℕ
slept (usleep us) = us
slept (nanosleep sec nsec) = sec * 1000000 + nsec / 1000
slept (set_value v) = 0
slept (print t) = 0
slept (print_sent n) = 0
slept (request_output v) = 0
slept release_line = 0
slept close_chip = 0

-- The microseconds of all sleeps.
unfoldable pub duration : List Action → ℕ
duration [] = 0
duration (a ∷ rest) = slept a + duration rest

abbrev pub value_after : ℕ → Action → ℕ
value_after v (set_value w) = w
value_after v (request_output w) = w
value_after v (usleep us) = v
value_after v (nanosleep sec nsec) = v
value_after v (print t) = v
value_after v (print_sent n) = v
value_after v release_line = v
value_after v close_chip = v

-- The value on the line after the actions, from the value before them.
unfoldable pub final_value : ℕ → List Action → ℕ
final_value v [] = v
final_value v (a ∷ rest) = final_value (value_after v a) rest

abbrev pub closes_chip : Action → ℕ
closes_chip close_chip = 1
closes_chip (set_value v) = 0
closes_chip (usleep us) = 0
closes_chip (nanosleep sec nsec) = 0
closes_chip (print t) = 0
closes_chip (print_sent n) = 0
closes_chip (request_output v) = 0
closes_chip release_line = 0

unfoldable pub chip_closings : List Action → ℕ
chip_closings [] = 0
chip_closings (a ∷ rest) = closes_chip a + chip_closings rest

pub duration-append : (xs ys : List Action) → duration (xs ++ ys) ≡ duration xs + duration ys
unfolding duration
duration-append [] ys = omega arith
duration-append (a ∷ xs) ys = omega (arith, duration-append xs ys)

pub final_value-append :
    (v : ℕ) (xs ys : List Action) → final_value v (xs ++ ys) ≡ final_value (final_value v xs) ys
unfolding final_value
final_value-append v [] ys = refl
final_value-append v (a ∷ xs) ys = final_value-append (value_after v a) xs ys

pub chip_closings-append :
    (xs ys : List Action) → chip_closings (xs ++ ys) ≡ chip_closings xs + chip_closings ys
unfolding chip_closings
chip_closings-append [] ys = omega arith
chip_closings-append (a ∷ xs) ys = omega (arith, chip_closings-append xs ys)
