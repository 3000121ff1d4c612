-- ===== src/Morse/Host.antt =====
-- What the two sender programs (lab5_1/send.c and lab5_3/sender/send.c) do to the world outside
-- them, their GPIO handles, and what they take from libgpiod and from floating point.
use cse.Base.{
  ℕ, ◌+◌, ◌-◌, ◌*◌, Bool, ◌&&◌, ◌||◌, List, [], ◌∷◌, leb, ◌==◌, if◌then◌else◌, ℤ, pos, sub_ℕ,
}

pub data Action : Type 0 where
  -- gpiod_line_set_value
  set_value : ℕ → Action
  -- usleep, in microseconds
  usleep : ℕ → Action
  -- nanosleep, in seconds and nanoseconds
  nanosleep : ℕ → ℕ → Action
  -- printf of a text; of "Characters sent: %d"
  print : List ℕ → Action
  print_sent : ℕ → Action
  -- gpiod_line_request_output with its default value, gpiod_line_release, gpiod_chip_close
  request_output : ℕ → Action
  release_line : Action
  close_chip : Action

-- What libgpiod answers: whether the chip opens, the line is there, and the request is granted.
pub record GpioLib : Type 0 where
  pub chip_opens : Bool
  pub has_line : Bool
  pub grants_output : Bool

-- The static pointers `chip` and `line`: whether they are not NULL.
pub record Gpio : Type 0 where
  pub chip : Bool
  pub line : Bool

-- The double arithmetic of the programs, which the C implementation provides. `to_int` is the
-- conversion `(int)` of a value that is not negative.
pub record Double : Type 1 where
  pub Val : Type 0
  pub of_ℕ : ℕ → Val
  pub div : Val → Val → Val
  pub mul : Val → Val → Val
  pub is_positive : Val → Bool
  pub atof : List ℕ → Val
  pub to_int : Val → ℕ

abbrev is_space : ℕ → Bool
is_space c = c == 32 || leb 9 c && leb c 13

digits : ℕ → List ℕ → ℕ
digits acc [] = acc
digits acc (c ∷ s) =
    let rest = digits (acc * 10 + (c - b'0')) s in if leb b'0' c && leb c b'9' then rest else acc

signed_digits : List ℕ → ℤ
unfolding digits
signed_digits [] = pos 0
signed_digits (c ∷ s) =
    if c == b'-'
    then sub_ℕ 0 (digits 0 s)
    else if c == b'+'
    then pos (digits 0 s)
    else pos (digits 0 (c ∷ s))

-- atoi of the C library, for numbers that fit an int.
unfoldable pub atoi : List ℕ → ℤ
unfolding signed_digits
atoi [] = pos 0
atoi (c ∷ s) = let rest = atoi s in if is_space c then rest else signed_digits (c ∷ s)
