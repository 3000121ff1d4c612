-- ===== src/Morse/Fast/Durations.antt =====
-- The durations of lab5_3/sender/send.c for a dot of which seven fit an int.
use cse.Base.{
  ℕ, ◌+◌, ◌-◌, ◌*◌, ◌/◌, ◌%◌, ◌^◌, ◌<◌, ◌≡◌, refl, List, [], ◌∷◌, ap, arith, lt→ltb, true, length,
}
use cse.Morse.Host.{nanosleep}
use cse.Morse.Fast.Sender.{Timing, timing_of_dot, precise_sleep_us, send_chars}

-- The same without a wrap.
abbrev pub plain : ℕ → Timing
plain dot = record {
  dot_duration_us = dot;
  dash_duration_us = dot * 3;
  symbol_gap_us = dot;
  letter_gap_us = dot * 3;
  word_gap_us = dot * 7;
}

int_kept : (n : ℕ) → n < 2 ^ 31 → n % 2 ^ 32 ≡ n
int_kept n h = omega arith

pub timing_of_dot-plain : (dot : ℕ) → dot * 7 < 2 ^ 31 → timing_of_dot dot ≡ plain dot
unfolding timing_of_dot
timing_of_dot-plain dot h =
    rw (int_kept (dot * 3) (omega arith), int_kept (dot * 7) (omega arith)) refl

pub sleep_kept :
    (us : ℕ)
    → us < 2 ^ 31
    → precise_sleep_us us ≡ nanosleep (us / 1000000) (us % 1000000 * 1000) ∷ []
unfolding precise_sleep_us
sleep_kept us h = rw (lt→ltb {a = us} {b = 2 ^ 31} h) refl

-- The differences of gaps that send_morse_char takes.
pub letter_rest : (dot : ℕ) → dot * 3 < 2 ^ 31 → (dot * 3 + 2 ^ 32 - dot) % 2 ^ 32 ≡ dot * 3 - dot
letter_rest dot h = omega arith

pub word_rest :
    (dot : ℕ) → dot * 7 < 2 ^ 31 → (dot * 7 + 2 ^ 32 - dot * 3) % 2 ^ 32 ≡ dot * 7 - dot * 3
word_rest dot h = omega arith

-- A message that is short takes them, if it has a character at all.
pub send_chars-plain :
    (dot : ℕ) (m : List ℕ)
    → dot * 22 * length m < 2 ^ 31
    → send_chars true (timing_of_dot dot) m ≡ send_chars true (plain dot) m
unfolding send_chars
send_chars-plain dot [] h = refl
send_chars-plain dot (c ∷ m) h =
    ap (λ t. send_chars true t (c ∷ m)) (timing_of_dot-plain dot (omega arith))
