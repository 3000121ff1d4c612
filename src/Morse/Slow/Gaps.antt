-- ===== src/Morse/Slow/Gaps.antt =====
-- What a gap between two pulses does in lab5_2/main/lab5_2.c.
use cse.Base.{
  ℕ, ◌≤◌, ◌<◌, ◌≡◌, refl, ◌&&◌, List, [], ◌∷◌, ◌++◌, append-nil, codes, ltb, lt→ltb, le→ltb,
  if◌then◌else◌, pos, arith, int_diff,
}
use native.Mathlib.Decide.{dec_lt}
use cse.Morse.Code.{decode_morse}
use cse.Morse.Pattern.{c_string-Stored, reset-Stored}
use cse.Morse.Slow.Receiver.{Receiver, print_letter, gap_ends}
use cse.Morse.Slow.Polls.{Holds}

-- What a gap leaves of the pattern before it, and what it has the receiver print.
abbrev pub kept : ℕ → List ℕ → List ℕ
kept gap p = if ltb 250 gap then [] else p

abbrev pub said : ℕ → List ℕ → List ℕ
said gap [] = []
said gap (c ∷ p) =
    if ltb 600 gap
    then decode_morse (c ∷ p) ∷ codes " "
    else if ltb 250 gap
    then decode_morse (c ∷ p) ∷ []
    else []

pub print_letter_lem :
    (s : Receiver) (p behind : List ℕ)
    → Holds s p
    → Holds (print_letter behind s) []
      × ((print_letter behind s).printed ≡ s.printed ++ (decode_morse p ∷ behind))
unfolding print_letter
print_letter_lem s p behind h = (
  reset-Stored s.morse_buffer s.morse_idx p h,
  rw (c_string-Stored s.morse_buffer s.morse_idx p h),
)

-- gap_ends for a gap that is a number.
pub gap_ends_at : ℕ → Receiver → Receiver
gap_ends_at gap s =
    if ltb 600 gap && ltb 0 s.morse_idx
    then print_letter (codes " ") s
    else if ltb 250 gap && ltb 0 s.morse_idx
    then print_letter [] s
    else s

pub gap_ends-eq :
    (now gap : ℕ) (s : Receiver)
    → int_diff now s.gap_start_time ≡ pos gap
    → gap_ends now s ≡ gap_ends_at gap s
unfolding gap_ends gap_ends_at
gap_ends-eq now gap s e = ground (arith, e)

module _ (s : Receiver) (gap : ℕ) where
  at_empty : s.morse_idx ≡ 0 → gap_ends_at gap s ≡ s
  unfolding gap_ends_at
  at_empty e = ground arith

  at_word : 600 < gap → 0 < s.morse_idx → gap_ends_at gap s ≡ print_letter (codes " ") s
  unfolding gap_ends_at
  at_word a b = rw (lt→ltb a, lt→ltb b)

  at_letter : 250 < gap → gap ≤ 600 → 0 < s.morse_idx → gap_ends_at gap s ≡ print_letter [] s
  unfolding gap_ends_at
  at_letter a b c = rw (le→ltb b, lt→ltb a, lt→ltb c)

  at_symbol : gap ≤ 250 → gap_ends_at gap s ≡ s
  unfolding gap_ends_at
  at_symbol a = rw (le→ltb {a = 600} {b = gap} (omega arith), le→ltb a)

-- What the gap before a pulse does.
pub gap_said :
    (s : Receiver) (p : List ℕ) (gap : ℕ)
    → Holds s p
    → Holds (gap_ends_at gap s) (kept gap p)
      × ((gap_ends_at gap s).printed ≡ s.printed ++ said gap p)
gap_said s [] gap h = rw (at_empty s gap h.count, kept_nil, append-nil) (h, refl)
  where
    kept_nil : kept gap [] ≡ []
    kept_nil = ground arith
gap_said s (c ∷ p) gap h = elim (dec_lt 600 gap) [
  | yes word ↦
      rw
        (
          at_word s gap word (omega (arith, h.count)),
          lt→ltb word,
          lt→ltb {a = 250} {b = gap} (omega arith),
        )
        (print_letter_lem s (c ∷ p) (codes " ") h)
  | no not_word ↦ elim (dec_lt 250 gap) [
    | yes letter ↦
        rw
          (
            at_letter s gap letter (omega arith) (omega (arith, h.count)),
            le→ltb {a = 600} {b = gap} (omega arith),
            lt→ltb letter,
          )
          (print_letter_lem s (c ∷ p) [] h)
    | no symbol ↦
        rw
          (
            at_symbol s gap (omega arith),
            le→ltb {a = 600} {b = gap} (omega arith),
            le→ltb {a = 250} {b = gap} (omega arith),
            append-nil,
          )
          (h, refl)
  ]
]

module _ (gap : ℕ) (s : Receiver) where
  pub light_on-gap_ends_at : (gap_ends_at gap s).light_on ≡ s.light_on
  unfolding gap_ends_at print_letter
  light_on-gap_ends_at = ground arith

  pub light_start_time-gap_ends_at : (gap_ends_at gap s).light_start_time ≡ s.light_start_time
  unfolding gap_ends_at print_letter
  light_start_time-gap_ends_at = ground arith

  pub last_activity_time-gap_ends_at : (gap_ends_at gap s).last_activity_time ≡ s.last_activity_time
  unfolding gap_ends_at print_letter
  last_activity_time-gap_ends_at = ground arith
