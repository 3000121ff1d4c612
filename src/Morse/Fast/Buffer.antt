-- ===== src/Morse/Fast/Buffer.antt =====
-- What morse_buffer holds: a pattern, and what each operation of the decoder does to it.
use cse.Base.{ℕ, ◌+◌, ◌≤◌, ◌<◌, ◌≡◌, refl, List, [], ◌∷◌, ◌++◌, codes, set, length, arith}
use cse.Morse.Pattern.{Stored, c_string-Stored, set-Stored, reset-Stored}
use cse.Morse.Code.{decode_morse}
use cse.Morse.Fast.Receiver.{Decoder, terminate, emit, word_boundary, letter_boundary, push}

abbrev pub Holds : Decoder → List ℕ → Type 0
Holds s p = Stored s.morse_buffer s.morse_idx p

push-room :
    (c : ℕ) (s : Decoder)
    → s.morse_idx < 9
    → push c s
      ≡ record s { morse_buffer = set s.morse_buffer s.morse_idx c; morse_idx = s.morse_idx + 1 }
unfolding push
push-room c s h = ground arith

-- A symbol is added behind the pattern, while it fits.
pub push-Holds :
    (s : Decoder) (p : List ℕ) (c : ℕ)
    → Holds s p
    → 0 < c
    → length p < 9
    → Holds (push c s) (p ++ (c ∷ []))
push-Holds s p c h pc room =
    rw (push-room c s (omega (arith, h.count)))
      (set-Stored s.morse_buffer s.morse_idx p h c pc room)

-- A full buffer drops the symbol.
pub push-full : (s : Decoder) (p : List ℕ) (c : ℕ) → Holds s p → 9 ≤ length p → push c s ≡ s
unfolding push
push-full s p c h full = ground (arith, h.count)

pub printed-push : (c : ℕ) (s : Decoder) → (push c s).printed ≡ s.printed
unfolding push
printed-push c s = ground arith

pub last_falling_edge-push :
    (c : ℕ) (s : Decoder) → (push c s).last_falling_edge ≡ s.last_falling_edge
unfolding push
last_falling_edge-push c s = ground arith

-- What a boundary leaves: an empty pattern, and the pattern's character printed.
pub record Ended (s s' : Decoder) (p behind : List ℕ) : Type 0 where
  pub holds : Holds s' []
  pub printed : s'.printed ≡ s.printed ++ (decode_morse p ∷ behind)
  pub rise : s'.last_rising_edge ≡ s.last_rising_edge
  pub fall : s'.last_falling_edge ≡ s.last_falling_edge
  pub total : s'.total_chars ≡ s.total_chars + 1
  pub counted : s'.correct_chars + s'.error_chars ≡ s.correct_chars + s.error_chars + 1

pub word_boundary-Ended :
    (s : Decoder) (p : List ℕ) → Holds s p → Ended s (word_boundary s) p (codes " ")
unfolding word_boundary emit terminate
word_boundary-Ended s p h = record {
  holds = reset-Stored s.morse_buffer s.morse_idx p h;
  printed = rw (c_string-Stored s.morse_buffer s.morse_idx p h);
  rise = refl;
  fall = refl;
  total = refl;
  counted = ground arith;
}

pub letter_boundary-Ended :
    (now : ℕ) (s : Decoder) (p : List ℕ) → Holds s p → Ended s (letter_boundary now s) p []
unfolding letter_boundary emit terminate
letter_boundary-Ended now s p h = record {
  holds = reset-Stored s.morse_buffer s.morse_idx p h;
  printed = rw (c_string-Stored s.morse_buffer s.morse_idx p h);
  rise = refl;
  fall = refl;
  total = refl;
  counted = ground arith;
}
