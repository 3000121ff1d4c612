-- ===== src/Morse/Fast/Hearing.antt =====
-- The receiver of lab5_3/receiver/main/lab5_3.c between two characters of a message.
use cse.Base.{
  ℕ, ◌+◌, ◌*◌, ◌^◌, ◌≤◌, ◌<◌, ◌≡◌, List, [], ◌∷◌, ◌++◌, length, arith, append_assoc, append-nil,
}
use cse.Morse.Code.{decode_morse}
use cse.Morse.Fast.Receiver.{Config, Decoder, rising}
use cse.Morse.Fast.Link.{Link}
use cse.Morse.Fast.Buffer.{Holds}
use cse.Morse.Fast.Edges.{Dark, Lit, Near, rising_letter, rising_word, rising_empty}
use cse.Morse.Fast.Pulses.{Fits, off_at}
use cse.Morse.Fast.Transcript.{Place, at_start, in_word, after_word, separator}

-- A letter is pending since `off`, and with it the text is `out`.
pub record Pending (s : Decoder) (out : List ℕ) (since off : ℕ) : Type 0 where
  pub pattern : List ℕ
  pub printed : List ℕ
  pub dark : Dark s pattern printed off
  pub text : printed ++ (decode_morse pattern ∷ []) ≡ out
  pub nonempty : 0 < length pattern
  pub started : 0 < off
  pub recent : since ≤ off

-- The receiver, at a place of the message, with the text up to there, since the time `since`.
abbrev pub Heard : ℕ → ℕ → Place → Decoder → ℕ → List ℕ → Type 0
Heard dot since at_start s clock out = Holds s [] × (s.printed ≡ []) × (out ≡ [])
Heard dot since in_word s clock out = (off : ℕ) × Pending s out since off × (off + dot * 3 ≡ clock)
Heard dot since after_word s clock out =
    (off : ℕ) × Pending s out since off × (off + dot * 7 ≤ clock)

pub record Hears (dot since : ℕ) (place : Place) (l : Link) (out : List ℕ) (until : ℕ)
    : Type 0 where
  pub clock : ℕ
  pub decoder : Decoder
  pub is : l ≡ off_at clock decoder
  pub heard : Heard dot since place decoder clock out
  pub began : 0 < clock
  pub late : since ≤ clock
  pub in_time : clock ≤ until

module _ (cfg : Config) (dot : ℕ) (fits : Fits cfg dot) (since until : ℕ)
    (window : until < since + 2 ^ 31) (early : until < 2 ^ 63) where
  near : (off clock : ℕ) → since ≤ off → off ≤ clock → clock ≤ until → Near off clock
  near off clock a b c = record { order = b; close = omega arith; early = omega arith }

  -- The first pulse of a letter ends what is pending.
  pub next_letter :
      (place : Place) (s : Decoder) (clock : ℕ) (out : List ℕ)
      → Heard dot since place s clock out
      → clock ≤ until
      → Lit (rising cfg clock s) [] (out ++ separator place) clock
  next_letter at_start s clock out (h, e, n) le = rw n (rising_empty cfg clock s [] h e)
  next_letter in_word s clock out (off, p, e) le =
      rw (append-nil, ← p.text)
        (rising_letter cfg clock s p.pattern p.printed off p.dark p.started
          (near off clock p.recent (omega arith) le) p.nonempty (omega (arith, fits.letter_gap))
          (omega (arith, fits.not_word)))
  next_letter after_word s clock out (off, p, e) le =
      rw (← p.text, append_assoc)
        (rising_word cfg clock s p.pattern p.printed off p.dark p.started
          (near off clock p.recent (omega arith) le) p.nonempty (omega (arith, fits.word_gap)))
