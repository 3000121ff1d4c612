-- ===== src/Morse/Fast/Transcript.antt =====
-- What a message looks like on the receiver's screen, with no word of Morse code: its letters and
-- digits in upper case, with one space between two words; nothing else is sent.
use cse.Base.{ℕ, List, [], ◌∷◌, ◌++◌, ◌==◌, if◌then◌else◌, take}
use cse.Morse.Code.{toupper, decode_morse}
use cse.Morse.Code.RoundTrip.{is_sendable}
use cse.Morse.Fast.Receiver.{Decoder}

-- Where in the text the next character stands.
pub data Place : Type 0 where
  at_start in_word after_word : Place

abbrev pub separator : Place → List ℕ
separator after_word = b' ' ∷ []
separator _ = []

abbrev pub spaced : Place → Place
spaced at_start = at_start
spaced _ = after_word

-- The message from this place on.
unfoldable pub shown : Place → List ℕ → List ℕ
shown place [] = []
shown place (c ∷ message) =
    let letter = separator place ++ (toupper c ∷ shown in_word message) in
    let space = shown (spaced place) message in
    let other = shown place message in
    if is_sendable c then letter else if c == b' ' then space else other

-- The letter in morse_buffer, which is not printed yet.
unfoldable pub held : Decoder → List ℕ
held s = if s.morse_idx == 0 then [] else decode_morse (take s.morse_idx s.morse_buffer) ∷ []
