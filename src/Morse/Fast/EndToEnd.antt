-- ===== src/Morse/Fast/EndToEnd.antt =====
-- A message of lab5_3/sender/send.c as lab5_3/receiver/main/lab5_3.c shows it.
use mathlib.Core.Path.{ap₂}
use cse.Base.{
  ℕ, ◌+◌, ◌*◌, ◌^◌, ◌<◌, ◌≡◌, ◌≢◌, refl, ap, ◌∙◌, sym, true, List, [], ◌∷◌, ◌++◌, length, arith,
  subst,
}
use cse.Morse.Code.{decode_morse}
use cse.Morse.Fast.Sender.{timing_of_dot, send_chars, send_message}
use cse.Morse.Pattern.{buffer_size, empty-Stored}
use cse.Morse.Fast.Receiver.{Config, Decoder, config_of, start}
use cse.Morse.Fast.Durations.{plain, send_chars-plain}
use cse.Morse.Fast.Window.{config_of-Fits}
use cse.Morse.Fast.Link.{play, play-append, act}
use cse.Morse.Fast.Buffer.{Holds}
use cse.Morse.Fast.Pulses.{Fits, off_at}
use cse.Morse.Fast.Transcript.{Place, at_start, in_word, after_word, shown, held}
use cse.Morse.Fast.Hearing.{Pending, Heard, Hears}
use cse.Morse.Fast.Characters.{play-send_chars}

-- The letter that a decoder holds, for the pattern in its buffer.
held_of : (s : Decoder) (p : List ℕ) → Holds s p → 0 < length p → held s ≡ decode_morse p ∷ []
unfolding held
held_of s p h some_symbol = ground (arith, h.count, ap (λ q. decode_morse q ∷ []) h.bytes_lem)

-- At every place the text is what is printed and the letter that is held, and only an empty text
-- has no letter held.
record Delivered (s : Decoder) (out : List ℕ) : Type 0 where
  text : s.printed ++ held s ≡ out
  behind : out ≢ [] → (c : ℕ) × (s.printed ++ (c ∷ []) ≡ out)

Pending-Delivered :
    (s : Decoder) (out : List ℕ) (since off : ℕ) → Pending s out since off → Delivered s out
Pending-Delivered s out since off p =
    let h = held_of s p.pattern p.dark.holds p.nonempty in
    record {
      text = ap₂ ◌++◌ p.dark.printed h ∙ p.text;
      behind = λ _. (
        decode_morse p.pattern,
        ap (λ printed. printed ++ (decode_morse p.pattern ∷ [])) p.dark.printed ∙ p.text,
      );
    }

Heard-Delivered :
    (dot since : ℕ) (place : Place) (s : Decoder) (clock : ℕ) (out : List ℕ)
    → Heard dot since place s clock out
    → Delivered s out
unfolding held
Heard-Delivered dot since at_start s clock out (h, e, n) = record {
  text = rw (e, h.count, n);
  behind = λ ne. absurd (ne n);
}
Heard-Delivered dot since in_word s clock out (off, p, _) = Pending-Delivered s out since off p
Heard-Delivered dot since after_word s clock out (off, p, _) = Pending-Delivered s out since off p

module _ (cfg : Config) (dot : ℕ) (m bytes : List ℕ) (clock : ℕ) where
  -- The decoder, off and started at `clock`, when the message has been sent.
  abbrev pub received : Decoder
  received =
      (play cfg (send_message true (timing_of_dot dot) m) (off_at clock (start bytes))).decoder

  ends :
      {t : ℕ} {d : Decoder}
      → dot * 22 * length m < 2 ^ 31
      → play cfg (send_chars true (plain dot) m) (off_at clock (start bytes)) ≡ off_at t d
      → received ≡ d
  unfolding send_message play act
  ends short e =
      ap (λ l. l.decoder)
        (play-append cfg (send_chars true (timing_of_dot dot) m) _ (off_at clock (start bytes))
          ∙ ap (λ chars. play cfg chars (off_at clock (start bytes))) (send_chars-plain dot m short)
          ∙ e)

  delivered :
      Fits cfg dot
      → length bytes ≡ buffer_size
      → 0 < clock
      → dot * 22 * length m < 2 ^ 31
      → clock + dot * 22 * length m < 2 ^ 63
      → Delivered received (shown at_start m)
  unfolding start
  delivered fits size began short early =
      let until = clock + dot * 22 * length m in
      let sent =
        play-send_chars cfg dot fits clock until (omega arith) early m at_start
          (off_at clock (start bytes)) [] clock begin (omega arith) in
      subst (λ d. Delivered d (shown at_start m)) (sym (ends short sent.1.is))
        (Heard-Delivered dot clock sent.0 sent.1.decoder sent.1.clock (shown at_start m)
          sent.1.heard)
    where
      begin : Hears dot clock at_start (off_at clock (start bytes)) [] clock
      begin = record {
        clock = clock;
        decoder = start bytes;
        is = refl;
        heard = (empty-Stored bytes size, refl, refl);
        began = began;
        late = omega arith;
        in_time = omega arith;
      }

  -- For a sender whose dot fits the receiver's thresholds, and a message for whose characters 22
  -- dots each are less than 2 ^ 31 us, and end before 2 ^ 63 on the receiver's clock, which is above 0
  -- at the start, the text printed with the letter that is still in the buffer is the message: its
  -- letters and digits in upper case, and one space between two words.
  pub send_message-decode_edge :
      Fits cfg dot
      → length bytes ≡ buffer_size
      → 0 < clock
      → dot * 22 * length m < 2 ^ 31
      → clock + dot * 22 * length m < 2 ^ 63
      → received.printed ++ held received ≡ shown at_start m
  send_message-decode_edge fits size began short early =
      (delivered fits size began short early).text

  -- Under the same conditions, a message with a letter or a digit is printed but for the last
  -- character of its text, which alone is missing.
  pub last_letter_withheld :
      Fits cfg dot
      → length bytes ≡ buffer_size
      → 0 < clock
      → dot * 22 * length m < 2 ^ 31
      → clock + dot * 22 * length m < 2 ^ 63
      → shown at_start m ≢ []
      → (c : ℕ) × (received.printed ++ (c ∷ []) ≡ shown at_start m)
  last_letter_withheld fits size began short early = (delivered fits size began short early).behind

-- A receiver configured for the sender's own dot, with a tolerance below two dots and dots of which
-- six fit an int, prints the message, with the letter that is still in its buffer, under the same
-- conditions on its length.
pub configured-send_message :
    (dot tol : ℕ) (m bytes : List ℕ) (clock : ℕ)
    → 0 < dot
    → tol < dot * 2
    → dot * 6 < 2 ^ 31
    → length bytes ≡ buffer_size
    → 0 < clock
    → dot * 22 * length m < 2 ^ 31
    → clock + dot * 22 * length m < 2 ^ 63
    → let s = received (config_of dot tol) dot m bytes clock in
      s.printed ++ held s ≡ shown at_start m
configured-send_message dot tol m bytes clock some_dot close small =
    send_message-decode_edge (config_of dot tol) dot m bytes clock
      (config_of-Fits dot tol some_dot close small)
