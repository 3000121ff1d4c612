-- ===== src/Morse/Slow/EndToEnd.antt =====
-- A message from lab5_1/send.c to the text of lab5_2/main/lab5_2.c.
use cse.Base.{
  ℕ, ◌+◌, ◌<◌, ◌≡◌, refl, ap, ◌∙◌, sym, subst, true, false, List, [], ◌∷◌, ◌++◌, codes, foldl,
  length, All, append_assoc,
}
use cse.Morse.Code.{decode_morse}
use cse.Morse.Pattern.{buffer_size, empty-Stored}
use cse.Morse.Fast.Transcript.{Place, at_start, in_word, after_word, shown}
use cse.Morse.Slow.Sender.{send_chars, send_message}
use cse.Morse.Slow.Receiver.{Receiver, Sample, poll, start}
use cse.Morse.Slow.Changes.{Shows}
use cse.Morse.Slow.Run.{Pulse, all_samples}
use cse.Morse.Slow.Lamp.{Lamp, dark_lamp, see, foldl-append}
use cse.Morse.Slow.Words.{Waits, Told, single_spaced, tell_chars}
use cse.Morse.Slow.Idle.{Idle, last_change}
use cse.Morse.Slow.Line.{CatchesFlashes, heard, line_of}

-- The receiver starts in the dark.
pub start-Idle : (bytes : List ℕ) → length bytes ≡ buffer_size → Idle (start bytes) []
unfolding start
start-Idle bytes size = record { holds = empty-Stored bytes size; printed = refl; off = refl }

-- The lamp when a message has been sent, dark for a time before it.
unfoldable pub sent : ℕ → List ℕ → Lamp
sent since m = foldl see (dark_lamp since []) (send_message true m)

pub sent_chars :
    (since : ℕ) (m : List ℕ) → sent since m ≡ foldl see (dark_lamp since []) (send_chars true m)
unfolding sent send_message see
sent_chars since m = foldl-append see (send_chars true m) _ (dark_lamp since [])

module _ (s : Receiver) (out : List ℕ) (before : List Sample) (o : Pulse) (os : List Pulse)
    (late : Sample) (i : Idle s out) (quiet : All (Shows false) before)
    (after : last_change o os + 1000 < late.current_time) (v : Shows false late) where
  waits-Idle :
      (l : Lamp) (since : ℕ) (text : List ℕ)
      → Waits l since text
      → CatchesFlashes l.flashes (o ∷ os)
      → Idle
          (foldl poll s (heard s out before o os late i quiet after v))
          (out ++ (text ++ codes "\n"))
  waits-Idle l since text w caught =
      subst (λ t. Idle (foldl poll s (heard s out before o os late i quiet after v)) (out ++ t))
        (sym (append_assoc w.printed (decode_morse w.pattern ∷ []) (codes "\n"))
          ∙ ap (λ t. t ++ codes "\n") w.text)
        (line_of s out before o os late i quiet after v l since w.pattern w.printed w.flashed
          w.nonempty caught)

  told-Idle :
      (place : Place) (l : Lamp) (text : List ℕ)
      → Told place l text
      → CatchesFlashes l.flashes (o ∷ os)
      → Idle
          (foldl poll s (heard s out before o os late i quiet after v))
          (out ++ (text ++ codes "\n"))
  told-Idle at_start l text (since, e, n) caught =
      absurd (none_caught (subst (λ k. CatchesFlashes k.flashes (o ∷ os)) e caught))
    where
      none_caught : CatchesFlashes [] (o ∷ os) → ⊥
      none_caught c = unfold CatchesFlashes in c
  told-Idle in_word l text w caught = waits-Idle l 300000 text w caught
  told-Idle after_word l text w caught = waits-Idle l 700000 text w caught

-- From a receiver that waits in the dark: where the polls catch every flash of a message whose
-- words are one space apart, with each width, and each gap between two flashes, measured to less
-- than 50 ms, and the dark lasts for more than a second after it, the receiver prints the message
-- as one line, its letters and digits in upper case, and waits in the dark again.
pub send_message-poll :
    (m : List ℕ) (since : ℕ) (s : Receiver) (out : List ℕ) (before : List Sample) (o : Pulse)
    (os : List Pulse) (late : Sample)
    → single_spaced at_start m ≡ true
    → Idle s out
    → All (Shows false) before
    → CatchesFlashes (sent since m).flashes (o ∷ os)
    → last_change o os + 1000 < late.current_time
    → Shows false late
    → Idle
        (foldl poll s (before ++ (all_samples (o ∷ os) ++ (late ∷ []))))
        (out ++ (shown at_start m ++ codes "\n"))
send_message-poll m since s out before o os late single i quiet caught after v =
    let told = tell_chars m at_start (dark_lamp since []) [] (since, refl, refl) single in
    told-Idle s out before o os late i quiet after v told.0 _ (shown at_start m) told.1
      (subst (λ l. CatchesFlashes l.flashes (o ∷ os)) (sent_chars since m) caught)
