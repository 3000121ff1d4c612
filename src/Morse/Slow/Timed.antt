-- ===== src/Morse/Slow/Timed.antt =====
-- A message of lab5_1/send.c under regular polls of lab5_2/main/lab5_2.c.
use mathlib.Core.Logic.{◌≢◌}
use cse.Base.{
  ℕ, ◌+◌, ◌<◌, ◌≤◌, ◌≡◌, refl, ap, ◌∙◌, sym, subst, true, false, List, [], ◌∷◌, ◌++◌, map,
  append_assoc, All, codes, foldl, arith,
}
use cse.Morse.Fast.Transcript.{Place, at_start, in_word, after_word, shown}
use cse.Morse.Slow.Receiver.{Receiver, Sample, poll}
use cse.Morse.Slow.Changes.{Shows}
use cse.Morse.Slow.Run.{Pulse, all_samples, foldl-append-poll}
use cse.Morse.Slow.Lamp.{Lamp, dark_lamp, first_page, Flashed, IsWidth, Fits}
use cse.Morse.Slow.Words.{Told, single_spaced, tell_chars}
use cse.Morse.Slow.Idle.{Idle, polls-Idle, last_change}
use cse.Morse.Slow.Line.{CatchesFlashes}
use cse.Morse.Slow.EndToEnd.{sent, sent_chars, send_message-poll}
use cse.Morse.Slow.Looks.{Look, sample_of, ends_at, lit_at-before, Regular, last_at, Sees}
use cse.Morse.Slow.Flash.{seen_as, ends_at-late, flash}
use cse.Morse.Slow.Period.{pulse_of, pulse_of-Catches, samples-Flash, catch_all}

-- A message's samples: dark ones, the pulses that catch its flashes, a late dark one, and others.
record Whole (xs : List Look) (fs : List (ℕ × ℕ)) : Type 0 where
  before : List Sample
  first : Pulse
  others : List Pulse
  late : Sample
  rest : List Sample
  is : map sample_of xs ≡ before ++ (all_samples (first ∷ others) ++ (late ∷ rest))
  were_dark : All (Shows false) before
  catches : CatchesFlashes fs (first ∷ others)
  ends : last_change first others + 1000 < late.current_time
  late_dark : Shows false late
  rest_dark : All (Shows false) rest

dark_samples :
    (before since gap width : ℕ) (fs : List (ℕ × ℕ)) (xs : List Look)
    → All (λ x. (before ≤ x.at) × (x.at < since + gap) × Sees since ((gap, width) ∷ fs) x) xs
    → All (Shows false) (map sample_of xs)
dark_samples before since gap width fs [] a = tt
dark_samples before since gap width fs (x ∷ xs) ((o, l, v), a) = (
  seen_as since ((gap, width) ∷ fs) x false (lit_at-before since gap width fs x.at l) v,
  dark_samples before since gap width fs xs a,
)

whole :
    (before since gap width : ℕ) (fs : List (ℕ × ℕ)) (xs : List Look)
    → IsWidth width
    → Fits (first_page width) fs
    → before < since
    → Regular before xs
    → All (Sees since ((gap, width) ∷ fs)) xs
    → ends_at since ((gap, width) ∷ fs) + 1100000 ≤ last_at before xs
    → Whole xs ((gap, width) ∷ fs)
unfolding CatchesFlashes
whole before since gap width fs xs w f early r v long =
    let more = ends_at-late (since + gap + width) fs in
    let fl =
      flash before since gap width (first_page width) fs xs w f r v (omega arith)
        (omega (arith, more)) in
    let c =
      catch_all fs (since + gap + width) fl.y fl.ys (first_page width) f fl.next
        (omega (arith, fl.last)) in
    record {
      before = map sample_of fl.dark;
      first = pulse_of before since gap width fs xs fl c;
      others = c.pulses;
      late = c.late;
      rest = c.rest;
      is = samples-Flash before since gap width fs xs fl c;
      were_dark = dark_samples before since gap width fs fl.dark fl.were_dark;
      catches = (pulse_of-Catches before since gap width fs xs fl c, c.catches);
      ends = c.ends (pulse_of before since gap width fs xs fl c) refl;
      late_dark = c.late_dark;
      rest_dark = c.rest_dark;
    }

-- After the line that a message makes, the dark changes nothing.
then_idle :
    (s : Receiver) (out : List ℕ) (xs rest : List Sample)
    → Idle (foldl poll s xs) out
    → All (Shows false) rest
    → Idle (foldl poll s (xs ++ rest)) out
then_idle s out xs rest i v =
    rw (foldl-append-poll xs rest s, polls-Idle rest (foldl poll s xs) out i v) i

module _ (m : List ℕ) (s : Receiver) (out : List ℕ) (xs : List Look)
    (single : single_spaced at_start m ≡ true) (i : Idle s out) where
  line_of :
      Whole xs (sent 0 m).flashes
      → Idle (foldl poll s (map sample_of xs)) (out ++ (shown at_start m ++ codes "\n"))
  line_of w =
      subst (λ ys. Idle (foldl poll s ys) (out ++ (shown at_start m ++ codes "\n")))
        (append_assoc w.before (all_samples (w.first ∷ w.others) ++ (w.late ∷ [])) w.rest
          ∙ ap (λ ys. w.before ++ ys)
              (append_assoc (all_samples (w.first ∷ w.others)) (w.late ∷ []) w.rest)
          ∙ sym w.is)
        (then_idle s (out ++ (shown at_start m ++ codes "\n"))
          (w.before ++ (all_samples (w.first ∷ w.others) ++ (w.late ∷ []))) w.rest
          (send_message-poll m 0 s out w.before w.first w.others w.late single i w.were_dark
            w.catches w.ends w.late_dark)
          w.rest_dark)

module _ (begins before : ℕ) (xs : List Look) (early : before < begins)
    (r : Regular before xs) where
  catch_lamp :
      (l : Lamp) (since : ℕ) (p text : List ℕ)
      → Flashed l since p text
      → All (Sees begins l.flashes) xs
      → ends_at begins l.flashes + 1100000 ≤ last_at before xs
      → Whole xs l.flashes
  catch_lamp l since p text f v long =
      subst (λ k. Whole xs k.flashes) (sym f.is)
        (whole before begins f.first_gap f.first_width f.others xs f.width f.fits early r
          (subst (λ k. All (Sees begins k.flashes) xs) f.is v)
          (subst (λ k. ends_at begins k.flashes + 1100000 ≤ last_at before xs) f.is long))

  catch_told :
      (place : Place) (l : Lamp) (text : List ℕ)
      → Told place l text
      → text ≢ []
      → All (Sees begins l.flashes) xs
      → ends_at begins l.flashes + 1100000 ≤ last_at before xs
      → Whole xs l.flashes
  catch_told at_start l text (since, e, n) some_letter v long = absurd (some_letter n)
  catch_told in_word l text w some_letter v long =
      catch_lamp l 300000 w.pattern w.printed w.flashed v long
  catch_told after_word l text w some_letter v long =
      catch_lamp l 700000 w.pattern w.printed w.flashed v long

-- From a receiver that waits in the dark: where it is polled at least every 49 ms, from before a
-- message begins until 1.1 s after its last flash, and the photodiode sees the LED as it is at each
-- poll, a message with a letter or digit, whose words are one space apart, is printed as one line,
-- its letters and digits in upper case, and the receiver waits in the dark again.
pub send_message-regular_polls :
    (m : List ℕ) (begins before : ℕ) (s : Receiver) (out : List ℕ) (xs : List Look)
    → single_spaced at_start m ≡ true
    → shown at_start m ≢ []
    → Idle s out
    → before < begins
    → Regular before xs
    → All (Sees begins (sent 0 m).flashes) xs
    → ends_at begins (sent 0 m).flashes + 1100000 ≤ last_at before xs
    → Idle (foldl poll s (map sample_of xs)) (out ++ (shown at_start m ++ codes "\n"))
send_message-regular_polls m begins before s out xs single some_letter i early r v long =
    let told = tell_chars m at_start (dark_lamp 0 []) [] (0, refl, refl) single in
    line_of m s out xs single i (
      catch_told begins before xs early r told.0 (sent 0 m) (shown at_start m)
        (subst (λ l. Told told.0 l (shown at_start m)) (sym (sent_chars 0 m)) told.1) some_letter v
        long)
