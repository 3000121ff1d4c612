-- ===== src/Morse/Slow/Run.antt =====
-- Pulses of light, and the silence after a message, as the polls of lab5_2/main/lab5_2.c see them.
use cse.Base.{
  ℕ, ◌+◌, ◌-◌, ◌^◌, ◌≤◌, ◌<◌, ◌≡◌, refl, ap, ◌∙◌, sym, subst, Bool, true, false, List, [], ◌∷◌,
  ◌++◌, codes, length, All, ℤ, pos, ◌-ℤ◌, arith, foldl, ◌≤ℤ◌,
}
use cse.Morse.Code.{decode_morse}
use cse.Morse.Slow.Receiver.{
  Receiver, Sample, light_threshold, print_letter, check_timeout, detect, poll,
}
use cse.Morse.Slow.Polls.{Holds}
use cse.Morse.Slow.Gaps.{kept, said, print_letter_lem}
use cse.Morse.Slow.Changes.{Shows, Quiet, polls-Quiet, symbol_of, Dark, poll_on, poll_off}

-- A pulse as the polls meet it: the first that sees the light, those that see it on, the first
-- that sees it off, and those in the dark after it.
pub record Pulse : Type 0 where
  pub first_lit : Sample
  pub lit : List Sample
  pub first_dark : Sample
  pub dark : List Sample

abbrev pub samples : Pulse → List Sample
samples o = o.first_lit ∷ (o.lit ++ (o.first_dark ∷ o.dark))

abbrev pub gap_of : ℕ → Pulse → ℕ
gap_of since o = o.first_lit.current_time - since

abbrev pub width_of : Pulse → ℕ
width_of o = o.first_dark.current_time - o.first_lit.current_time

-- Polls of one level, within a second of a time.
abbrev pub Steady : Bool → ℕ → List Sample → Type 0
Steady lit since = All (λ x. (x.current_time ≤ since + 1000) × Shows lit x)

-- After the dark since a time: the light comes within a second and lasts for half a dot to a
-- second, and the polls see what there is.
pub record Timely (since : ℕ) (o : Pulse) : Type 0 where
  pub after : since ≤ o.first_lit.current_time
  pub soon : o.first_lit.current_time ≤ since + 1000
  pub rises : Shows true o.first_lit
  pub stays_lit : Steady true o.first_lit.current_time o.lit
  pub long : o.first_lit.current_time + 50 ≤ o.first_dark.current_time
  pub short : o.first_dark.current_time ≤ o.first_lit.current_time + 1000
  pub falls : Shows false o.first_dark
  pub stays_dark : Steady false o.first_dark.current_time o.dark
  pub early : o.first_dark.current_time < 2 ^ 63

-- What a pulse makes of the pattern before it.
abbrev pub pattern_after : ℕ → List ℕ → Pulse → List ℕ
pattern_after since p o = kept (gap_of since o) p ++ (symbol_of (width_of o) ∷ [])

pub Steady-Quiet :
    (b : Bool) (t : ℕ) (s : Receiver) (xs : List Sample)
    → s.light_on ≡ b
    → s.last_activity_time ≡ t
    → Steady b t xs
    → Quiet s xs
Steady-Quiet b t s [] e a q = tt
Steady-Quiet b t s (x ∷ xs) e a ((near, v), q) = (
  (record { within = omega (arith, a) }, subst (λ c. Shows c x) (sym e) v),
  Steady-Quiet b t s xs e a q,
)

pub foldl-append-poll :
    (xs ys : List Sample) (s : Receiver) → foldl poll s (xs ++ ys) ≡ foldl poll (foldl poll s xs) ys
foldl-append-poll [] ys s = refl
foldl-append-poll (x ∷ xs) ys s = foldl-append-poll xs ys (poll s x)

poll_pulse :
    (s : Receiver) (o : Pulse) (p out : List ℕ) (since : ℕ)
    → Dark s p out since
    → 0 < since
    → Timely since o
    → length (kept (gap_of since o) p) < 9
    → Dark
        (foldl poll s (samples o))
        (pattern_after since p o)
        (out ++ said (gap_of since o) p)
        o.first_dark.current_time
poll_pulse s o p out since d began t room =
    let lit =
      poll_on s o.first_lit p out since d began t.after t.soon
        (omega (arith, t.after, t.long, t.early)) t.rises in
    let on = poll s o.first_lit in
    let dark =
      poll_off on o.first_dark _ _ _ lit room t.long t.short (omega (arith, t.long, t.early))
        t.falls in
    let off = poll on o.first_dark in
    rw
      (
        foldl-append-poll,
        polls-Quiet on o.lit (Steady-Quiet true _ on o.lit lit.on lit.active t.stays_lit),
        polls-Quiet off o.dark (Steady-Quiet false _ off o.dark dark.off dark.active t.stays_dark),
      )
      dark

-- The pulses of a run, each timely after the one before it, with room for every symbol.
abbrev pub AllTimely : ℕ → List ℕ → List Pulse → Type 0
AllTimely since p [] = Unit
AllTimely since p (o ∷ os) =
    Timely since o
    × (length (kept (gap_of since o) p) < 9)
    × AllTimely o.first_dark.current_time (pattern_after since p o) os

abbrev pub all_samples : List Pulse → List Sample
all_samples [] = []
all_samples (o ∷ os) = samples o ++ all_samples os

-- The pattern that the widths and gaps of the pulses leave, and the text that they spell.
pub record Reading : Type 0 where
  pub pattern : List ℕ
  pub text : List ℕ
  pub since : ℕ

unfoldable pub read_pulses : ℕ → List ℕ → List ℕ → List Pulse → Reading
read_pulses since p out [] = record { pattern = p; text = out; since = since }
read_pulses since p out (o ∷ os) =
    read_pulses o.first_dark.current_time (pattern_after since p o) (out ++ said (gap_of since o) p)
      os

pub polls-eq-read_pulses :
    (os : List Pulse) (s : Receiver) (p out : List ℕ) (since : ℕ)
    → Dark s p out since
    → 0 < since
    → AllTimely since p os
    → let r = read_pulses since p out os in
      Dark (foldl poll s (all_samples os)) r.pattern r.text r.since
unfolding read_pulses
polls-eq-read_pulses [] s p out since d began t = d
polls-eq-read_pulses (o ∷ os) s p out since d began (t, room, ts) =
    let r =
      read_pulses o.first_dark.current_time (pattern_after since p o)
        (out ++ said (gap_of since o) p) os in
    subst (λ w. Dark w r.pattern r.text r.since)
      (sym (foldl-append-poll (samples o) (all_samples os) s))
      (polls-eq-read_pulses os (foldl poll s (samples o)) (pattern_after since p o) _ _
        (poll_pulse s o p out since d began t room) (omega (arith, t.after, t.long)) ts)

timed_out : Receiver → Receiver
timed_out s = record (print_letter (codes "\n") s) { last_activity_time = 0 }

check_timeout_late :
    (s : Receiver) (now : ℕ)
    → 0 < s.morse_idx
    → 0 < s.last_activity_time
    → s.last_activity_time + 1000 < now
    → check_timeout now s ≡ timed_out s
unfolding check_timeout timed_out ◌-ℤ◌
check_timeout_late s now a b c = ground arith

pub detect_dark :
    (v : ℤ) (now : ℕ) (s : Receiver)
    → v ≤ℤ pos light_threshold
    → s.light_on ≡ false
    → detect v now s ≡ s
unfolding detect
detect_dark v now s a b = ground arith

-- A poll in the dark, more than a second after the last change, prints the pending letter and ends
-- the line, and leaves no pattern.
pub poll_timeout :
    (s : Receiver) (x : Sample) (c : ℕ) (p out : List ℕ) (since : ℕ)
    → Dark s (c ∷ p) out since
    → 0 < since
    → since + 1000 < x.current_time
    → Shows false x
    → Holds (poll s x) []
      × ((poll s x).printed ≡ out ++ (decode_morse (c ∷ p) ∷ codes "\n"))
      × ((poll s x).last_activity_time ≡ 0)
unfolding poll
poll_timeout s x c p out since d began late v =
    let printed = print_letter_lem s (c ∷ p) (codes "\n") d.holds in
    rw ended (
      unfold timed_out in
      (printed.0, printed.1 ∙ ap (λ o. o ++ (decode_morse (c ∷ p) ∷ codes "\n")) d.printed, refl))
  where
    ended : poll s x ≡ timed_out s
    ended =
        ap (detect x.adc_value x.current_time) (
          check_timeout_late s x.current_time (omega (arith, d.holds.count))
            (omega (arith, d.active)) (omega (arith, d.active)))
        ∙ detect_dark x.adc_value x.current_time (timed_out s) v
            (unfold timed_out print_letter in d.off)
