-- ===== src/Morse/Slow/Line.antt =====
-- A message of lab5_1/send.c as a line of text that lab5_2/main/lab5_2.c prints.
use cse.Base.{
  ℕ, ◌+◌, ◌<◌, ◌≤◌, ◌≡◌, refl, ap, ◌∙◌, sym, subst, false, List, [], ◌∷◌, ◌++◌, codes, foldl,
  length, arith, All, append_assoc, append-nil,
}
use cse.Morse.Code.{decode_morse}
use cse.Morse.Slow.Receiver.{Receiver, Sample, print_letter, check_timeout, detect, poll}
use cse.Morse.Slow.Changes.{Shows, Dark}
use cse.Morse.Slow.Run.{
  Pulse, samples, width_of, all_samples, AllTimely, foldl-append-poll, polls-eq-read_pulses,
  poll_timeout,
}
use cse.Morse.Slow.Lamp.{Lamp, Page, first_page, take_flash, IsWidth, Fits, Flashed}
use cse.Morse.Slow.Catch.{Catches, CatchesAll, CatchesAll-Agrees, wide}
use cse.Morse.Slow.Idle.{Idle, polls-Idle, first_pulse, last_change, last_change-since}

-- The flashes of a message, of which the first comes after any time, are caught.
unfoldable pub CatchesFlashes : List (ℕ × ℕ) → List Pulse → Type 0
CatchesFlashes [] [] = Unit
CatchesFlashes ((gap, width) ∷ fs) (o ∷ os) =
    Catches width o × CatchesAll o.first_dark.current_time fs os
CatchesFlashes _ _ = ⊥

-- A page behind a text.
abbrev behind : List ℕ → Page → Page
behind out r = record { pattern = r.pattern; text = out ++ r.text }

take_flash-behind :
    (out : List ℕ) (r : Page) (f : ℕ × ℕ)
    → take_flash (behind out r) f ≡ behind out (take_flash r f)
unfolding take_flash
take_flash-behind out r (gap, width) = rw append_assoc refl

foldl-behind :
    (out : List ℕ) (r : Page) (fs : List (ℕ × ℕ))
    → foldl take_flash (behind out r) fs ≡ behind out (foldl take_flash r fs)
foldl-behind out r [] = refl
foldl-behind out r (f ∷ fs) =
    ap (λ q. foldl take_flash q fs) (take_flash-behind out r f)
    ∙ foldl-behind out (take_flash r f) fs

Fits-behind : (out : List ℕ) (r : Page) (fs : List (ℕ × ℕ)) → Fits r fs → Fits (behind out r) fs
Fits-behind out r [] f = tt
Fits-behind out r ((gap, width) ∷ fs) (h, f) = (
  h,
  subst (λ q. Fits q fs) (sym (take_flash-behind out r (gap, width)))
      (Fits-behind out (take_flash r (gap, width)) fs f),
)

last_change-late :
    (o : Pulse) (os : List Pulse) (p : List ℕ)
    → AllTimely o.first_dark.current_time p os
    → o.first_dark.current_time ≤ last_change o os
last_change-late o [] p t = omega arith
last_change-late o (o' ∷ os) p (t, room, ts) =
    omega (arith, last_change-late o' os _ ts, t.after, t.long)

Dark-eq :
    (s : Receiver) {p p' out out' : List ℕ} {t t' : ℕ}
    → p ≡ p'
    → out ≡ out'
    → t ≡ t'
    → Dark s p out t
    → Dark s p' out' t'
Dark-eq s {p} {p'} {out} {out'} {t} {t'} e f g d =
    subst (λ q. Dark s q out' t') e (subst (λ q. Dark s p q t') f (subst (λ q. Dark s p out q) g d))

-- Flashes that are caught leave what they stand for.
spelled :
    (s : Receiver) (o : Pulse) (os : List Pulse) (out : List ℕ) (width : ℕ) (fs : List (ℕ × ℕ))
    (p text : List ℕ)
    → Idle s out
    → IsWidth width
    → Fits (first_page width) fs
    → foldl take_flash (first_page width) fs ≡ record { pattern = p; text = text }
    → Catches width o
    → CatchesAll o.first_dark.current_time fs os
    → Dark (foldl poll s (all_samples (o ∷ os))) p (out ++ text) (last_change o os)
      × (0 < last_change o os)
spelled s o os out width fs p text i w f reads c cs =
    let page = behind out (first_page width) in
    let agrees =
      CatchesAll-Agrees o.first_dark.current_time page fs os
        (Fits-behind out (first_page width) fs f) cs in
    let whole = foldl-behind out (first_page width) fs ∙ ap (behind out) reads in
    let began : 0 < o.first_dark.current_time =
      omega (arith, (wide width (width_of o) w c.near).0) in
    let pulse = first_pulse s o out width i w c in
    let dark =
      polls-eq-read_pulses os (foldl poll s (samples o)) page.pattern page.text
        o.first_dark.current_time (Dark-eq _ refl (sym (append-nil out)) refl pulse) began
        agrees.timely in
    (
      rw foldl-append-poll (
          Dark-eq _ (agrees.pattern ∙ ap (λ q. q.pattern) whole)
            (agrees.text ∙ ap (λ q. q.text) whole) (last_change-since o os page.pattern page.text)
            dark),
      omega (arith, began, last_change-late o os page.pattern agrees.timely),
    )

poll-off :
    (s : Receiver) (x : Sample) → Shows false x → s.light_on ≡ false → (poll s x).light_on ≡ false
unfolding poll detect check_timeout print_letter
poll-off s x v e = ground (arith, v, e)

module _ (s : Receiver) (out : List ℕ) (before : List Sample) (o : Pulse) (os : List Pulse)
    (late : Sample) (i : Idle s out) (quiet : All (Shows false) before)
    (after : last_change o os + 1000 < late.current_time) (v : Shows false late) where
  abbrev pub heard : List Sample
  heard = before ++ (all_samples (o ∷ os) ++ (late ∷ []))

  -- A letter that waits is printed at the timeout.
  ended :
      (p text : List ℕ)
      → Dark
          (foldl poll (foldl poll s before) (all_samples (o ∷ os)))
          p
          (out ++ text)
          (last_change o os)
      → 0 < last_change o os
      → 0 < length p
      → Idle (foldl poll s heard) (out ++ (text ++ (decode_morse p ∷ codes "\n")))
  ended [] text d began some_symbol = absurd (omega (arith, some_symbol))
  ended (c ∷ p) text d began some_symbol =
      let printed = poll_timeout _ late c p (out ++ text) (last_change o os) d began after v in
      rw (foldl-append-poll, foldl-append-poll)
        (record {
          holds = printed.0;
          printed = printed.1 ∙ append_assoc out text (decode_morse (c ∷ p) ∷ codes "\n");
          off = poll-off _ late v d.off;
        })

  -- The message's flashes, caught, make the line that they stand for.
  pub line_of :
      (l : Lamp) (since : ℕ) (p text : List ℕ)
      → Flashed l since p text
      → 0 < length p
      → CatchesFlashes l.flashes (o ∷ os)
      → Idle (foldl poll s heard) (out ++ (text ++ (decode_morse p ∷ codes "\n")))
  unfolding CatchesFlashes
  line_of l since p text f some_symbol caught =
      let (c, cs) = subst (λ k. CatchesFlashes k.flashes (o ∷ os)) f.is caught in
      let (dark, began) =
        spelled (foldl poll s before) o os out f.first_width f.others p text
          (rw (polls-Idle before s out i quiet) i) f.width f.fits f.reads c cs in
      ended p text dark began some_symbol
