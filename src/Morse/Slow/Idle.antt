-- ===== src/Morse/Slow/Idle.antt =====
-- The receiver of lab5_2/main/lab5_2.c while it waits in the dark, and the first pulse after that.
use cse.Base.{ℕ, ◌≡◌, refl, ap, ◌∙◌, true, false, List, [], ◌∷◌, foldl, arith, All}
use cse.Morse.Slow.Receiver.{Receiver, Sample, check_timeout, gap_ends, light_on, detect, poll}
use cse.Morse.Slow.Polls.{Holds}
use cse.Morse.Slow.Changes.{Shows, polls-Quiet, Lit, Dark, lit_at, detect_on, poll_off}
use cse.Morse.Slow.Run.{
  Pulse, samples, width_of, read_pulses, Steady-Quiet, foldl-append-poll, detect_dark,
}
use cse.Morse.Slow.Lamp.{first_page, IsWidth}
use cse.Morse.Slow.Catch.{Catches, symbol_of-Near, wide}

-- In the dark with no pattern pending, and with this text printed.
pub record Idle (s : Receiver) (out : List ℕ) : Type 0 where
  pub holds : Holds s []
  pub printed : s.printed ≡ out
  pub off : s.light_on ≡ false

check_timeout-Idle : (s : Receiver) (now : ℕ) → s.morse_idx ≡ 0 → check_timeout now s ≡ s
unfolding check_timeout
check_timeout-Idle s now e = ground (arith, e)

poll-Idle : (s : Receiver) (x : Sample) (out : List ℕ) → Idle s out → Shows false x → poll s x ≡ s
unfolding poll
poll-Idle s x out i v =
    ap (detect x.adc_value x.current_time) (check_timeout-Idle s x.current_time i.holds.count)
    ∙ detect_dark x.adc_value x.current_time s v i.off

pub polls-Idle :
    (xs : List Sample) (s : Receiver) (out : List ℕ)
    → Idle s out
    → All (Shows false) xs
    → foldl poll s xs ≡ s
polls-Idle [] s out i v = refl
polls-Idle (x ∷ xs) s out i (v, vs) = rw (poll-Idle s x out i v) (polls-Idle xs s out i vs)

light_on-Idle : (t : ℕ) (s : Receiver) → s.morse_idx ≡ 0 → light_on t s ≡ lit_at t s
unfolding light_on gap_ends
light_on-Idle t s e = ground (arith, e)

poll_first :
    (s : Receiver) (x : Sample) (out : List ℕ)
    → Idle s out
    → Shows true x
    → Lit (poll s x) [] out x.current_time
unfolding poll
poll_first s x out i v =
    rw turned
      (record { holds = i.holds; printed = i.printed; on = refl; rose = refl; active = refl })
  where
    turned :
        detect x.adc_value x.current_time (check_timeout x.current_time s) ≡ lit_at x.current_time s
    turned =
        ap (detect x.adc_value x.current_time) (check_timeout-Idle s x.current_time i.holds.count)
        ∙ detect_on x.adc_value x.current_time s v i.off
        ∙ light_on-Idle x.current_time s i.holds.count

-- The first pulse of a message, whenever it comes.
pub first_pulse :
    (s : Receiver) (o : Pulse) (out : List ℕ) (width : ℕ)
    → Idle s out
    → IsWidth width
    → Catches width o
    → Dark (foldl poll s (samples o)) (first_page width).pattern out o.first_dark.current_time
first_pulse s o out width i w c =
    let bounds = wide width (width_of o) w c.near in
    let on = poll s o.first_lit in
    let lit = poll_first s o.first_lit out i c.rises in
    let dark =
      poll_off on o.first_dark [] out o.first_lit.current_time lit (omega arith)
        (omega (arith, bounds.0)) (omega (arith, bounds.1)) (omega (arith, bounds.0, c.early))
        c.falls in
    let off = poll on o.first_dark in
    rw
      (
        foldl-append-poll,
        polls-Quiet on o.lit (Steady-Quiet true _ on o.lit lit.on lit.active c.stays_lit),
        polls-Quiet off o.dark (Steady-Quiet false _ off o.dark dark.off dark.active c.stays_dark),
        ← symbol_of-Near width (width_of o) w c.near,
      )
      dark

-- When the light went off last.
abbrev pub last_change : Pulse → List Pulse → ℕ
last_change o [] = o.first_dark.current_time
last_change o (o' ∷ os) = last_change o' os

pub last_change-since :
    (o : Pulse) (os : List Pulse) (p text : List ℕ)
    → (read_pulses o.first_dark.current_time p text os).since ≡ last_change o os
unfolding read_pulses
last_change-since o [] p text = refl
last_change-since o (o' ∷ os) p text = last_change-since o' os _ _
