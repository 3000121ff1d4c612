-- ===== src/Morse/Slow/Changes.antt =====
-- What a change of the light does at a poll of lab5_2/main/lab5_2.c.
use cse.Base.{
  ℕ, ◌+◌, ◌-◌, ◌^◌, ◌≤◌, ◌<◌, ◌≡◌, refl, ap, ◌∙◌, Bool, true, false, List, [], ◌∷◌, ◌++◌, leb,
  lt→ltb, if◌then◌else◌, length, All, ℤ, pos, ◌≤ℤ◌, ◌<ℤ◌, ◌-ℤ◌, arith, foldl, int_diff,
  int_diff-exact, set,
}
use cse.Morse.Pattern.{set-Stored}
use cse.Morse.Slow.Receiver.{
  Receiver, Sample, light_threshold, check_timeout, gap_ends, light_on, push, pulse_ends, light_off,
  detect, poll,
}
use cse.Morse.Slow.Polls.{Holds}
use cse.Morse.Slow.Gaps.{
  kept, said, gap_ends_at, gap_ends-eq, gap_said, light_on-gap_ends_at,
  light_start_time-gap_ends_at, last_activity_time-gap_ends_at,
}

-- The sample shows light, or none.
abbrev pub Shows : Bool → Sample → Type 0
Shows true x = pos light_threshold <ℤ x.adc_value
Shows false x = x.adc_value ≤ℤ pos light_threshold

-- No timeout is due: a poll comes within a second of the last change.
pub record Fresh (s : Receiver) (x : Sample) : Type 0 where
  pub within : x.current_time ≤ s.last_activity_time + 1000

check_timeout-Fresh : (s : Receiver) (x : Sample) → Fresh s x → check_timeout x.current_time s ≡ s
unfolding check_timeout ◌-ℤ◌
check_timeout-Fresh s x f = ground arith

-- A poll that sees no change does nothing.
poll-Quiet : (s : Receiver) (x : Sample) → Fresh s x → Shows s.light_on x → poll s x ≡ s
unfolding poll detect
poll-Quiet s x f v = rw (check_timeout-Fresh s x f) (same s.light_on refl)
  where
    same : (b : Bool) → s.light_on ≡ b → detect x.adc_value x.current_time s ≡ s
    same true e = ground (arith, v)
    same false e = ground (arith, v)

-- Polls within a second of the last change that see no change.
abbrev pub Quiet : Receiver → List Sample → Type 0
Quiet s = All (λ x. Fresh s x × Shows s.light_on x)

pub polls-Quiet : (s : Receiver) (xs : List Sample) → Quiet s xs → foldl poll s xs ≡ s
polls-Quiet s [] q = refl
polls-Quiet s (x ∷ xs) ((f, v), q) = rw (poll-Quiet s x f v) (polls-Quiet s xs q)

-- The symbol of a pulse.
abbrev pub symbol_of : ℕ → ℕ
symbol_of width = if leb 250 width then b'-' else b'.'

-- The light is on, or off, since a time, with a pattern pending and a text printed.
pub record Lit (s : Receiver) (p out : List ℕ) (since : ℕ) : Type 0 where
  pub holds : Holds s p
  pub printed : s.printed ≡ out
  pub on : s.light_on ≡ true
  pub rose : s.light_start_time ≡ since
  pub active : s.last_activity_time ≡ since

pub record Dark (s : Receiver) (p out : List ℕ) (since : ℕ) : Type 0 where
  pub holds : Holds s p
  pub printed : s.printed ≡ out
  pub off : s.light_on ≡ false
  pub fell : s.gap_start_time ≡ since
  pub active : s.last_activity_time ≡ since

module _ (v : ℤ) (t : ℕ) (s : Receiver) where
  pub detect_on : pos light_threshold <ℤ v → s.light_on ≡ false → detect v t s ≡ light_on t s
  unfolding detect
  detect_on a b = ground arith

  detect_off : v ≤ℤ pos light_threshold → s.light_on ≡ true → detect v t s ≡ light_off t s
  unfolding detect
  detect_off a b = ground arith

abbrev pub lit_at : ℕ → Receiver → Receiver
lit_at t s = record s { light_on = true; light_start_time = t; last_activity_time = t }

abbrev dark_at : ℕ → Receiver → Receiver
dark_at t s = record s { light_on = false; gap_start_time = t; last_activity_time = t }

light_on_started :
    (t : ℕ) (s : Receiver) → 0 < s.gap_start_time → light_on t s ≡ gap_ends t (lit_at t s)
unfolding light_on
light_on_started t s h = rw (lt→ltb h)

-- A light that goes on after a gap.
pub poll_on :
    (s : Receiver) (x : Sample) (p out : List ℕ) (since : ℕ)
    → Dark s p out since
    → 0 < since
    → since ≤ x.current_time
    → x.current_time ≤ since + 1000
    → since < 2 ^ 63
    → Shows true x
    → Lit
        (poll s x)
        (kept (x.current_time - since) p)
        (out ++ said (x.current_time - since) p)
        x.current_time
unfolding poll
poll_on s x p out since d began order soon early v =
    let gap = x.current_time - since in
    let after = gap_said (lit_at x.current_time s) p gap d.holds in
    rw turned (record {
      holds = after.0;
      printed = after.1 ∙ ap (λ o. o ++ said gap p) d.printed;
      on = light_on-gap_ends_at gap (lit_at x.current_time s);
      rose = light_start_time-gap_ends_at gap (lit_at x.current_time s);
      active = last_activity_time-gap_ends_at gap (lit_at x.current_time s);
    })
  where
    turned : poll s x ≡ gap_ends_at (x.current_time - since) (lit_at x.current_time s)
    turned =
        ap (detect x.adc_value x.current_time)
          (check_timeout-Fresh s x (record { within = omega (arith, d.active) }))
        ∙ detect_on x.adc_value x.current_time s v d.off
        ∙ light_on_started x.current_time s (omega (arith, d.fell))
        ∙ gap_ends-eq x.current_time (x.current_time - since) (lit_at x.current_time s) (
            ap (int_diff x.current_time) d.fell
            ∙ int_diff-exact x.current_time since order (omega arith) early)

push-room :
    (c : ℕ) (s : Receiver)
    → s.morse_idx < 9
    → push c s
      ≡ record s { morse_buffer = set s.morse_buffer s.morse_idx c; morse_idx = s.morse_idx + 1 }
unfolding push
push-room c s h = ground arith

-- A symbol is added, and nothing else changes.
push-Dark :
    (c : ℕ) (s : Receiver) (p out : List ℕ) (since : ℕ)
    → Dark s p out since
    → 0 < c
    → length p < 9
    → Dark (push c s) (p ++ (c ∷ [])) out since
push-Dark c s p out since d pc room = rw (push-room c s (omega (arith, d.holds.count))) (record {
  holds = set-Stored s.morse_buffer s.morse_idx p d.holds c pc room;
  printed = d.printed;
  off = d.off;
  fell = d.fell;
  active = d.active;
})

-- A light that goes off after a pulse of at least half a dot.
pub poll_off :
    (s : Receiver) (x : Sample) (p out : List ℕ) (since : ℕ)
    → Lit s p out since
    → length p < 9
    → since + 50 ≤ x.current_time
    → x.current_time ≤ since + 1000
    → since < 2 ^ 63
    → Shows false x
    → Dark (poll s x) (p ++ (symbol_of (x.current_time - since) ∷ [])) out x.current_time
unfolding poll light_off
poll_off s x p out since l room long soon early v = rw turned ended
  where
    dark : Dark (dark_at x.current_time s) p out x.current_time
    dark = record { holds = l.holds; printed = l.printed; off = refl; fell = refl; active = refl }

    turned : poll s x ≡ pulse_ends (pos (x.current_time - since)) (dark_at x.current_time s)
    turned =
        ap (detect x.adc_value x.current_time)
          (check_timeout-Fresh s x (record { within = omega (arith, l.active) }))
        ∙ detect_off x.adc_value x.current_time s v l.on
        ∙ ap (λ d. pulse_ends d (dark_at x.current_time s))
            (ap (int_diff x.current_time) l.rose
              ∙ int_diff-exact x.current_time since (omega arith) (omega arith) early)

    pushed :
        (w : ℕ)
        → 50 ≤ w
        → pulse_ends (pos w) (dark_at x.current_time s)
          ≡ push (symbol_of w) (dark_at x.current_time s)
    pushed w h = unfold pulse_ends in ground arith

    ended :
        Dark
          (pulse_ends (pos (x.current_time - since)) (dark_at x.current_time s))
          (p ++ (symbol_of (x.current_time - since) ∷ []))
          out
          x.current_time
    ended =
        rw (pushed (x.current_time - since) (omega arith))
          (push-Dark (symbol_of (x.current_time - since)) _ p out _ dark (ground arith) room)
