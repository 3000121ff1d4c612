-- ===== src/Morse/Slow/Tests.antt =====
-- Runs of labs 5.1 and 5.2, and their theorems at concrete inputs.
use cse.Base.{
  zero, suc, map, leb, ltb, ◌&&◌, if◌then◌else◌, ◌≢◌, ◌≤◌, ℕ, ℤ, Option, some, ◌+◌, ◌-◌, ◌*◌, ◌^◌,
  ◌<◌, ◌≡◌, str_eq, true, ◌++◌, refl, false, List, [], ◌∷◌, codes, length, replicate, take, All,
  arith, foldl, pos,
}
use cse.Morse.Code.{toupper, get_morse_code, decode_morse}
use cse.Morse.Fast.Transcript.{at_start, shown}
use cse.Morse.Slow.Receiver.{Receiver, Sample, poll, start}
use cse.Morse.Slow.Polls.{polls-IsSafe}
use cse.Morse.Slow.Changes.{Dark}
use cse.Morse.Slow.Run.{Pulse, all_samples, read_pulses}
use cse.Morse.Slow.Sender.{
  send_message, send_chars, send_encoded, send_morse_char, send_symbols, send_symbol, send_dot,
  send_dash, gpio_write,
}
use cse.Morse.Slow.Adc.{Reading}
use cse.Morse.Slow.Lamp.{see, turn}
use cse.Morse.Slow.Words.{single_spaced}
use cse.Morse.Slow.Catch.{Near, Catches}
use cse.Morse.Slow.Idle.{Idle}
use cse.Morse.Slow.Line.{CatchesFlashes}
use cse.Morse.Slow.Looks.{Look, sample_of, lit_at, ends_at, Regular, last_at, Sees}
use cse.Morse.Slow.Timed.{send_message-regular_polls}
use cse.Morse.Slow.EndToEnd.{start-Idle, sent, send_message-poll}

abbrev unset : List ℕ
unset = replicate 10 7

abbrev bright : ℕ → Sample
bright t = record { adc_value = pos 300; current_time = t }

abbrev dim : ℕ → Sample
dim t = record { adc_value = pos 4; current_time = t }

-- One pulse with a poll in the light and one in the dark.
abbrev pulse : ℕ → ℕ → Pulse
pulse on off = record {
  first_lit = bright on;
  lit = bright (on + 20) ∷ [];
  first_dark = dim off;
  dark = dim (off + 40) ∷ [];
}

-- "AE T": the gaps are of one, three and seven dots.
abbrev pulses : List Pulse
pulses = pulse 1105 1204 ∷ pulse 1310 1607 ∷ pulse 1909 2004 ∷ pulse 2704 3001 ∷ []

abbrev waiting : Receiver
waiting = record {
  morse_buffer = unset;
  morse_idx = 0;
  light_on = false;
  light_start_time = 700;
  gap_start_time = 1000;
  last_activity_time = 1000;
  printed = [];
}

pulses-read : (read_pulses 1000 [] [] pulses).text ≡ codes "AE "
unfolding read_pulses decode_morse
pulses-read = refl

polls-IsSafe_example :
    let s = foldl poll (start unset) (bright 5 ∷ dim 300 ∷ []) in
    (s.morse_idx < length s.morse_buffer) × All (λ c. 0 < c) (take s.morse_idx s.morse_buffer)
polls-IsSafe_example = polls-IsSafe unset (bright 5 ∷ dim 300 ∷ []) refl

abbrev pending : Receiver
pending = record waiting { morse_buffer = b'-' ∷ replicate 9 7; morse_idx = 1 }

pending-Dark : Dark pending (b'-' ∷ []) [] 1000
pending-Dark = record {
  holds = record {
    size = refl;
    count = refl;
    short = omega arith;
    bytes_lem = refl;
    nonzero = (omega arith, tt);
  };
  printed = refl;
  off = refl;
  fell = refl;
  active = refl;
}

abbrev measured : (us ms : ℕ) → us < ms * 1000 + 50000 → ms * 1000 < us + 50000 → Near us ms
measured us ms a b = record { less = a; more = b }

caught : (width on off : ℕ) → Near width (off - on) → off < 2 ^ 63 → Catches width (pulse on off)
caught width on off near early = record {
  rises = omega arith;
  stays_lit = ((omega arith, omega arith), tt);
  near = near;
  falls = omega arith;
  stays_dark = ((omega arith, omega arith), tt);
  early = early;
}

-- "ae t" is sent when the line has been dark for two seconds.
ae_t-caught : CatchesFlashes (sent 2000000 (codes "ae t")).flashes pulses
unfolding CatchesFlashes sent see turn send_message send_chars send_encoded get_morse_code
    send_morse_char send_symbols send_symbol send_dot send_dash gpio_write str_eq
ae_t-caught = (
  caught 100000 1105 1204 (measured 100000 99 (omega arith) (omega arith)) (omega arith),
  (
    omega arith,
    measured 100000 106 (omega arith) (omega arith),
    caught 300000 1310 1607 (measured 300000 297 (omega arith) (omega arith)) (omega arith),
    (
      omega arith,
      measured 300000 302 (omega arith) (omega arith),
      caught 100000 1909 2004 (measured 100000 95 (omega arith) (omega arith)) (omega arith),
      (
        omega arith,
        measured 700000 700 (omega arith) (omega arith),
        caught 300000 2704 3001 (measured 300000 297 (omega arith) (omega arith)) (omega arith),
        tt,
      ),
    ),
  ),
)

send_message-poll_example :
    Idle
      (foldl poll (start unset) (dim 3 ∷ (all_samples pulses ++ (dim 4100 ∷ []))))
      (codes "AE T\n")
unfolding shown toupper
send_message-poll_example =
    send_message-poll (codes "ae t") 2000000 (start unset) [] (dim 3 ∷ []) (pulse 1105 1204)
      (pulse 1310 1607 ∷ pulse 1909 2004 ∷ pulse 2704 3001 ∷ []) (dim 4100) single
      (start-Idle unset refl) (omega arith, tt) ae_t-caught (omega arith) (omega arith)
  where
    single : single_spaced at_start (codes "ae t") ≡ true
    single = unfold single_spaced in refl

-- The converter gives millivolts.
abbrev reading : Option ℤ → Reading
reading raw = record { raw = raw; to_voltage = λ v. some v }

-- A dot that begins after a second, polled every 48 ms for 1.3 seconds.
abbrev looks : ℕ → ℕ → List Look
looks zero t = []
looks (suc n) t =
    record { at = t; adc_value = if leb 1000000 t && ltb t 1100000 then pos 40 else pos 2 }
    ∷ looks n (t + 48000)

looks-Regular : Regular 950000 (looks 27 970000)
looks-Regular = omega arith

looks-Sees : All (Sees 1000000 (sent 0 (codes "e")).flashes) (looks 27 970000)
unfolding lit_at sent see turn send_message send_chars send_encoded get_morse_code send_morse_char
    send_symbols send_symbol send_dot send_dash gpio_write str_eq
looks-Sees = omega arith

send_message-regular_polls_example :
    Idle
      (foldl poll (start unset) (map sample_of (looks 27 970000)))
      ([] ++ (shown at_start (codes "e") ++ codes "\n"))
send_message-regular_polls_example =
    send_message-regular_polls (codes "e") 1000000 950000 (start unset) [] (looks 27 970000) single
      some_letter (start-Idle unset refl) (omega arith) looks-Regular looks-Sees long
  where
    single : single_spaced at_start (codes "e") ≡ true
    single = unfold single_spaced toupper in refl

    some_letter : shown at_start (codes "e") ≢ []
    some_letter e = unfold shown toupper in grind (arith, e)

    long : ends_at 1000000 (sent 0 (codes "e")).flashes + 1100000 ≤ last_at 950000 (looks 27 970000)
    long =
        unfold sent see turn send_message send_chars send_encoded get_morse_code send_morse_char
          send_symbols send_symbol send_dot send_dash gpio_write str_eq in
        omega arith
