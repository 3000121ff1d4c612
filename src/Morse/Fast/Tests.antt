-- ===== src/Morse/Fast/Tests.antt =====
-- Runs of lab 5.3, and its theorems at concrete inputs.
use cse.Base.{
  ℕ, ◌+◌, ◌*◌, ◌-◌, ◌≤◌, ◌<◌, ◌≡◌, ◌≢◌, refl, true, false, some, List, [], ◌∷◌, ◌++◌, codes, length,
  arith, foldl, replicate, All, take, negsuc, signed32,
}
use cse.Morse.Code.{decode_morse, get_morse_code, toupper}
use cse.Morse.Code.RoundTrip.{RoundTrips, decode_morse-get_morse_code, get_morse_code-decode_morse}
use cse.Morse.Host.{GpioLib, atoi}
use cse.Morse.Effects.{duration, final_value, chip_closings}
use cse.Morse.Fast.Sender.{
  timing_of_dot, send_message, send_chars, send_encoded, send_morse_char, repeat, transmit,
}
use cse.Morse.Fast.Receiver.{config_of, Config, EdgeEvent, start, decode_edge}
use cse.Morse.Fast.Invariant.{decode_edges-IsSafe}
use cse.Morse.Fast.Link.{play}
use cse.Morse.Fast.Pulses.{Fits}
use cse.Morse.Fast.Transcript.{shown, held, at_start}
use cse.Morse.Fast.EndToEnd.{
  received, send_message-decode_edge, last_letter_withheld, configured-send_message,
}
use cse.Morse.Fast.Window.{config_of-Fits, Fits-default_iff}
use cse.Morse.Fast.Queue.{
  Node, Happening, edge, receive, edges, schedule, happen, NoLoss, schedule-eq-foldl,
}
use cse.Morse.Fast.Session.{units, duration-repeat, transmit_releases}

abbrev message : List ℕ
message = codes "hi, ESP 32"

abbrev unset : List ℕ
unset = replicate 10 7

abbrev default : Config
default = config_of 10000 5000

atoi_runs : atoi (codes " -12x") ≡ negsuc 11
unfolding atoi
atoi_runs = refl

decode_runs : decode_morse (codes ".--.") ≡ b'P'
unfolding decode_morse
decode_runs = refl

shown-message : shown at_start message ≡ codes "HI ESP 32"
unfolding shown toupper
shown-message = refl

received-message : (received default 10000 message unset 5).printed ≡ codes "HI ESP 3"
unfolding play start decode_edge send_message send_chars send_encoded send_morse_char timing_of_dot
    config_of decode_morse get_morse_code signed32
received-message = refl

default-Fits : Fits default 10000
default-Fits = config_of-Fits 10000 5000 (omega arith) (omega arith) (omega arith)

Fits-default_iff_example :
    (Fits (config_of 10000 5000) 11000 → (8572 ≤ 11000) × (11000 ≤ 11666))
    × ((8572 ≤ 11000) × (11000 ≤ 11666) → Fits (config_of 10000 5000) 11000)
Fits-default_iff_example = Fits-default_iff 11000

send_message-decode_edge_example :
    let s = received default 10000 message unset 5 in s.printed ++ held s ≡ codes "HI ESP 32"
unfolding shown toupper
send_message-decode_edge_example =
    send_message-decode_edge default 10000 message unset 5 default-Fits refl (omega arith)
      (omega arith) (omega arith)

configured-send_message_example :
    let s = received (config_of 10000 5000) 10000 message unset 5 in
    s.printed ++ held s ≡ codes "HI ESP 32"
unfolding shown toupper
configured-send_message_example =
    configured-send_message 10000 5000 message unset 5 (omega arith) (omega arith) (omega arith)
      refl (omega arith) (omega arith) (omega arith)

not_empty : shown at_start message ≢ []
unfolding shown toupper
not_empty e = cc

last_letter_withheld_example :
    (c : ℕ) × ((received default 10000 message unset 5).printed ++ (c ∷ []) ≡ codes "HI ESP 32")
unfolding shown toupper
last_letter_withheld_example =
    last_letter_withheld default 10000 message unset 5 default-Fits refl (omega arith) (omega arith)
      (omega arith) not_empty

decode_morse-get_morse_code_example : (p : List ℕ) × RoundTrips b'q' p
unfolding toupper
decode_morse-get_morse_code_example = decode_morse-get_morse_code b'q' refl

unknown_ne : decode_morse (codes "--..") ≢ b'?'
unfolding decode_morse
unknown_ne e = absurd (omega arith)

get_morse_code-decode_morse_example :
    get_morse_code (decode_morse (codes "--..")) ≡ some (codes "--..")
get_morse_code-decode_morse_example = get_morse_code-decode_morse b'-' (codes "-..") unknown_ne

abbrev pulse : List EdgeEvent
pulse =
    record { timestamp_us = 100; level = 1 }
    ∷ record { timestamp_us = 30100; level = 0 }
    ∷ record { timestamp_us = 130100; level = 1 }
    ∷ []

decode_edges-IsSafe_example :
    let s = foldl (decode_edge default) (start unset) pulse in
    (s.morse_idx < length s.morse_buffer)
    × All (λ c. 0 < c) (take s.morse_idx s.morse_buffer)
    × (s.total_chars ≡ s.correct_chars + s.error_chars)
decode_edges-IsSafe_example = decode_edges-IsSafe default unset pulse refl

abbrev idle : Node
idle = record { queue = []; decoder = start unset }

abbrev interleaved : List Happening
interleaved = edge 100 1 ∷ edge 30100 0 ∷ receive ∷ edge 130100 1 ∷ receive ∷ receive ∷ []

no_loss : NoLoss default idle interleaved
unfolding happen
no_loss = omega arith

schedule-eq-foldl_example :
    let n' = schedule default idle interleaved in
    foldl (decode_edge default) n'.decoder n'.queue
    ≡ foldl (decode_edge default) (foldl (decode_edge default) (start unset) []) (edges interleaved)
schedule-eq-foldl_example = schedule-eq-foldl default interleaved idle no_loss

duration-repeat_example :
    duration (repeat true (timing_of_dot 10000) 3 message)
    ≡ (3 * units message + 14 * (3 - 1)) * 10000
duration-repeat_example = duration-repeat 10000 (omega arith) 3 message

abbrev no_grant : GpioLib
no_grant = record { chip_opens = true; has_line = true; grants_output = false }

transmit_releases_example :
    let (status, done) = transmit no_grant (timing_of_dot 10000) 2 message in
    (chip_closings done ≡ 1) × (status ≡ 0 → final_value 1 done ≡ 0)
transmit_releases_example = transmit_releases no_grant (timing_of_dot 10000) 2 1 message
