-- ===== src/Morse/Fast/Window.antt =====
-- The speeds at which lab5_3/receiver/main/lab5_3.c understands lab5_3/sender/send.c.
use cse.Base.{ℕ, ◌*◌, ◌≤◌, ◌<◌, ◌↔◌, signed32, ◌^◌, arith}
use cse.Morse.Fast.Receiver.{config_of}
use cse.Morse.Fast.Pulses.{Fits}

-- A receiver configured for the sender's own dot tells its durations apart, for every tolerance
-- below two dots and dots of which six fit an int.
pub config_of-Fits :
    (dot tol : ℕ) → 0 < dot → tol < dot * 2 → dot * 6 < 2 ^ 31 → Fits (config_of dot tol) dot
unfolding config_of signed32
config_of-Fits dot tol h k small = ground arith

-- The receiver as it stands, with dots of 10000 us and half of that as tolerance, tells the
-- durations of a sender apart exactly when the sender's dot is from 8572 to 11666 us.
pub Fits-default_iff : (dot : ℕ) → Fits (config_of 10000 5000) dot ↔ ((8572 ≤ dot) × (dot ≤ 11666))
unfolding config_of signed32
Fits-default_iff dot =
    (λ f. (omega (arith, f.word_gap), omega (arith, f.dash_max)), λ h. omega arith)
