-- ===== src/Morse/Fast/Link.antt =====
-- The LED of lab5_3/sender/send.c before the photodiode of lab5_3/receiver/main/lab5_3.c. The
-- light is on while the line's value is 1; a change of it runs gpio_isr_handler, and the decoder
-- takes the event before the next change.
use cse.Base.{
  ℕ, ◌+◌, ◌*◌, ◌/◌, ◌^◌, ◌<◌, ◌≡◌, refl, List, [], ◌∷◌, ◌++◌, ◌==◌, if◌then◌else◌, arith, ap,
}
use cse.Morse.Host.{
  Action, set_value, usleep, nanosleep, print, print_sent, request_output, release_line, close_chip,
}
use cse.Morse.Fast.Sender.{precise_sleep_us}
use cse.Morse.Fast.Durations.{sleep_kept}
use cse.Morse.Fast.Receiver.{Config, Decoder, decode_edge}

pub record Link : Type 0 where
  pub level : ℕ
  pub clock : ℕ
  pub decoder : Decoder

unfoldable pub drive : Config → ℕ → Link → Link
drive cfg value l = if value == l.level then l else record l {
  level = value;
  decoder = decode_edge cfg l.decoder (record { timestamp_us = l.clock; level = value });
}

unfoldable pub act : Config → Link → Action → Link
unfolding drive
act cfg l (set_value value) = drive cfg value l
act cfg l (usleep us) = record l { clock = l.clock + us }
act cfg l (nanosleep sec nsec) = record l { clock = l.clock + (sec * 1000000 + nsec / 1000) }
act cfg l (request_output value) = drive cfg value l
act cfg l (print text) = l
act cfg l (print_sent n) = l
act cfg l release_line = l
act cfg l close_chip = l

unfoldable pub play : Config → List Action → Link → Link
unfolding act
play cfg [] l = l
play cfg (a ∷ rest) l = play cfg rest (act cfg l a)

pub play-append :
    (cfg : Config) (xs ys : List Action) (l : Link)
    → play cfg (xs ++ ys) l ≡ play cfg ys (play cfg xs l)
unfolding play
play-append cfg [] ys l = refl
play-append cfg (a ∷ rest) ys l = play-append cfg rest ys (act cfg l a)

-- precise_sleep_us takes the microseconds that it is given.
pub play-precise_sleep_us :
    (cfg : Config) (us : ℕ) (l : Link)
    → us < 2 ^ 31
    → play cfg (precise_sleep_us us) l ≡ record l { clock = l.clock + us }
unfolding play
play-precise_sleep_us cfg us l h =
    rw (sleep_kept us h)
      (ap (λ (t : ℕ). let r : Link = record l { clock = l.clock + t } in r) (omega arith))
