-- ===== src/Incline/Tests.antt =====
-- The inclination at concrete inputs.
use cse.Base.{◌≡◌, refl, true, [], ◌∷◌, replicate, some, none, ℤ, pos, negsuc, arith}
use cse.Mouse.Task.{addr_gnd, addr_vcc, imu_try_init, start}
use cse.Mouse.Samples.{thousandths, answers, silent}
use cse.Incline.Task.{
  Input, Settings, Start, read_axes, try_both, or_else, retry, search, configure_checked,
  configured, begin, rounds,
}
use cse.Incline.Rounds.{Kept, readings, rounds_announce}
use cse.Incline.Recovery.{Endured, rounds_endure}
use cse.Incline.Search.{Silent, searched, searched_ends, waited}

abbrev band : ℤ
band = pos 80

abbrev accepts : Settings
accepts = record { fsr_ok = true; avg_ok = true; odr_ok = true; pwr_ok = true }

-- The sensor answers at its second address, at the second try.
abbrev late : Start
late = record {
  i2cdev_ok = true;
  first = (silent, silent);
  tries = (silent, answers) ∷ [];
  settings = accepts;
}

abbrev tilted : Input
tilted = record {
  rx = some (negsuc 199);
  ry = some (pos 300);
  rz = some (pos 900);
  again = answers;
  elsewhere = answers;
}

abbrev broken : Input
broken = record {
  rx = some (pos 0);
  ry = none;
  rz = some (pos 0);
  again = silent;
  elsewhere = answers;
}

late_starts : (begin thousandths band late).0 ≡ some (start thousandths addr_vcc)
unfolding begin search retry or_else try_both imu_try_init configure_checked configured
late_starts = refl

rounds_announce_example :
    Kept thousandths band
      (rounds thousandths band (tilted ∷ broken ∷ tilted ∷ []) (start thousandths addr_vcc))
      (readings (tilted ∷ broken ∷ tilted ∷ []))
rounds_announce_example =
    rounds_announce thousandths band late (tilted ∷ broken ∷ tilted ∷ [])
      (start thousandths addr_vcc) late_starts

searched_ends_example :
    let outcome =
      searched thousandths band ((silent, silent) ∷ (silent, silent) ∷ (silent, answers) ∷ []) in
    (outcome.0 ≡ some addr_vcc) × (waited thousandths band outcome.1 ≡ 1000)
unfolding Silent
searched_ends_example =
    searched_ends thousandths band ((silent, silent) ∷ (silent, silent) ∷ []) silent answers []
      ((refl, refl), ((refl, refl), tt)) refl

rounds_endure_example :
    Endured thousandths band
      (start thousandths addr_gnd)
      7
      (rounds thousandths band (replicate 7 broken) (start thousandths addr_gnd))
unfolding start read_axes
rounds_endure_example =
    rounds_endure thousandths band (replicate 7 broken) (start thousandths addr_gnd) (omega arith)
      (refl, (refl, (refl, (refl, (refl, (refl, (refl, tt)))))))
