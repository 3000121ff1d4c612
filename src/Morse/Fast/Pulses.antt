-- ===== src/Morse/Fast/Pulses.antt =====
-- A letter of lab5_3/sender/send.c as the receiver takes it.
use cse.Base.{
  ℕ, ◌+◌, ◌-◌, ◌*◌, ◌/◌, ◌%◌, ◌^◌, ◌≤◌, ◌<◌, ◌≡◌, ap, sym, ◌⊎◌, inl, inr, true, false, List, [],
  ◌∷◌, ◌++◌, codes, length, length-append, arith, subst, pos, ◌≤ℤ◌, ◌<ℤ◌, All, append_assoc,
  append-nil, str_eq,
}
use cse.Morse.Fast.Sender.{
  Timing, send_dot, send_dash, send_symbol, send_symbols, send_morse_char, gpio_write,
  precise_sleep_us,
}
use cse.Morse.Fast.Durations.{plain, sleep_kept, letter_rest}
use cse.Morse.Fast.Receiver.{Config, Decoder, rising, falling, decode_edge}
use cse.Morse.Fast.Link.{Link, play, play-append, act, drive, play-precise_sleep_us}
use cse.Morse.Fast.Edges.{Dark, Lit, rising_within, falling_dash, falling_dot}

-- The receiver's thresholds tell the durations apart that a sender makes with this dot.
pub record Fits (cfg : Config) (dot : ℕ) : Type 0 where
  pub dot_min : cfg.dot_min_us ≤ℤ pos dot
  pub dot_max : pos dot ≤ℤ cfg.dot_max_us
  pub not_dash : pos dot <ℤ cfg.dash_min_us
  pub dash_min : cfg.dash_min_us ≤ℤ pos (dot * 3)
  pub dash_max : pos (dot * 3) ≤ℤ cfg.dash_max_us
  pub symbol_gap : pos dot ≤ℤ cfg.letter_gap_min_us
  pub letter_gap : cfg.letter_gap_min_us <ℤ pos (dot * 3)
  pub not_word : pos (dot * 3) ≤ℤ cfg.word_gap_min_us
  pub word_gap : cfg.word_gap_min_us <ℤ pos (dot * 7)

-- The light is off.
abbrev pub off_at : ℕ → Decoder → Link
off_at clock s = record { level = 0; clock = clock; decoder = s }

slept : (us : ℕ) → us / 1000000 * 1000000 + us % 1000000 * 1000 / 1000 ≡ us
slept us = omega arith

module _ (cfg : Config) (t : Timing) (clock : ℕ) (s : Decoder)
    (gap_fits : t.symbol_gap_us < 2 ^ 31) where
  play-send_dot :
      t.dot_duration_us < 2 ^ 31
      → play cfg (send_dot true t) (off_at clock s)
        ≡ off_at
            (clock + t.dot_duration_us + t.symbol_gap_us)
            (falling cfg (clock + t.dot_duration_us) (rising cfg clock s))
  unfolding play act drive send_dot gpio_write decode_edge
  play-send_dot fits = rw (
    sleep_kept t.dot_duration_us fits,
    sleep_kept t.symbol_gap_us gap_fits,
    slept t.dot_duration_us,
    slept t.symbol_gap_us,
  )

  play-send_dash :
      t.dash_duration_us < 2 ^ 31
      → play cfg (send_dash true t) (off_at clock s)
        ≡ off_at
            (clock + t.dash_duration_us + t.symbol_gap_us)
            (falling cfg (clock + t.dash_duration_us) (rising cfg clock s))
  unfolding play act drive send_dash gpio_write decode_edge
  play-send_dash fits = rw (
    sleep_kept t.dash_duration_us fits,
    sleep_kept t.symbol_gap_us gap_fits,
    slept t.dash_duration_us,
    slept t.symbol_gap_us,
  )

-- Since time `off` the light is off, for `gap`, with this pattern pending and this text printed.
pub record After (l : Link) (p out : List ℕ) (off gap : ℕ) : Type 0 where
  pub decoder : Decoder
  pub is : l ≡ off_at (off + gap) decoder
  pub dark : Dark decoder p out off

abbrev pub IsSymbol : ℕ → Type 0
IsSymbol c = (c ≡ b'.') ⊎ (c ≡ b'-')

module _ (cfg : Config) (dot : ℕ) (fits : Fits cfg dot) (short : dot * 3 < 2 ^ 31) where
  abbrev sender : Timing
  sender = plain dot

  -- A symbol that follows a gap already taken in.
  pub play-send_symbol :
      (c clock : ℕ) (s : Decoder) (q out : List ℕ)
      → IsSymbol c
      → Lit (rising cfg clock s) q out clock
      → 0 < clock
      → clock < 2 ^ 63
      → length q < 9
      → (off : ℕ) × After
          (play cfg (send_symbol true sender c) (off_at clock s))
          (q ++ (c ∷ []))
          out
          off
          dot
        × (clock ≤ off)
        × (off ≤ clock + dot * 3)
  unfolding send_symbol
  play-send_symbol c clock s q out (inl e) lit began early room = (
    clock + dot,
    record {
      decoder = falling cfg (clock + dot) (rising cfg clock s);
      is = rw e (play-send_dot cfg sender clock s (omega arith) (omega arith));
      dark = rw e (
          falling_dot cfg (clock + dot) _ q out clock lit began
            (record { order = omega arith; close = omega arith; early = early }) room
            (omega (arith, fits.not_dash)) (omega (arith, fits.dot_min))
            (omega (arith, fits.dot_max)));
    },
    omega arith,
    omega arith,
  )
  play-send_symbol c clock s q out (inr e) lit began early room = (
    clock + dot * 3,
    record {
      decoder = falling cfg (clock + dot * 3) (rising cfg clock s);
      is = rw e (play-send_dash cfg sender clock s (omega arith) (omega arith));
      dark = rw e (
          falling_dash cfg (clock + dot * 3) _ q out clock lit began
            (record { order = omega arith; close = omega arith; early = early }) room
            (omega (arith, fits.dash_min)) (omega (arith, fits.dash_max)));
    },
    omega arith,
    omega arith,
  )

  -- The next symbols of a letter.
  pub play-send_symbols :
      (r q out : List ℕ) (l : Link) (off : ℕ)
      → All IsSymbol r
      → After l q out off dot
      → 0 < off
      → off + dot * 4 * length r < 2 ^ 63
      → length q + length r ≤ 9
      → (off' : ℕ) × After (play cfg (send_symbols true sender r) l) (q ++ r) out off' dot
        × (off ≤ off')
        × (off' ≤ off + dot * 4 * length r)
  unfolding send_symbols
  play-send_symbols [] q out l off a after began early room =
      (off, rw append-nil (unfold play in after), omega arith, omega arith)
  play-send_symbols (c ∷ r) q out l off (sym_c, a) after began early room =
      let lit : Lit (rising cfg (off + dot) after.decoder) q out (off + dot) =
        rising_within cfg (off + dot) after.decoder q out off after.dark began
          (record { order = omega arith; close = omega arith; early = omega arith })
          (omega (arith, fits.symbol_gap))
          (omega (arith, fits.symbol_gap, fits.letter_gap, fits.not_word)) in
      let first =
        play-send_symbol c (off + dot) after.decoder q out sym_c lit (omega arith) (omega arith)
          (omega arith) in
      let rest =
        play-send_symbols r (q ++ (c ∷ [])) out _ first.0 a first.1 (omega arith) (omega arith)
          (omega (arith, length-append q (c ∷ []))) in
      (
        rest.0,
        subst (λ w. After w (q ++ (c ∷ r)) out rest.0 dot) (sym (played after.is))
            (subst
              (λ v.
                After
                  (play cfg (send_symbols true sender r)
                    (play cfg (send_symbol true sender c) (off_at (off + dot) after.decoder)))
                  v out rest.0 dot)
              (append_assoc q (c ∷ []) r) rest.1),
        omega arith,
        omega arith,
      )
    where
      played :
          l ≡ off_at (off + dot) after.decoder
          → play cfg (send_symbol true sender c ++ send_symbols true sender r) l
            ≡ play cfg
                (send_symbols true sender r)
                (play cfg (send_symbol true sender c) (off_at (off + dot) after.decoder))
      played e = rw (e, play-append)

  four_symbols : (n : ℕ) → n ≤ 4 → dot * 4 * n ≤ dot * 16
  four_symbols n h = grind arith

  is_letter : (c : ℕ) (r : List ℕ) → IsSymbol c → str_eq (c ∷ r) (codes "/") ≡ false
  unfolding str_eq
  is_letter c r (inl e) = rw e
  is_letter c r (inr e) = rw e

  sleep_on :
      (l : Link) (p out : List ℕ) (off : ℕ)
      → After l p out off dot
      → After (play cfg (precise_sleep_us (dot * 3 - dot)) l) p out off (dot * 3)
  sleep_on l p out off a = record {
    decoder = a.decoder;
    is =
        rw
          (
            a.is,
            play-precise_sleep_us cfg (dot * 3 - dot) (off_at (off + dot) a.decoder) (omega arith),
          )
          (ap (λ k. off_at k a.decoder) (omega arith));
    dark = a.dark;
  }

  -- A letter whose first pulse ends what was pending is pending itself afterwards.
  pub play-send_morse_char :
      (c : ℕ) (r out : List ℕ) (clock : ℕ) (s : Decoder)
      → All IsSymbol (c ∷ r)
      → length r ≤ 4
      → Lit (rising cfg clock s) [] out clock
      → 0 < clock
      → clock + dot * 22 < 2 ^ 63
      → (off : ℕ) × After
          (play cfg (send_morse_char true sender (c ∷ r)) (off_at clock s))
          (c ∷ r)
          out
          off
          (dot * 3)
        × (clock ≤ off)
        × (off + dot * 3 ≤ clock + dot * 22)
  unfolding send_morse_char send_symbols
  play-send_morse_char c r out clock s (sym_c, a) few lit began early =
      let bound = four_symbols (length r) few in
      let first = play-send_symbol c clock s [] out sym_c lit began (omega arith) (omega arith) in
      let rest =
        play-send_symbols r (c ∷ []) out _ first.0 a first.1 (omega arith) (omega arith)
          (omega arith) in
      (
        rest.0,
        rw (is_letter c r sym_c, letter_rest dot short, play-append, play-append)
            (sleep_on _ (c ∷ r) out rest.0 rest.1),
        omega arith,
        omega arith,
      )
