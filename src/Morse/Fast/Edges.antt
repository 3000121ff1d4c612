-- ===== src/Morse/Fast/Edges.antt =====
-- What the decoder does at the edges of a well-timed pulse.
use cse.Base.{
  ℕ, ◌+◌, ◌-◌, ◌^◌, ◌≤◌, ◌<◌, ◌≡◌, refl, ap, ◌∙◌, List, [], ◌∷◌, ◌++◌, codes, ltb, length, arith, ℤ,
  pos, ◌≤ℤ◌, ◌<ℤ◌, ltb_ℤ-lt, ltb_ℤ-ge, leb_ℤ-le, leb_ℤ-gt, lt→ltb, Bool-cases, inl, inr, int_diff,
  int_diff-exact,
}
use cse.Morse.Code.{decode_morse}
use cse.Morse.Fast.Receiver.{
  Config, Decoder, gap_ends, rising, pulse_ends, falling, push, word_boundary, letter_boundary,
}
use cse.Morse.Fast.Buffer.{
  Holds, push-Holds, printed-push, last_falling_edge-push, word_boundary-Ended,
  letter_boundary-Ended,
}

-- The pattern, what is printed and when the light went off.
pub record Dark (s : Decoder) (p out : List ℕ) (off : ℕ) : Type 0 where
  pub holds : Holds s p
  pub printed : s.printed ≡ out
  pub fell : s.last_falling_edge ≡ off

pub record Lit (s : Decoder) (p out : List ℕ) (on : ℕ) : Type 0 where
  pub holds : Holds s p
  pub printed : s.printed ≡ out
  pub rose : s.last_rising_edge ≡ on

-- Times that differ by less than an int can hold.
pub record Near (before now : ℕ) : Type 0 where
  pub order : before ≤ now
  pub close : now < before + 2 ^ 31
  pub early : before < 2 ^ 63

int_diff-Near : (before now : ℕ) → Near before now → int_diff now before ≡ pos (now - before)
int_diff-Near before now n = int_diff-exact now before n.order n.close n.early

module _ (cfg : Config) (now : ℕ) (s : Decoder) where
  gap_none :
      {g : ℤ}
      → int_diff now s.last_falling_edge ≡ g
      → g ≤ℤ cfg.letter_gap_min_us
      → g ≤ℤ cfg.word_gap_min_us
      → gap_ends cfg now s ≡ s
  unfolding gap_ends
  gap_none {g} e a b = rw (e, ltb_ℤ-ge cfg.word_gap_min_us g b, ltb_ℤ-ge cfg.letter_gap_min_us g a)

  gap_letter :
      {g : ℤ}
      → int_diff now s.last_falling_edge ≡ g
      → cfg.letter_gap_min_us <ℤ g
      → g ≤ℤ cfg.word_gap_min_us
      → 0 < s.morse_idx
      → gap_ends cfg now s ≡ letter_boundary now s
  unfolding gap_ends
  gap_letter {g} e a b c =
      rw (e, ltb_ℤ-ge cfg.word_gap_min_us g b, ltb_ℤ-lt cfg.letter_gap_min_us g a, lt→ltb c)

  gap_word :
      {g : ℤ}
      → int_diff now s.last_falling_edge ≡ g
      → cfg.word_gap_min_us <ℤ g
      → 0 < s.morse_idx
      → gap_ends cfg now s ≡ word_boundary s
  unfolding gap_ends
  gap_word {g} e a c = rw (e, ltb_ℤ-lt cfg.word_gap_min_us g a, lt→ltb c)

  gap_empty : s.morse_idx ≡ 0 → gap_ends cfg now s ≡ s
  unfolding gap_ends
  gap_empty e = ground arith

module _ (cfg : Config) (now : ℕ) (s : Decoder) where
  rising_started :
      0 < s.last_falling_edge
      → rising cfg now s ≡ gap_ends cfg now (record s { last_rising_edge = now })
  unfolding rising
  rising_started h = rw (lt→ltb h)

  module _ (p out : List ℕ) (off : ℕ) (d : Dark s p out off) (started : 0 < off)
      (near : Near off now) where
    diff : int_diff now s.last_falling_edge ≡ pos (now - off)
    diff = rw (d.fell) (int_diff-Near off now near)

    begun : 0 < s.last_falling_edge
    begun = omega (arith, d.fell)

    -- A pulse after the gap between symbols goes on with the pattern.
    pub rising_within :
        pos (now - off) ≤ℤ cfg.letter_gap_min_us
        → pos (now - off) ≤ℤ cfg.word_gap_min_us
        → Lit (rising cfg now s) p out now
    rising_within a b =
        rw (rising_started begun, gap_none cfg now (record s { last_rising_edge = now }) diff a b)
          (record { holds = d.holds; printed = d.printed; rose = refl })

    -- A pulse after the gap between letters ends the letter.
    pub rising_letter :
        0 < length p
        → cfg.letter_gap_min_us <ℤ pos (now - off)
        → pos (now - off) ≤ℤ cfg.word_gap_min_us
        → Lit (rising cfg now s) [] (out ++ (decode_morse p ∷ [])) now
    rising_letter some_symbol a b =
        let lit : Decoder = record s { last_rising_edge = now } in
        let ended = letter_boundary-Ended now lit p d.holds in
        rw (rising_started begun, gap_letter cfg now lit diff a b (omega (arith, d.holds.count)))
          (record {
            holds = ended.holds;
            printed = ended.printed ∙ ap (λ o. o ++ (decode_morse p ∷ [])) d.printed;
            rose = ended.rise;
          })

    -- A pulse after the gap between words ends the letter and the word.
    pub rising_word :
        0 < length p
        → cfg.word_gap_min_us <ℤ pos (now - off)
        → Lit (rising cfg now s) [] (out ++ (decode_morse p ∷ codes " ")) now
    rising_word some_symbol a =
        let lit : Decoder = record s { last_rising_edge = now } in
        let ended = word_boundary-Ended lit p d.holds in
        rw (rising_started begun, gap_word cfg now lit diff a (omega (arith, d.holds.count)))
          (record {
            holds = ended.holds;
            printed = ended.printed ∙ ap (λ o. o ++ (decode_morse p ∷ codes " ")) d.printed;
            rose = ended.rise;
          })

  -- With no pattern there is nothing to end.
  pub rising_empty :
      (out : List ℕ) → Holds s [] → s.printed ≡ out → Lit (rising cfg now s) [] out now
  unfolding rising
  rising_empty out h e = elim (Bool-cases (ltb 0 s.last_falling_edge)) [
    | inl t ↦ rw (t, gap_empty cfg now (record s { last_rising_edge = now }) h.count) lit
    | inr f ↦ rw f lit
  ]
    where
      lit : Lit (record s { last_rising_edge = now }) [] out now
      lit = record { holds = h; printed = e; rose = refl }

  module _ (p out : List ℕ) (on : ℕ) (l : Lit s p out on) (started : 0 < on) (near : Near on now)
      (room : length p < 9) where
    width : int_diff now s.last_rising_edge ≡ pos (now - on)
    width = rw (l.rose) (int_diff-Near on now near)

    falling_started :
        falling cfg now s ≡ pulse_ends cfg (pos (now - on)) (record s { last_falling_edge = now })
    unfolding falling
    falling_started = rw (lt→ltb {a = 0} {b = s.last_rising_edge} (omega (arith, l.rose)), width)

    pushed :
        (c : ℕ)
        → 0 < c
        → Dark (push c (record s { last_falling_edge = now })) (p ++ (c ∷ [])) out now
    pushed c h = record {
      holds = push-Holds _ p c l.holds h room;
      printed = printed-push c _ ∙ l.printed;
      fell = last_falling_edge-push c _;
    }

    -- The end of a pulse as long as a dash adds a dash.
    pub falling_dash :
        cfg.dash_min_us ≤ℤ pos (now - on)
        → pos (now - on) ≤ℤ cfg.dash_max_us
        → Dark (falling cfg now s) (p ++ (b'-' ∷ [])) out now
    unfolding pulse_ends
    falling_dash a b =
        rw
          (
            falling_started,
            leb_ℤ-le cfg.dash_min_us (pos (now - on)) a,
            leb_ℤ-le (pos (now - on)) cfg.dash_max_us b,
          )
          (pushed b'-' (omega arith))

    -- The end of a pulse as long as a dot adds a dot.
    pub falling_dot :
        pos (now - on) <ℤ cfg.dash_min_us
        → cfg.dot_min_us ≤ℤ pos (now - on)
        → pos (now - on) ≤ℤ cfg.dot_max_us
        → Dark (falling cfg now s) (p ++ (b'.' ∷ [])) out now
    unfolding pulse_ends
    falling_dot c a b =
        rw
          (
            falling_started,
            leb_ℤ-gt cfg.dash_min_us (pos (now - on)) c,
            leb_ℤ-le cfg.dot_min_us (pos (now - on)) a,
            leb_ℤ-le (pos (now - on)) cfg.dot_max_us b,
          )
          (pushed b'.' (omega arith))
