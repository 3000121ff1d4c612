-- ===== src/Morse/Slow/Catch.antt =====
-- The flashes of lab5_1/send.c as the polls of lab5_2/main/lab5_2.c catch them.
use cse.Base.{
  ℕ, ◌+◌, ◌*◌, ◌/◌, ◌^◌, ◌<◌, ◌≤◌, ◌≡◌, refl, ap, ◌∙◌, inl, inr, true, false, List, [], ◌∷◌, ◌++◌,
  foldl, arith, lt→ltb, le→ltb,
}
use cse.Morse.Slow.Gaps.{kept, said}
use cse.Morse.Slow.Changes.{Shows, symbol_of}
use cse.Morse.Slow.Run.{Pulse, gap_of, width_of, Steady, Timely, AllTimely, read_pulses}
use cse.Morse.Slow.Lamp.{Page, take_flash, IsWidth, IsGap, Fits}

-- A duration in microseconds, and what was measured for it in milliseconds: less than 50 ms apart.
pub record Near (us ms : ℕ) : Type 0 where
  pub less : us < ms * 1000 + 50000
  pub more : ms * 1000 < us + 50000

-- The polls see the light go on and off, and what there is between.
pub record Catches (width : ℕ) (o : Pulse) : Type 0 where
  pub rises : Shows true o.first_lit
  pub stays_lit : Steady true o.first_lit.current_time o.lit
  pub near : Near width (width_of o)
  pub falls : Shows false o.first_dark
  pub stays_dark : Steady false o.first_dark.current_time o.dark
  pub early : o.first_dark.current_time < 2 ^ 63

-- Every flash after the dark since a time is caught, and its gap is measured.
abbrev pub CatchesAll : ℕ → List (ℕ × ℕ) → List Pulse → Type 0
CatchesAll since [] [] = Unit
CatchesAll since ((gap, width) ∷ fs) (o ∷ os) =
    (since ≤ o.first_lit.current_time)
    × Near gap (gap_of since o)
    × Catches width o
    × CatchesAll o.first_dark.current_time fs os
CatchesAll since _ _ = ⊥

kept-Near : (gap ms : ℕ) (p : List ℕ) → IsGap gap → Near gap ms → kept ms p ≡ kept (gap / 1000) p
kept-Near gap ms p (inl e) n = rw (e, le→ltb {a = 250} {b = ms} (omega (arith, n.more))) refl
kept-Near gap ms p (inr (inl e)) n = rw (e, lt→ltb {a = 250} {b = ms} (omega (arith, n.less))) refl
kept-Near gap ms p (inr (inr e)) n = rw (e, lt→ltb {a = 250} {b = ms} (omega (arith, n.less))) refl

said-Near : (gap ms : ℕ) (p : List ℕ) → IsGap gap → Near gap ms → said ms p ≡ said (gap / 1000) p
said-Near gap ms [] g n = refl
said-Near gap ms (c ∷ p) (inl e) n =
    rw
      (
        e,
        le→ltb {a = 600} {b = ms} (omega (arith, n.more)),
        le→ltb {a = 250} {b = ms} (omega (arith, n.more)),
      )
      refl
said-Near gap ms (c ∷ p) (inr (inl e)) n =
    rw
      (
        e,
        le→ltb {a = 600} {b = ms} (omega (arith, n.more)),
        lt→ltb {a = 250} {b = ms} (omega (arith, n.less)),
      )
      refl
said-Near gap ms (c ∷ p) (inr (inr e)) n =
    rw (e, lt→ltb {a = 600} {b = ms} (omega (arith, n.less))) refl

pub symbol_of-Near :
    (width ms : ℕ) → IsWidth width → Near width ms → symbol_of ms ≡ symbol_of (width / 1000)
symbol_of-Near width ms (inl e) n = rw e (ground (arith, n.more, n.less))
symbol_of-Near width ms (inr e) n = rw e (ground (arith, n.more, n.less))

pub wide : (width ms : ℕ) → IsWidth width → Near width ms → (50 ≤ ms) × (ms ≤ 1000)
wide width ms (inl e) n = (omega (arith, n.less), omega (arith, n.more))
wide width ms (inr e) n = (omega (arith, n.less), omega (arith, n.more))

soon : (gap ms : ℕ) → IsGap gap → Near gap ms → ms ≤ 1000
soon gap ms (inl e) n = omega (arith, n.more)
soon gap ms (inr (inl e)) n = omega (arith, n.more)
soon gap ms (inr (inr e)) n = omega (arith, n.more)

Catches-Timely :
    (since gap width : ℕ) (o : Pulse)
    → IsGap gap
    → IsWidth width
    → since ≤ o.first_lit.current_time
    → Near gap (gap_of since o)
    → Catches width o
    → Timely since o
Catches-Timely since gap width o g w order near c =
    let bounds = wide width (width_of o) w c.near in
    let close = soon gap (gap_of since o) g near in
    record {
      after = order;
      soon = omega arith;
      rises = c.rises;
      stays_lit = c.stays_lit;
      long = omega (arith, bounds.0);
      short = omega (arith, bounds.1);
      falls = c.falls;
      stays_dark = c.stays_dark;
      early = c.early;
    }

-- The pulses are timely, and spell what the flashes stand for.
pub record Agrees (since : ℕ) (r : Page) (fs : List (ℕ × ℕ)) (os : List Pulse) : Type 0 where
  pub timely : AllTimely since r.pattern os
  pub pattern : (read_pulses since r.pattern r.text os).pattern ≡ (foldl take_flash r fs).pattern
  pub text : (read_pulses since r.pattern r.text os).text ≡ (foldl take_flash r fs).text

pub CatchesAll-Agrees :
    (since : ℕ) (r : Page) (fs : List (ℕ × ℕ)) (os : List Pulse)
    → Fits r fs
    → CatchesAll since fs os
    → Agrees since r fs os
unfolding read_pulses take_flash
CatchesAll-Agrees since r [] [] f c = record { timely = tt; pattern = refl; text = refl }
CatchesAll-Agrees since r [] (o ∷ os) f c = absurd c
CatchesAll-Agrees since r (k ∷ fs) [] f c = absurd c
CatchesAll-Agrees since r ((gap, width) ∷ fs) (o ∷ os) ((g, w, room), f) (order, near, c, cs) =
    let rest = CatchesAll-Agrees o.first_dark.current_time (take_flash r (gap, width)) fs os f cs in
    let k = kept-Near gap (gap_of since o) r.pattern g near in
    let s = said-Near gap (gap_of since o) r.pattern g near in
    let y = symbol_of-Near width (width_of o) w c.near in
    let same : read_pulses o.first_dark.current_time
          (kept (gap_of since o) r.pattern ++ (symbol_of (width_of o) ∷ []))
          (r.text ++ said (gap_of since o) r.pattern) os
        ≡ read_pulses o.first_dark.current_time (take_flash r (gap, width)).pattern
            (take_flash r (gap, width)).text os =
      rw (k, s, y) refl in
    record {
      timely =
          (Catches-Timely since gap width o g w order near c, rw k room, rw (k, y) rest.timely);
      pattern = ap (λ w. w.pattern) same ∙ rest.pattern;
      text = ap (λ w. w.text) same ∙ rest.text;
    }
