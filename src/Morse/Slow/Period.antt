-- ===== src/Morse/Slow/Period.antt =====
-- Regular polls of lab5_2/main/lab5_2.c catch every flash of lab5_1/send.c.
use cse.Base.{
  ℕ, ◌+◌, ◌*◌, ◌/◌, ◌<◌, ◌≤◌, ◌≡◌, refl, ap, ◌∙◌, sym, inl, inr, false, List, [], ◌∷◌, ◌++◌, map,
  append_assoc, All, arith,
}
use cse.Morse.Slow.Receiver.{Sample}
use cse.Morse.Slow.Changes.{Shows}
use cse.Morse.Slow.Run.{Pulse, all_samples, Steady}
use cse.Morse.Slow.Lamp.{Page, take_flash, IsGap, Fits}
use cse.Morse.Slow.Catch.{Catches, CatchesAll}
use cse.Morse.Slow.Idle.{last_change}
use cse.Morse.Slow.Looks.{Look, sample_of, lit_at, lit_at-before, ends_at, last_at, Sees, split}
use cse.Morse.Slow.Flash.{
  Since, map-append-look, Steady-looks, seen_as, Near-times, Flash, ends_at-late, flash,
}

-- The looks after a first dark one: dark ones, the pulses that they catch, and a dark look more
-- than a second after the last change with what follows it.
pub record Caught (d : Look) (xs : List Look) (fs : List (ℕ × ℕ)) : Type 0 where
  pub dark : List Sample
  pub pulses : List Pulse
  pub late : Sample
  pub rest : List Sample
  pub is : map sample_of xs ≡ dark ++ (all_samples pulses ++ (late ∷ rest))
  pub stays_dark : Steady false (d.at / 1000) dark
  pub catches : CatchesAll (d.at / 1000) fs pulses
  pub ends :
      (o : Pulse)
      → o.first_dark.current_time ≡ d.at / 1000
      → last_change o pulses + 1000 < late.current_time
  pub late_dark : Shows false late
  pub rest_dark : All (Shows false) rest

-- The dark after the last flash.
last_dark :
    (since : ℕ) (d : Look) (xs : List Look)
    → Since since d xs []
    → since + 1100000 ≤ last_at d.at xs
    → Caught d xs []
last_dark since d xs s long =
    let t = (d.at / 1000 + 1001) * 1000 in
    let p =
      split (Sees since []) d.at t xs s.regular s.sees (omega arith) (omega (arith, s.soon)) in
    record {
      dark = map sample_of p.earlier;
      pulses = [];
      late = sample_of p.look;
      rest = map sample_of p.rest;
      is = ap (map sample_of) p.is ∙ map-append-look p.earlier (p.look ∷ p.rest);
      stays_dark =
          Steady-looks false (Sees since []) d.at t (d.at / 1000) p.earlier (omega arith)
            (λ x o l v. unfold lit_at in v) p.were;
      catches = tt;
      ends = λ o e. omega (arith, p.reached);
      late_dark = unfold lit_at in p.seen;
      rest_dark = all_dark p.rest p.others;
    }
  where
    all_dark : (ys : List Look) → All (Sees since []) ys → All (Shows false) (map sample_of ys)
    all_dark [] a = tt
    all_dark (y ∷ ys) (v, a) = (unfold lit_at in v, all_dark ys a)

-- The samples of a flash and of what is caught after it.
joined :
    (dark lit dark' more : List Sample) (x y : Sample)
    → dark ++ (x ∷ (lit ++ (y ∷ (dark' ++ more)))) ≡ dark ++ ((x ∷ (lit ++ (y ∷ dark'))) ++ more)
joined dark lit dark' more x y =
    ap (λ zs. dark ++ (x ∷ zs)) (sym (append_assoc lit (y ∷ dark') more))

module _ (before since gap width : ℕ) (fs : List (ℕ × ℕ)) (xs : List Look)
    (fl : Flash before since gap width fs xs) (c : Caught fl.y fl.ys fs) where
  abbrev pub pulse_of : Pulse
  pulse_of = record {
    first_lit = sample_of fl.x;
    lit = map sample_of fl.lit;
    first_dark = sample_of fl.y;
    dark = c.dark;
  }

  pub pulse_of-Catches : Catches width pulse_of
  pulse_of-Catches = record {
    rises = fl.rises;
    stays_lit = fl.stays_lit;
    near =
        Near-times width (since + gap) (since + gap + width) fl.x.at fl.y.at refl fl.x_after
          fl.x_soon fl.next.after fl.next.soon fl.order;
    falls = fl.falls;
    stays_dark = c.stays_dark;
    early = omega (arith, fl.y_early);
  }

  pub samples-Flash :
      map sample_of xs
      ≡ map sample_of fl.dark ++ (all_samples (pulse_of ∷ c.pulses) ++ (c.late ∷ c.rest))
  samples-Flash =
      ap (map sample_of) fl.is
      ∙ map-append-look fl.dark (fl.x ∷ (fl.lit ++ (fl.y ∷ fl.ys)))
      ∙ ap (λ zs. map sample_of fl.dark ++ (sample_of fl.x ∷ zs))
          (map-append-look fl.lit (fl.y ∷ fl.ys)
            ∙ ap (λ zs. map sample_of fl.lit ++ (sample_of fl.y ∷ zs)) c.is)
      ∙ joined (map sample_of fl.dark) (map sample_of fl.lit) c.dark
          (all_samples c.pulses ++ (c.late ∷ c.rest)) (sample_of fl.x) (sample_of fl.y)
      ∙ ap (λ zs. map sample_of fl.dark ++ zs)
          (sym (
            append_assoc (sample_of fl.x ∷ (map sample_of fl.lit ++ (sample_of fl.y ∷ c.dark)))
              (all_samples c.pulses) (c.late ∷ c.rest)))

gap_bounds : (gap : ℕ) → IsGap gap → (100000 ≤ gap) × (gap ≤ 700000)
gap_bounds gap (inl e) = (omega arith, omega arith)
gap_bounds gap (inr (inl e)) = (omega arith, omega arith)
gap_bounds gap (inr (inr e)) = (omega arith, omega arith)

-- Regular looks catch every flash after a dark one.
pub catch_all :
    (fs : List (ℕ × ℕ)) (since : ℕ) (d : Look) (xs : List Look) (r : Page)
    → Fits r fs
    → Since since d xs fs
    → ends_at since fs + 1100000 ≤ last_at d.at xs
    → Caught d xs fs
catch_all [] since d xs r f s long = last_dark since d xs s long
catch_all ((gap, width) ∷ fs) since d xs r ((g, w, room), f) s long =
    let bounds = gap_bounds gap g in
    let more = ends_at-late (since + gap + width) fs in
    let fl =
      flash d.at since gap width (take_flash r (gap, width)) fs xs w f s.regular s.sees
        (omega (arith, s.soon, bounds.0)) (omega (arith, more)) in
    let c =
      catch_all fs (since + gap + width) fl.y fl.ys (take_flash r (gap, width)) f fl.next
        (omega (arith, fl.last)) in
    record {
      dark = map sample_of fl.dark;
      pulses = pulse_of d.at since gap width fs xs fl c ∷ c.pulses;
      late = c.late;
      rest = c.rest;
      is = samples-Flash d.at since gap width fs xs fl c;
      stays_dark =
          Steady-looks false (Sees since ((gap, width) ∷ fs)) d.at (since + gap) (d.at / 1000)
            fl.dark (omega (arith, s.after, bounds.1))
            (λ z o l v.
              seen_as since ((gap, width) ∷ fs) z false (lit_at-before since gap width fs z.at l) v)
            fl.were_dark;
      catches = (
        omega (arith, s.soon, fl.x_after, bounds.0),
        Near-times gap since (since + gap) d.at fl.x.at refl s.after s.soon fl.x_after fl.x_soon
            (omega (arith, s.soon, fl.x_after, bounds.0)),
        pulse_of-Catches d.at since gap width fs xs fl c,
        c.catches,
      );
      ends = λ o e. c.ends (pulse_of d.at since gap width fs xs fl c) refl;
      late_dark = c.late_dark;
      rest_dark = c.rest_dark;
    }
