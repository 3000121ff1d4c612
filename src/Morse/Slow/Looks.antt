-- ===== src/Morse/Slow/Looks.antt =====
-- The polls of lab5_2/main/lab5_2.c at their own times: the LED of lab5_1/send.c is on or off when
-- the photodiode is read, and the clock counts microseconds.
use cse.Base.{
  ℕ, ◌+◌, ◌/◌, ◌^◌, ◌<◌, ◌≤◌, ◌≡◌, refl, ap, Bool, true, false, List, [], ◌∷◌, ◌++◌, All, ltb,
  lt→ltb, le→ltb, if◌then◌else◌, ℤ, arith,
}
use native.Mathlib.Decide.{dec_lt}
use cse.Morse.Slow.Receiver.{Sample}
use cse.Morse.Slow.Changes.{Shows}

-- A round's reading, and esp_timer_get_time() when it was taken.
pub record Look : Type 0 where
  pub at : ℕ
  pub adc_value : ℤ

abbrev pub sample_of : Look → Sample
sample_of x = record { adc_value = x.adc_value; current_time = x.at / 1000 }

-- Whether the lamp is on, when it has flashed like this since a time.
unfoldable pub lit_at : ℕ → List (ℕ × ℕ) → ℕ → Bool
lit_at since [] now = false
lit_at since ((gap, width) ∷ fs) now =
    let later = lit_at (since + gap + width) fs now in
    if ltb now (since + gap) then false else if ltb now (since + gap + width) then true else later

module _ (since gap width : ℕ) (fs : List (ℕ × ℕ)) (now : ℕ) where
  pub lit_at-before : now < since + gap → lit_at since ((gap, width) ∷ fs) now ≡ false
  unfolding lit_at
  lit_at-before h = rw (lt→ltb h) refl

  pub lit_at-during :
      since + gap ≤ now → now < since + gap + width → lit_at since ((gap, width) ∷ fs) now ≡ true
  unfolding lit_at
  lit_at-during h k = rw (le→ltb h, lt→ltb k) refl

  pub lit_at-after :
      since + gap + width ≤ now
      → lit_at since ((gap, width) ∷ fs) now ≡ lit_at (since + gap + width) fs now
  unfolding lit_at
  lit_at-after h = rw (le→ltb {a = now} {b = since + gap} (omega arith), le→ltb h) refl

-- When the last flash ends.
abbrev pub ends_at : ℕ → List (ℕ × ℕ) → ℕ
ends_at since [] = since
ends_at since ((gap, width) ∷ fs) = ends_at (since + gap + width) fs

-- A look comes at most 49 ms after the one before it.
pub record Next (before : ℕ) (x : Look) : Type 0 where
  pub order : before ≤ x.at
  pub near : x.at ≤ before + 49000
  pub early : x.at < 2 ^ 63

abbrev pub Regular : ℕ → List Look → Type 0
Regular before [] = Unit
Regular before (x ∷ xs) = Next before x × Regular x.at xs

abbrev pub last_at : ℕ → List Look → ℕ
last_at before [] = before
last_at before (x ∷ xs) = last_at x.at xs

-- Every look sees the lamp as it is then.
abbrev pub Sees : ℕ → List (ℕ × ℕ) → Look → Type 0
Sees since fs x = Shows (lit_at since fs x.at) (sample_of x)

-- The looks before a time, the first one from then on, and the others.
pub record Split (P : Look → Type 0) (before t : ℕ) (xs : List Look) : Type 0 where
  pub earlier : List Look
  pub look : Look
  pub rest : List Look
  pub is : xs ≡ earlier ++ (look ∷ rest)
  pub were : All (λ x. (before ≤ x.at) × (x.at < t) × P x) earlier
  pub reached : t ≤ look.at
  pub soon : look.at < t + 49000
  pub early : look.at < 2 ^ 63
  pub seen : P look
  pub goes_on : Regular look.at rest
  pub others : All P rest
  pub last : last_at before xs ≡ last_at look.at rest

All-weaken :
    (P : Look → Type 0) (before now t : ℕ) (xs : List Look)
    → before ≤ now
    → All (λ x. (now ≤ x.at) × (x.at < t) × P x) xs
    → All (λ x. (before ≤ x.at) × (x.at < t) × P x) xs
All-weaken P before now t [] h a = tt
All-weaken P before now t (x ∷ xs) h ((o, l, p), a) =
    ((omega arith, l, p), All-weaken P before now t xs h a)

-- Regular looks that begin before a time and last until it can be split there.
pub split :
    (P : Look → Type 0) (before t : ℕ) (xs : List Look)
    → Regular before xs
    → All P xs
    → before < t
    → t ≤ last_at before xs
    → Split P before t xs
split P before t [] r a h k = absurd (omega arith)
split P before t (x ∷ xs) (n, r) (p, a) h k = elim (dec_lt x.at t) [
  | yes early ↦
      let s = split P x.at t xs r a early k in
      record {
        earlier = x ∷ s.earlier;
        look = s.look;
        rest = s.rest;
        is = ap (λ ys. x ∷ ys) s.is;
        were = ((n.order, early, p), All-weaken P before x.at t s.earlier n.order s.were);
        reached = s.reached;
        soon = s.soon;
        early = s.early;
        seen = s.seen;
        goes_on = s.goes_on;
        others = s.others;
        last = s.last;
      }
  | no late ↦ record {
    earlier = [];
    look = x;
    rest = xs;
    is = refl;
    were = tt;
    reached = omega arith;
    soon = omega (arith, n.near);
    early = n.early;
    seen = p;
    goes_on = r;
    others = a;
    last = refl;
  }
]
