-- ===== src/Morse/Slow/Flash.antt =====
-- One flash of lab5_1/send.c as regular polls of lab5_2/main/lab5_2.c see it.
use cse.Base.{
  ℕ, ◌+◌, ◌-◌, ◌*◌, ◌/◌, ◌^◌, ◌<◌, ◌≤◌, ◌≡◌, refl, ap, ◌∙◌, subst, inl, inr, Bool, true, false,
  List, [], ◌∷◌, ◌++◌, map, All, arith,
}
use cse.Morse.Slow.Changes.{Shows}
use cse.Morse.Slow.Run.{Steady}
use cse.Morse.Slow.Lamp.{Page, IsWidth, IsGap, Fits}
use cse.Morse.Slow.Catch.{Near}
use cse.Morse.Slow.Looks.{
  Look, sample_of, lit_at, lit_at-before, lit_at-during, lit_at-after, ends_at, Regular, last_at,
  Sees, split,
}

-- A dark look soon after the lamp went off, and those that follow.
pub record Since (since : ℕ) (d : Look) (xs : List Look) (fs : List (ℕ × ℕ)) : Type 0 where
  pub after : since ≤ d.at
  pub soon : d.at < since + 49000
  pub regular : Regular d.at xs
  pub sees : All (Sees since fs) xs

pub map-append-look :
    (xs ys : List Look) → map sample_of (xs ++ ys) ≡ map sample_of xs ++ map sample_of ys
map-append-look [] ys = refl
map-append-look (x ∷ xs) ys = ap (λ zs. sample_of x ∷ zs) (map-append-look xs ys)

-- Looks from one time to another as samples near the first.
pub Steady-looks :
    (b : Bool) (P : Look → Type 0) (from t since : ℕ) (xs : List Look)
    → t ≤ since * 1000 + 1001000
    → ((x : Look) → from ≤ x.at → x.at < t → P x → Shows b (sample_of x))
    → All (λ x. (from ≤ x.at) × (x.at < t) × P x) xs
    → Steady b since (map sample_of xs)
Steady-looks b P from t since [] k f a = tt
Steady-looks b P from t since (x ∷ xs) k f ((o, l, p), a) =
    ((omega arith, f x o l p), Steady-looks b P from t since xs k f a)

pub seen_as :
    (since : ℕ) (fs : List (ℕ × ℕ)) (x : Look) (b : Bool)
    → lit_at since fs x.at ≡ b
    → Sees since fs x
    → Shows b (sample_of x)
seen_as since fs x b e s = subst (λ c. Shows c (sample_of x)) e s

All-Sees-after :
    (since gap width now : ℕ) (fs : List (ℕ × ℕ)) (xs : List Look)
    → since + gap + width ≤ now
    → Regular now xs
    → All (Sees since ((gap, width) ∷ fs)) xs
    → All (Sees (since + gap + width) fs) xs
All-Sees-after since gap width now fs [] h r a = tt
All-Sees-after since gap width now fs (x ∷ xs) h (n, r) (s, a) = (
  seen_as since ((gap, width) ∷ fs) x _
      (lit_at-after since gap width fs x.at (omega (arith, n.order))) s,
  All-Sees-after since gap width x.at fs xs (omega (arith, n.order)) r a,
)

-- Two times, each taken less than 49 ms late, measure what lies between them.
pub Near-times :
    (us a b x y : ℕ)
    → b ≡ a + us
    → a ≤ x
    → x < a + 49000
    → b ≤ y
    → y < b + 49000
    → x ≤ y
    → Near us (y / 1000 - x / 1000)
Near-times us a b x y e a1 a2 b1 b2 o = record { less = omega arith; more = omega arith }

-- Soon after the lamp has gone off it is still off.
dark_soon :
    (since now : ℕ) (r : Page) (fs : List (ℕ × ℕ))
    → Fits r fs
    → now < since + 49000
    → lit_at since fs now ≡ false
dark_soon since now r [] f h = unfold lit_at in refl
dark_soon since now r ((gap, width) ∷ fs) ((g, w, room), f) h =
    lit_at-before since gap width fs now (omega (arith, gap_long gap g))
  where
    gap_long : (k : ℕ) → IsGap k → 100000 ≤ k
    gap_long k (inl e) = omega arith
    gap_long k (inr (inl e)) = omega arith
    gap_long k (inr (inr e)) = omega arith

-- One flash among regular looks: those before it, those in its light, and the first after it.
pub record Flash (before since gap width : ℕ) (fs : List (ℕ × ℕ)) (xs : List Look) : Type 0 where
  pub dark : List Look
  pub were_dark :
      All (λ z. (before ≤ z.at) × (z.at < since + gap) × Sees since ((gap, width) ∷ fs) z) dark
  pub x : Look
  pub x_after : since + gap ≤ x.at
  pub x_soon : x.at < since + gap + 49000
  pub rises : Shows true (sample_of x)
  pub lit : List Look
  pub stays_lit : Steady true (x.at / 1000) (map sample_of lit)
  pub y : Look
  pub y_early : y.at < 2 ^ 63
  pub order : x.at ≤ y.at
  pub falls : Shows false (sample_of y)
  pub ys : List Look
  pub is : xs ≡ dark ++ (x ∷ (lit ++ (y ∷ ys)))
  pub next : Since (since + gap + width) y ys fs
  pub last : last_at before xs ≡ last_at y.at ys

width_bounds : (width : ℕ) → IsWidth width → (100000 ≤ width) × (width ≤ 300000)
width_bounds width (inl e) = (omega arith, omega arith)
width_bounds width (inr e) = (omega arith, omega arith)

pub ends_at-late : (since : ℕ) (fs : List (ℕ × ℕ)) → since ≤ ends_at since fs
ends_at-late since [] = omega arith
ends_at-late since ((gap, width) ∷ fs) = omega (arith, ends_at-late (since + gap + width) fs)

pub flash :
    (before since gap width : ℕ) (r : Page) (fs : List (ℕ × ℕ)) (xs : List Look)
    → IsWidth width
    → Fits r fs
    → Regular before xs
    → All (Sees since ((gap, width) ∷ fs)) xs
    → before < since + gap
    → since + gap + width ≤ last_at before xs
    → Flash before since gap width fs xs
flash before since gap width r fs xs w f reg sees early long =
    let bounds = width_bounds width w in
    let a =
      split (Sees since ((gap, width) ∷ fs)) before (since + gap) xs reg sees early (omega arith) in
    let b =
      split (Sees since ((gap, width) ∷ fs)) a.look.at (since + gap + width) a.rest a.goes_on
        a.others (omega (arith, a.soon, bounds.0)) (omega (arith, a.last)) in
    record {
      dark = a.earlier;
      were_dark = a.were;
      x = a.look;
      x_after = a.reached;
      x_soon = a.soon;
      rises =
          seen_as since ((gap, width) ∷ fs) a.look true
            (lit_at-during since gap width fs a.look.at a.reached (omega (arith, a.soon, bounds.0)))
            a.seen;
      lit = b.earlier;
      stays_lit =
          Steady-looks true (Sees since ((gap, width) ∷ fs)) a.look.at (since + gap + width)
            (a.look.at / 1000) b.earlier (omega (arith, a.reached, bounds.1))
            (λ z o l v.
              seen_as since ((gap, width) ∷ fs) z true
                (lit_at-during since gap width fs z.at (omega (arith, a.reached)) l) v)
            b.were;
      y = b.look;
      y_early = b.early;
      order = omega (arith, a.soon, b.reached, bounds.0);
      falls =
          seen_as since ((gap, width) ∷ fs) b.look false
            (lit_at-after since gap width fs b.look.at b.reached
              ∙ dark_soon (since + gap + width) b.look.at r fs f b.soon)
            b.seen;
      ys = b.rest;
      is = a.is ∙ ap (λ zs. a.earlier ++ (a.look ∷ zs)) b.is;
      next = record {
        after = b.reached;
        soon = b.soon;
        regular = b.goes_on;
        sees = All-Sees-after since gap width b.look.at fs b.rest b.reached b.goes_on b.others;
      };
      last = a.last ∙ b.last;
    }
