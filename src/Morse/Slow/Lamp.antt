-- ===== src/Morse/Slow/Lamp.antt =====
-- The LED of lab5_1/send.c as somebody sees it: flashes, each with the dark before it and its
-- width in microseconds, and what a reader who knows the thresholds of lab5_2/main/lab5_2.c makes
-- of them. The light is on while the line's value is 0.
use cse.Base.{
  ℕ, ◌+◌, ◌*◌, ◌/◌, ◌<◌, ◌≡◌, refl, ap, ◌∙◌, sym, ◌⊎◌, inl, inr, Bool, true, false, List, [], ◌∷◌,
  ◌++◌, ◌==◌, foldl, length, if◌then◌else◌,
}
use cse.Morse.Host.{
  Action, set_value, usleep, nanosleep, print, print_sent, request_output, release_line, close_chip,
}
use cse.Morse.Slow.Sender.{gpio_write, send_dot, send_dash, send_symbol}
use cse.Morse.Slow.Gaps.{kept, said}
use cse.Morse.Slow.Changes.{symbol_of}

-- Whether the light is on, since when, the dark before it, and the flashes that have ended.
pub record Lamp : Type 0 where
  pub lit : Bool
  pub since : ℕ
  pub gap : ℕ
  pub flashes : List (ℕ × ℕ)

abbrev pub dark_lamp : ℕ → List (ℕ × ℕ) → Lamp
dark_lamp since flashes = record { lit = false; since = since; gap = 0; flashes = flashes }

unfoldable pub turn : Bool → Lamp → Lamp
turn true l =
    if l.lit then l else record { lit = true; since = 0; gap = l.since; flashes = l.flashes }
turn false l = if l.lit then dark_lamp 0 (l.flashes ++ ((l.gap, l.since) ∷ [])) else l

unfoldable pub see : Lamp → Action → Lamp
see l (set_value value) = turn (value == 0) l
see l (request_output value) = turn (value == 0) l
see l (usleep us) = record l { since = l.since + us }
see l (nanosleep sec nsec) = record l { since = l.since + (sec * 1000000 + nsec / 1000) }
see l (print text) = l
see l (print_sent n) = l
see l release_line = l
see l close_chip = l

pub foldl-append {ℓ κ} :
    {A : Type ℓ} {B : Type κ} (f : B → A → B) (xs ys : List A) (b : B)
    → foldl f b (xs ++ ys) ≡ foldl f (foldl f b xs) ys
foldl-append f [] ys b = refl
foldl-append f (x ∷ xs) ys b = foldl-append f xs ys (f b x)

-- A pattern pending and the text before it.
pub record Page : Type 0 where
  pub pattern : List ℕ
  pub text : List ℕ

unfoldable pub take_flash : Page → ℕ × ℕ → Page
take_flash r (gap, width) = record {
  pattern = kept (gap / 1000) r.pattern ++ (symbol_of (width / 1000) ∷ []);
  text = r.text ++ said (gap / 1000) r.pattern;
}

-- The first flash ends nothing.
abbrev pub first_page : ℕ → Page
first_page width = record { pattern = symbol_of (width / 1000) ∷ []; text = [] }

abbrev pub IsWidth : ℕ → Type 0
IsWidth w = (w ≡ 100000) ⊎ (w ≡ 300000)

abbrev pub IsGap : ℕ → Type 0
IsGap g = (g ≡ 100000) ⊎ ((g ≡ 300000) ⊎ (g ≡ 700000))

-- Durations that the sender makes, with room for every symbol.
abbrev pub Fits : Page → List (ℕ × ℕ) → Type 0
Fits r [] = Unit
Fits r ((gap, width) ∷ fs) =
    (IsGap gap × IsWidth width × (length (kept (gap / 1000) r.pattern) < 9))
    × Fits (take_flash r (gap, width)) fs

Fits-append :
    (r : Page) (fs : List (ℕ × ℕ)) (gap width : ℕ)
    → Fits r fs
    → IsGap gap
    → IsWidth width
    → length (kept (gap / 1000) (foldl take_flash r fs).pattern) < 9
    → Fits r (fs ++ ((gap, width) ∷ []))
Fits-append r [] gap width f g w room = ((g, w, room), tt)
Fits-append r (k ∷ fs) gap width f g w room =
    (f.0, Fits-append (take_flash r k) fs gap width f.1 g w room)

-- The lamp has been dark for a time, with a pattern pending and a text behind the flashes before.
pub record Flashed (l : Lamp) (since : ℕ) (p text : List ℕ) : Type 0 where
  pub first_gap : ℕ
  pub first_width : ℕ
  pub others : List (ℕ × ℕ)
  pub is : l ≡ dark_lamp since ((first_gap, first_width) ∷ others)
  pub width : IsWidth first_width
  pub fits : Fits (first_page first_width) others
  pub reads : foldl take_flash (first_page first_width) others ≡ record { pattern = p; text = text }

abbrev pub IsSymbol : ℕ → Type 0
IsSymbol c = (c ≡ b'.') ⊎ (c ≡ b'-')

abbrev width_of : {c : ℕ} → IsSymbol c → ℕ
width_of (inl e) = 100000
width_of (inr e) = 300000

IsWidth-width_of : {c : ℕ} (s : IsSymbol c) → IsWidth (width_of s)
IsWidth-width_of (inl e) = inl refl
IsWidth-width_of (inr e) = inr refl

symbol_of-width_of : {c : ℕ} (s : IsSymbol c) → symbol_of (width_of s / 1000) ≡ c
symbol_of-width_of (inl e) = sym e
symbol_of-width_of (inr e) = sym e

see-send_symbol :
    (c since : ℕ) (flashes : List (ℕ × ℕ)) (s : IsSymbol c)
    → foldl see (dark_lamp since flashes) (send_symbol true c)
      ≡ dark_lamp 100000 (flashes ++ ((since, width_of s) ∷ []))
unfolding see turn send_symbol send_dot send_dash gpio_write
see-send_symbol c since flashes (inl e) = rw e refl
see-send_symbol c since flashes (inr e) = rw e refl

-- The first symbol of a message.
pub send_symbol-first :
    (c since : ℕ)
    → IsSymbol c
    → Flashed (foldl see (dark_lamp since []) (send_symbol true c)) 100000 (c ∷ []) []
send_symbol-first c since s = record {
  first_gap = since;
  first_width = width_of s;
  others = [];
  is = see-send_symbol c since [] s;
  width = IsWidth-width_of s;
  fits = tt;
  reads =
      ap (λ k. let r : Page = record { pattern = k ∷ []; text = [] } in r) (symbol_of-width_of s);
}

-- A symbol after a gap.
pub send_symbol-next :
    (c since : ℕ) (l : Lamp) (p text : List ℕ)
    → IsSymbol c
    → Flashed l since p text
    → IsGap since
    → length (kept (since / 1000) p) < 9
    → Flashed
        (foldl see l (send_symbol true c))
        100000
        (kept (since / 1000) p ++ (c ∷ []))
        (text ++ said (since / 1000) p)
unfolding take_flash
send_symbol-next c since l p text s f g room = record {
  first_gap = f.first_gap;
  first_width = f.first_width;
  others = f.others ++ ((since, width_of s) ∷ []);
  is = rw f.is (see-send_symbol c since ((f.first_gap, f.first_width) ∷ f.others) s);
  width = f.width;
  fits =
      Fits-append (first_page f.first_width) f.others since (width_of s) f.fits g
        (IsWidth-width_of s) (rw f.reads room);
  reads =
      foldl-append take_flash f.others ((since, width_of s) ∷ []) (first_page f.first_width)
      ∙ rw (f.reads, symbol_of-width_of s) refl;
}
