-- ===== src/Morse/Slow/Letters.antt =====
-- What the characters of a message of lab5_1/send.c look like, flash by flash.
use cse.Base.{
  ℕ, ◌+◌, ◌≤◌, ◌≡◌, refl, inl, inr, true, false, List, [], ◌∷◌, ◌++◌, codes, foldl, length,
  length-append, arith, append_assoc, append-nil, str_eq, All,
}
use cse.Morse.Host.{usleep}
use cse.Morse.Slow.Sender.{send_symbol, send_symbols, send_morse_char}
use cse.Morse.Slow.Gaps.{said}
use cse.Morse.Slow.Lamp.{Lamp, see, foldl-append, Flashed, IsSymbol, send_symbol-next}

said_within : (p : List ℕ) → said 100 p ≡ []
said_within [] = refl
said_within (c ∷ p) = refl

send_symbols-next :
    (r : List ℕ) (l : Lamp) (p text : List ℕ)
    → All IsSymbol r
    → Flashed l 100000 p text
    → length p + length r ≤ 9
    → Flashed (foldl see l (send_symbols true r)) 100000 (p ++ r) text
unfolding send_symbols
send_symbols-next [] l p text s f room = rw append-nil f
send_symbols-next (c ∷ r) l p text (sc, s) f room =
    let next = send_symbol-next c 100000 l p text sc f (inl refl) (omega arith) in
    let here : Flashed (foldl see l (send_symbol true c)) 100000 (p ++ (c ∷ [])) text =
      rw (said_within p, append-nil) at next in
    rw (foldl-append see (send_symbol true c) (send_symbols true r) l, ← append_assoc p (c ∷ []) r)
      (send_symbols-next r _ (p ++ (c ∷ [])) text s here (omega (arith, length-append p (c ∷ []))))

-- The dark goes on.
pub Flashed-wait :
    (l : Lamp) (since us : ℕ) (p text : List ℕ)
    → Flashed l since p text
    → Flashed (see l (usleep us)) (since + us) p text
unfolding see
Flashed-wait l since us p text f = record {
  first_gap = f.first_gap;
  first_width = f.first_width;
  others = f.others;
  is = rw f.is refl;
  width = f.width;
  fits = f.fits;
  reads = f.reads;
}

is_letter : (c : ℕ) (r : List ℕ) → IsSymbol c → str_eq (c ∷ r) (codes "/") ≡ false
unfolding str_eq
is_letter c r (inl e) = rw e
is_letter c r (inr e) = rw e

-- A letter goes on where its first symbol has begun.
pub letter_ends :
    (c : ℕ) (r : List ℕ) (l : Lamp) (text : List ℕ)
    → All IsSymbol (c ∷ r)
    → length r ≤ 4
    → Flashed (foldl see l (send_symbol true c)) 100000 (c ∷ []) text
    → Flashed (foldl see l (send_morse_char true (c ∷ r))) 300000 (c ∷ r) text
unfolding send_morse_char send_symbols
letter_ends c r l text (sc, s) few f =
    rw
      (
        is_letter c r sc,
        foldl-append see (send_symbol true c ++ send_symbols true r) _ l,
        foldl-append see (send_symbol true c) (send_symbols true r) l,
      )
      (Flashed-wait _ 100000 200000 (c ∷ r) text
        (send_symbols-next r _ (c ∷ []) text s f (omega arith)))
