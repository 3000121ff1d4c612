-- ===== src/Morse/Slow/Words.antt =====
-- The text that the flashes of a message of lab5_1/send.c stand for.
use cse.Base.{
  ℕ, ◌+◌, ◌<◌, ◌≡◌, refl, inl, inr, Bool, true, false, List, [], ◌∷◌, ◌++◌, ◌==◌, ==→eq, foldl,
  length, if◌then◌else◌, arith, append_assoc, append-nil, str_eq, Bool-cases,
}
use cse.Morse.Host.{usleep}
use cse.Morse.Code.{get_morse_code, toupper, decode_morse}
use cse.Morse.Code.RoundTrip.{is_sendable, RoundTrips, decode_morse-get_morse_code}
use cse.Morse.Fast.Transcript.{Place, at_start, in_word, after_word, separator, spaced, shown}
use cse.Morse.Fast.Characters.{code_of_space, no_code, space_not_sendable}
use cse.Morse.Slow.Sender.{send_symbol, send_morse_char, send_encoded, send_chars}
use cse.Morse.Slow.Lamp.{
  Lamp, dark_lamp, see, foldl-append, Flashed, IsSymbol, send_symbol-first, send_symbol-next,
}
use cse.Morse.Slow.Letters.{letter_ends, Flashed-wait}

-- The lamp has been dark for a time, and its flashes stand for a text, the last letter of which
-- only a longer dark will end.
pub record Waits (l : Lamp) (since : ℕ) (out : List ℕ) : Type 0 where
  pub pattern : List ℕ
  pub printed : List ℕ
  pub flashed : Flashed l since pattern printed
  pub text : printed ++ (decode_morse pattern ∷ []) ≡ out
  pub nonempty : 0 < length pattern

-- At a place of a message, the lamp has shown this text.
abbrev pub Told : Place → Lamp → List ℕ → Type 0
Told at_start l out = (since : ℕ) × (l ≡ dark_lamp since []) × (out ≡ [])
Told in_word l out = Waits l 300000 out
Told after_word l out = Waits l 700000 out

abbrev ended : Place → Bool
ended after_word = true
ended _ = false

-- From this place on, no space comes right behind the space that ended a word; characters that are
-- not sent count for nothing.
unfoldable pub single_spaced : Place → List ℕ → Bool
single_spaced place [] = true
single_spaced place (c ∷ m) =
    let letter = single_spaced in_word m in
    let space = single_spaced (spaced place) m in
    let other = single_spaced place m in
    if is_sendable c
    then letter
    else if c == b' '
    then if ended place then false else space
    else other

-- The first symbol of a letter ends what waits.
first_symbol :
    (place : Place) (l : Lamp) (out : List ℕ) (c : ℕ)
    → Told place l out
    → IsSymbol c
    → Flashed (foldl see l (send_symbol true c)) 100000 (c ∷ []) (out ++ separator place)
first_symbol at_start l out c (since, e, n) s = rw (e, n) (send_symbol-first c since s)
first_symbol in_word l out c w s = next w.pattern w.flashed w.nonempty w.text
  where
    next :
        (p : List ℕ)
        → Flashed l 300000 p w.printed
        → 0 < length p
        → w.printed ++ (decode_morse p ∷ []) ≡ out
        → Flashed (foldl see l (send_symbol true c)) 100000 (c ∷ []) (out ++ [])
    next [] f some_symbol e = absurd (omega (arith, some_symbol))
    next (k ∷ p) f some_symbol e =
        rw (append-nil, ← e)
          (send_symbol-next c 300000 l (k ∷ p) w.printed s f (inr (inl refl)) (omega arith))
first_symbol after_word l out c w s = next w.pattern w.flashed w.nonempty w.text
  where
    next :
        (p : List ℕ)
        → Flashed l 700000 p w.printed
        → 0 < length p
        → w.printed ++ (decode_morse p ∷ []) ≡ out
        → Flashed (foldl see l (send_symbol true c)) 100000 (c ∷ []) (out ++ (b' ' ∷ []))
    next [] f some_symbol e = absurd (omega (arith, some_symbol))
    next (k ∷ p) f some_symbol e =
        rw (← e, append_assoc)
          (send_symbol-next c 700000 l (k ∷ p) w.printed s f (inr (inr refl)) (omega arith))

-- The code of a letter or digit adds it, after its separator.
tell_code :
    (c : ℕ) (p : List ℕ) (place : Place) (l : Lamp) (out : List ℕ)
    → RoundTrips c p
    → Told place l out
    → Waits
        (foldl see l (send_morse_char true p))
        300000
        (out ++ (separator place ++ (toupper c ∷ [])))
tell_code c [] place l out code told = absurd (omega (arith, code.nonempty))
tell_code c (k ∷ r) place l out code told = record {
  pattern = k ∷ r;
  printed = out ++ separator place;
  flashed =
      letter_ends k r l _ code.symbols (omega (arith, code.short))
        (first_symbol place l out k told code.symbols.0);
  text = rw (code.decoded, append_assoc) refl;
  nonempty = omega arith;
}

-- What a character adds to the text, and the place where it leaves the message.
record Added (place : Place) (c : ℕ) (m : List ℕ) (l : Lamp) (out : List ℕ) : Type 0 where
  place' : Place
  text : List ℕ
  told : Told place' l (out ++ text)
  agrees : shown place (c ∷ m) ≡ text ++ shown place' m
  single : single_spaced place' m ≡ true

add_letter :
    (c : ℕ) (m : List ℕ) (place : Place) (l : Lamp) (out : List ℕ)
    → is_sendable c ≡ true
    → Told place l out
    → single_spaced place (c ∷ m) ≡ true
    → Added place c m (foldl see l (send_encoded true (get_morse_code c))) out
unfolding send_encoded see shown single_spaced
add_letter c m place l out h told single =
    let (p, code) = decode_morse-get_morse_code c h in
    record {
      place' = in_word;
      text = separator place ++ (toupper c ∷ []);
      told = rw code.code (tell_code c p place l out code told);
      agrees = rw (h, append_assoc) refl;
      single = rw h at single;
    }

-- A space ends a word, where one does.
tell_space :
    (place : Place) (l : Lamp) (out : List ℕ) (m : List ℕ)
    → Told place l out
    → (if ended place then false else single_spaced (spaced place) m) ≡ true
    → Told (spaced place) (see l (usleep 400000)) out × (single_spaced (spaced place) m ≡ true)
unfolding see
tell_space at_start l out m (since, e, n) single = ((since + 400000, rw e refl, n), single)
tell_space in_word l out m w single = (
  record {
    pattern = w.pattern;
    printed = w.printed;
    flashed = Flashed-wait l 300000 400000 w.pattern w.printed w.flashed;
    text = w.text;
    nonempty = w.nonempty;
  },
  single,
)
tell_space after_word l out m w single = cc

add_space :
    (c : ℕ) (m : List ℕ) (place : Place) (l : Lamp) (out : List ℕ)
    → c ≡ b' '
    → Told place l out
    → single_spaced place (c ∷ m) ≡ true
    → Added place c m (foldl see l (send_encoded true (get_morse_code c))) out
unfolding send_encoded see shown single_spaced send_morse_char str_eq
add_space c m place l out e told single =
    let after = tell_space place l out m told (rw (space_not_sendable c e, e) at single) in
    record {
      place' = spaced place;
      text = [];
      told = rw (code_of_space c e, append-nil) after.0;
      agrees = rw (space_not_sendable c e, e) refl;
      single = after.1;
    }

-- Any other character is not sent.
add_other :
    (c : ℕ) (m : List ℕ) (place : Place) (l : Lamp) (out : List ℕ)
    → is_sendable c ≡ false
    → (c == b' ') ≡ false
    → Told place l out
    → single_spaced place (c ∷ m) ≡ true
    → Added place c m (foldl see l (send_encoded true (get_morse_code c))) out
unfolding send_encoded see shown single_spaced
add_other c m place l out h k told single = record {
  place' = place;
  text = [];
  told = rw (no_code c h k, append-nil) told;
  agrees = rw (h, k) refl;
  single = rw (h, k) at single;
}

add_char :
    (c : ℕ) (m : List ℕ) (place : Place) (l : Lamp) (out : List ℕ)
    → Told place l out
    → single_spaced place (c ∷ m) ≡ true
    → Added place c m (foldl see l (send_encoded true (get_morse_code c))) out
add_char c m place l out told single = elim (Bool-cases (is_sendable c)) [
  | inl sent ↦ add_letter c m place l out sent told single
  | inr not_sent ↦ elim (Bool-cases (c == b' ')) [
    | inl space ↦ add_space c m place l out (==→eq c b' ' space) told single
    | inr other ↦ add_other c m place l out not_sent other told single
  ]
]

-- The flashes of a message stand for its text.
pub tell_chars :
    (m : List ℕ) (place : Place) (l : Lamp) (out : List ℕ)
    → Told place l out
    → single_spaced place m ≡ true
    → (place' : Place) × Told place' (foldl see l (send_chars true m)) (out ++ shown place m)
unfolding send_chars shown
tell_chars [] place l out told single = (place, rw append-nil told)
tell_chars (c ∷ m) place l out told single =
    let added = add_char c m place l out told single in
    let rest = tell_chars m added.place' _ (out ++ added.text) added.told added.single in
    (
      rest.0,
      rw
          (
            foldl-append see (send_encoded true (get_morse_code c)) (send_chars true m) l,
            added.agrees,
            ← append_assoc out added.text (shown added.place' m),
          )
          rest.1,
    )
