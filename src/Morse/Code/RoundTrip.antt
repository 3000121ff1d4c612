-- ===== src/Morse/Code/RoundTrip.antt =====
-- The code table read both ways.
use cse.Base.{
  ℕ, zero, suc, ◌+◌, ◌≤◌, ◌<◌, ◌≡◌, ◌≢◌, refl, ap, ◌∙◌, sym, ◌⊎◌, inl, inr, Bool, true, false, ◌&&◌,
  ◌||◌, Option, none, some, List, [], ◌∷◌, leb, ltb, ◌==◌, if◌then◌else◌, str_eq→eq, Bool-cases,
  Option-cases, every, every-below, arith, length, All,
}
use cse.Morse.Code.{
  entry, toupper, is_upper, is_digit, get_morse_code, entry_eq, scan, decode_morse,
}

-- A letter of either case, or a digit: what has a code of dots and dashes.
abbrev pub is_sendable : ℕ → Bool
is_sendable c = is_upper (toupper c) || is_digit (toupper c)

abbrev pub is_symbol : ℕ → Bool
is_symbol s = s == b'.' || s == b'-'

abbrev only_symbols : List ℕ → Bool
only_symbols [] = true
only_symbols (s ∷ p) = is_symbol s && only_symbols p

abbrev pub short_code : List ℕ → Bool
short_code p = ltb 0 (length p) && leb (length p) 5

-- Whether the code of a sendable character is 1 to 5 dots and dashes, and decodes to it.
abbrev code_ok : ℕ → Option (List ℕ) → Bool
code_ok c none = false
code_ok c (some p) = short_code p && only_symbols p && (decode_morse p == toupper c)

abbrev char_ok : ℕ → Bool
char_ok c = if is_sendable c then code_ok c (get_morse_code c) else true

table_ok : every char_ok 123 ≡ true
unfolding every decode_morse get_morse_code
table_ok = refl

pub record RoundTrips (c : ℕ) (p : List ℕ) : Type 0 where
  pub code : get_morse_code c ≡ some p
  pub nonempty : 0 < length p
  pub short : length p ≤ 5
  pub symbols : All (λ s. (s ≡ b'.') ⊎ (s ≡ b'-')) p
  pub decoded : decode_morse p ≡ toupper c

sendable_lt : (c : ℕ) → is_sendable c ≡ true → c < 123
unfolding toupper
sendable_lt c h = ground arith

only_symbols→All : (p : List ℕ) → only_symbols p ≡ true → All (λ s. (s ≡ b'.') ⊎ (s ≡ b'-')) p
only_symbols→All [] h = tt
only_symbols→All (s ∷ p) h = (ground arith, only_symbols→All p (ground arith))

code_ok→RoundTrips :
    (c : ℕ) (o : Option (List ℕ))
    → get_morse_code c ≡ o
    → code_ok c o ≡ true
    → (p : List ℕ) × RoundTrips c p
code_ok→RoundTrips c none e h = cc
code_ok→RoundTrips c (some p) e h = (
  p,
  record {
    code = e;
    nonempty = ground arith;
    short = ground arith;
    symbols = only_symbols→All p (ground arith);
    decoded = ground arith;
  },
)

-- Every letter and digit has a code, of one to five dots and dashes, and the receiver decodes
-- that code to the character in upper case.
pub decode_morse-get_morse_code : (c : ℕ) → is_sendable c ≡ true → (p : List ℕ) × RoundTrips c p
decode_morse-get_morse_code c h = code_ok→RoundTrips c (get_morse_code c) refl found
  where
    ok : char_ok c ≡ true
    ok = every-below char_ok 123 c (sendable_lt c h) table_ok

    found : code_ok c (get_morse_code c) ≡ true
    found = ground (arith, ok)

entry_eq→eq : (p : List ℕ) (o : Option (List ℕ)) → entry_eq p o ≡ true → o ≡ some p
entry_eq→eq p none h = cc
entry_eq→eq p (some q) h = ap some (sym (str_eq→eq p q h))

scan_sound :
    (p : List ℕ) (base rounds i : ℕ) {j : ℕ}
    → scan p base rounds i ≡ some j
    → (entry (base + j) ≡ some p) × (i ≤ j) × (j < i + rounds)
unfolding scan
scan_sound p base zero i e = cc
scan_sound p base (suc rounds) i {j} e = elim (Bool-cases (entry_eq p (entry (base + i)))) [
  | inl t ↦
      let hit : some i ≡ some j = rw (t, scan) at e in
      let same : i ≡ j = ground arith in
      (rw (← same) (entry_eq→eq p (entry (base + i)) t), omega arith, omega arith)
  | inr f ↦
      let found = scan_sound p base rounds (i + 1) (rw (f, scan) at e) in
      (found.0, omega arith, omega arith)
]

get_morse_code-letter : (j : ℕ) → j < 26 → get_morse_code (b'A' + j) ≡ entry (0 + j)
unfolding get_morse_code
get_morse_code-letter j h = ground arith

get_morse_code-digit : (j : ℕ) → j < 10 → get_morse_code (b'0' + j) ≡ entry (26 + j)
unfolding get_morse_code
get_morse_code-digit j h = ground arith

-- A pattern that the receiver decodes to a character other than '?' is that character's code.
pub get_morse_code-decode_morse :
    (s : ℕ) (p : List ℕ)
    → decode_morse (s ∷ p) ≢ b'?'
    → get_morse_code (decode_morse (s ∷ p)) ≡ some (s ∷ p)
unfolding decode_morse
get_morse_code-decode_morse s p h = elim (Option-cases (scan (s ∷ p) 0 26 0)) [
  | inl no_letter ↦ elim (Option-cases (scan (s ∷ p) 26 10 0)) [
    | inl no_digit ↦ absurd (h (rw (no_letter, no_digit)))
    | inr (j, digit) ↦
        let found = scan_sound (s ∷ p) 26 10 0 digit in
        rw (no_letter, digit) (get_morse_code-digit j (omega arith) ∙ found.0)
  ]
  | inr (j, letter) ↦
      let found = scan_sound (s ∷ p) 0 26 0 letter in
      rw letter (get_morse_code-letter j (omega arith) ∙ found.0)
]
