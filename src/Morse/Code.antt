-- ===== src/Morse/Code.antt =====
-- The code table that the senders and receivers of lab 5 share, and its two readings:
-- get_morse_code (lab5_1/send.c) and decode_morse (lab5_2/main/lab5_2.c).
pub mod RoundTrip
use cse.Base.{
  ℕ, zero, suc, ◌+◌, ◌-◌, ◌≡◌, refl, Bool, true, false, ◌&&◌, Option, none, some, List, [], ◌∷◌,
  codes, leb, ◌==◌, if◌then◌else◌, get_elem?, str_eq,
}

unfoldable pub morse_table : List (List ℕ)
morse_table =
    codes ".-"
    ∷ codes "-..."
    ∷ codes "-.-."
    ∷ codes "-.."
    ∷ codes "."
    ∷ codes "..-."
    ∷ codes "--."
    ∷ codes "...."
    ∷ codes ".."
    ∷ codes ".---"
    ∷ codes "-.-"
    ∷ codes ".-.."
    ∷ codes "--"
    ∷ codes "-."
    ∷ codes "---"
    ∷ codes ".--."
    ∷ codes "--.-"
    ∷ codes ".-."
    ∷ codes "..."
    ∷ codes "-"
    ∷ codes "..-"
    ∷ codes "...-"
    ∷ codes ".--"
    ∷ codes "-..-"
    ∷ codes "-.--"
    ∷ codes "--.."
    ∷ codes "-----"
    ∷ codes ".----"
    ∷ codes "..---"
    ∷ codes "...--"
    ∷ codes "....-"
    ∷ codes "....."
    ∷ codes "-...."
    ∷ codes "--..."
    ∷ codes "---.."
    ∷ codes "----."
    ∷ []

-- `morse_table[i]`; past the end there is no entry.
unfoldable pub entry : ℕ → Option (List ℕ)
unfolding morse_table
entry i = get_elem? morse_table i

-- toupper of the C locale
unfoldable pub toupper : ℕ → ℕ
toupper c = if leb b'a' c && leb c b'z' then c - 32 else c

abbrev pub is_upper : ℕ → Bool
is_upper c = leb b'A' c && leb c b'Z'

abbrev pub is_digit : ℕ → Bool
is_digit c = leb b'0' c && leb c b'9'

-- `none` is the NULL of a character with no code; "/" is the word separator.
unfoldable pub get_morse_code : ℕ → Option (List ℕ)
unfolding toupper entry
get_morse_code ch =
    let c = toupper ch in
    if is_upper c
    then entry (c - b'A')
    else if is_digit c
    then entry (26 + (c - b'0'))
    else if c == b' '
    then some (codes "/")
    else none

abbrev entry_eq : List ℕ → Option (List ℕ) → Bool
entry_eq pattern none = false
entry_eq pattern (some code) = str_eq pattern code

-- `for (i = ...; rounds left; i++) if (strcmp(pattern, morse_table[base + i]) == 0) return i`
scan : List ℕ → ℕ → ℕ → ℕ → Option ℕ
scan pattern base zero i = none
scan pattern base (suc rounds) i = elim (entry_eq pattern (entry (base + i))) [
  | true ↦ some i
  | false ↦ scan pattern base rounds (i + 1)
]

abbrev digit_or_unknown : Option ℕ → ℕ
digit_or_unknown (some i) = b'0' + i
digit_or_unknown none = b'?'

abbrev letter_or : Option ℕ → ℕ → ℕ
letter_or (some i) rest = b'A' + i
letter_or none rest = rest

-- The empty pattern (or NULL) decodes to the zero byte.
unfoldable pub decode_morse : List ℕ → ℕ
unfolding scan str_eq entry
decode_morse [] = 0
decode_morse (s ∷ p) = letter_or (scan (s ∷ p) 0 26 0) (digit_or_unknown (scan (s ∷ p) 26 10 0))
