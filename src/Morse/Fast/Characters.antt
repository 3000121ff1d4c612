-- ===== src/Morse/Fast/Characters.antt =====
-- What each character of lab5_3/sender/send.c adds to the text that the receiver has.
use cse.Base.{
  ℕ, ◌+◌, ◌-◌, ◌*◌, ◌^◌, ◌≤◌, ◌<◌, ◌≡◌, refl, inl, inr, true, false, some, none, List, [], ◌∷◌,
  ◌++◌, codes, ◌==◌, length, arith, append_assoc, append-nil, str_eq, Bool-cases, ==→eq,
}
use cse.Morse.Code.{get_morse_code, toupper}
use cse.Morse.Code.RoundTrip.{is_sendable, RoundTrips, decode_morse-get_morse_code}
use cse.Morse.Fast.Sender.{Timing, send_morse_char, send_encoded, send_chars}
use cse.Morse.Fast.Durations.{plain, word_rest}
use cse.Morse.Fast.Receiver.{Config}
use cse.Morse.Fast.Link.{Link, play, play-append, act, play-precise_sleep_us}
use cse.Morse.Fast.Pulses.{Fits, off_at, play-send_morse_char}
use cse.Morse.Fast.Transcript.{Place, at_start, in_word, after_word, separator, spaced, shown}
use cse.Morse.Fast.Hearing.{Heard, Hears, next_letter}

-- What a character adds to the text, and where it leaves the receiver.
record Added (dot since : ℕ) (place : Place) (c : ℕ) (l : Link) (out : List ℕ) (until : ℕ)
    : Type 0 where
  place' : Place
  text : List ℕ
  hears : Hears dot since place' l (out ++ text) until
  agrees : (m : List ℕ) → shown place (c ∷ m) ≡ text ++ shown place' m

pub code_of_space : (c : ℕ) → c ≡ b' ' → get_morse_code c ≡ some (codes "/")
unfolding get_morse_code
code_of_space c e = rw e

pub no_code : (c : ℕ) → is_sendable c ≡ false → (c == b' ') ≡ false → get_morse_code c ≡ none
unfolding get_morse_code toupper
no_code c h k = ground arith

pub space_not_sendable : (c : ℕ) → c ≡ b' ' → is_sendable c ≡ false
unfolding toupper
space_not_sendable c e = rw e

module _ (cfg : Config) (dot : ℕ) (fits : Fits cfg dot) (since until : ℕ)
    (window : until < since + 2 ^ 31) (early : until < 2 ^ 63) where
  abbrev sender : Timing
  sender = plain dot

  short : (upto : ℕ) → since ≤ upto → upto + dot * 22 ≤ until → dot * 3 < 2 ^ 31
  short upto a b = omega arith

  seven : (upto : ℕ) → since ≤ upto → upto + dot * 22 ≤ until → dot * 7 < 2 ^ 31
  seven upto a b = omega arith

  -- The code of a letter or digit, sent after what is pending.
  play_code :
      (c : ℕ) (p : List ℕ) (place : Place) (l : Link) (out : List ℕ) (upto : ℕ)
      → RoundTrips c p
      → Hears dot since place l out upto
      → upto + dot * 22 ≤ until
      → Hears dot since in_word
          (play cfg (send_morse_char true sender p) l)
          (out ++ (separator place ++ (toupper c ∷ [])))
          (upto + dot * 22)
  play_code c [] place l out upto code hears le = absurd (omega (arith, code.nonempty))
  play_code c (k ∷ r) place l out upto code hears le =
      let lit =
        next_letter cfg dot fits since until window early place hears.decoder hears.clock out
          hears.heard (omega (arith, hears.in_time)) in
      let sent =
        play-send_morse_char cfg dot fits (short upto (omega (arith, hears.late, hears.in_time)) le)
          k r _ hears.clock hears.decoder code.symbols (omega (arith, code.short)) lit hears.began
          (omega (arith, hears.in_time)) in
      record {
        clock = sent.0 + dot * 3;
        decoder = sent.1.decoder;
        is = rw hears.is sent.1.is;
        heard = (
          sent.0,
          record {
            pattern = k ∷ r;
            printed = out ++ separator place;
            dark = sent.1.dark;
            text = rw (code.decoded, append_assoc);
            nonempty = omega arith;
            started = omega (arith, hears.began);
            recent = omega (arith, hears.late);
          },
          refl,
        );
        began = omega (arith, hears.began);
        late = omega (arith, hears.late);
        in_time = omega (arith, hears.in_time);
      }

  -- A letter or digit adds itself, after its separator.
  add_letter :
      (c : ℕ) (place : Place) (l : Link) (out : List ℕ) (upto : ℕ)
      → is_sendable c ≡ true
      → Hears dot since place l out upto
      → upto + dot * 22 ≤ until
      → Added dot since place c
          (play cfg (send_encoded true sender (get_morse_code c)) l)
          out
          (upto + dot * 22)
  unfolding send_encoded play act shown
  add_letter c place l out upto h hears le =
      let (p, code) = decode_morse-get_morse_code c h in
      record {
        place' = in_word;
        text = separator place ++ (toupper c ∷ []);
        hears = rw code.code (play_code c p place l out upto code hears le);
        agrees = λ m. rw (h, append_assoc);
      }

  -- A space ends a word.
  add_space :
      (c : ℕ) (place : Place) (l : Link) (out : List ℕ) (upto : ℕ)
      → c ≡ b' '
      → Hears dot since place l out upto
      → upto + dot * 22 ≤ until
      → Added dot since place c
          (play cfg (send_encoded true sender (get_morse_code c)) l)
          out
          (upto + dot * 22)
  unfolding send_encoded play act shown send_morse_char str_eq
  add_space c place l out upto e hears le = record {
    place' = spaced place;
    text = [];
    hears =
        rw
          (
            code_of_space c e,
            append-nil,
            word_rest dot (seven upto (omega (arith, hears.late, hears.in_time)) le),
          )
          (record {
            clock = hears.clock + (dot * 7 - dot * 3);
            decoder = hears.decoder;
            is = rw (
              hears.is,
              play-precise_sleep_us cfg (dot * 7 - dot * 3) (off_at hears.clock hears.decoder)
                  (omega (arith, seven upto (omega (arith, hears.late, hears.in_time)) le)),
            );
            heard = later place hears.heard;
            began = omega (arith, hears.began);
            late = omega (arith, hears.late);
            in_time = omega (arith, hears.in_time);
          });
    agrees = λ m. rw (space_not_sendable c e, e);
  }
    where
      later :
          (q : Place)
          → Heard dot since q hears.decoder hears.clock out
          → Heard dot since (spaced q) hears.decoder (hears.clock + (dot * 7 - dot * 3)) out
      later at_start s = s
      later in_word (off, p, at) = (off, p, omega arith)
      later after_word (off, p, at) = (off, p, omega arith)

  -- Any other character is not sent.
  add_other :
      (c : ℕ) (place : Place) (l : Link) (out : List ℕ) (upto : ℕ)
      → is_sendable c ≡ false
      → (c == b' ') ≡ false
      → Hears dot since place l out upto
      → Added dot since place c
          (play cfg (send_encoded true sender (get_morse_code c)) l)
          out
          (upto + dot * 22)
  unfolding send_encoded play shown
  add_other c place l out upto h k hears = record {
    place' = place;
    text = [];
    hears =
        rw (no_code c h k, append-nil)
          (record {
            clock = hears.clock;
            decoder = hears.decoder;
            is = hears.is;
            heard = hears.heard;
            began = hears.began;
            late = hears.late;
            in_time = omega (arith, hears.in_time);
          });
    agrees = λ m. rw (h, k);
  }

  add_char :
      (c : ℕ) (place : Place) (l : Link) (out : List ℕ) (upto : ℕ)
      → Hears dot since place l out upto
      → upto + dot * 22 ≤ until
      → Added dot since place c
          (play cfg (send_encoded true sender (get_morse_code c)) l)
          out
          (upto + dot * 22)
  add_char c place l out upto hears le = elim (Bool-cases (is_sendable c)) [
    | inl yes_sent ↦ add_letter c place l out upto yes_sent hears le
    | inr not_sent ↦ elim (Bool-cases (c == b' ')) [
      | inl space ↦ add_space c place l out upto (==→eq c b' ' space) hears le
      | inr other ↦ add_other c place l out upto not_sent other hears
    ]
  ]

  -- The characters of a message add the text that they stand for.
  pub play-send_chars :
      (m : List ℕ) (place : Place) (l : Link) (out : List ℕ) (upto : ℕ)
      → Hears dot since place l out upto
      → upto + dot * 22 * length m ≤ until
      → (place' : Place) × Hears dot since place'
          (play cfg (send_chars true sender m) l)
          (out ++ shown place m)
          until
  unfolding send_chars play shown
  play-send_chars [] place l out upto hears le = (
    place,
    rw append-nil (record {
      clock = hears.clock;
      decoder = hears.decoder;
      is = hears.is;
      heard = hears.heard;
      began = hears.began;
      late = hears.late;
      in_time = omega (arith, hears.in_time);
    }),
  )
  play-send_chars (c ∷ m) place l out upto hears le =
      let added = add_char c place l out upto hears (omega arith) in
      let rest =
        play-send_chars m added.place' _ (out ++ added.text) (upto + dot * 22) added.hears
          (omega arith) in
      (rest.0, rw (play-append, added.agrees m, ← append_assoc) rest.1)
