-- ===== src/Shtc3/Crc.antt =====
-- What the CRC of lab2_2/main/main.c detects.
use cse.Base.{
  ℕ, zero, suc, ◌+◌, ◌/◌, ◌%◌, ◌≤◌, ◌<◌, ◌≡◌, ◌≢◌, ltb, ltb→lt, refl, ap, ◌∙◌, sym, true, false,
  Bool-cases, inl, inr, ◌==◌, ==→eq, if◌then◌else◌, every, every-below, arith, bit_and, and_bits,
  bit_xor, xor_bits,
}
use cse.Shtc3.Sensor.{crc_shift, crc_shifts, crc_byte, crc_ok}

-- At most so many bits.
abbrev Within : ℕ → ℕ → Type 0
Within zero a = a ≡ 0
Within (suc bits) a = Within bits (a / 2)

byte-Within : (a : ℕ) → a < 256 → Within 8 a
byte-Within a h = omega arith

xor-cancel :
    (bits c a b : ℕ) → Within bits a → Within bits b → xor_bits bits c a ≡ xor_bits bits c b → a ≡ b
unfolding xor_bits
xor-cancel zero c a b wa wb e = omega arith
xor-cancel (suc bits) c a b wa wb e =
    omega (arith, xor-cancel bits (c / 2) (a / 2) (b / 2) wa wb (omega arith))

xor_comm : (bits a b : ℕ) → xor_bits bits a b ≡ xor_bits bits b a
unfolding xor_bits
xor_comm zero a b = refl
xor_comm (suc bits) a b = omega (arith, xor_comm bits (a / 2) (b / 2))

-- A round of the inner loop undone: it made the number odd exactly if bit 7 was set.
unshift : ℕ → ℕ
unshift c = if c % 2 == 0 then c / 2 else bit_xor c 0x31 / 2 + 128

unshifts : ℕ → ℕ → ℕ
unshifts zero c = c
unshifts (suc left) c = unshifts left (unshift c)

shifts_table : every (λ c. unshifts 8 (crc_shifts 8 c) == c) 256 ≡ true
unfolding every unshifts unshift crc_shifts crc_shift bit_xor xor_bits bit_and and_bits
shifts_table = refl

xor-below : (a b : ℕ) → bit_xor a b < 256
unfolding bit_xor xor_bits
xor-below a b = omega arith

shifts-cancel : (a b : ℕ) → a < 256 → b < 256 → crc_shifts 8 a ≡ crc_shifts 8 b → a ≡ b
shifts-cancel a b ha hb e =
    sym (==→eq _ a (every-below (λ c. unshifts 8 (crc_shifts 8 c) == c) 256 a ha shifts_table))
    ∙ ap (unshifts 8) e
    ∙ ==→eq _ b (every-below (λ c. unshifts 8 (crc_shifts 8 c) == c) 256 b hb shifts_table)

byte-cancel : (c a b : ℕ) → a < 256 → b < 256 → crc_byte c a ≡ crc_byte c b → a ≡ b
unfolding crc_byte bit_xor
byte-cancel c a b ha hb e =
    xor-cancel 8 c a b (byte-Within a ha) (byte-Within b hb)
      (shifts-cancel (bit_xor c a) (bit_xor c b) (xor-below c a) (xor-below c b) e)

first-cancel : (a b d : ℕ) → a < 256 → b < 256 → crc_byte a d ≡ crc_byte b d → a ≡ b
unfolding crc_byte bit_xor
first-cancel a b d ha hb e = xor-cancel 8 d a b (byte-Within a ha) (byte-Within b hb) (
    xor_comm 8 d a
    ∙ shifts-cancel (bit_xor a d) (bit_xor b d) (xor-below a d) (xor-below b d) e
    ∙ xor_comm 8 b d)

below_table : every (λ c. ltb (crc_shifts 8 c) 256) 256 ≡ true
unfolding every crc_shifts crc_shift bit_xor xor_bits bit_and and_bits
below_table = refl

crc_byte-below : (c d : ℕ) → crc_byte c d < 256
unfolding crc_byte
crc_byte-below c d =
    ltb→lt _ 256
      (every-below (λ x. ltb (crc_shifts 8 x) 256) 256 (bit_xor c d) (xor-below c d) below_table)

-- A check that would hold for two words is refuted for the second.
refused : (x y k : ℕ) → (x == k) ≡ true → (x ≡ y → 1 ≤ 0) → (y == k) ≡ false
refused x y k ok apart = elim (Bool-cases (y == k)) [
  | inl both ↦ absurd (omega (arith, apart (==→eq x k ok ∙ sym (==→eq y k both))))
  | inr differs ↦ differs
]

module _ (d0 d1 k : ℕ) (h0 : d0 < 256) (h1 : d1 < 256) (ok : crc_ok d0 d1 k ≡ true) where
  pub high_corrupted : (b : ℕ) → b < 256 → b ≢ d0 → crc_ok b d1 k ≡ false
  unfolding crc_ok
  high_corrupted b hb apart = refused _ (crc_byte (crc_byte 0xFF b) d1) k ok (λ e. absurd (
      apart (
        sym (
          byte-cancel 0xFF d0 b h0 hb
            (first-cancel _ _ d1 (crc_byte-below 0xFF d0) (crc_byte-below 0xFF b) e)))))

  pub low_corrupted : (b : ℕ) → b < 256 → b ≢ d1 → crc_ok d0 b k ≡ false
  unfolding crc_ok
  low_corrupted b hb apart =
      refused _ (crc_byte (crc_byte 0xFF d0) b) k ok
        (λ e. absurd (apart (sym (byte-cancel (crc_byte 0xFF d0) d1 b h1 hb e))))

  pub crc_corrupted : (b : ℕ) → b ≢ k → crc_ok d0 d1 b ≡ false
  unfolding crc_ok
  crc_corrupted b apart = elim (Bool-cases (crc_byte (crc_byte 0xFF d0) d1 == b)) [
    | inl both ↦ absurd (apart (sym (==→eq _ b both) ∙ ==→eq _ k ok))
    | inr differs ↦ differs
  ]
