-- ===== src/Weather/Decimal.antt =====
-- The digits that %d prints (lab7_2 and lab7_3, main/http_request_example_main.c), and the number
-- that they stand for.
use cse.Base.{
  ℕ, zero, suc, ◌+◌, ◌-◌, ◌*◌, ◌/◌, ◌%◌, ◌≤◌, ◌<◌, ◌≡◌, refl, ap, ◌∙◌, ◌&&◌, List, [], ◌∷◌, ◌++◌,
  length, length-append, All, All-append, leb, lt→ltb, le→ltb, if◌then◌else◌, arith,
}
use native.Mathlib.Decide.{dec_lt}
use cse.Weather.Http.{digits, decimal}

abbrev pub IsDigit : ℕ → Type 0
IsDigit c = (b'0' ≤ c) × (c ≤ b'9')

unfoldable pub value : ℕ → List ℕ → ℕ
value acc [] = acc
value acc (c ∷ s) = value (acc * 10 + (c - b'0')) s

-- The number that a text begins with.
unfoldable pub number : ℕ → List ℕ → ℕ
number acc [] = acc
number acc (c ∷ s) =
    let more = number (acc * 10 + (c - b'0')) s in if leb b'0' c && leb c b'9' then more else acc

value-append : (acc : ℕ) (s t : List ℕ) → value acc (s ++ t) ≡ value (value acc s) t
unfolding value
value-append acc [] t = refl
value-append acc (c ∷ s) t = value-append (acc * 10 + (c - b'0')) s t

digits_last :
    (fuel n : ℕ) → 10 ≤ n → digits (suc fuel) n ≡ digits fuel (n / 10) ++ ((b'0' + n % 10) ∷ [])
unfolding digits
digits_last fuel n h = rw (le→ltb h) refl

digits_one : (fuel n : ℕ) → n < 10 → digits (suc fuel) n ≡ (b'0' + n) ∷ []
unfolding digits
digits_one fuel n h = rw (lt→ltb h) refl

digits-IsDigit : (fuel n : ℕ) → All IsDigit (digits fuel n)
digits-IsDigit zero n = unfold digits in tt
digits-IsDigit (suc fuel) n = elim (dec_lt n 10) [
  | yes one ↦ rw (digits_one fuel n one) (omega arith)
  | no more ↦
      rw (digits_last fuel n (omega arith))
        (All-append IsDigit (digits fuel (n / 10)) _ (digits-IsDigit fuel (n / 10)) (omega arith))
]

value-digits : (fuel n : ℕ) → n < fuel → value 0 (digits fuel n) ≡ n
unfolding value
value-digits zero n h = absurd (omega arith)
value-digits (suc fuel) n h = elim (dec_lt n 10) [
  | yes one ↦ rw (digits_one fuel n one) (omega arith)
  | no more ↦ rw (digits_last fuel n (omega arith)) (
      value-append 0 (digits fuel (n / 10)) _
      ∙ omega (arith, value-digits fuel (n / 10) (omega arith)))
]

pub decimal-IsDigit : (n : ℕ) → All IsDigit (decimal n)
unfolding decimal
decimal-IsDigit n = digits-IsDigit (suc n) n

number-value :
    (acc : ℕ) (s t : List ℕ) → All IsDigit s → number acc (s ++ t) ≡ number (value acc s) t
unfolding number value
number-value acc [] t a = refl
number-value acc (c ∷ s) t (h, a) = ground (arith, number-value (acc * 10 + (c - b'0')) s t a)

-- Digits are read back, up to a byte that is none.
pub number-decimal : (n c : ℕ) (t : List ℕ) → c < b'0' → number 0 (decimal n ++ (c ∷ t)) ≡ n
unfolding number decimal
number-decimal n c t h =
    number-value 0 (digits (suc n) n) (c ∷ t) (digits-IsDigit (suc n) n)
    ∙ ap (λ v. number v (c ∷ t)) (value-digits (suc n) n (omega arith))
    ∙ (unfold number in ground arith)

digits_below :
    (fuel n count : ℕ)
    → (10 ≤ n → length (digits fuel (n / 10)) ≤ count)
    → length (digits (suc fuel) n) ≤ suc count
digits_below fuel n count short = elim (dec_lt n 10) [
  | yes one ↦ rw (digits_one fuel n one) (omega arith)
  | no more ↦ rw (digits_last fuel n (omega arith)) (
      omega
        (arith, length-append (digits fuel (n / 10)) ((b'0' + n % 10) ∷ []), short (omega arith)))
]

tens : (fuel n : ℕ) → n < 10 → length (digits fuel n) ≤ 1
tens zero n h = unfold digits in omega arith
tens (suc fuel) n h = rw (digits_one fuel n h) (omega arith)

hundreds : (fuel n : ℕ) → n < 100 → length (digits fuel n) ≤ 2
hundreds zero n h = unfold digits in omega arith
hundreds (suc fuel) n h = digits_below fuel n 1 (λ k. tens fuel (n / 10) (omega arith))

pub length-decimal : (n : ℕ) → n < 1000 → length (decimal n) ≤ 3
unfolding decimal
length-decimal n h = digits_below n n 2 (λ k. hundreds n (n / 10) (omega arith))
