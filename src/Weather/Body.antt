-- ===== src/Weather/Body.antt =====
-- The search for a text in lab7_3/main/http_request_example_main.c.
use cse.Base.{
  ℕ, ◌≤◌, ◌≡◌, ◌≢◌, refl, ap, ◌∙◌, true, some, List, [], ◌∷◌, ◌++◌, length, drop, drop-append,
  codes, All, ◌==◌, arith, Bool-cases, inl, inr,
}
use cse.Weather.Http.{begins, behind, extract_body}

begins-length : (needle s : List ℕ) → begins needle s ≡ true → length needle ≤ length s
unfolding begins
begins-length [] s e = omega arith
begins-length (c ∷ needle) [] e = cc
begins-length (c ∷ needle) (d ∷ s) e = elim (Bool-cases (c == d)) [
  | inl same ↦ omega (arith, begins-length needle s (ground (arith, e)))
  | inr differs ↦ ground (arith, e)
]

-- Enough text decides.
begins-append :
    (needle s t : List ℕ) → length needle ≤ length s → begins needle (s ++ t) ≡ begins needle s
unfolding begins
begins-append [] s t h = refl
begins-append (c ∷ needle) [] t h = absurd (omega arith)
begins-append (c ∷ needle) (d ∷ s) t h = rw (begins-append needle s t (omega arith)) refl

behind-length : (needle s r : List ℕ) → behind needle s ≡ some r → length needle ≤ length s
unfolding behind
behind-length needle [] r e = cc
behind-length needle (c ∷ s) r e = elim (Bool-cases (begins needle (c ∷ s))) [
  | inl here ↦ begins-length needle (c ∷ s) here
  | inr later ↦ omega (arith, behind-length needle s r (ground (arith, e, later)))
]

-- What stands behind the text does not change the first place where the needle stands in it.
pub behind-append :
    (needle s r t : List ℕ) → behind needle s ≡ some r → behind needle (s ++ t) ≡ some (r ++ t)
unfolding behind
behind-append needle [] r t e = cc
behind-append needle (c ∷ s) r t e = elim (Bool-cases (begins needle (c ∷ s))) [
  | inl here ↦
      let fits = begins-length needle (c ∷ s) here in
      let rest : drop (length needle) (c ∷ s) ≡ r = ground (arith, e, here) in
      rw (begins-append needle (c ∷ s) t fits, here)
        (ap some (drop-append needle (c ∷ s) t fits ∙ ap (λ u. u ++ t) rest))
  | inr later ↦
      let found : behind needle s ≡ some r = ground (arith, e, later) in
      let fits = behind-length needle s r found in
      rw (begins-append needle (c ∷ s) t (omega arith), later) (behind-append needle s r t found)
]

-- A text without the needle's first byte is passed over.
pub behind_past :
    (n : ℕ) (needle s t : List ℕ)
    → All (λ c. c ≢ n) s
    → behind (n ∷ needle) (s ++ t) ≡ behind (n ∷ needle) t
unfolding behind begins
behind_past n needle [] t a = refl
behind_past n needle (c ∷ s) t (h, a) = ground (arith, h, behind_past n needle s t a)

-- extract_body gives what stands behind the first blank line.
pub extract_body-head :
    (head body : List ℕ) → extract_body head ≡ some [] → extract_body (head ++ body) ≡ some body
unfolding extract_body
extract_body-head head body e = behind-append (codes "\r\n\r\n") head [] body e
