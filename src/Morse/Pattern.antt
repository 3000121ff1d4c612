-- ===== src/Morse/Pattern.antt =====
-- morse_buffer and morse_idx of the two receivers of lab 5 (lab5_2/main/lab5_2.c and
-- lab5_3/receiver/main/lab5_3.c), which fill and read the buffer alike.
use cse.Base.{
  ℕ, ◌+◌, ◌<◌, ◌≡◌, refl, ap, ◌∙◌, sym, List, [], ◌∷◌, ◌++◌, set, c_string, length, length-set,
  length-append, take, take-suc-set, c_string-set, All, All-append, arith, subst,
}
use native.Mathlib.Numerals.{add-one}

-- sizeof(morse_buffer)
abbrev pub buffer_size : ℕ
buffer_size = 10

-- The buffer holds this pattern, with room for a zero byte behind it.
pub record Stored (bytes : List ℕ) (idx : ℕ) (p : List ℕ) : Type 0 where
  pub size : length bytes ≡ buffer_size
  pub count : idx ≡ length p
  pub short : length p < buffer_size
  pub bytes_lem : take idx bytes ≡ p
  pub nonzero : All (λ c. 0 < c) p

module _ (bytes : List ℕ) (idx : ℕ) (p : List ℕ) (h : Stored bytes idx p) where
  -- Terminated, the buffer reads as the pattern.
  pub c_string-Stored : c_string (set bytes idx 0) ≡ p
  c_string-Stored =
      c_string-set idx bytes (omega (arith, h.size, h.count))
        (subst (All (λ c. 0 < c)) (sym h.bytes_lem) h.nonzero)
      ∙ h.bytes_lem

  pub set-Stored :
      (c : ℕ) → 0 < c → length p < 9 → Stored (set bytes idx c) (idx + 1) (p ++ (c ∷ []))
  set-Stored c pc room = record {
    size = length-set bytes idx c ∙ h.size;
    count = omega (arith, length-append p (c ∷ []), h.count);
    short = omega (arith, length-append p (c ∷ []));
    bytes_lem =
        rw (add-one, take-suc-set idx bytes c (omega (arith, h.size, h.count)))
          (ap (λ q. q ++ (c ∷ [])) h.bytes_lem);
    nonzero = All-append (λ k. 0 < k) p (c ∷ []) h.nonzero (pc, tt);
  }

  -- Read and reset, the buffer holds the empty pattern.
  pub reset-Stored : Stored (set bytes idx 0) 0 []
  reset-Stored = record {
    size = length-set bytes idx 0 ∙ h.size;
    count = refl;
    short = omega arith;
    bytes_lem = refl;
    nonzero = tt;
  }

  -- The index is in bounds, and no byte before it is zero.
  pub in_bounds-Stored : (idx < length bytes) × All (λ c. 0 < c) (take idx bytes)
  in_bounds-Stored = (
    omega (arith, h.size, h.count, h.short),
    subst (All (λ c. 0 < c)) (sym h.bytes_lem) h.nonzero,
  )

pub empty-Stored : (bytes : List ℕ) → length bytes ≡ buffer_size → Stored bytes 0 []
empty-Stored bytes size = record {
  size = size;
  count = refl;
  short = omega arith;
  bytes_lem = refl;
  nonzero = tt;
}
