-- ===== src/Hid/Keyboard.antt =====
-- The key array of a keyboard report (lab4_3/main/esp_hidd_prf_api.c).
use cse.Base.{
  ℕ, zero, suc, ◌+◌, ◌-◌, ◌≤◌, ◌≡◌, refl, ap, ◌∙◌, sym, List, [], ◌∷◌, ◌++◌, append_assoc, length,
  length-append, set, take, replicate, arith,
}
use cse.Hid.Api.{put_keys}

set-append :
    (xs ys : List ℕ) (n y v : ℕ) → length xs ≡ n → set (xs ++ (y ∷ ys)) n v ≡ xs ++ (v ∷ ys)
set-append [] ys zero y v e = refl
set-append [] ys (suc n) y v e = absurd (omega arith)
set-append (x ∷ xs) ys zero y v e = absurd (omega arith)
set-append (x ∷ xs) ys (suc n) y v e = ap (λ r. x ∷ r) (set-append xs ys n y v (omega arith))

-- The keys fill the zeros behind what is there.
put_keys_lem :
    (left i k : ℕ) (keys xs : List ℕ)
    → length xs ≡ i + 2
    → left ≤ k
    → left ≤ length keys
    → put_keys left i keys (xs ++ replicate k 0) ≡ xs ++ (take left keys ++ replicate (k - left) 0)
unfolding put_keys
put_keys_lem zero i k keys xs e a b = ap (λ n. xs ++ replicate n 0) (omega arith)
put_keys_lem (suc left) i k [] xs e a b = absurd (omega arith)
put_keys_lem (suc left) i zero (key ∷ keys) xs e a b = absurd (omega arith)
put_keys_lem (suc left) i (suc k) (key ∷ keys) xs e a b =
    ap (put_keys left (i + 1) keys) (
      set-append xs (replicate k 0) (i + 2) 0 key e
      ∙ sym (append_assoc xs (key ∷ []) (replicate k 0)))
    ∙ put_keys_lem left (i + 1) k keys (xs ++ (key ∷ []))
        (omega (arith, length-append xs (key ∷ []))) (omega arith) (omega arith)
    ∙ append_assoc xs (key ∷ []) _
    ∙ ap (λ n. xs ++ (key ∷ (take left keys ++ replicate n 0))) (omega arith)

pub keyboard_bytes :
    (special_key_mask num_key : ℕ) (keys : List ℕ)
    → num_key ≤ 6
    → num_key ≤ length keys
    → put_keys num_key 0 keys (set (replicate 8 0) 0 special_key_mask)
      ≡ special_key_mask ∷ 0 ∷ (take num_key keys ++ replicate (6 - num_key) 0)
keyboard_bytes special_key_mask num_key keys few enough =
    put_keys_lem num_key 0 6 keys (special_key_mask ∷ 0 ∷ []) refl few enough
