-- ===== src/Panel/Fields.antt =====
-- What the texts of app_main (lab3_3/main/main.cpp) leave in the two lines of the screen.
use cse.Base.{
  ℕ, zero, suc, ◌-◌, ◌≤◌, Bool, true, List, [], ◌∷◌, ◌++◌, length, take, drop, replicate, ◌≡◌, refl,
  sym, ap, subst, arith, length-append, take-all, le→ltb,
}
use cse.Panel.Screen.{Screen, blank, write_cell, write_cells, cells_from, line, at_address}
use cse.Panel.App.{temp_label, hum_label, rh_field}

abbrev nth : ℕ → List ℕ → ℕ
nth i [] = 0
nth zero (x ∷ xs) = x
nth (suc i) (x ∷ xs) = nth i xs

abbrev spell : ℕ → List ℕ → List ℕ
spell zero xs = []
spell (suc n) xs = nth 0 xs ∷ spell n (drop 1 xs)

pub spell-length : (n : ℕ) (xs : List ℕ) → length xs ≡ n → spell n xs ≡ xs
spell-length zero [] h = refl
spell-length zero (x ∷ xs) h = ground arith
spell-length (suc n) [] h = ground arith
spell-length (suc n) (x ∷ xs) h = ap (λ rest. x ∷ rest) (spell-length n xs (omega arith))

-- The screen with the counter going up.
abbrev upward : Bool → Screen → Screen
upward f x = record {
  cursor = x.cursor;
  cells = x.cells;
  shown = x.shown;
  extended = x.extended;
  forward = f;
  in_cells = x.in_cells;
}

-- A text at an address.
abbrev pub put : ℕ → List ℕ → Screen → Screen
put addr text x = write_cells text (at_address addr x)

write_cells-forward :
    (text : List ℕ) (x : Screen)
    → ((write_cells text x).forward ≡ x.forward) × ((write_cells text x).shown ≡ x.shown)
unfolding write_cells write_cell
write_cells-forward [] x = (refl, refl)
write_cells-forward (byte ∷ bytes) x = write_cells-forward bytes (write_cell x byte)

pub put-forward :
    (text : List ℕ) (addr : ℕ) (x : Screen)
    → ((put addr text x).forward ≡ x.forward) × ((put addr text x).shown ≡ x.shown)
put-forward text addr x = write_cells-forward text (at_address addr x)

-- The labels, over what the lines held.
abbrev pub labelled : Screen → Screen
labelled x = put 0x40 hum_label (put 0 temp_label x)

pub labelled-lines :
    (x : Screen)
    → x.forward ≡ true
    → (line 0 (labelled x) ≡ temp_label ++ drop 5 (line 0 x))
      × (line 1 (labelled x) ≡ hum_label ++ drop 5 (line 1 x))
unfolding write_cells write_cell line cells_from temp_label hum_label
labelled-lines x h =
    subst
      (λ f.
        (line 0 (labelled (upward f x)) ≡ temp_label ++ drop 5 (line 0 x))
        × (line 1 (labelled (upward f x)) ≡ hum_label ++ drop 5 (line 1 x)))
      (sym h) (refl, refl)

-- Seven characters of the first line, and nine of the second.
pub put_temp-lines :
    (text : List ℕ) (x : Screen)
    → length text ≡ 7
    → x.forward ≡ true
    → (line 0 (put 7 text x) ≡ take 7 (line 0 x) ++ (text ++ drop 14 (line 0 x)))
      × (line 1 (put 7 text x) ≡ line 1 x)
unfolding write_cells write_cell line cells_from
put_temp-lines text x l h =
    subst
      (λ t.
        (line 0 (put 7 t x) ≡ take 7 (line 0 x) ++ (t ++ drop 14 (line 0 x)))
        × (line 1 (put 7 t x) ≡ line 1 x))
      (spell-length 7 text l)
      (subst
        (λ f.
          (line 0 (put 7 (spell 7 text) (upward f x))
            ≡ take 7 (line 0 x) ++ (spell 7 text ++ drop 14 (line 0 x)))
          × (line 1 (put 7 (spell 7 text) (upward f x)) ≡ line 1 x))
        (sym h) (refl, refl))

pub put_hum-lines :
    (text : List ℕ) (x : Screen)
    → length text ≡ 9
    → x.forward ≡ true
    → (line 1 (put 0x47 text x) ≡ take 7 (line 1 x) ++ text) × (line 0 (put 0x47 text x) ≡ line 0 x)
unfolding write_cells write_cell line cells_from
put_hum-lines text x l h =
    subst
      (λ t. (line 1 (put 0x47 t x) ≡ take 7 (line 1 x) ++ t) × (line 0 (put 0x47 t x) ≡ line 0 x))
      (spell-length 9 text l)
      (subst
        (λ f.
          (line 1 (put 0x47 (spell 9 text) (upward f x)) ≡ take 7 (line 1 x) ++ spell 9 text)
          × (line 0 (put 0x47 (spell 9 text) (upward f x)) ≡ line 0 x))
        (sym h) (refl, refl))

length-replicate : (n : ℕ) (x : ℕ) → length (replicate n x) ≡ n
length-replicate zero x = refl
length-replicate (suc n) x = ap suc (length-replicate n x)

pub length-take_le : (n : ℕ) (xs : List ℕ) → length (take n xs) ≤ n
length-take_le zero xs = omega arith
length-take_le (suc n) [] = omega arith
length-take_le (suc n) (x ∷ xs) = omega (arith, length-take_le n xs)

-- A text with blanks up to nine characters.
abbrev pub padded : List ℕ → List ℕ
padded text = text ++ replicate (9 - length text) blank

pub length-padded : (text : List ℕ) → length text ≤ 9 → length (padded text) ≡ 9
length-padded text h = omega (
  arith,
  length-append text (replicate (9 - length text) blank),
  length-replicate (9 - length text) blank,
)

pub rh_field-padded : (rhval : List ℕ) → length rhval ≤ 9 → rh_field rhval ≡ padded rhval
unfolding rh_field
rh_field-padded rhval h =
    rw (le→ltb {a = 9} {b = length rhval} h, take-all (length rhval) rhval (omega arith)) refl
