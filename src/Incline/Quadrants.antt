-- ===== src/Incline/Quadrants.antt =====
-- The texts of lab4_1/main/lab4_1.c: the sides of the inclination that they name.
use cse.Base.{
  ℕ, ◌≡◌, refl, inl, inr, List, some, codes, c_string, length, if◌then◌else◌, Bool-cases,
}
use cse.Mouse.Motion.{Float}
use cse.Incline.Message.{
  write, strcpy, strcat, flat, add_vert, add_horiz, message, vert_word, horiz_word,
}

-- Where an inclination lies: beyond the band around 0, within it, or below it.
pub data Side : Type 0 where
  above : Side
  level : Side
  under : Side

pub text : Side → Side → List ℕ
text above above = codes "UP RIGHT"
text above level = codes "UP"
text above under = codes "UP LEFT"
text level above = codes "RIGHT"
text level level = codes "FLAT"
text level under = codes "LEFT"
text under above = codes "DOWN RIGHT"
text under level = codes "DOWN"
text under under = codes "DOWN LEFT"

abbrev pub vert : Side → List ℕ
vert above = codes "UP"
vert level = codes ""
vert under = codes "DOWN"

abbrev pub horiz : Side → List ℕ
horiz above = codes "RIGHT"
horiz level = codes ""
horiz under = codes "LEFT"

-- A buffer of 24 bytes that reads as t.
pub record Reads (t msg : List ℕ) : Type 0 where
  pub size : length msg ≡ 24
  pub string : c_string msg ≡ t

pub message-text :
    (v h : Side) → (msg : List ℕ) × (message (vert v) (horiz h) ≡ some msg) × Reads (text v h) msg
unfolding message flat add_vert add_horiz strcpy strcat write text
message-text above above = (_, refl, record { size = refl; string = refl })
message-text above level = (_, refl, record { size = refl; string = refl })
message-text above under = (_, refl, record { size = refl; string = refl })
message-text level above = (_, refl, record { size = refl; string = refl })
message-text level level = (_, refl, record { size = refl; string = refl })
message-text level under = (_, refl, record { size = refl; string = refl })
message-text under above = (_, refl, record { size = refl; string = refl })
message-text under level = (_, refl, record { size = refl; string = refl })
message-text under under = (_, refl, record { size = refl; string = refl })

module _ (float : Float) (th : float.F) where
  abbrev pub side : float.F → Side
  side v = if float.below th v then above else if float.below v (float.neg th) then under else level

  pub vert_word-side : (v : float.F) → vert_word float th v ≡ vert (side v)
  unfolding vert_word
  vert_word-side v = elim (Bool-cases (float.below th v)) [
    | inl e ↦ rw e refl
    | inr e ↦ elim (Bool-cases (float.below v (float.neg th))) [
      | inl f ↦ rw (e, f) refl
      | inr f ↦ rw (e, f) refl
    ]
  ]

  pub horiz_word-side : (v : float.F) → horiz_word float th v ≡ horiz (side v)
  unfolding horiz_word
  horiz_word-side v = elim (Bool-cases (float.below th v)) [
    | inl e ↦ rw e refl
    | inr e ↦ elim (Bool-cases (float.below v (float.neg th))) [
      | inl f ↦ rw (e, f) refl
      | inr f ↦ rw (e, f) refl
    ]
  ]
