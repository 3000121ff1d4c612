-- ===== src/Incline/Message.antt =====
-- The text of lab4_1/main/lab4_1.c: msg, a buffer of 24 bytes, and how strcpy and strcat fill it.
use cse.Base.{
  ℕ, ◌+◌, Bool, true, false, ◌||◌, List, [], ◌∷◌, ◌++◌, Option, some, none, leb, if◌then◌else◌,
  ◌>>=◌, codes, c_string, length, take, drop, set, replicate,
}
use cse.Mouse.Motion.{Float}

-- Bytes written from an offset on; none where they reach past the buffer's end.
unfoldable pub write : ℕ → List ℕ → List ℕ → Option (List ℕ)
write offset bytes buf =
    if leb (offset + length bytes) (length buf)
    then some (take offset buf ++ (bytes ++ drop (offset + length bytes) buf))
    else none

unfoldable pub strcpy : List ℕ → List ℕ → Option (List ℕ)
strcpy buf s = write 0 (s ++ (0 ∷ [])) buf

unfoldable pub strcat : List ℕ → List ℕ → Option (List ℕ)
strcat buf s = write (length (c_string buf)) (s ++ (0 ∷ [])) buf

-- `*s`
abbrev pub not_empty : List ℕ → Bool
not_empty [] = false
not_empty (c ∷ s) = true

-- `char msg[24]="FLAT"`
unfoldable pub flat : List ℕ
flat = codes "FLAT" ++ replicate 20 0

unfoldable pub add_vert : List ℕ → List ℕ → Option (List ℕ)
add_vert vert msg = if not_empty vert then strcpy msg vert else some msg

unfoldable pub add_horiz : List ℕ → List ℕ → List ℕ → Option (List ℕ)
add_horiz vert horiz msg =
    if not_empty horiz
    then (do msg' ← if not_empty vert then strcat msg (codes " ") else some msg; strcat msg' horiz)
    else some msg

unfoldable pub message : List ℕ → List ℕ → Option (List ℕ)
message vert horiz =
    if not_empty vert || not_empty horiz
    then (do msg ← add_vert vert (set flat 0 0); add_horiz vert horiz msg)
    else some flat

-- th, 0.08f, is a parameter as float is.
module _ (float : Float) (th : float.F) where
  unfoldable pub vert_word : float.F → List ℕ
  vert_word fy =
      if float.below th fy
      then codes "UP"
      else if float.below fy (float.neg th)
      then codes "DOWN"
      else codes ""

  unfoldable pub horiz_word : float.F → List ℕ
  horiz_word fx =
      if float.below th fx
      then codes "RIGHT"
      else if float.below fx (float.neg th)
      then codes "LEFT"
      else codes ""
