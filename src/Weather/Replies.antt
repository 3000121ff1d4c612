-- ===== src/Weather/Replies.antt =====
-- The first line of a reply's body (weather_station_task in
-- lab7_3/main/http_request_example_main.c).
use cse.Base.{
  ℕ, zero, suc, ◌≤◌, ◌<◌, ◌≡◌, ◌≢◌, refl, ap, ◌∙◌, false, ◌⊎◌, some, List, [], ◌∷◌, ◌++◌, length,
  c_string, All, arith,
}
use cse.Weather.Http.{is_empty, behind, extract_body}
use cse.Weather.Station.{first_line, line_of}
use cse.Weather.Body.{extract_body-head}

-- A byte inside a line.
abbrev pub InLine : ℕ → Type 0
InLine c = (c ≢ 0) × (c ≢ b'\n') × (c ≢ b'\r')

-- What ends a line: nothing more, or a line feed or a carriage return.
abbrev pub Ends : List ℕ → Type 0
Ends [] = Unit
Ends (c ∷ s) = (c ≡ b'\n') ⊎ (c ≡ b'\r')

first_line-InLine :
    (room : ℕ) (line after : List ℕ)
    → All InLine line
    → length line ≤ room
    → Ends after
    → first_line room (line ++ after) ≡ line
unfolding first_line
first_line-InLine zero [] after a h e = refl
first_line-InLine zero (c ∷ line) after a h e = absurd (omega arith)
first_line-InLine (suc room) [] [] a h e = refl
first_line-InLine (suc room) [] (c ∷ s) a h e = ground (arith, e)
first_line-InLine (suc room) (c ∷ line) after (p, a) h e =
    ground (arith, p, first_line-InLine room line after a (omega arith) e)

c_string_whole : (s : List ℕ) → All (λ c. 0 < c) s → c_string s ≡ s
c_string_whole [] a = refl
c_string_whole (zero ∷ s) (p, a) = absurd (omega arith)
c_string_whole (suc c ∷ s) (p, a) = ap (λ r. suc c ∷ r) (c_string_whole s a)

-- A reply: a head that ends with its first blank line, a line with a text, and what follows it.
pub record Replies (response line : List ℕ) : Type 0 where
  pub head : List ℕ
  pub after : List ℕ
  pub spells : response ≡ head ++ (line ++ after)
  pub blank : extract_body head ≡ some []
  pub ends : Ends after
  pub text : All (λ c. 0 < c) response
  pub inside : All InLine line

head-is_empty : (head t : List ℕ) → extract_body head ≡ some [] → is_empty (head ++ t) ≡ false
unfolding extract_body behind
head-is_empty [] t e = cc
head-is_empty (c ∷ head) t e = refl

pub reply-line_of :
    (room : ℕ) (response line : List ℕ)
    → Replies response line
    → length line ≤ room
    → line_of room (some response) ≡ some line
unfolding line_of
reply-line_of room response line r short =
    let tail = line ++ r.after in
    let some_text : is_empty response ≡ false =
      ap is_empty r.spells ∙ head-is_empty r.head tail r.blank in
    let body : extract_body (c_string response) ≡ some tail =
      ap extract_body (c_string_whole response r.text ∙ r.spells)
      ∙ extract_body-head r.head tail r.blank in
    rw (some_text, body) (ap some (first_line-InLine room line r.after r.inside short r.ends))
