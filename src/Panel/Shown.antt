-- ===== src/Panel/Shown.antt =====
-- What the display of lab 3.3 shows after rounds of app_main's loop.
use cse.Base.{
  ℕ, true, List, [], ◌∷◌, ◌++◌, length, take, drop, replicate, codes, Option, none, some, ◌≡◌, refl,
  ap, ◌∙◌, subst, arith, length-append, take-all,
}
use cse.Shtc3.Sensor.{Float}
use cse.Panel.App.{Text, temp_label, hum_label, t_disp, temp_text, rh_text, snprintf}
use cse.Panel.Screen.{Screen, blank, line}
use cse.Panel.Fields.{
  put, put-forward, labelled, labelled-lines, put_temp-lines, put_hum-lines, padded, length-padded,
  rh_field-padded, spell-length, length-take_le,
}

module _ (float : Float) (text : Text float) where
  -- The seven characters of a temperature with one decimal, and the nine of a humidity.
  abbrev pub temp_field : Option (float.F × float.F) → List ℕ
  temp_field none = replicate 7 blank
  temp_field (some (t_c, rh)) = text.one_decimal (t_disp float text t_c) ++ codes "C "

  abbrev hum_field : Option (float.F × float.F) → List ℕ
  hum_field none = replicate 9 blank
  hum_field (some (t_c, rh)) = padded (take 7 (text.integer (text.lroundf rh) ++ codes "%"))

  -- The lines with the latest reading, if any.
  unfoldable pub top_line : Option (float.F × float.F) → List ℕ
  top_line latest = codes "Temp:  " ++ (temp_field latest ++ (blank ∷ blank ∷ []))

  unfoldable pub bottom_line : Option (float.F × float.F) → List ℕ
  bottom_line latest = codes "Hum :  " ++ hum_field latest

  unfoldable pub Shows : Option (float.F × float.F) → Screen → Type 0
  Shows latest x =
      (line 0 x ≡ top_line latest)
      × (line 1 x ≡ bottom_line latest)
      × (x.shown ≡ true)
      × (x.forward ≡ true)

  -- The same but for the labels.
  unfoldable pub Under : Option (float.F × float.F) → Screen → Type 0
  Under latest x =
      (drop 5 (line 0 x) ≡ drop 5 (top_line latest))
      × (drop 5 (line 1 x) ≡ drop 5 (bottom_line latest))
      × (x.shown ≡ true)
      × (x.forward ≡ true)

  -- The temperatures print with five characters, as those from -99.9 to 999.9 do.
  abbrev pub Five : float.F × float.F → Type 0
  Five (t_c, rh) = length (text.one_decimal (t_disp float text t_c)) ≡ 5

  pub Shows-Under :
      (latest : Option (float.F × float.F)) (x : Screen) → Shows latest x → Under latest x
  unfolding Shows Under
  Shows-Under latest x h = (ap (drop 5) h.0, ap (drop 5) h.1, h.2, h.3)

  pub Under-labelled :
      (latest : Option (float.F × float.F)) (x : Screen)
      → Under latest x
      → Shows latest (labelled x)
  unfolding Shows Under top_line bottom_line temp_label hum_label
  Under-labelled latest x h =
      let lines = labelled-lines x h.3 in
      let first = put-forward temp_label 0 x in
      let second = put-forward hum_label 0x40 (put 0 temp_label x) in
      (
        lines.0 ∙ ap (λ rest. temp_label ++ rest) h.0,
        lines.1 ∙ ap (λ rest. hum_label ++ rest) h.1,
        second.1 ∙ first.1 ∙ h.2,
        second.0 ∙ first.0 ∙ h.3,
      )

  -- Every reading that has been shown prints its temperature so.
  abbrev pub Fits : Option (float.F × float.F) → Type 0
  Fits latest = length (temp_field latest) ≡ 7

  pub Five-Fits : (reading : float.F × float.F) → Five reading → Fits (some reading)
  Five-Fits (t_c, rh) h =
      omega (arith, length-append (text.one_decimal (t_disp float text t_c)) (codes "C "))

  temp_text-field :
      (reading : float.F × float.F)
      → Five reading
      → temp_text float text reading ≡ temp_field (some reading)
  unfolding temp_text snprintf
  temp_text-field (t_c, rh) h = take-all 15 _ (omega (arith, Five-Fits (t_c, rh) h))

  hum_text-field :
      (reading : float.F × float.F) → rh_text float text reading ≡ hum_field (some reading)
  unfolding rh_text snprintf
  hum_text-field (t_c, rh) =
      rh_field-padded _
        (omega (arith, length-take_le 7 (text.integer (text.lroundf rh) ++ codes "%")))

  length-hum_field : (reading : float.F × float.F) → length (hum_field (some reading)) ≡ 9
  length-hum_field (t_c, rh) =
      length-padded (take 7 (text.integer (text.lroundf rh) ++ codes "%"))
        (omega (arith, length-take_le 7 (text.integer (text.lroundf rh) ++ codes "%")))

  drop-top_line :
      (latest : Option (float.F × float.F))
      → Fits latest
      → drop 14 (top_line latest) ≡ blank ∷ blank ∷ []
  unfolding top_line
  drop-top_line latest h =
      subst (λ field. drop 7 (field ++ (blank ∷ blank ∷ [])) ≡ blank ∷ blank ∷ [])
        (spell-length 7 (temp_field latest) h) refl

  pub Shows-put :
      (latest : Option (float.F × float.F)) (reading : float.F × float.F) (x : Screen)
      → Shows latest x
      → Five reading
      → Fits latest
      → Shows
          (some reading)
          (put 0x47 (rh_text float text reading) (put 7 (temp_text float text reading) x))
  unfolding Shows top_line bottom_line
  Shows-put latest reading x h five fits =
      let temp = temp_text float text reading in
      let hum = rh_text float text reading in
      let temp_lem = temp_text-field reading five in
      let hum_lem = hum_text-field reading in
      let above = put_temp-lines temp x (ap length temp_lem ∙ Five-Fits reading five) h.3 in
      let first = put-forward temp 7 x in
      let below =
        put_hum-lines hum (put 7 temp x) (ap length hum_lem ∙ length-hum_field reading)
          (first.0 ∙ h.3) in
      let second = put-forward hum 0x47 (put 7 temp x) in
      let top : line 0 x ≡ top_line latest = h.0 in
      (
        below.1
            ∙ above.0
            ∙ ap (λ l. take 7 l ++ (temp ++ drop 14 l)) top
            ∙ ap (λ rest. codes "Temp:  " ++ (temp ++ rest)) (drop-top_line latest fits)
            ∙ ap (λ field. codes "Temp:  " ++ (field ++ (blank ∷ blank ∷ []))) temp_lem,
        below.0
            ∙ ap (λ l. take 7 l ++ hum) (above.1 ∙ h.1)
            ∙ ap (λ field. codes "Hum :  " ++ field) hum_lem,
        second.1 ∙ first.1 ∙ h.2,
        second.0 ∙ first.0 ∙ h.3,
      )
