-- ===== src/Hid/Described.antt =====
-- The mouse reports that lab4_3/main/esp_hidd_prf_api.c sends, as a host reads them by hidReportMap of
-- lab4_3/main/hid_device_le_prf.c.
use cse.Base.{
  ℕ, ◌/◌, ◌%◌, ◌<◌, ◌≤◌, ◌≡◌, refl, ap, ◌∙◌, true, false, Option, none, some, List, [], ◌∷◌, All, ℤ,
  pos, negsuc, pos_part, neg_part, length, arith, ltb_ℤ, if◌then◌else◌,
}
use cse.Hid.Descriptor.{mouse_map, keyboard_map, consumer_map, hid_report_map}
use cse.Hid.Host.{
  value, signed, Field, items, apply, fields, parse, inputs, field_values, values, host_reads,
  owners, all_in_range,
}
use cse.Hid.Report.{HidReport, Call, send_indicate, indicate, hid_dev_send_report}
use cse.Hid.Profile.{Hid}
use cse.Hid.Api.{to_byte, esp_hidd_send_mouse_value}

-- An input field of data, with its logical range, and one of padding.
abbrev pub input : ℕ → ℕ → ℕ → ℤ → ℤ → Field
input id size count minimum maximum = record {
  id = id;
  main = 0x80;
  size = size;
  count = count;
  is_signed = ltb_ℤ minimum (pos 0);
  minimum = minimum;
  maximum = maximum;
  constant = false;
}

abbrev pub padding : ℕ → ℕ → Field
padding id size = record (input id size 1 (pos 0) (pos 1)) { constant = true }

-- Three buttons, padding, and two movements with the wheel.
abbrev mouse_fields : List Field
mouse_fields = input 1 1 3 (pos 0) (pos 1) ∷ padding 1 5 ∷ input 1 8 3 (negsuc 126) (pos 127) ∷ []

-- What a host makes of values that it reads for these fields.
unfoldable pub accepted : List Field → List ℤ → Option (List ℤ)
accepted fs vs = if all_in_range (owners fs) vs then some vs else none

mouse_described :
    (report : List ℕ)
    → host_reads hid_report_map 1 report
      ≡ accepted mouse_fields (values mouse_fields 0 (value report))
unfolding host_reads parse items apply signed fields inputs hid_report_map mouse_map keyboard_map
    consumer_map accepted
mouse_described report = refl

-- Any three bits, and movements of at most 127 each way, are in range.
mouse_accepted :
    (b0 b1 b2 b3 : ℕ) (x y : ℤ)
    → b0 < 2
    → b1 < 2
    → b2 < 2
    → pos_part x ≤ 127
    → neg_part x ≤ 127
    → pos_part y ≤ 127
    → neg_part y ≤ 127
    → let vs = pos b0 ∷ pos b1 ∷ pos b2 ∷ pos b3 ∷ x ∷ y ∷ pos 0 ∷ [] in
      accepted mouse_fields vs ≡ some vs
unfolding accepted all_in_range owners
mouse_accepted b0 b1 b2 b3 x y h0 h1 h2 hx1 hx2 hy1 hy2 =
    ground (arith, h0, h1, h2, hx1, hx2, hy1, hy2)

pub cons_eq : {a b : ℤ} {us vs : List ℤ} → a ≡ b → us ≡ vs → a ∷ us ≡ b ∷ vs
cons_eq {a} {b} {us} {vs} e f = ap (λ c. c ∷ us) e ∙ ap (λ ws. b ∷ ws) f

signed_zero : (v : ℕ) → v ≡ 0 → signed 8 v ≡ pos 0
unfolding signed
signed_zero v e = rw e refl

mouse_values :
    (b x y : ℕ)
    → b < 256
    → x < 256
    → y < 256
    → values mouse_fields 0 (value (b ∷ x ∷ y ∷ 0 ∷ 0 ∷ []))
      ≡ pos (b % 2)
        ∷ pos (b / 2 % 2)
        ∷ pos (b / 4 % 2)
        ∷ pos (b / 8)
        ∷ signed 8 x
        ∷ signed 8 y
        ∷ pos 0
        ∷ []
unfolding values field_values
mouse_values b x y small_b small_x small_y = cons_eq (ap pos (omega arith)) (
    cons_eq (ap pos (omega arith)) (
      cons_eq (ap pos (omega arith)) (
        cons_eq (ap pos (omega arith)) (
          cons_eq (ap (signed 8) (omega arith))
            (cons_eq (ap (signed 8) (omega arith)) (cons_eq (signed_zero _ (omega arith)) refl))))))

-- A byte stands for the int8_t that it was made of.
signed-to_byte : (x : ℤ) → pos_part x ≤ 127 → neg_part x ≤ 127 → signed 8 (to_byte x) ≡ x
unfolding to_byte signed
signed-to_byte (pos n) a b = ground arith
signed-to_byte (negsuc n) a b = ground arith

to_byte-small : (x : ℤ) → to_byte x < 256
unfolding to_byte
to_byte-small (pos n) = omega arith
to_byte-small (negsuc n) = omega arith

-- A host reads these values in what a call indicates.
abbrev pub HostReads : ℕ → List ℤ → Call → Type 0
HostReads id vs (send_indicate gatts_if conn_id handle len report) =
    (len ≡ length report) × (host_reads hid_report_map id report ≡ some vs)
HostReads id vs _ = Unit

pub indicate-All :
    (P : Call → Type 0) (gatts_if conn_id len : ℕ) (report : List ℕ) (r : Option HidReport)
    → ((handle : ℕ) → P (send_indicate gatts_if conn_id handle len report))
    → All P (indicate gatts_if conn_id len report r)
unfolding indicate
indicate-All P gatts_if conn_id len report none h = tt
indicate-All P gatts_if conn_id len report (some r) h = (h r.handle, tt)

-- A host reads a mouse report by the report descriptor as the buttons and the movements that the
-- application gave, for movements of at most 127 each way, which is the logical range of the
-- descriptor, and reads no movement of the wheel.
pub send_mouse_value-HostReads :
    (h : Hid) (conn_id button : ℕ) (x y : ℤ)
    → button < 256
    → pos_part x ≤ 127
    → neg_part x ≤ 127
    → pos_part y ≤ 127
    → neg_part y ≤ 127
    → All
        (HostReads 1 (
          pos (button % 2)
          ∷ pos (button / 2 % 2)
          ∷ pos (button / 4 % 2)
          ∷ pos (button / 8)
          ∷ x
          ∷ y
          ∷ pos 0
          ∷ []))
        (esp_hidd_send_mouse_value h conn_id button x y)
unfolding esp_hidd_send_mouse_value hid_dev_send_report
send_mouse_value-HostReads h conn_id button x y small x_max x_min y_max y_min =
    indicate-All _ _ _ _ _ _ (λ handle. (refl, read))
  where
    read :
        host_reads hid_report_map 1 (button ∷ to_byte x ∷ to_byte y ∷ 0 ∷ 0 ∷ [])
        ≡ some (
            pos (button % 2)
            ∷ pos (button / 2 % 2)
            ∷ pos (button / 4 % 2)
            ∷ pos (button / 8)
            ∷ x
            ∷ y
            ∷ pos 0
            ∷ [])
    read =
        mouse_described (button ∷ to_byte x ∷ to_byte y ∷ 0 ∷ 0 ∷ [])
        ∙ ap (accepted mouse_fields) (
            mouse_values button (to_byte x) (to_byte y) small (to_byte-small x) (to_byte-small y)
            ∙ rw (signed-to_byte x x_max x_min, signed-to_byte y y_max y_min) refl)
        ∙ mouse_accepted _ _ _ _ x y (omega arith) (omega arith) (omega arith) x_max x_min y_max
            y_min
