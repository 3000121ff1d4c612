-- ===== src/Hid/Sizes.antt =====
-- The lengths of the reports that lab4_3/main/esp_hidd_prf_api.c sends, and those that hidReportMap
-- of lab4_3/main/hid_device_le_prf.c describes.
use cse.Base.{ℕ, ◌+◌, ◌*◌, ◌≡◌, refl, Bool, some, List, ltb, All, ℤ, Bool-cases, inl, inr}
use cse.Hid.Descriptor.{mouse_map, keyboard_map, consumer_map, hid_report_map}
use cse.Hid.Host.{items, apply, signed, fields, parse, inputs, bits, described}
use cse.Hid.Report.{Call, send_indicate, hid_dev_send_report}
use cse.Hid.Profile.{Hid}
use cse.Hid.Api.{
  esp_hidd_send_mouse_value, esp_hidd_send_keyboard_value, esp_hidd_send_consumer_value,
}
use cse.Hid.Described.{indicate-All}

-- The report indicated has the bits described for its identifier, and some spare bytes.
abbrev pub Fills : ℕ → ℕ → Call → Type 0
Fills id spare (send_indicate gatts_if conn_id handle len report) =
    (n : ℕ) × (described hid_report_map id ≡ some n) × (n + 8 * spare ≡ 8 * len)
Fills id spare _ = Unit

module _ (h : Hid) (conn_id : ℕ) where
  mouse-Fills :
      (button : ℕ) (x y : ℤ) → All (Fills 1 1) (esp_hidd_send_mouse_value h conn_id button x y)
  unfolding esp_hidd_send_mouse_value hid_dev_send_report described parse items apply signed fields
      inputs bits hid_report_map mouse_map keyboard_map consumer_map
  mouse-Fills button x y = indicate-All _ _ _ _ _ _ (λ handle. (32, refl, refl))

  keyboard-Fills :
      (mask : ℕ) (keys : List ℕ) (num_key : ℕ)
      → All (Fills 2 0) (esp_hidd_send_keyboard_value h conn_id mask keys num_key)
  unfolding esp_hidd_send_keyboard_value hid_dev_send_report described parse items apply signed
      fields inputs bits hid_report_map mouse_map keyboard_map consumer_map
  keyboard-Fills mask keys num_key = elim (Bool-cases (ltb 6 num_key)) [
    | inl many ↦ rw many tt
    | inr few ↦ rw few (indicate-All _ _ _ _ _ _ (λ handle. (64, refl, refl)))
  ]

  consumer-Fills :
      (key_cmd : ℕ) (key_pressed : Bool)
      → All (Fills 3 0) (esp_hidd_send_consumer_value h conn_id key_cmd key_pressed)
  unfolding esp_hidd_send_consumer_value hid_dev_send_report described parse items apply signed
      fields inputs bits hid_report_map mouse_map keyboard_map consumer_map
  consumer-Fills key_cmd key_pressed = indicate-All _ _ _ _ _ _ (λ handle. (16, refl, refl))

-- Whatever is sent, a keyboard report and a consumer report have exactly the bits that the report
-- descriptor has for them, and a mouse report has one byte more than its descriptor.
pub reports-Fills :
    (h : Hid) (conn_id button mask num_key key_cmd : ℕ) (x y : ℤ) (keys : List ℕ)
    (key_pressed : Bool)
    → All (Fills 1 1) (esp_hidd_send_mouse_value h conn_id button x y)
      × All (Fills 2 0) (esp_hidd_send_keyboard_value h conn_id mask keys num_key)
      × All (Fills 3 0) (esp_hidd_send_consumer_value h conn_id key_cmd key_pressed)
reports-Fills h conn_id button mask num_key key_cmd x y keys key_pressed = (
  mouse-Fills h conn_id button x y,
  keyboard-Fills h conn_id mask keys num_key,
  consumer-Fills h conn_id key_cmd key_pressed,
)
