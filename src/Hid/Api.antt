-- ===== src/Hid/Api.antt =====
-- lab4_3/main/esp_hidd_prf_api.c. ESP_OK is 0 and ESP_FAIL is -1.
use cse.Base.{
  ℕ, zero, suc, ◌+◌, ◌-◌, ◌*◌, ◌%◌, ◌^◌, Bool, true, false, List, [], ◌∷◌, ltb, ◌==◌, if◌then◌else◌,
  set, ℤ, pos, negsuc, replicate,
}
use cse.Hid.Report.{
  Call, stop_service, delete_service, app_unregister, register_callback, app_register,
  hid_dev_send_report, hid_consumer_build_report,
}
use cse.Hid.Profile.{Hid, att, hidd_app_id, battray_app_id, hidd_le_init}

-- The results of the stack's registrations of the handler and of the HID application.
pub record Registrar : Type 0 where
  pub callback_status : ℤ
  pub app_status : ℤ

abbrev pub is_ok : ℤ → Bool
is_ok (pos zero) = true
is_ok (pos (suc n)) = false
is_ok (negsuc n) = false

-- `callbacks` is whether the argument is not NULL.
unfoldable pub esp_hidd_register_callbacks : Registrar → Bool → Hid → ℤ × Hid × List Call
esp_hidd_register_callbacks lib callbacks h =
    if callbacks
    then (if is_ok lib.callback_status
        then (
          lib.app_status,
          record h { callback = true },
          register_callback ∷ app_register battray_app_id ∷ app_register hidd_app_id ∷ [],
        )
        else (lib.callback_status, record h { callback = true }, register_callback ∷ []))
    else (negsuc 0, h, [])

unfoldable pub esp_hidd_profile_init : Hid → ℤ × Hid
esp_hidd_profile_init h =
    if h.enabled then (negsuc 0, h) else (pos 0, record (hidd_le_init h) { enabled = true })

unfoldable pub esp_hidd_profile_deinit : Hid → ℤ × List Call
esp_hidd_profile_deinit h =
    let hidd_svc_hdl = att h.att_tbl 0 in
    if h.enabled
    then (if hidd_svc_hdl == 0 then (negsuc 0, []) else (
      pos 0,
      stop_service hidd_svc_hdl ∷ delete_service hidd_svc_hdl ∷ app_unregister h.gatt_if ∷ [],
    ))
    else (pos 0, [])

unfoldable pub esp_hidd_get_version : ℕ
esp_hidd_get_version = 0x01 * 2 ^ 8 + 0x00

unfoldable pub esp_hidd_send_consumer_value : Hid → ℕ → ℕ → Bool → List Call
esp_hidd_send_consumer_value h conn_id key_cmd key_pressed =
    let (b0, b1) = if key_pressed then hid_consumer_build_report (0, 0) key_cmd else (0, 0) in
    hid_dev_send_report h.reports h.gatt_if conn_id 3 1 2 (b0 ∷ b1 ∷ [])

-- `buffer[i + 2] = keyboard_cmd[i]` for `left` keys from the i-th on.
unfoldable pub put_keys : ℕ → ℕ → List ℕ → List ℕ → List ℕ
put_keys zero i keys buffer = buffer
put_keys (suc left) i [] buffer = buffer
put_keys (suc left) i (key ∷ keys) buffer = put_keys left (i + 1) keys (set buffer (i + 2) key)

-- keyboard_cmd points to num_key bytes at least.
unfoldable pub esp_hidd_send_keyboard_value : Hid → ℕ → ℕ → List ℕ → ℕ → List Call
esp_hidd_send_keyboard_value h conn_id special_key_mask keyboard_cmd num_key =
    if ltb 6 num_key
    then []
    else hid_dev_send_report h.reports h.gatt_if conn_id 2 1 8
        (put_keys num_key 0 keyboard_cmd (set (replicate 8 0) 0 special_key_mask))

-- An int8_t as the byte that stands for it.
unfoldable pub to_byte : ℤ → ℕ
to_byte (pos n) = n % 256
to_byte (negsuc n) = 255 - n % 256

unfoldable pub esp_hidd_send_mouse_value : Hid → ℕ → ℕ → ℤ → ℤ → List Call
esp_hidd_send_mouse_value h conn_id mouse_button mickeys_x mickeys_y =
    hid_dev_send_report h.reports h.gatt_if conn_id 1 1 5
      (mouse_button ∷ to_byte mickeys_x ∷ to_byte mickeys_y ∷ 0 ∷ 0 ∷ [])
