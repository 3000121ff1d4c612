-- ===== src/Hid/Tests.antt =====
-- The HID profile's theorems at concrete inputs.
use cse.Base.{
  ℕ, ◌≡◌, refl, true, false, List, [], ◌∷◌, ◌++◌, arith, pos, negsuc, take, replicate, All, none,
}
use cse.Hid.Report.{
  hid_dev_rpt_by_id, send_indicate, set_volume_up, set_button, hid_consumer_build_report,
}
use cse.Base.{bit_or, or_bits, bit_and, and_bits}
use cse.Hid.Profile.{hid_rpt_map, Hid, Event, connect, write, disconnect, att}
use cse.Hid.Api.{
  Registrar, esp_hidd_register_callbacks, esp_hidd_send_mouse_value, esp_hidd_send_keyboard_value,
  esp_hidd_send_consumer_value, to_byte,
}
use cse.Hid.Discovery.{consecutive, handle_of, host_handle, discover, hid_dev_rpt_by_id-discovered}
use cse.Hid.Table.{hidd_le_gatt_db}
use cse.Hid.Reach.{run_events, set_up, registered, set_up-sends}
use cse.Hid.Callback.{Sound, run_events-Sound}
use cse.Hid.Described.{HostReads, send_mouse_value-HostReads}
use cse.Hid.Typing.{bits_of, send_keyboard_value-HostReads}
use cse.Hid.Sizes.{Fills, reports-Fills}
use cse.Hid.Consumer.{fields, setting_of, apply_setting, build_report-fields}

abbrev lib : Registrar
lib = record { callback_status = pos 0; app_status = pos 0 }

abbrev off : Hid
off = record {
  clcb = record { in_use = false; conn_id = 0; connected = false; remote_bda = [] };
  gatt_if = 0;
  enabled = false;
  att_tbl = [];
  callback = false;
  reports = record { rpt_tbl = []; protocol_mode = 1 };
  start_hdl = 0;
  end_hdl = 0;
  profile_if = 255;
}

abbrev handles : List ℕ
handles =
    40 ∷ 41 ∷ 42 ∷ 43 ∷ 44 ∷ 45 ∷ 46 ∷ 47 ∷ 48 ∷ 49 ∷ 50 ∷ 51 ∷ 52 ∷ 53 ∷ 54 ∷ 55 ∷ 56 ∷ 57 ∷ 58
    ∷ 59 ∷ 60 ∷ 61 ∷ 62 ∷ 63 ∷ 64 ∷ 65 ∷ 66 ∷ 67 ∷ 68 ∷ 69 ∷ 70 ∷ 71 ∷ 72 ∷ 73 ∷ 74 ∷ 75 ∷ 76 ∷ []

abbrev bas_handles : List ℕ
bas_handles = 30 ∷ 31 ∷ 32 ∷ 33 ∷ 34 ∷ []

abbrev linked : List (Event × ℕ)
linked = (connect 0 (1 ∷ 2 ∷ []), 4) ∷ (write 0 50 2 (1 ∷ 0 ∷ []), 4) ∷ []

set_up-sends_example :
    let h' = (run_events (set_up 3 4 bas_handles handles) (registered lib off)).0 in
    let now = (run_events linked h').0 in
    let b = hid_consumer_build_report (0, 0) 233 in
    (esp_hidd_send_mouse_value now 0 1 (pos 8) (negsuc 2)
      ≡ send_indicate 4 0 (att handles 12) 5 (1 ∷ to_byte (pos 8) ∷ to_byte (negsuc 2) ∷ 0 ∷ 0 ∷ [])
        ∷ [])
    × (esp_hidd_send_keyboard_value now 0 2 (4 ∷ 5 ∷ []) 2
        ≡ send_indicate 4 0 (att handles 16) 8 (2 ∷ 0 ∷ (take 2 (4 ∷ 5 ∷ []) ++ replicate 4 0))
          ∷ [])
    × (esp_hidd_send_consumer_value now 0 233 true
        ≡ send_indicate 4 0 (att handles 23) 2 (b.0 ∷ b.1 ∷ []) ∷ [])
set_up-sends_example =
    set_up-sends lib off 3 4 bas_handles handles linked 0 1 2 2 233 true (pos 8) (negsuc 2)
      (4 ∷ 5 ∷ []) refl (tt, (tt, tt)) (omega arith) (omega arith)

abbrev ready : Hid
ready = (run_events (set_up 3 4 bas_handles handles) (registered lib off)).0

send_mouse_value-HostReads_example :
    All
      (HostReads 1 (pos 1 ∷ pos 0 ∷ pos 1 ∷ pos 0 ∷ pos 24 ∷ negsuc 7 ∷ pos 0 ∷ []))
      (esp_hidd_send_mouse_value ready 0 5 (pos 24) (negsuc 7))
send_mouse_value-HostReads_example =
    send_mouse_value-HostReads ready 0 5 (pos 24) (negsuc 7) (omega arith) (omega arith)
      (omega arith) (omega arith) (omega arith)

send_keyboard_value-HostReads_example :
    All
      (HostReads 2 (bits_of 2 ++ (pos 0 ∷ pos 4 ∷ pos 5 ∷ pos 0 ∷ pos 0 ∷ pos 0 ∷ pos 0 ∷ [])))
      (esp_hidd_send_keyboard_value ready 0 2 (4 ∷ 5 ∷ []) 2)
send_keyboard_value-HostReads_example =
    send_keyboard_value-HostReads ready 0 2 (4 ∷ 5 ∷ []) 2 (omega arith)
      (omega arith, (omega arith, tt)) (omega arith) (omega arith)

reports-Fills_example :
    All (Fills 1 1) (esp_hidd_send_mouse_value ready 0 0 (pos 8) (pos 0))
    × All (Fills 2 0) (esp_hidd_send_keyboard_value ready 0 2 (4 ∷ 5 ∷ []) 2)
    × All (Fills 3 0) (esp_hidd_send_consumer_value ready 0 233 true)
reports-Fills_example = reports-Fills ready 0 0 2 2 233 (pos 8) (pos 0) (4 ∷ 5 ∷ []) true

abbrev visit : List (Event × ℕ)
visit = (connect 0 (1 ∷ 2 ∷ []), 255) ∷ (write 0 0 1 (1 ∷ []), 255) ∷ (disconnect 0, 255) ∷ []

run_events-Sound_example :
    All Sound (run_events visit (esp_hidd_register_callbacks lib true off).1).1
run_events-Sound_example = run_events-Sound lib visit off

build_report-fields_example :
    fields (hid_consumer_build_report (0x80, 0x35) 205)
    ≡ apply_setting (setting_of 205) (fields (0x80, 0x35))
build_report-fields_example = build_report-fields 205 0x80 0x35 (omega arith) (omega arith)

-- Volume up, play, and a command without a place in the report.
build_volume_up : hid_consumer_build_report (0, 0) 233 ≡ (0x40, 0)
unfolding hid_consumer_build_report set_volume_up bit_or or_bits bit_and and_bits
build_volume_up = refl

build_play : hid_consumer_build_report (0x30, 0x51) 176 ≡ (0x30, 0x55)
unfolding hid_consumer_build_report set_button bit_or or_bits bit_and and_bits
build_play = refl

hid_dev_rpt_by_id-discovered_example :
    handle_of (hid_dev_rpt_by_id 1 (hid_rpt_map (consecutive 40 0 37)) 3 1)
    ≡ host_handle (discover 40 0 0 none (hidd_le_gatt_db (0 ∷ 0 ∷ 0 ∷ 0 ∷ 0x0F ∷ 0x18 ∷ []) 1)) 3 1
hid_dev_rpt_by_id-discovered_example =
    hid_dev_rpt_by_id-discovered 40 1 (0 ∷ 0 ∷ 0 ∷ 0 ∷ 0x0F ∷ 0x18 ∷ []) 3 1
