-- ===== src/Hid/Report.antt =====
-- lab4_3/main/hid_dev.c. ESP_LOG lines are left out.
use cse.Base.{ℕ, ◌*◌, ◌&&◌, Option, none, some, List, [], ◌∷◌, ◌==◌, if◌then◌else◌, take}
use cse.Base.{bit_and, bit_or}

-- hid_report_map_t
pub record HidReport : Type 0 where
  pub handle : ℕ
  pub cccd_handle : ℕ
  pub id : ℕ
  pub rpt_type : ℕ
  pub mode : ℕ

-- The first hid_dev_rpt_tbl_Len entries of hid_dev_rpt_tbl, and hidProtocolMode.
pub record Reports : Type 0 where
  pub rpt_tbl : List HidReport
  pub protocol_mode : ℕ

-- What the profile asks of the Bluetooth stack and of the application.
pub data HidEvent : Type 0 where
  -- init_finish.state, or init_finish.gatts_if
  reg_finish : ℕ → HidEvent
  bat_reg : ℕ → HidEvent
  -- conn_id and remote_bda
  ble_connect : ℕ → List ℕ → HidEvent
  ble_disconnect : HidEvent
  -- conn_id, report_id, length and the bytes written
  led_write : ℕ → ℕ → ℕ → List ℕ → HidEvent

pub data Call : Type 0 where
  -- gatts_if, conn_id, the attribute's handle, and the length and bytes of the value
  send_indicate : ℕ → ℕ → ℕ → ℕ → List ℕ → Call
  config_local_icon : Call
  -- the attribute table, gatts_if and the number of attributes
  create_bas_attr_tab : ℕ → ℕ → Call
  create_hid_attr_tab : ℕ → ℕ → Call
  start_service : ℕ → Call
  stop_service : ℕ → Call
  delete_service : ℕ → Call
  register_callback : Call
  app_register : ℕ → Call
  app_unregister : ℕ → Call
  set_encryption : List ℕ → Call
  set_attr_value : ℕ → ℕ → List ℕ → Call
  get_attr_value : ℕ → Call
  hidd_cb : HidEvent → Call
  -- a call of hidd_cb while it is NULL
  null_cb : Call

unfoldable pub hid_dev_rpt_by_id : ℕ → List HidReport → ℕ → ℕ → Option HidReport
hid_dev_rpt_by_id mode [] id rpt_type = none
hid_dev_rpt_by_id mode (rpt ∷ tbl) id rpt_type =
    let rest = hid_dev_rpt_by_id mode tbl id rpt_type in
    if rpt.id == id && (rpt.rpt_type == rpt_type && rpt.mode == mode) then some rpt else rest

unfoldable pub hid_dev_register_reports : ℕ → List HidReport → Reports → Reports
hid_dev_register_reports num_reports p_report r = record r { rpt_tbl = take num_reports p_report }

unfoldable pub indicate : ℕ → ℕ → ℕ → List ℕ → Option HidReport → List Call
indicate gatts_if conn_id length value none = []
indicate gatts_if conn_id length value (some rpt) =
    send_indicate gatts_if conn_id rpt.handle length value ∷ []

unfoldable pub hid_dev_send_report : Reports → ℕ → ℕ → ℕ → ℕ → ℕ → List ℕ → List Call
hid_dev_send_report r gatts_if conn_id id rpt_type length value =
    indicate gatts_if conn_id length value (hid_dev_rpt_by_id r.protocol_mode r.rpt_tbl id rpt_type)

-- HID_CC_RPT_SET_CHANNEL, _VOLUME_UP, _VOLUME_DOWN and _BUTTON on the report's two bytes.
unfoldable pub set_channel : ℕ × ℕ → ℕ → ℕ × ℕ
set_channel (s0, s1) x = (bit_or (bit_and s0 0xCF) (bit_and x 3 * 16), s1)

unfoldable pub set_volume_up : ℕ × ℕ → ℕ × ℕ
set_volume_up (s0, s1) = (bit_or (bit_and s0 0x3F) 0x40, s1)

unfoldable pub set_volume_down : ℕ × ℕ → ℕ × ℕ
set_volume_down (s0, s1) = (bit_or (bit_and s0 0x3F) 0x80, s1)

unfoldable pub set_button : ℕ × ℕ → ℕ → ℕ × ℕ
set_button (s0, s1) x = (s0, bit_or (bit_and s1 0xF0) x)

-- The usage identifiers are those of hid_dev.h; the buffer is not NULL.
unfoldable pub hid_consumer_build_report : ℕ × ℕ → ℕ → ℕ × ℕ
hid_consumer_build_report buffer cmd =
    if cmd == 156
    then set_channel buffer 1
    else if cmd == 157
    then set_channel buffer 3
    else if cmd == 233
    then set_volume_up buffer
    else if cmd == 234
    then set_volume_down buffer
    else if cmd == 226
    then set_button buffer 1
    else if cmd == 48
    then set_button buffer 2
    else if cmd == 131
    then set_button buffer 3
    else if cmd == 129
    then set_button buffer 4
    else if cmd == 176
    then set_button buffer 5
    else if cmd == 177
    then set_button buffer 6
    else if cmd == 178
    then set_button buffer 7
    else if cmd == 179
    then set_button buffer 8
    else if cmd == 180
    then set_button buffer 9
    else if cmd == 181
    then set_button buffer 10
    else if cmd == 182
    then set_button buffer 11
    else if cmd == 183
    then set_button buffer 12
    else buffer
