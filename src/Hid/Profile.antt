-- ===== src/Hid/Profile.antt =====
-- The state and the event handlers of lab4_3/main/hid_device_le_prf.c, built without the vendor
-- report. ESP_LOG lines are left out; ESP_GATT_OK is 0 and ESP_GATT_IF_NONE is 255.
use cse.Base.{
  ℕ, ◌+◌, ◌-◌, ◌%◌, Bool, true, false, ◌&&◌, ◌||◌, none, some, List, [], ◌∷◌, ◌++◌, leb, ◌==◌, ◌^◌,
  if◌then◌else◌, take, get_elem?,
}
use cse.Hid.Report.{
  HidReport, Reports, HidEvent, reg_finish, bat_reg, ble_connect, ble_disconnect, led_write, Call,
  config_local_icon, create_bas_attr_tab, create_hid_attr_tab, start_service, set_encryption,
  set_attr_value, get_attr_value, hidd_cb, null_cb, hid_dev_register_reports,
}

-- hidd_clcb_t, without the three fields that nothing reads.
pub record Clcb : Type 0 where
  pub in_use : Bool
  pub conn_id : ℕ
  pub connected : Bool
  pub remote_bda : List ℕ

-- hidd_le_env, without the fields that nothing reads; `callback` says whether hidd_cb is not NULL; the registered reports; the
-- handles of the included service; and gatts_if of the one profile of heart_rate_profile_tab.
pub record Hid : Type 0 where
  pub clcb : Clcb
  pub gatt_if : ℕ
  pub enabled : Bool
  pub att_tbl : List ℕ
  pub callback : Bool
  pub reports : Reports
  pub start_hdl : ℕ
  pub end_hdl : ℕ
  pub profile_if : ℕ

-- An entry of att_tbl, which hidd_le_init and the profile's start set to 0.
unfoldable pub att : List ℕ → ℕ → ℕ
att tbl idx = elim (get_elem? tbl idx) [ none ↦ 0 | some hdl ↦ hdl ]

-- HIDD_LE_IDX_NB, BAS_IDX_NB, HIDD_APP_ID, BATTRAY_APP_ID, HID_NUM_REPORTS
abbrev pub hidd_le_idx_nb : ℕ
hidd_le_idx_nb = 37

abbrev pub bas_idx_nb : ℕ
bas_idx_nb = 5

abbrev pub hidd_app_id : ℕ
hidd_app_id = 0x1812

abbrev pub battray_app_id : ℕ
battray_app_id = 0x180f

abbrev pub hid_num_reports : ℕ
hid_num_reports = 9

abbrev pub hid_report : ℕ → ℕ → ℕ → ℕ → ℕ → HidReport
hid_report id rpt_type handle cccd_handle mode = record {
  handle = handle;
  cccd_handle = cccd_handle;
  id = id;
  rpt_type = rpt_type;
  mode = mode;
}

-- hid_rpt_map as hid_add_id_tbl fills it; its ninth entry is never written.
unfoldable pub hid_rpt_map : List ℕ → List HidReport
hid_rpt_map tbl =
    hid_report 1 1 (att tbl 12) (att tbl 12) 1
    ∷ hid_report 2 1 (att tbl 16) (att tbl 17) 1
    ∷ hid_report 3 1 (att tbl 23) (att tbl 24) 1
    ∷ hid_report 2 2 (att tbl 20) 0 1
    ∷ hid_report 2 1 (att tbl 27) 0 0
    ∷ hid_report 2 2 (att tbl 30) 0 0
    ∷ hid_report 1 1 (att tbl 32) 0 0
    ∷ hid_report 0 3 (att tbl 35) 0 1
    ∷ hid_report 0 0 0 0 0
    ∷ []

unfoldable pub hid_add_id_tbl : Hid → Hid
hid_add_id_tbl h = record h {
  reports = hid_dev_register_reports hid_num_reports (hid_rpt_map h.att_tbl) h.reports;
}

unfoldable pub hidd_clcb_alloc : ℕ → List ℕ → Clcb → Clcb
hidd_clcb_alloc conn_id bda c =
    if c.in_use
    then c
    else record { in_use = true; conn_id = conn_id; connected = true; remote_bda = bda }

-- The loop returns in its first round, whatever conn_id is.
unfoldable pub hidd_clcb_dealloc : ℕ → Clcb → Clcb × Bool
hidd_clcb_dealloc conn_id c =
    (record { in_use = false; conn_id = 0; connected = false; remote_bda = [] }, true)

-- The events of the GATT server with the parameters that the handlers read.
pub data Event : Type 0 where
  -- status and app_id
  reg : ℕ → ℕ → Event
  conf : Event
  create : Event
  connect : ℕ → List ℕ → Event
  disconnect : ℕ → Event
  close : Event
  -- conn_id, handle, len and value
  write : ℕ → ℕ → ℕ → List ℕ → Event
  -- num_handle, whether svc_uuid is that of the battery service, status and handles
  creat_attr_tab : ℕ → Bool → ℕ → List ℕ → Event
  other : Event

-- `if(hidd_le_env.hidd_cb != NULL) (hidd_le_env.hidd_cb)(event)`
unfoldable pub notify : HidEvent → Hid → List Call
notify event h = if h.callback then hidd_cb event ∷ [] else []

unfoldable pub hidd_le_create_service : ℕ → List Call
hidd_le_create_service gatts_if = create_bas_attr_tab gatts_if bas_idx_nb ∷ []

unfoldable pub on_reg : ℕ → ℕ → ℕ → Hid → Hid × List Call
on_reg gatts_if status app_id h =
    let h' = if app_id == hidd_app_id then record h { gatt_if = gatts_if } else h in
    (
      h',
      config_local_icon
          ∷ ((if app_id == hidd_app_id
                then (if h.callback
                    then hidd_cb (reg_finish status) ∷ hidd_le_create_service gatts_if
                    else [])
                else [])
              ++ (if app_id == battray_app_id then notify (bat_reg gatts_if) h else [])),
    )

unfoldable pub on_write : ℕ → ℕ → ℕ → List ℕ → Hid → List Call
on_write conn_id handle len value h =
    if handle == att h.att_tbl 20
    then (if h.callback then hidd_cb (led_write conn_id 2 (len % 256) value) ∷ [] else null_cb ∷ [])
    else []

unfoldable pub battery_created : ℕ → Bool → ℕ → List ℕ → ℕ → Hid → Hid × List Call
battery_created num_handle is_battery status handles gatts_if h =
    if num_handle == bas_idx_nb && (is_battery && status == 0)
    then (
      record h { start_hdl = att handles 0; end_hdl = (att handles 0 + bas_idx_nb - 1) % 2 ^ 16 },
      create_hid_attr_tab gatts_if hidd_le_idx_nb ∷ [],
    )
    else (h, [])

unfoldable pub service_created : ℕ → ℕ → List ℕ → Hid → Hid × List Call
service_created num_handle status handles h =
    if num_handle == hidd_le_idx_nb && status == 0
    then (
      hid_add_id_tbl (record h { att_tbl = take hidd_le_idx_nb handles }),
      start_service (att (take hidd_le_idx_nb handles) 0) ∷ [],
    )
    else (h, start_service (att handles 0) ∷ [])

unfoldable pub esp_hidd_prf_cb_hdl : Event → ℕ → Hid → Hid × List Call
esp_hidd_prf_cb_hdl (reg status app_id) gatts_if h = on_reg gatts_if status app_id h
esp_hidd_prf_cb_hdl (connect conn_id bda) gatts_if h = (
  record h { clcb = hidd_clcb_alloc conn_id bda h.clcb },
  set_encryption bda ∷ notify (ble_connect conn_id bda) h,
)
esp_hidd_prf_cb_hdl (disconnect conn_id) gatts_if h =
    (record h { clcb = (hidd_clcb_dealloc conn_id h.clcb).0 }, notify ble_disconnect h)
esp_hidd_prf_cb_hdl (write conn_id handle len value) gatts_if h =
    (h, on_write conn_id handle len value h)
esp_hidd_prf_cb_hdl (creat_attr_tab num_handle is_battery status handles) gatts_if h =
    let (h1, calls1) = battery_created num_handle is_battery status handles gatts_if h in
    let (h2, calls2) = service_created num_handle status handles h1 in (h2, calls1 ++ calls2)
esp_hidd_prf_cb_hdl conf gatts_if h = (h, [])
esp_hidd_prf_cb_hdl create gatts_if h = (h, [])
esp_hidd_prf_cb_hdl close gatts_if h = (h, [])
esp_hidd_prf_cb_hdl other gatts_if h = (h, [])

-- The profile hears the events of its own interface, and those of none.
unfoldable pub to_profile : Event → ℕ → Hid → Hid × List Call
to_profile event gatts_if h =
    if gatts_if == 255 || gatts_if == h.profile_if
    then esp_hidd_prf_cb_hdl event gatts_if h
    else (h, [])

unfoldable pub gatts_event_handler : Event → ℕ → Hid → Hid × List Call
gatts_event_handler (reg status app_id) gatts_if h =
    if status == 0
    then to_profile (reg status app_id) gatts_if (record h { profile_if = gatts_if })
    else (h, [])
gatts_event_handler event gatts_if h = to_profile event gatts_if h

-- hidd_le_env after memset with 0.
unfoldable pub hidd_le_init : Hid → Hid
hidd_le_init h = record h {
  clcb = record { in_use = false; conn_id = 0; connected = false; remote_bda = [] };
  gatt_if = 0;
  enabled = false;
  att_tbl = [];
  callback = false;
}

unfoldable pub is_own_handle : ℕ → Hid → Bool
is_own_handle handle h = leb (att h.att_tbl 3) handle && leb handle (att h.att_tbl 36)

unfoldable pub hidd_set_attr_value : ℕ → ℕ → List ℕ → Hid → List Call
hidd_set_attr_value handle val_len value h =
    if is_own_handle handle h then set_attr_value handle val_len value ∷ [] else []

unfoldable pub hidd_get_attr_value : ℕ → Hid → List Call
hidd_get_attr_value handle h = if is_own_handle handle h then get_attr_value handle ∷ [] else []
