-- ===== src/Hid/Callback.antt =====
-- The application's callback is never called while it is NULL (lab4_3/main/hid_device_le_prf.c).
use cse.Base.{
  ℕ, ◌≤◌, ◌≡◌, true, ◌||◌, List, [], ◌∷◌, ◌==◌, All, All-append, arith, Bool-cases, inl, inr,
}
use cse.Hid.Report.{Call, null_cb}
use cse.Hid.Profile.{
  Hid, Event, reg, conf, create, connect, disconnect, close, write, creat_attr_tab, other, on_reg,
  on_write, notify, battery_created, service_created, hid_add_id_tbl, hidd_le_create_service,
  esp_hidd_prf_cb_hdl, to_profile, gatts_event_handler,
}
use cse.Hid.Api.{Registrar, esp_hidd_register_callbacks}
use cse.Hid.Reach.{run_events}

abbrev pub Sound : Call → Type 0
Sound null_cb = 1 ≤ 0
Sound _ = Unit

-- A callback is set, and the calls made are sound.
abbrev Good : Hid × List Call → Type 0
Good (h, calls) = (h.callback ≡ true) × All Sound calls

module _ (h : Hid) (set : h.callback ≡ true) where
  prf-Good : (event : Event) (gatts_if : ℕ) → Good (esp_hidd_prf_cb_hdl event gatts_if h)
  unfolding esp_hidd_prf_cb_hdl on_reg notify on_write battery_created service_created
      hid_add_id_tbl hidd_le_create_service
  prf-Good (reg status app_id) gatts_if = ground (arith, set)
  prf-Good conf gatts_if = (set, tt)
  prf-Good create gatts_if = (set, tt)
  prf-Good (connect conn_id bda) gatts_if = ground (arith, set)
  prf-Good (disconnect conn_id) gatts_if = ground (arith, set)
  prf-Good close gatts_if = (set, tt)
  prf-Good (write conn_id handle len value) gatts_if = ground (arith, set)
  prf-Good (creat_attr_tab num_handle is_battery status handles) gatts_if = ground (arith, set)
  prf-Good other gatts_if = (set, tt)

to_profile-Good :
    (event : Event) (gatts_if : ℕ) (h : Hid)
    → h.callback ≡ true
    → Good (to_profile event gatts_if h)
unfolding to_profile
to_profile-Good event gatts_if h set =
    elim (Bool-cases (gatts_if == 255 || gatts_if == h.profile_if)) [
      | inl own ↦ rw own (prf-Good h set event gatts_if)
      | inr foreign ↦ rw foreign (set, tt)
    ]

handler-Good :
    (event : Event) (gatts_if : ℕ) (h : Hid)
    → h.callback ≡ true
    → Good (gatts_event_handler event gatts_if h)
unfolding gatts_event_handler
handler-Good (reg status app_id) gatts_if h set = elim (Bool-cases (status == 0)) [
  | inl ok ↦
      rw ok (to_profile-Good (reg status app_id) gatts_if (record h { profile_if = gatts_if }) set)
  | inr failed ↦ rw failed (set, tt)
]
handler-Good conf gatts_if h set = to_profile-Good _ gatts_if h set
handler-Good create gatts_if h set = to_profile-Good _ gatts_if h set
handler-Good (connect conn_id bda) gatts_if h set = to_profile-Good _ gatts_if h set
handler-Good (disconnect conn_id) gatts_if h set = to_profile-Good _ gatts_if h set
handler-Good close gatts_if h set = to_profile-Good _ gatts_if h set
handler-Good (write conn_id handle len value) gatts_if h set = to_profile-Good _ gatts_if h set
handler-Good (creat_attr_tab num_handle is_battery status handles) gatts_if h set =
    to_profile-Good _ gatts_if h set
handler-Good other gatts_if h set = to_profile-Good _ gatts_if h set

run_events-Good :
    (events : List (Event × ℕ)) (h : Hid) → h.callback ≡ true → Good (run_events events h)
unfolding run_events
run_events-Good [] h set = (set, tt)
run_events-Good ((event, gatts_if) ∷ events) h set =
    let first = handler-Good event gatts_if h set in
    let rest = run_events-Good events (gatts_event_handler event gatts_if h).0 first.0 in
    (rest.0, All-append Sound _ _ first.1 rest.1)

register-set :
    (lib : Registrar) (h : Hid) → (esp_hidd_register_callbacks lib true h).1.callback ≡ true
unfolding esp_hidd_register_callbacks
register-set lib h = ground arith

-- After a callback was registered, whatever the registrations answer, no event of the GATT server
-- has the profile call the callback while it is NULL.
pub run_events-Sound :
    (lib : Registrar) (events : List (Event × ℕ)) (h : Hid)
    → All Sound (run_events events (esp_hidd_register_callbacks lib true h).1).1
run_events-Sound lib events h = (run_events-Good events _ (register-set lib h)).1
