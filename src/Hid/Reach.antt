-- ===== src/Hid/Reach.antt =====
-- The way of a report through lab4_3/main: from the profile's set-up to the attribute that is sent.
use cse.Base.{
  ℕ, zero, suc, ◌-◌, ◌≤◌, ◌<◌, ◌≡◌, refl, length, le→ltb, ap, ◌∙◌, Bool, true, false, List, [], ◌∷◌,
  ◌++◌, take, get_elem?, arith, ℤ, replicate, All, ◌==◌, ◌||◌, Bool-cases, inl, inr, if◌then◌else◌,
}
use cse.Hid.Report.{
  Call, send_indicate, hid_dev_rpt_by_id, hid_dev_register_reports, hid_dev_send_report,
  hid_consumer_build_report, indicate,
}
use cse.Hid.Keyboard.{keyboard_bytes}
use cse.Hid.Profile.{
  Hid, Event, reg, conf, create, connect, disconnect, close, write, other, creat_attr_tab, att,
  hidd_app_id, battray_app_id, hidd_le_idx_nb, bas_idx_nb, hid_rpt_map, hid_add_id_tbl, on_reg,
  battery_created, service_created, esp_hidd_prf_cb_hdl, to_profile, gatts_event_handler,
  hidd_le_init,
}
use cse.Hid.Api.{
  Registrar, esp_hidd_register_callbacks, esp_hidd_profile_init, esp_hidd_send_mouse_value,
  esp_hidd_send_keyboard_value, esp_hidd_send_consumer_value, to_byte,
}

-- Events with the interfaces that they are for, handled in order.
unfoldable pub run_events : List (Event × ℕ) → Hid → Hid × List Call
run_events [] h = (h, [])
run_events ((event, gatts_if) ∷ events) h =
    let (h1, calls1) = gatts_event_handler event gatts_if h in
    let (h2, calls2) = run_events events h1 in (h2, calls1 ++ calls2)

-- What the stack reports when both applications and both attribute tables are accepted: the battery
-- service's interface is `bat_if`, the HID service's `hid_if`.
unfoldable pub set_up : ℕ → ℕ → List ℕ → List ℕ → List (Event × ℕ)
set_up bat_if hid_if bas_handles handles =
    (reg 0 battray_app_id, bat_if)
    ∷ (reg 0 hidd_app_id, hid_if)
    ∷ (creat_attr_tab bas_idx_nb true 0 bas_handles, hid_if)
    ∷ (creat_attr_tab hidd_le_idx_nb false 0 handles, hid_if)
    ∷ []

pub get_elem?-take {ℓ} :
    {A : Type ℓ} (n : ℕ) (xs : List A) (i : ℕ) → i < n → get_elem? (take n xs) i ≡ get_elem? xs i
get_elem?-take zero xs i h = absurd (omega arith)
get_elem?-take (suc n) [] i h = refl
get_elem?-take (suc n) (x ∷ xs) zero h = refl
get_elem?-take (suc n) (x ∷ xs) (suc i) h = get_elem?-take n xs i (omega arith)

pub att-take : (n : ℕ) (tbl : List ℕ) (idx : ℕ) → idx < n → att (take n tbl) idx ≡ att tbl idx
unfolding att
att-take n tbl idx h = rw (att, get_elem?-take n tbl idx h) refl

-- An event for the profile's own interface reaches it.
own_event :
    (event : Event) (h : Hid)
    → to_profile event h.profile_if h ≡ esp_hidd_prf_cb_hdl event h.profile_if h
unfolding to_profile
own_event event h = ground arith

reg_handled :
    (app_id gatts_if : ℕ) (h : Hid)
    → gatts_event_handler (reg 0 app_id) gatts_if h
      ≡ on_reg gatts_if 0 app_id (record h { profile_if = gatts_if })
unfolding gatts_event_handler esp_hidd_prf_cb_hdl
reg_handled app_id gatts_if h = own_event (reg 0 app_id) (record h { profile_if = gatts_if })

tab_handled :
    (num_handle : ℕ) (is_battery : Bool) (handles : List ℕ) (gatts_if : ℕ) (h : Hid)
    → h.profile_if ≡ gatts_if
    → gatts_event_handler (creat_attr_tab num_handle is_battery 0 handles) gatts_if h
      ≡ esp_hidd_prf_cb_hdl (creat_attr_tab num_handle is_battery 0 handles) gatts_if h
unfolding gatts_event_handler to_profile
tab_handled num_handle is_battery handles gatts_if h e = ground (arith, e)

-- The profile after its start and the registration of a callback.
unfoldable pub registered : Registrar → Hid → Hid
registered lib h = (esp_hidd_register_callbacks lib true (esp_hidd_profile_init h).1).1

-- The profile that has its interface, and once its service exists.
record Owning (hid_if : ℕ) (h : Hid) : Type 0 where
  pub own : h.gatt_if ≡ hid_if
  pub heard : h.profile_if ≡ hid_if
  pub mode : h.reports.protocol_mode ≡ 1

record Ready (handles : List ℕ) (hid_if : ℕ) (h : Hid) : Type 0 where
  pub owning : Owning hid_if h
  pub tbl : h.reports.rpt_tbl ≡ hid_rpt_map (take hidd_le_idx_nb handles)

battery_created-Owning :
    (handles : List ℕ) (hid_if : ℕ) (h : Hid)
    → Owning hid_if h
    → Owning hid_if (gatts_event_handler (creat_attr_tab bas_idx_nb true 0 handles) hid_if h).0
unfolding esp_hidd_prf_cb_hdl battery_created service_created
battery_created-Owning handles hid_if h o =
    rw (tab_handled bas_idx_nb true handles hid_if h o.heard)
      (record { own = o.own; heard = o.heard; mode = o.mode })

service_created-Ready :
    (handles : List ℕ) (hid_if : ℕ) (h : Hid)
    → Owning hid_if h
    → Ready handles hid_if
        (gatts_event_handler (creat_attr_tab hidd_le_idx_nb false 0 handles) hid_if h).0
unfolding esp_hidd_prf_cb_hdl battery_created service_created hid_add_id_tbl
    hid_dev_register_reports hid_rpt_map
service_created-Ready handles hid_if h o =
    rw (tab_handled hidd_le_idx_nb false handles hid_if h o.heard)
      (record { owning = record { own = o.own; heard = o.heard; mode = o.mode }; tbl = refl })

reg-Owning :
    (hid_if : ℕ) (h : Hid)
    → h.reports.protocol_mode ≡ 1
    → Owning hid_if (gatts_event_handler (reg 0 hidd_app_id) hid_if h).0
unfolding on_reg
reg-Owning hid_if h m =
    rw (reg_handled hidd_app_id hid_if h) (record { own = refl; heard = refl; mode = m })

reg-mode :
    (hid_if : ℕ) (h : Hid)
    → (gatts_event_handler (reg 0 battray_app_id) hid_if h).0.reports ≡ h.reports
unfolding on_reg
reg-mode hid_if h = rw (reg_handled battray_app_id hid_if h) refl

registered-mode : (lib : Registrar) (h : Hid) → (registered lib h).reports ≡ h.reports
unfolding registered esp_hidd_register_callbacks esp_hidd_profile_init hidd_le_init
registered-mode lib h = ground arith

module _ (lib : Registrar) (h : Hid) (bat_if hid_if : ℕ) (bas_handles handles : List ℕ) where
  set_up-Ready :
      h.reports.protocol_mode ≡ 1
      → Ready handles hid_if
          (run_events (set_up bat_if hid_if bas_handles handles) (registered lib h)).0
  unfolding run_events set_up
  set_up-Ready m = service_created-Ready handles hid_if _ (
      battery_created-Owning bas_handles hid_if _ (
        reg-Owning hid_if _
          (ap (λ r. r.protocol_mode) (reg-mode bat_if _ ∙ registered-mode lib h) ∙ m)))

module _ (handles : List ℕ) (hid_if : ℕ) (h : Hid) (conn_id : ℕ) (r : Ready handles hid_if h) where
  found :
      (id : ℕ) (rpt_type length : ℕ) (value : List ℕ)
      → hid_dev_send_report h.reports h.gatt_if conn_id id rpt_type length value
        ≡ indicate hid_if conn_id length value
            (hid_dev_rpt_by_id 1 (hid_rpt_map (take hidd_le_idx_nb handles)) id rpt_type)
  unfolding hid_dev_send_report
  found id rpt_type length value = rw (r.owning.own, r.owning.mode, r.tbl) refl

  sends_mouse :
      (button : ℕ) (x y : ℤ)
      → esp_hidd_send_mouse_value h conn_id button x y
        ≡ send_indicate hid_if conn_id
            (att handles 12)
            5
            (button ∷ to_byte x ∷ to_byte y ∷ 0 ∷ 0 ∷ [])
          ∷ []
  unfolding esp_hidd_send_mouse_value hid_rpt_map hid_dev_rpt_by_id indicate
  sends_mouse button x y =
      found 1 1 5 _
      ∙ ap
          (λ a. send_indicate hid_if conn_id a 5 (button ∷ to_byte x ∷ to_byte y ∷ 0 ∷ 0 ∷ []) ∷ [])
          (att-take 37 handles 12 (omega arith))

  sends_keyboard :
      (mask num_key : ℕ) (keys : List ℕ)
      → num_key ≤ 6
      → num_key ≤ length keys
      → esp_hidd_send_keyboard_value h conn_id mask keys num_key
        ≡ send_indicate hid_if conn_id
            (att handles 16)
            8
            (mask ∷ 0 ∷ (take num_key keys ++ replicate (6 - num_key) 0))
          ∷ []
  unfolding esp_hidd_send_keyboard_value hid_rpt_map hid_dev_rpt_by_id indicate
  sends_keyboard mask num_key keys few enough =
      rw (le→ltb few, keyboard_bytes mask num_key keys few enough)
        (found 2 1 8 _
          ∙ ap
              (λ a.
                send_indicate hid_if conn_id a 8
                  (mask ∷ 0 ∷ (take num_key keys ++ replicate (6 - num_key) 0))
                ∷ [])
              (att-take 37 handles 16 (omega arith)))

  sends_consumer :
      (cmd : ℕ) (pressed : Bool)
      → let b = if pressed then hid_consumer_build_report (0, 0) cmd else (0, 0) in
        esp_hidd_send_consumer_value h conn_id cmd pressed
        ≡ send_indicate hid_if conn_id (att handles 23) 2 (b.0 ∷ b.1 ∷ []) ∷ []
  unfolding esp_hidd_send_consumer_value hid_rpt_map hid_dev_rpt_by_id indicate
  sends_consumer cmd pressed =
      let b = if pressed then hid_consumer_build_report (0, 0) cmd else (0, 0) in
      found 3 1 2 _
      ∙ ap (λ a. send_indicate hid_if conn_id a 2 (b.0 ∷ b.1 ∷ []) ∷ [])
          (att-take 37 handles 23 (omega arith))

-- Events that neither create an attribute table nor register an application, as those of
-- connections, of writes and of the stack's confirmations.
abbrev pub IsLater : Event × ℕ → Type 0
IsLater (reg status app_id, gatts_if) = ⊥
IsLater (creat_attr_tab num_handle is_battery status tab, gatts_if) = ⊥
IsLater _ = Unit

module _ (handles : List ℕ) (hid_if : ℕ) where
  handled-Ready :
      (event : Event) (gatts_if : ℕ) (h : Hid)
      → IsLater (event, gatts_if)
      → Ready handles hid_if h
      → Ready handles hid_if (esp_hidd_prf_cb_hdl event gatts_if h).0
  unfolding esp_hidd_prf_cb_hdl
  handled-Ready (reg status app_id) gatts_if h v r = absurd v
  handled-Ready (creat_attr_tab num_handle is_battery status tab) gatts_if h v r = absurd v
  handled-Ready conf gatts_if h v r = r
  handled-Ready create gatts_if h v r = r
  handled-Ready (connect conn_id bda) gatts_if h v r = record {
    owning = record { own = r.owning.own; heard = r.owning.heard; mode = r.owning.mode };
    tbl = r.tbl;
  }
  handled-Ready (disconnect conn_id) gatts_if h v r = record {
    owning = record { own = r.owning.own; heard = r.owning.heard; mode = r.owning.mode };
    tbl = r.tbl;
  }
  handled-Ready close gatts_if h v r = r
  handled-Ready (write conn_id handle len value) gatts_if h v r = r
  handled-Ready other gatts_if h v r = r

  heard-Ready :
      (event : Event) (gatts_if : ℕ) (h : Hid)
      → IsLater (event, gatts_if)
      → Ready handles hid_if h
      → Ready handles hid_if (to_profile event gatts_if h).0
  unfolding to_profile
  heard-Ready event gatts_if h v r =
      elim (Bool-cases (gatts_if == 255 || gatts_if == h.profile_if)) [
        | inl own ↦ rw own (handled-Ready event gatts_if h v r)
        | inr foreign ↦ rw foreign r
      ]

  later-Ready :
      (event : Event) (gatts_if : ℕ) (h : Hid)
      → IsLater (event, gatts_if)
      → Ready handles hid_if h
      → Ready handles hid_if (gatts_event_handler event gatts_if h).0
  unfolding gatts_event_handler
  later-Ready (reg status app_id) gatts_if h v r = absurd v
  later-Ready (creat_attr_tab num_handle is_battery status tab) gatts_if h v r = absurd v
  later-Ready conf gatts_if h v r = heard-Ready conf gatts_if h v r
  later-Ready create gatts_if h v r = heard-Ready create gatts_if h v r
  later-Ready (connect conn_id bda) gatts_if h v r =
      heard-Ready (connect conn_id bda) gatts_if h v r
  later-Ready (disconnect conn_id) gatts_if h v r = heard-Ready (disconnect conn_id) gatts_if h v r
  later-Ready close gatts_if h v r = heard-Ready close gatts_if h v r
  later-Ready (write conn_id handle len value) gatts_if h v r =
      heard-Ready (write conn_id handle len value) gatts_if h v r
  later-Ready other gatts_if h v r = heard-Ready other gatts_if h v r

  run_events-Ready :
      (events : List (Event × ℕ)) (h : Hid)
      → All IsLater events
      → Ready handles hid_if h
      → Ready handles hid_if (run_events events h).0
  unfolding run_events
  run_events-Ready [] h v r = r
  run_events-Ready ((event, gatts_if) ∷ events) h (v, vs) r =
      run_events-Ready events (gatts_event_handler event gatts_if h).0 vs
        (later-Ready event gatts_if h v r)

-- Once the profile has been started, a callback registered and both services created, in report
-- mode, and whatever connections, writes and other events without a further registration or
-- attribute table have come after that, a mouse report, a keyboard report of at most six keys and a
-- consumer report, of a key that is pressed or released, are each indicated once, on the HID
-- service's interface and at the value attribute of their own characteristic: the mouse's with the
-- buttons, both movements and two zeros, the keyboard's with the mask, a zero and the keys, filled
-- up with zeros, the consumer's with the two bytes of the key's command, or two zeros at its release.
pub set_up-sends :
    (lib : Registrar) (h : Hid) (bat_if hid_if : ℕ) (bas_handles handles : List ℕ)
    (later : List (Event × ℕ)) (conn_id button mask num_key cmd : ℕ) (pressed : Bool) (x y : ℤ)
    (keys : List ℕ)
    → h.reports.protocol_mode ≡ 1
    → All IsLater later
    → num_key ≤ 6
    → num_key ≤ length keys
    → let h' = (run_events (set_up bat_if hid_if bas_handles handles) (registered lib h)).0 in
      let now = (run_events later h').0 in
      let b = if pressed then hid_consumer_build_report (0, 0) cmd else (0, 0) in
      (esp_hidd_send_mouse_value now conn_id button x y
        ≡ send_indicate hid_if conn_id
            (att handles 12)
            5
            (button ∷ to_byte x ∷ to_byte y ∷ 0 ∷ 0 ∷ [])
          ∷ [])
      × (esp_hidd_send_keyboard_value now conn_id mask keys num_key
          ≡ send_indicate hid_if conn_id
              (att handles 16)
              8
              (mask ∷ 0 ∷ (take num_key keys ++ replicate (6 - num_key) 0))
            ∷ [])
      × (esp_hidd_send_consumer_value now conn_id cmd pressed
          ≡ send_indicate hid_if conn_id (att handles 23) 2 (b.0 ∷ b.1 ∷ []) ∷ [])
set_up-sends lib h bat_if hid_if bas_handles handles later conn_id button mask num_key cmd pressed x
      y keys m vs few enough =
    let r =
      run_events-Ready handles hid_if later _ vs
        (set_up-Ready lib h bat_if hid_if bas_handles handles m) in
    (
      sends_mouse handles hid_if _ conn_id r button x y,
      sends_keyboard handles hid_if _ conn_id r mask num_key keys few enough,
      sends_consumer handles hid_if _ conn_id r cmd pressed,
    )
