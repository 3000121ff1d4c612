-- ===== src/Hid/Discovery.antt =====
-- How a host finds the reports of lab4_3/main/hid_device_le_prf.c in its attribute table, by the HID
-- over GATT profile, and that the profile sends them on the handles that the host has found.
use cse.Base.{
  ℕ, zero, suc, ◌+◌, Bool, ◌&&◌, not, List, [], ◌∷◌, Option, none, some, ◌==◌, if◌then◌else◌,
  bit_and, and_bits, ◌≡◌, refl, arith,
}
use cse.Hid.Report.{HidReport, hid_dev_rpt_by_id}
use cse.Hid.Profile.{att, hid_rpt_map}
use cse.Hid.Table.{
  Attr, character_declaration_uuid, hid_report_uuid, hid_report_ref_descr_uuid, hidd_le_gatt_db,
  service_attrs, report_attrs, boot_attrs, hid_report_ref_mouse_in, hid_report_ref_key_in,
  hid_report_ref_led_out, hid_report_ref_feature, hid_report_ref_cc_in,
}

-- The handles that a stack gives to a table: one after the other, the k-th being start + k.
abbrev pub consecutive : ℕ → ℕ → ℕ → List ℕ
consecutive start k zero = []
consecutive start k (suc left) = (start + k) ∷ consecutive start (k + 1) left

-- A report that the host can use, by its identifier, its type and the handle of its value.
pub record Found : Type 0 where
  pub id : ℕ
  pub rpt_type : ℕ
  pub handle : ℕ

-- An input report has to be notified, an output report written, a feature report read.
unfoldable pub usable : ℕ → ℕ → Bool
usable rpt_type props =
    if rpt_type == 1
    then not (bit_and props 0x10 == 0)
    else if rpt_type == 2
    then not (bit_and props 0x08 == 0)
    else not (bit_and props 0x02 == 0)

-- What a report reference adds, where the characteristic's properties and the handle of its value
-- are known.
unfoldable pub refer : Option (ℕ × ℕ) → List ℕ → List Found → List Found
refer (some (props, handle)) (id ∷ rpt_type ∷ []) rest =
    if usable rpt_type props
    then record { id = id; rpt_type = rpt_type; handle = handle } ∷ rest
    else rest
refer _ _ rest = rest

-- The properties of a declaration.
unfoldable pub declared : List ℕ → ℕ
declared [] = 0
declared (props ∷ value) = props

-- The properties declared last, and with them the handle of a report's value in the same
-- characteristic, after the k-th attribute.
unfoldable pub props_after : Attr → ℕ → ℕ
props_after a props = if a.uuid == character_declaration_uuid then declared a.value else props

unfoldable pub value_after : ℕ → ℕ → Attr → ℕ → Option (ℕ × ℕ) → Option (ℕ × ℕ)
value_after start k a props report =
    if a.uuid == character_declaration_uuid
    then none
    else if a.uuid == hid_report_uuid
    then some (props, start + k)
    else report

-- The reports in a table from the k-th attribute on.
unfoldable pub discover : ℕ → ℕ → ℕ → Option (ℕ × ℕ) → List Attr → List Found
discover start k props report [] = []
discover start k props report (a ∷ table) =
    let rest =
      discover start (k + 1) (props_after a props) (value_after start k a props report) table in
    if a.uuid == hid_report_ref_descr_uuid then refer report a.value rest else rest

unfoldable pub host_handle : List Found → ℕ → ℕ → Option ℕ
host_handle [] id rpt_type = none
host_handle (r ∷ found) id rpt_type =
    let rest = host_handle found id rpt_type in
    if r.id == id && r.rpt_type == rpt_type then some r.handle else rest

abbrev pub handle_of : Option HidReport → Option ℕ
handle_of none = none
handle_of (some r) = some r.handle

abbrev by_id : ℕ → ℕ → ℕ → Found
by_id id rpt_type handle = record { id = id; rpt_type = rpt_type; handle = handle }

hidd_le_gatt_db-discovered :
    (start mode : ℕ) (incl : List ℕ)
    → discover start 0 0 none (hidd_le_gatt_db incl mode)
      ≡ by_id 1 1 (start + 12)
        ∷ by_id 2 1 (start + 16)
        ∷ by_id 2 2 (start + 20)
        ∷ by_id 3 1 (start + 23)
        ∷ by_id 0 3 (start + 35)
        ∷ []
unfolding discover props_after value_after refer usable declared hidd_le_gatt_db service_attrs
    report_attrs boot_attrs hid_report_ref_mouse_in hid_report_ref_key_in hid_report_ref_led_out
    hid_report_ref_feature hid_report_ref_cc_in bit_and and_bits
hidd_le_gatt_db-discovered start mode incl = refl

registered_handles :
    (start id rpt_type : ℕ)
    → handle_of (hid_dev_rpt_by_id 1 (hid_rpt_map (consecutive start 0 37)) id rpt_type)
      ≡ host_handle
          (by_id 1 1 (start + 12)
            ∷ by_id 2 1 (start + 16)
            ∷ by_id 2 2 (start + 20)
            ∷ by_id 3 1 (start + 23)
            ∷ by_id 0 3 (start + 35)
            ∷ [])
          id
          rpt_type
unfolding hid_dev_rpt_by_id hid_rpt_map att host_handle
registered_handles start id rpt_type = ground arith

-- Where the stack numbers the attributes of the table one after the other, a host that walks the
-- table finds, for every identifier and type, a report that it can use with them exactly where the
-- profile has one in report mode, and the profile sends it on the handle that the host has found.
pub hid_dev_rpt_by_id-discovered :
    (start mode : ℕ) (incl : List ℕ) (id rpt_type : ℕ)
    → handle_of (hid_dev_rpt_by_id 1 (hid_rpt_map (consecutive start 0 37)) id rpt_type)
      ≡ host_handle (discover start 0 0 none (hidd_le_gatt_db incl mode)) id rpt_type
hid_dev_rpt_by_id-discovered start mode incl id rpt_type =
    rw (hidd_le_gatt_db-discovered start mode incl) (registered_handles start id rpt_type)
