-- ===== src/Hid/Table.antt =====
-- The attribute tables of lab4_3/main/hid_device_le_prf.c, built without the vendor report. An
-- attribute's UUID and permissions have the values of the Bluetooth standard and of ESP-IDF, and
-- ESP_GATT_AUTO_RSP and ESP_UUID_LEN_16, which all have, are left out.
use cse.Base.{ℕ, ◌+◌, ◌/◌, ◌%◌, ◌^◌, List, [], ◌∷◌, ◌++◌}
use cse.Hid.Descriptor.{hid_report_map}

pub record Attr : Type 0 where
  pub uuid : ℕ
  pub perm : ℕ
  pub max_length : ℕ
  pub value : List ℕ

abbrev attr : ℕ → ℕ → ℕ → List ℕ → Attr
attr uuid perm max_length value = record {
  uuid = uuid;
  perm = perm;
  max_length = max_length;
  value = value;
}

-- The UUIDs of the attributes
abbrev pub primary_service_uuid : ℕ
primary_service_uuid = 0x2800

abbrev pub include_service_uuid : ℕ
include_service_uuid = 0x2802

abbrev pub character_declaration_uuid : ℕ
character_declaration_uuid = 0x2803

abbrev pub character_client_config_uuid : ℕ
character_client_config_uuid = 0x2902

abbrev pub hid_report_uuid : ℕ
hid_report_uuid = 0x2A4D

abbrev pub hid_report_ref_descr_uuid : ℕ
hid_report_ref_descr_uuid = 0x2908

-- ESP_GATT_PERM_READ, _READ_ENCRYPTED, _WRITE and _WRITE_ENCRYPTED
abbrev read : ℕ
read = 0x01

abbrev read_encrypted : ℕ
read_encrypted = 0x02

abbrev write : ℕ
write = 0x10

abbrev write_encrypted : ℕ
write_encrypted = 0x20

-- char_prop_read and the others: 2 for read, 4 for write without response, 8 for write, 16 for notify
abbrev char_prop_read : ℕ
char_prop_read = 0x02

abbrev char_prop_write_nr : ℕ
char_prop_write_nr = 0x04

abbrev char_prop_read_write : ℕ
char_prop_read_write = 0x0A

abbrev char_prop_read_notify : ℕ
char_prop_read_notify = 0x12

abbrev char_prop_read_write_write_nr : ℕ
char_prop_read_write_write_nr = 0x0E

-- The two bytes of a uint16_t in memory.
unfoldable pub word : ℕ → List ℕ
word x = x % 2 ^ 8 ∷ x / 2 ^ 8 ∷ []

-- HIDD_LE_REPORT_MAX_LEN and HIDD_LE_BOOT_REPORT_MAX_LEN
abbrev report_max_len : ℕ
report_max_len = 255

abbrev boot_report_max_len : ℕ
boot_report_max_len = 8

-- A characteristic's declaration, a value that the profile does not store, a client characteristic
-- configuration and a report reference.
abbrev declaration : ℕ → Attr
declaration props = attr character_declaration_uuid read 1 (props ∷ [])

abbrev report_value : ℕ → ℕ → ℕ → Attr
report_value uuid perm max_length = attr uuid perm max_length []

abbrev client_config : ℕ → Attr
client_config perm = attr character_client_config_uuid perm 2 []

abbrev report_ref : List ℕ → Attr
report_ref value = attr hid_report_ref_descr_uuid read 2 value

-- hidReportRefMouseIn, hidReportRefKeyIn, hidReportRefLedOut, hidReportRefFeature, hidReportRefCCIn:
-- the identifier of the report, and its type
unfoldable pub hid_report_ref_mouse_in : List ℕ
hid_report_ref_mouse_in = 1 ∷ 1 ∷ []

unfoldable pub hid_report_ref_key_in : List ℕ
hid_report_ref_key_in = 2 ∷ 1 ∷ []

unfoldable pub hid_report_ref_led_out : List ℕ
hid_report_ref_led_out = 2 ∷ 2 ∷ []

unfoldable pub hid_report_ref_feature : List ℕ
hid_report_ref_feature = 0 ∷ 3 ∷ []

unfoldable pub hid_report_ref_cc_in : List ℕ
hid_report_ref_cc_in = 3 ∷ 1 ∷ []

-- hidInfo
unfoldable pub hid_info : List ℕ
hid_info = 0x11 ∷ 0x01 ∷ 0x00 ∷ 0x01 ∷ []

-- The battery service, whose level is the argument.
unfoldable pub bas_att_db : ℕ → List Attr
bas_att_db battary_lev =
    attr primary_service_uuid read 2 (word 0x180F)
    ∷ declaration char_prop_read_notify
    ∷ attr 0x2A19 read 1 (battary_lev ∷ [])
    ∷ attr character_client_config_uuid (read + write) 2 (0 ∷ 0 ∷ [])
    ∷ attr 0x2904 read 8 []
    ∷ []

-- The HID service, its information, its control point, the report map and the protocol mode, the
-- first eleven; incl_svc and hidProtocolMode are arguments.
unfoldable pub service_attrs : List ℕ → ℕ → List Attr
service_attrs incl_svc hid_protocol_mode =
    attr primary_service_uuid read_encrypted 2 (word 0x1812)
    ∷ attr include_service_uuid read 6 incl_svc
    ∷ declaration char_prop_read
    ∷ attr 0x2A4A read 4 hid_info
    ∷ declaration char_prop_write_nr
    ∷ attr 0x2A4C write 1 []
    ∷ declaration char_prop_read
    ∷ attr 0x2A4B read 512 hid_report_map
    ∷ attr 0x2907 read 2 (word 0x2A19)
    ∷ declaration char_prop_read_write
    ∷ attr 0x2A4E (read + write) 1 (hid_protocol_mode ∷ [])
    ∷ []

-- The mouse, the keyboard, its LEDs and the consumer control.
unfoldable pub report_attrs : List Attr
report_attrs =
    declaration char_prop_read_notify
    ∷ report_value hid_report_uuid read report_max_len
    ∷ client_config (read + write)
    ∷ report_ref hid_report_ref_mouse_in
    ∷ declaration char_prop_read_notify
    ∷ report_value hid_report_uuid read report_max_len
    ∷ client_config (read + write)
    ∷ report_ref hid_report_ref_key_in
    ∷ declaration char_prop_read_write_write_nr
    ∷ report_value hid_report_uuid (read + write) report_max_len
    ∷ report_ref hid_report_ref_led_out
    ∷ declaration char_prop_read_notify
    ∷ report_value hid_report_uuid read report_max_len
    ∷ client_config (read + write_encrypted)
    ∷ report_ref hid_report_ref_cc_in
    ∷ []

-- The boot reports and the feature report.
unfoldable pub boot_attrs : List Attr
boot_attrs =
    declaration char_prop_read_notify
    ∷ report_value 0x2A22 read boot_report_max_len
    ∷ client_config (read + write)
    ∷ declaration char_prop_read_write
    ∷ report_value 0x2A32 (read + write) boot_report_max_len
    ∷ declaration char_prop_read_notify
    ∷ report_value 0x2A33 read boot_report_max_len
    ∷ client_config (read + write)
    ∷ declaration char_prop_read_write
    ∷ report_value hid_report_uuid read report_max_len
    ∷ report_ref hid_report_ref_feature
    ∷ []

unfoldable pub hidd_le_gatt_db : List ℕ → ℕ → List Attr
hidd_le_gatt_db incl_svc hid_protocol_mode =
    service_attrs incl_svc hid_protocol_mode ++ (report_attrs ++ boot_attrs)
