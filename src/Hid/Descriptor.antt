-- ===== src/Hid/Descriptor.antt =====
-- hidReportMap of lab4_3/main/hid_device_le_prf.c, the report descriptor that the profile serves.
use cse.Base.{ℕ, List, [], ◌∷◌, ◌++◌}

unfoldable pub mouse_map : List ℕ
mouse_map =
    0x05 ∷ 0x01 ∷ 0x09 ∷ 0x02 ∷ 0xA1 ∷ 0x01 ∷ 0x85 ∷ 0x01 ∷ 0x09 ∷ 0x01 ∷ 0xA1 ∷ 0x00 ∷ 0x05 ∷ 0x09
    ∷ 0x19 ∷ 0x01 ∷ 0x29 ∷ 0x03 ∷ 0x15 ∷ 0x00 ∷ 0x25 ∷ 0x01 ∷ 0x75 ∷ 0x01 ∷ 0x95 ∷ 0x03 ∷ 0x81
    ∷ 0x02 ∷ 0x75 ∷ 0x05 ∷ 0x95 ∷ 0x01 ∷ 0x81 ∷ 0x01 ∷ 0x05 ∷ 0x01 ∷ 0x09 ∷ 0x30 ∷ 0x09 ∷ 0x31
    ∷ 0x09 ∷ 0x38 ∷ 0x15 ∷ 0x81 ∷ 0x25 ∷ 0x7F ∷ 0x75 ∷ 0x08 ∷ 0x95 ∷ 0x03 ∷ 0x81 ∷ 0x06 ∷ 0xC0
    ∷ 0xC0 ∷ []

unfoldable pub keyboard_map : List ℕ
keyboard_map =
    0x05 ∷ 0x01 ∷ 0x09 ∷ 0x06 ∷ 0xA1 ∷ 0x01 ∷ 0x85 ∷ 0x02 ∷ 0x05 ∷ 0x07 ∷ 0x19 ∷ 0xE0 ∷ 0x29 ∷ 0xE7
    ∷ 0x15 ∷ 0x00 ∷ 0x25 ∷ 0x01 ∷ 0x75 ∷ 0x01 ∷ 0x95 ∷ 0x08 ∷ 0x81 ∷ 0x02 ∷ 0x95 ∷ 0x01 ∷ 0x75
    ∷ 0x08 ∷ 0x81 ∷ 0x01 ∷ 0x05 ∷ 0x08 ∷ 0x19 ∷ 0x01 ∷ 0x29 ∷ 0x05 ∷ 0x95 ∷ 0x05 ∷ 0x75 ∷ 0x01
    ∷ 0x91 ∷ 0x02 ∷ 0x95 ∷ 0x01 ∷ 0x75 ∷ 0x03 ∷ 0x91 ∷ 0x01 ∷ 0x95 ∷ 0x06 ∷ 0x75 ∷ 0x08 ∷ 0x15
    ∷ 0x00 ∷ 0x25 ∷ 0x65 ∷ 0x05 ∷ 0x07 ∷ 0x19 ∷ 0x00 ∷ 0x29 ∷ 0x65 ∷ 0x81 ∷ 0x00 ∷ 0xC0 ∷ []

unfoldable pub consumer_map : List ℕ
consumer_map =
    0x05 ∷ 0x0C ∷ 0x09 ∷ 0x01 ∷ 0xA1 ∷ 0x01 ∷ 0x85 ∷ 0x03 ∷ 0x09 ∷ 0x02 ∷ 0xA1 ∷ 0x02 ∷ 0x05 ∷ 0x09
    ∷ 0x19 ∷ 0x01 ∷ 0x29 ∷ 0x0A ∷ 0x15 ∷ 0x01 ∷ 0x25 ∷ 0x0A ∷ 0x75 ∷ 0x04 ∷ 0x95 ∷ 0x01 ∷ 0x81
    ∷ 0x00 ∷ 0xC0 ∷ 0x05 ∷ 0x0C ∷ 0x09 ∷ 0x86 ∷ 0x15 ∷ 0xFF ∷ 0x25 ∷ 0x01 ∷ 0x75 ∷ 0x02 ∷ 0x95
    ∷ 0x01 ∷ 0x81 ∷ 0x46 ∷ 0x09 ∷ 0xE9 ∷ 0x09 ∷ 0xEA ∷ 0x15 ∷ 0x00 ∷ 0x75 ∷ 0x01 ∷ 0x95 ∷ 0x02
    ∷ 0x81 ∷ 0x02 ∷ 0x09 ∷ 0xE2 ∷ 0x09 ∷ 0x30 ∷ 0x09 ∷ 0x83 ∷ 0x09 ∷ 0x81 ∷ 0x09 ∷ 0xB0 ∷ 0x09
    ∷ 0xB1 ∷ 0x09 ∷ 0xB2 ∷ 0x09 ∷ 0xB3 ∷ 0x09 ∷ 0xB4 ∷ 0x09 ∷ 0xB5 ∷ 0x09 ∷ 0xB6 ∷ 0x09 ∷ 0xB7
    ∷ 0x15 ∷ 0x01 ∷ 0x25 ∷ 0x0C ∷ 0x75 ∷ 0x04 ∷ 0x95 ∷ 0x01 ∷ 0x81 ∷ 0x00 ∷ 0x09 ∷ 0x80 ∷ 0xA1
    ∷ 0x02 ∷ 0x05 ∷ 0x09 ∷ 0x19 ∷ 0x01 ∷ 0x29 ∷ 0x03 ∷ 0x15 ∷ 0x01 ∷ 0x25 ∷ 0x03 ∷ 0x75 ∷ 0x02
    ∷ 0x81 ∷ 0x00 ∷ 0xC0 ∷ 0x81 ∷ 0x03 ∷ 0xC0 ∷ []

-- Vendor reports are left out, as SUPPORT_REPORT_VENDOR is false.
unfoldable pub hid_report_map : List ℕ
hid_report_map = mouse_map ++ (keyboard_map ++ consumer_map)
