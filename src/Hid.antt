-- ===== src/Hid.antt =====
-- The BLE HID device profile that labs 4.2 and 4.3 share (lab4_3/main): reports (hid_dev.c), the
-- profile's events (hid_device_le_prf.c) and what an application calls (esp_hidd_prf_api.c).
pub mod Report
pub mod Profile
pub mod Api
pub mod Keyboard
pub mod Reach
pub mod Callback
pub mod Consumer
pub mod Descriptor
pub mod Host
pub mod Described
pub mod Typing
pub mod Sizes
mod Tests
mod Table
mod Discovery
