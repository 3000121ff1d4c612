-- ===== src/Shtc3.antt =====
-- The thermometer of lab 2.2 (lab2_2/main/main.c).
pub mod Sensor
pub mod Crc
pub mod Refusal
mod Tests
mod App
