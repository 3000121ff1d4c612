-- ===== src/Mouse.antt =====
-- The mice of labs 4.2 and 4.3 (lab4_2/main/lab4_2.c, lab4_3/main/lab4_3.c).
pub mod Motion
pub mod Task
pub mod Link
pub mod Held
pub mod Bounds
pub mod Setup
pub mod Samples
mod Tests
pub mod Sweep
pub mod Delivery
