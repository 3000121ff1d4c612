-- ===== src/Incline.antt =====
-- The inclination of lab 4.1 (lab4_1/main/lab4_1.c).
pub mod Message
pub mod Task
pub mod Quadrants
pub mod Rounds
pub mod Search
pub mod Recovery
mod Tests
