-- ===== src/Weather.antt =====
-- The HTTP clients of labs 7.1, 7.2 and 7.3 (main/http_request_example_main.c in lab7_1, lab7_2 and
-- lab7_3).
pub mod Net
pub mod Http
pub mod Station
pub mod Home
pub mod Post
pub mod Reading
pub mod Sockets
pub mod Body
pub mod Decimal
pub mod Requests
pub mod Sent
pub mod Replies
pub mod Report
mod Tests
mod Setup
