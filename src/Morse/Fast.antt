-- ===== src/Morse/Fast.antt =====
-- Lab 5.3: the high-speed sender (lab5_3/sender/send.c) and receiver
-- (lab5_3/receiver/main/lab5_3.c).
pub mod Sender
pub mod Receiver
pub mod Buffer
pub mod Invariant
pub mod Link
pub mod Edges
pub mod Pulses
pub mod Transcript
pub mod Hearing
pub mod Characters
pub mod EndToEnd
pub mod Window
pub mod Queue
pub mod Session
mod Tests
mod Startup
pub mod Durations
