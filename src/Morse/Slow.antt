-- ===== src/Morse/Slow.antt =====
-- Labs 5.1 and 5.2: the sender (lab5_1/send.c) and the polling receiver (lab5_2/main/lab5_2.c).
pub mod Sender
pub mod Receiver
pub mod Polls
pub mod Gaps
pub mod Changes
pub mod Run
pub mod Adc
pub mod Lamp
pub mod Letters
pub mod Words
pub mod Catch
pub mod Idle
pub mod Line
pub mod EndToEnd
pub mod Looks
pub mod Flash
pub mod Period
pub mod Timed
mod Tests
