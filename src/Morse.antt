-- ===== src/Morse.antt =====
-- Labs 5.1 to 5.3: Morse code sent by an LED and received by a photodiode.
pub mod Code
pub mod Pattern
pub mod Host
pub mod Effects
pub mod Fast
pub mod Slow
