-- ===== src/Panel.antt =====
-- Lab 3: the display on the I2C bus (components/lcd in lab3_2 and lab3_3) and the programs that write
-- on it, lab3_2/main/main.cpp and lab3_3/main/main.cpp, of which the second reads sensors.
mod I2c
mod Sensors
mod Detect
mod Found
mod Lcd
mod App
mod Hello
mod Screen
mod Display
mod Quiet
mod Written
mod Fields
mod Shown
mod Rounds
mod Tests
