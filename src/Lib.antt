-- ===== src/Lib.antt =====
-- The labs of CSE121: programs for a Raspberry Pi and for the ESP32.
--
-- Lab 5 sends text as Morse code with an LED and reads it back with a photodiode. The senders
-- (lab5_1/send.c and lab5_3/sender/send.c) run on the Raspberry Pi, the receivers
-- (lab5_2/main/lab5_2.c, which polls a converter, and lab5_3/receiver/main/lab5_3.c, which
-- takes interrupts) on the ESP32. Lab 4.3 (lab4_3/main) is a mouse that is tilted: a task reads
-- a motion sensor and sends movements through a HID device profile over Bluetooth Low Energy.
-- Lab 2.2 (lab2_2/main/main.c) reads a thermometer whose answers carry a CRC. Lab 3.3
-- (lab3_3/main/main.cpp) shows readings of one of four sensors on a display. Lab 7 talks HTTP
-- over sockets (main/http_request_example_main.c in lab7_1, lab7_2 and lab7_3): it shows the
-- weather, posts a temperature, and does both for a location that a server names.
--
-- Base holds the names, the tests on numbers, the lists and the integers that the rest shares.
--
-- Morse.Code is the code table with get_morse_code and decode_morse, which all four programs
-- have. Morse.Host is what the senders ask of libgpiod and of the C library, Morse.Effects
-- measures lists of such actions, and Morse.Pattern is the receivers' morse_buffer. Morse.Fast
-- is lab 5.3: Sender and Receiver have one definition for each function and for each block of
-- the decoder's loop, with int sums and products that wrap at 32 bits; Durations says for which
-- dots none does. Link turns what a sender does with the LED into the edges that an interrupt
-- sees; Queue has the interrupt handler and the task interleave; Startup is the receiver's
-- app_main. Morse.Slow is labs 5.1 and 5.2, in the same way; a round of the receiver's loop is
-- `poll`, and a sample is what read_adc and the clock give it; Adc has the converter. Lamp
-- turns what a sender does with the LED into flashes, and Catch says when polls catch them:
-- their durations are measured to less than 50 ms. Looks gives the polls their times in
-- microseconds, and Flash and Period show what polls that are at most 49 ms apart catch.
--
-- Hid is the HID device profile: Report (hid_dev.c), Profile (hid_device_le_prf.c) and Api
-- (esp_hidd_prf_api.c). A handler takes the state, the profile's global variables, and returns
-- the next one with the calls that it makes of the Bluetooth stack and of the application.
-- Descriptor is the report descriptor, and Host how a host reads it and the reports, by the HID
-- specification: it reads no report with a value outside the logical range of its field. Table
-- has the attribute tables, and Discovery how a host finds the reports in them. Mouse is
-- lab4_3.c: Motion (the filter and the movement), Task (the callbacks and a round of the task)
-- and Setup (app_main); Delivery takes its movements through Hid to the host, and Sweep is
-- lab4_2/main/lab4_2.c. Incline is lab4_1/main/lab4_1.c, which announces the tilt as text:
-- Message (msg and its text) and Task (the search and the loop, with the filter and the
-- driver's calls of Mouse).
--
-- Shtc3 is the thermometer: Sensor has the functions of lab2_2/main/main.c, Crc what its check
-- tells apart; App is its app_main.
--
-- Weather is lab 7: Net (the calls of sockets and their answers), Http (http_get, http_post and
-- extract_body of lab7_3), Station (its task), Home (lab7_1), Post (lab7_2) and Setup (the
-- three app_main). The read loop has the room in its buffer for fuel, of which it uses one for
-- each byte at most.
--
-- Panel is lab 3. I2c, Sensors and Detect are the helpers, the sensors and the search of
-- lab3_3/main/main.cpp, Lcd is the display library of both programs
-- (components/lcd/DFRobot_lcd.cpp in lab3_2 and lab3_3, the same file), App and Hello are their
-- app_main. Screen is the controller of the display by its data sheet; Display says what a
-- driver does where one answers, Written and Fields what the calls and the texts then leave on
-- it, Quiet that the sensors leave it alone.
--
-- State is passed on explicitly, and output is a list of actions or calls in the order in which
-- the program makes them. Other loops are structural recursion and need no fuel. Parameters
-- stand for what is not in the repository: libgpiod's answers, conversion and multiplication of
-- double in the senders, float in the mice, the thermometers and the weather clients, the
-- conversions of snprintf, the network, the answers of the converter, of the sensor's driver
-- and of the Bluetooth stack. Constants of ESP-IDF have their documented values (ESP_OK and
-- ESP_GATT_OK are 0, ESP_GATT_IF_NONE is 255).
--
-- Times count from the start of the device and stay below 2 ^ 63, as 64-bit clocks do for
-- 292,000 years in microseconds; where the programs store a difference of times in an int, the
-- model takes its low 32 bits, and so it does where the programs of lab 5.3 multiply a dot in
-- an int. A message is a list of bytes; that its durations fit an int is a condition where it
-- is needed. Text on stderr, log lines and progress lines are left out, and so is the time that
-- the lab 5.3 sender prints. A round of a task is one step.
--
-- Not modelled are the HID profile's files in lab4_2 and ble_hid_device_demo, which are those
-- of lab 4.3; the copies of sensor libraries in lab4_1/managed_components; the scripts of
-- autograder; and the examples of ESP-IDF in the other directories, which are kept as ESP-IDF
-- has them.
pub mod Base
pub mod Morse
pub mod Hid
pub mod Mouse
pub mod Shtc3
pub mod Weather
pub mod Incline
pub mod Panel
