-- ===== src/Shtc3/App.antt =====
-- app_main of lab2_2/main/main.c, with the delays of read_once.
use cse.Base.{ℕ, Bool, List, [], ◌∷◌, ◌++◌, Option, ℤ, if◌then◌else◌}
use cse.Shtc3.Sensor.{Bus, Float, cmd_wake, cmd_meas_t, tx16, round}

-- What the program asks of the driver, of the scheduler and of stdout.
pub data Action : Type 0 where
  new_master_bus : Action
  bus_add_device : Action
  transmit : List ℕ → Action
  receive : Action
  delay : ℕ → Action
  print : Option (ℤ × ℤ × ℤ) → Action

-- The driver's calls in read_once, and its delay.
unfoldable pub read_actions : Bus → List Action
read_actions bus =
    transmit (tx16 cmd_meas_t)
    ∷ (if bus.transmit (tx16 cmd_meas_t) then delay 25 ∷ receive ∷ [] else [])

module _ (float : Float) where
  -- One round for each state of the bus.
  unfoldable pub rounds : List Bus → List Action
  rounds [] = []
  rounds (bus ∷ buses) = read_actions bus ++ (print (round float bus) ∷ delay 2000 ∷ rounds buses)

  -- The arguments say whether the bus and the device are set up; the program ends where one is not.
  unfoldable pub app_main : Bool → Bool → List Bus → List Action
  app_main bus_ok device_ok buses =
      let loop = transmit (tx16 cmd_wake) ∷ delay 2 ∷ rounds buses in
      new_master_bus ∷ (if bus_ok then bus_add_device ∷ (if device_ok then loop else []) else [])
