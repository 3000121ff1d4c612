-- ===== src/Morse/Slow/Adc.antt =====
-- The converter of lab5_2/main/lab5_2.c, and the task that polls it. Log lines are left out; a
-- failed ESP_ERROR_CHECK aborts the program.
use cse.Base.{ℕ, Bool, List, [], ◌∷◌, ◌++◌, Option, none, some, ◌>>=◌, if◌then◌else◌, ℤ}
use cse.Morse.Slow.Receiver.{Receiver, poll, start}

pub data Call : Type 0 where
  new_unit : Call
  config_channel : Call
  create_scheme : Call
  create_task : Call

-- Whether each call of init_adc succeeds.
pub record Adc : Type 0 where
  pub unit_ok : Bool
  pub channel_ok : Bool
  pub scheme_ok : Bool

-- Whether adc_cali_handle is not NULL, or none where the program aborts; and the calls.
unfoldable pub init_adc : Adc → Option Bool × List Call
init_adc adc =
    if adc.unit_ok
    then if adc.channel_ok
      then (some adc.scheme_ok, new_unit ∷ config_channel ∷ create_scheme ∷ [])
      else (none, new_unit ∷ config_channel ∷ [])
    else (none, new_unit ∷ [])

-- What the converter answers: the raw value, and the voltage that one is converted to, each none
-- where the call fails.
pub record Reading : Type 0 where
  pub raw : Option ℤ
  pub to_voltage : ℤ → Option ℤ

unfoldable pub read_adc : Bool → Reading → Option ℤ
read_adc calibrated r = do
  adc_raw ← r.raw
  if calibrated then r.to_voltage adc_raw else some adc_raw

-- Rounds of morse_receiver_task, each with its reading and its time; none where one aborts.
unfoldable pub listen : Bool → List (Reading × ℕ) → Receiver → Option Receiver
listen calibrated [] s = some s
listen calibrated ((r, current_time) ∷ rounds) s = do
  adc_value ← read_adc calibrated r
  listen calibrated rounds (poll s (record { adc_value = adc_value; current_time = current_time }))

-- init_adc, and then the task from its start.
unfoldable pub app_main : Adc → List ℕ → List (Reading × ℕ) → Option Receiver × List Call
app_main adc bytes rounds =
    let (calibrated, calls) = init_adc adc in
    elim calibrated [
      | none ↦ (none, calls)
      | some c ↦ (listen c rounds (start bytes), calls ++ (create_task ∷ []))
    ]
