-- ===== src/Weather/Setup.antt =====
-- app_main of lab7_1, lab7_2 and lab7_3 (main/http_request_example_main.c): the calls that
-- ESP_ERROR_CHECK checks, up to the first that fails, where the program ends, and then the task.
use cse.Base.{
  Bool, true, ◌&&◌, List, [], ◌∷◌, ◌++◌, ◌≡◌, refl, ap, if◌then◌else◌, Bool-cases, inl, inr, arith,
}

pub data Call : Type 0 where
  nvs_flash_init : Call
  esp_netif_init : Call
  esp_event_loop_create_default : Call
  temperature_sensor_install : Call
  temperature_sensor_enable : Call
  example_connect : Call
  create_task : Call

-- Whether a call returns ESP_OK.
abbrev pub Answers : Type 0
Answers = Call → Bool

unfoldable pub checked_calls : Answers → List Call → List Call
checked_calls ok [] = create_task ∷ []
checked_calls ok (call ∷ calls) =
    let rest = checked_calls ok calls in if ok call then call ∷ rest else call ∷ []

-- The checked calls of lab 7.1, and those of labs 7.2 and 7.3.
abbrev pub network_calls : List Call
network_calls =
    nvs_flash_init ∷ esp_netif_init ∷ esp_event_loop_create_default ∷ example_connect ∷ []

abbrev pub sensor_calls : List Call
sensor_calls =
    nvs_flash_init ∷ esp_netif_init ∷ esp_event_loop_create_default ∷ temperature_sensor_install
    ∷ temperature_sensor_enable ∷ example_connect ∷ []

-- The three app_main.
unfoldable pub get_main : Answers → List Call
get_main ok = checked_calls ok network_calls

unfoldable pub post_main : Answers → List Call
post_main ok = checked_calls ok sensor_calls

unfoldable pub station_main : Answers → List Call
station_main ok = checked_calls ok sensor_calls

abbrev all_ok : Answers → List Call → Bool
all_ok ok [] = true
all_ok ok (call ∷ calls) = ok call && all_ok ok calls

-- Where every call succeeds, all are made in order, and the task is created after them.
checked_calls-all_ok :
    (ok : Answers) (calls : List Call)
    → all_ok ok calls ≡ true
    → checked_calls ok calls ≡ calls ++ (create_task ∷ [])
unfolding checked_calls
checked_calls-all_ok ok [] h = refl
checked_calls-all_ok ok (call ∷ calls) h = elim (Bool-cases (ok call)) [
  | inl e ↦ rw e (ap (λ rest. call ∷ rest) (checked_calls-all_ok ok calls (ground arith)))
  | inr e ↦ ground arith
]
