-- ===== src/Weather/Station.antt =====
-- weather_station_task of lab7_3/main/http_request_example_main.c. C's float is a parameter with
-- the text that %.2f makes of it; log lines are left out.
use cse.Base.{
  ℕ, zero, suc, ◌||◌, Option, none, some, List, [], ◌∷◌, ◌++◌, codes, c_string, replicate, ◌==◌,
  if◌then◌else◌, ◌>>=◌,
}
use cse.Weather.Net.{Net, Call, delay}
use cse.Weather.Http.{snprintf, is_empty, http_get, http_post, extract_body}

pub record Float : Type 1 where
  pub F : Type 0
  pub zero_float : F
  pub two_decimals : F → List ℕ

-- SERVER_IP, SERVER_PORT
abbrev pub server_ip : List ℕ
server_ip = codes "192.168.43.1"

abbrev pub server_port : List ℕ
server_port = codes "1234"

-- The loops that copy a body up to a line's end; `room` bytes are left before the last one.
unfoldable pub first_line : ℕ → List ℕ → List ℕ
first_line zero body = []
first_line (suc room) [] = []
first_line (suc room) (c ∷ body) =
    let rest = first_line room body in if c == 0 || (c == b'\n' || c == b'\r') then [] else c ∷ rest

-- The first line of a reply's body, where there is one.
unfoldable pub line_of : ℕ → Option (List ℕ) → Option (List ℕ)
line_of room none = none
line_of room (some response) =
    if is_empty response
    then none
    else (do body ← extract_body (c_string response); some (first_line room body))

unfoldable pub or_unknown : Option (List ℕ) → List ℕ
or_unknown none = codes "N/A"
or_unknown (some outdoor_temp) = outdoor_temp

unfoldable pub weather_path : List ℕ → List ℕ
weather_path location = snprintf 256 (codes "/" ++ (location ++ codes "?format=%t"))

unfoldable pub payload_text : List ℕ → List ℕ → List ℕ → List ℕ
payload_text location outdoor_temp sensor_temp =
    codes "Location: "
    ++ (location
        ++ (codes "\nOutdoor Temperature: "
            ++ (outdoor_temp
                ++ (codes "\nESP32 Sensor Temperature: " ++ (sensor_temp ++ codes " C")))))

module _ (float : Float) where
  -- What temperature_sensor_get_celsius gives; none where it fails.
  unfoldable pub celsius : Option float.F → float.F
  celsius none = float.zero_float
  celsius (some t) = t

  -- Steps 2 to 4 of a round, once the location is known.
  unfoldable pub report : Net → Net → Option float.F → List ℕ → List Call
  report weather server sensor location =
      let (reply, asked) =
        http_get weather (codes "wttr.in") (codes "80") (weather_path location) 2048 in
      let outdoor_temp = or_unknown (line_of 63 reply) in
      let payload =
        snprintf 512 (payload_text location outdoor_temp (float.two_decimals (celsius sensor))) in
      let (answer, posted) = http_post server server_ip server_port (codes "/") payload 2048 in
      asked ++ (posted ++ replicate 11 (delay 1000))

  unfoldable pub with_location : Net → Net → Option float.F → Option (List ℕ) → List Call
  with_location weather server sensor none = delay 10000 ∷ []
  with_location weather server sensor (some location) = report weather server sensor location

  -- One round of the task, with the three connections that it opens and the sensor's answer.
  unfoldable pub round : Net → Net → Net → Option float.F → List Call
  round locator weather server sensor =
      let (reply, asked) = http_get locator server_ip server_port (codes "/location") 2048 in
      asked ++ with_location weather server sensor (line_of 127 reply)
