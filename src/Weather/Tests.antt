-- ===== src/Weather/Tests.antt =====
-- The HTTP clients at concrete inputs. Floats are hundredths here.
use cse.Weather.Setup.{
  nvs_flash_init, esp_netif_init, esp_event_loop_create_default, temperature_sensor_install,
  temperature_sensor_enable, example_connect, create_task, checked_calls, get_main, post_main,
  network_calls, sensor_calls,
}
use cse.Base.{
  Bool, false, ℕ, ◌+◌, ◌-◌, ◌/◌, ◌%◌, ◌≤◌, ◌<◌, ◌≡◌, refl, inl, true, false, none, some, List, [],
  ◌∷◌, ◌++◌, take, codes, length, ◌==◌, if◌then◌else◌, arith,
}
use cse.Weather.Net.{Net, read}
use cse.Weather.Http.{
  snprintf, decimal, digits, begins, behind, send_request, read_loop, http_get, extract_body,
  is_empty, get_text, post_text,
}
use cse.Weather.Station.{Float, celsius, server_ip, server_port, weather_path, payload_text, round}
use cse.Weather.Home.{get_round}
use cse.Weather.Post.{post_request, post_round}
use cse.Weather.Reading.{Limited, read_all, read_all_ends, http_get-length}
use cse.Weather.Sockets.{account_all, nothing, rounds-account}
use cse.Weather.Requests.{content_length, requests_whole}
use cse.Weather.Sent.{requests, Up}
use cse.Weather.Replies.{Replies}
use cse.Weather.Report.{round-requests, round_unknown}

abbrev hundredths : Float
hundredths = record {
  F = ℕ;
  zero_float = 0;
  two_decimals =
      λ t. decimal (t / 100) ++ (codes "." ++ ((b'0' + t / 10 % 10) ∷ (b'0' + t % 10) ∷ []));
}

-- A peer that sends a reply in two segments.
abbrev segments : List ℕ → List ℕ → ℕ → ℕ → List ℕ
segments one two i room = take room (if i == 0 then one else if i == 1 then two else [])

abbrev up : List ℕ → List ℕ → Net
up one two = record {
  resolves = true;
  socket_ok = true;
  connects = true;
  writes = true;
  timeout_ok = true;
  peer = segments one two;
}

abbrev unresolved : Net
unresolved = record (up [] []) { resolves = false }

abbrev locator : Net
locator = up (codes "HTTP/1.0 200 OK\r\nServer: x\r") (codes "\n\r\nSanta-Cruz")

abbrev weather : Net
weather = up (codes "HTTP/1.0 200 OK\r\n\r\n+15C") (codes "\n")

located_reply :
    (http_get locator server_ip server_port (codes "/location") 2048).0
    ≡ some (codes "HTTP/1.0 200 OK\r\nServer: x\r\n\r\nSanta-Cruz")
unfolding http_get send_request read_loop
located_reply = refl

weather_reply :
    (http_get weather (codes "wttr.in") (codes "80") (weather_path (codes "Santa-Cruz")) 2048).0
    ≡ some (codes "HTTP/1.0 200 OK\r\n\r\n+15C\n")
unfolding http_get send_request read_loop
weather_reply = refl

santa_cruz : Replies (codes "HTTP/1.0 200 OK\r\nServer: x\r\n\r\nSanta-Cruz") (codes "Santa-Cruz")
unfolding extract_body behind begins
santa_cruz = record {
  head = codes "HTTP/1.0 200 OK\r\nServer: x\r\n\r\n";
  after = [];
  spells = refl;
  blank = refl;
  ends = tt;
  text = omega arith;
  inside = ground arith;
}

fifteen : Replies (codes "HTTP/1.0 200 OK\r\n\r\n+15C\n") (codes "+15C")
unfolding extract_body behind begins
fifteen = record {
  head = codes "HTTP/1.0 200 OK\r\n\r\n";
  after = codes "\n";
  spells = refl;
  blank = refl;
  ends = inl refl;
  text = omega arith;
  inside = ground arith;
}

all_up : (one two : List ℕ) → Up (up one two)
all_up one two = record { resolves = refl; socket_ok = refl; connects = refl; writes = refl }

sensor_short : length (hundredths.two_decimals (celsius hundredths (some 2150))) ≤ 64
unfolding celsius decimal digits
sensor_short = omega arith

round-requests_example :
    requests (round hundredths locator weather (up [] []) (some 2150))
    ≡ get_text (codes "/location") server_ip server_port
      ∷ get_text
          (codes "/" ++ (codes "Santa-Cruz" ++ codes "?format=%t"))
          (codes "wttr.in")
          (codes "80")
      ∷ post_text (codes "/") server_ip server_port (
          payload_text
            (codes "Santa-Cruz")
            (codes "+15C")
            (hundredths.two_decimals (celsius hundredths (some 2150))))
      ∷ []
round-requests_example =
    round-requests hundredths locator weather (up [] []) (some 2150) _ _ (codes "Santa-Cruz")
      (codes "+15C") (all_up _ _) (all_up _ _) (all_up _ _) located_reply santa_cruz (omega arith)
      weather_reply fifteen (omega arith) sensor_short

round_unknown_example :
    requests (round hundredths locator unresolved (up [] []) (some 2150))
    ≡ get_text (codes "/location") server_ip server_port
      ∷ post_text (codes "/") server_ip server_port (
          payload_text
            (codes "Santa-Cruz")
            (codes "N/A")
            (hundredths.two_decimals (celsius hundredths (some 2150))))
      ∷ []
round_unknown_example =
    round_unknown hundredths locator unresolved (up [] []) (some 2150) _ (codes "Santa-Cruz")
      (all_up _ _) refl (all_up _ _) located_reply santa_cruz (omega arith) sensor_short

abbrev echo : ℕ → ℕ → List ℕ
echo i room = if room == 0 then [] else if i == 0 then b'a' ∷ [] else []

echo-Limited : Limited echo
echo-Limited = record { limit = λ i room. ground arith }

read_all_ends_example :
    (read_all echo 0 100 ≡ (
      if 100 == 0 then ([], []) else if is_empty (echo 0 100) then (read 100 ∷ [], []) else (
        read 100 ∷ (read_all echo 1 (100 - length (echo 0 100))).0,
        echo 0 100 ++ (read_all echo 1 (100 - length (echo 0 100))).1,
      )))
    × (length (read_all echo 0 100).0 ≤ 100)
    × (length (read_all echo 0 100).1 ≤ 100)
read_all_ends_example = read_all_ends echo 0 100 echo-Limited

abbrev echoing : Net
echoing = record (up [] []) { peer = echo }

echoed : (http_get echoing (codes "h") (codes "80") (codes "/") 64).0 ≡ some (codes "a")
unfolding http_get send_request read_loop
echoed = refl

http_get-length_example : length (codes "a") < 64
http_get-length_example =
    http_get-length echoing (codes "h") (codes "80") (codes "/") 64 (codes "a") echo-Limited
      (omega arith) echoed

rounds-account_example :
    (account_all (get_round locator (codes "HTTP" ∷ codes "/1.0" ∷ [])) nothing ≡ some nothing)
    × (account_all (post_round hundredths locator none) nothing ≡ some nothing)
    × (account_all (round hundredths locator unresolved (up [] []) none) nothing ≡ some nothing)
rounds-account_example =
    rounds-account hundredths locator locator unresolved (up [] [])
      (codes "HTTP" ∷ codes "/1.0" ∷ []) none

requests_whole_example :
    let sent = snprintf 512 (post_request (codes "ESP32_Temperature: 21.50 C")) in
    let posted =
      snprintf 1024 (post_text (codes "/") server_ip server_port (codes "Location: A\n\nB")) in
    (extract_body sent ≡ some (codes "ESP32_Temperature: 21.50 C"))
    × (content_length sent ≡ some (length (codes "ESP32_Temperature: 21.50 C")))
    × (extract_body posted ≡ some (codes "Location: A\n\nB"))
    × (content_length posted ≡ some (length (codes "Location: A\n\nB")))
requests_whole_example =
    requests_whole (codes "ESP32_Temperature: 21.50 C") (codes "Location: A\n\nB") (omega arith)
      (omega arith)

-- The network does not connect; and everything succeeds.
unconnected :
    post_main (λ call. elim call as (λ c. Bool) [
      | nvs_flash_init ↦ true
      | esp_netif_init ↦ true
      | esp_event_loop_create_default ↦ true
      | temperature_sensor_install ↦ true
      | temperature_sensor_enable ↦ true
      | example_connect ↦ false
      | create_task ↦ true
    ])
    ≡ sensor_calls
unfolding post_main checked_calls
unconnected = refl

task_created : get_main (λ call. true) ≡ network_calls ++ (create_task ∷ [])
unfolding get_main checked_calls
task_created = refl
