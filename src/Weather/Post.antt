-- ===== src/Weather/Post.antt =====
-- http_post_task of lab7_2/main/http_request_example_main.c. C's float is a parameter; log lines
-- are left out.
use cse.Base.{
  ℕ, true, false, not, Option, none, some, List, [], ◌∷◌, ◌++◌, codes, length, replicate,
  if◌then◌else◌,
}
use cse.Weather.Net.{
  Net, Call, getaddrinfo, freeaddrinfo, socket, connect, write, set_timeout, read, close, delay,
}
use cse.Weather.Http.{snprintf, decimal}
use cse.Weather.Station.{Float, server_ip, server_port}

unfoldable pub post_request : List ℕ → List ℕ
post_request payload =
    codes "POST / HTTP/1.1\r\nHost: "
    ++ (server_ip
        ++ (codes ":"
            ++ (server_port
                ++ (codes "\r\nContent-Type: text/plain\r\nContent-Length: "
                    ++ (decimal (length payload) ++ (codes "\r\n\r\n" ++ payload))))))

module _ (float : Float) where
  unfoldable pub temperature_text : Option float.F → List ℕ
  temperature_text none = float.two_decimals float.zero_float
  temperature_text (some t) = float.two_decimals t

  unfoldable pub post_payload : Option float.F → List ℕ
  post_payload sensor =
      snprintf 128 (codes "ESP32_Temperature: " ++ (temperature_text sensor ++ codes " C"))

  -- One round of the task's loop.
  unfoldable pub post_round : Net → Option float.F → List Call
  post_round net sensor =
      if not net.resolves
      then getaddrinfo false ∷ delay 5000 ∷ []
      else if not net.socket_ok
      then getaddrinfo true ∷ socket false ∷ freeaddrinfo ∷ delay 5000 ∷ []
      else if not net.connects
      then getaddrinfo true ∷ socket true ∷ connect ∷ close ∷ freeaddrinfo ∷ delay 5000 ∷ []
      else getaddrinfo true
        ∷ socket true
        ∷ connect
        ∷ freeaddrinfo
        ∷ write (snprintf 512 (post_request (post_payload sensor)))
        ∷ (if not net.writes
            then close ∷ delay 5000 ∷ []
            else set_timeout ∷ read 511 ∷ close ∷ replicate 6 (delay 1000))
