-- ===== src/Weather/Home.antt =====
-- http_get_task of lab7_1/main/http_request_example_main.c. Log lines are left out.
use cse.Base.{ℕ, true, false, not, List, [], ◌∷◌, ◌++◌, codes, replicate, if◌then◌else◌}
use cse.Weather.Net.{
  Net, Call, getaddrinfo, freeaddrinfo, socket, connect, write, set_timeout, read, close, put,
  delay,
}

-- REQUEST
unfoldable pub request : List ℕ
request =
    codes
      "GET /Santa-Cruz?format=%t HTTP/1.0\r\nHost: wttr.in:80\r\nUser-Agent: curl/7.68.0\r\n\r\n"

-- The loop over the reads: `chunks` are the bytes of those that bring some.
unfoldable pub show_response : List (List ℕ) → List Call
show_response [] = read 63 ∷ []
show_response (chunk ∷ chunks) = read 63 ∷ put chunk ∷ show_response chunks

-- One round of the task's loop.
unfoldable pub get_round : Net → List (List ℕ) → List Call
get_round net chunks =
    if not net.resolves
    then getaddrinfo false ∷ delay 1000 ∷ []
    else if not net.socket_ok
    then getaddrinfo true ∷ socket false ∷ freeaddrinfo ∷ delay 1000 ∷ []
    else if not net.connects
    then getaddrinfo true ∷ socket true ∷ connect ∷ close ∷ freeaddrinfo ∷ delay 4000 ∷ []
    else getaddrinfo true
      ∷ socket true
      ∷ connect
      ∷ freeaddrinfo
      ∷ write request
      ∷ (if not net.writes
          then close ∷ delay 4000 ∷ []
          else set_timeout
            ∷ (if not net.timeout_ok
                then close ∷ delay 4000 ∷ []
                else show_response chunks ++ (close ∷ replicate 11 (delay 1000))))
