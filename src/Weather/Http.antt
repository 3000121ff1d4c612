-- ===== src/Weather/Http.antt =====
-- The helpers of lab7_3/main/http_request_example_main.c: requests, connections and replies. A
-- request that snprintf cuts is what stands before the cut; log lines are left out.
use cse.Base.{
  ℕ, zero, suc, ◌+◌, ◌-◌, ◌/◌, ◌%◌, Bool, true, false, not, Option, none, some, List, [], ◌∷◌, ◌++◌,
  codes, length, take, drop, ltb, ◌==◌, if◌then◌else◌, ◌&&◌,
}
use cse.Weather.Net.{
  Net, Call, getaddrinfo, freeaddrinfo, socket, connect, write, set_timeout, read, close,
}

-- %d of a number, by its digits; `fuel` bounds their count.
unfoldable pub digits : ℕ → ℕ → List ℕ
digits zero n = []
digits (suc fuel) n =
    let front = digits fuel (n / 10) in
    if ltb n 10 then (b'0' + n) ∷ [] else front ++ ((b'0' + n % 10) ∷ [])

unfoldable pub decimal : ℕ → List ℕ
decimal n = digits (suc n) n

-- snprintf into a buffer of `size` bytes: the text before its terminating zero.
unfoldable pub snprintf : ℕ → List ℕ → List ℕ
snprintf size text = take (size - 1) text

unfoldable pub get_text : List ℕ → List ℕ → List ℕ → List ℕ
get_text path host port =
    codes "GET "
    ++ (path
        ++ (codes " HTTP/1.0\r\nHost: "
            ++ (host ++ (codes ":" ++ (port ++ codes "\r\nUser-Agent: curl/7.68.0\r\n\r\n")))))

unfoldable pub post_text : List ℕ → List ℕ → List ℕ → List ℕ → List ℕ
post_text path host port payload =
    codes "POST "
    ++ (path
        ++ (codes " HTTP/1.1\r\nHost: "
            ++ (host
                ++ (codes ":"
                    ++ (port
                        ++ (codes "\r\nContent-Type: text/plain\r\nContent-Length: "
                            ++ (decimal (length payload) ++ (codes "\r\n\r\n" ++ payload))))))))

-- From getaddrinfo to write: whether the request is out on an open socket.
unfoldable pub send_request : Net → List ℕ → Bool × List Call
send_request net request =
    if not net.resolves
    then (false, getaddrinfo false ∷ [])
    else if not net.socket_ok
    then (false, getaddrinfo true ∷ socket false ∷ freeaddrinfo ∷ [])
    else if not net.connects
    then (false, getaddrinfo true ∷ socket true ∷ connect ∷ close ∷ freeaddrinfo ∷ [])
    else if not net.writes
    then (
      false,
      getaddrinfo true ∷ socket true ∷ connect ∷ freeaddrinfo ∷ write request ∷ close ∷ [],
    )
    else (true, getaddrinfo true ∷ socket true ∷ connect ∷ freeaddrinfo ∷ write request ∷ [])

abbrev pub is_empty : List ℕ → Bool
is_empty [] = true
is_empty (c ∷ s) = false

-- The loop of http_get from its i-th read on, with `room` bytes left before the last one of the
-- buffer: its reads and the bytes that they bring. The room falls in each round that goes on, so
-- that as much fuel as room is never used up before it.
unfoldable pub read_loop : (ℕ → ℕ → List ℕ) → ℕ → ℕ → ℕ → List Call × List ℕ
read_loop peer zero i room = ([], [])
read_loop peer (suc fuel) i room =
    let chunk = peer i room in
    let rest = read_loop peer fuel (suc i) (room - length chunk) in
    if room == 0
    then ([], [])
    else if is_empty chunk
    then (read room ∷ [], [])
    else (read room ∷ rest.0, chunk ++ rest.1)

-- None where the result is -1; otherwise the bytes in the buffer, as many as the result says.
unfoldable pub http_get : Net → List ℕ → List ℕ → List ℕ → ℕ → Option (List ℕ) × List Call
http_get net host port path response_size =
    let (sent, calls) = send_request net (snprintf 512 (get_text path host port)) in
    let room = response_size - 1 in
    let got = read_loop net.peer room 0 room in
    if sent then (some got.1, calls ++ (set_timeout ∷ (got.0 ++ (close ∷ [])))) else (none, calls)

unfoldable pub http_post : Net → List ℕ → List ℕ → List ℕ → List ℕ → ℕ → Option (List ℕ) × List Call
http_post net host port path payload response_size =
    let (sent, calls) = send_request net (snprintf 1024 (post_text path host port payload)) in
    if sent
    then (
      some (net.peer 0 (response_size - 1)),
      calls ++ (set_timeout ∷ read (response_size - 1) ∷ close ∷ []),
    )
    else (none, calls)

-- Whether a text begins with another.
unfoldable pub begins : List ℕ → List ℕ → Bool
begins [] s = true
begins (c ∷ needle) [] = false
begins (c ∷ needle) (d ∷ s) = c == d && begins needle s

-- The rest of a text behind the first place where the needle stands.
unfoldable pub behind : List ℕ → List ℕ → Option (List ℕ)
behind needle [] = none
behind needle (c ∷ s) =
    if begins needle (c ∷ s) then some (drop (length needle) (c ∷ s)) else behind needle s

unfoldable pub extract_body : List ℕ → Option (List ℕ)
extract_body response = behind (codes "\r\n\r\n") response
