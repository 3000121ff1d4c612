-- ===== src/Weather/Report.antt =====
-- A round of weather_station_task in lab7_3/main/http_request_example_main.c, from the replies to
-- the requests.
use cse.Base.{
  ℕ, zero, suc, ◌≤◌, ◌<◌, ◌≡◌, refl, ap, ◌∙◌, false, Option, some, List, [], ◌∷◌, ◌++◌, length,
  length-append, codes, arith, replicate,
}
use cse.Weather.Net.{Net, delay}
use cse.Weather.Http.{snprintf, get_text, post_text, send_request, http_get, http_post}
use cse.Weather.Station.{
  Float, celsius, server_ip, server_port, line_of, or_unknown, weather_path, payload_text, report,
  with_location, round,
}
use cse.Weather.Sent.{requests, requests-append, Up, http_get-requests, http_post-requests}
use cse.Weather.Replies.{Replies, reply-line_of}
use cse.Weather.Requests.{snprintf-short, post_request-length, post_text-post_request}

delays-requests : (n ms : ℕ) → requests (replicate n (delay ms)) ≡ []
unfolding requests
delays-requests zero ms = refl
delays-requests (suc n) ms = delays-requests n ms

module _ (float : Float) (weather server : Net) (sensor : Option float.F)
    (location outdoor : List ℕ) where
  -- The report with a known text for the outdoor temperature.
  payload-short :
      length location ≤ 127
      → length outdoor ≤ 63
      → length (float.two_decimals (celsius float sensor)) ≤ 64
      → length (payload_text location outdoor (float.two_decimals (celsius float sensor))) < 512
  unfolding payload_text
  payload-short a b c =
      let t = float.two_decimals (celsius float sensor) in
      omega (
        arith,
        length-append location (
            codes "\nOutdoor Temperature: "
            ++ (outdoor ++ (codes "\nESP32 Sensor Temperature: " ++ (t ++ codes " C")))),
        length-append outdoor (codes "\nESP32 Sensor Temperature: " ++ (t ++ codes " C")),
        length-append t (codes " C"),
      )

  get-short :
      length location ≤ 127
      → snprintf 512 (get_text (weather_path location) (codes "wttr.in") (codes "80"))
        ≡ get_text (codes "/" ++ (location ++ codes "?format=%t")) (codes "wttr.in") (codes "80")
  unfolding weather_path get_text
  get-short a =
      let path = codes "/" ++ (location ++ codes "?format=%t") in
      let sizes = length-append location (codes "?format=%t") in
      rw (snprintf-short 256 path (omega (arith, sizes))) (
        snprintf-short 512 (get_text path (codes "wttr.in") (codes "80")) (
          omega (
            arith,
            sizes,
            length-append path
                (codes " HTTP/1.0\r\nHost: wttr.in:80\r\nUser-Agent: curl/7.68.0\r\n\r\n"),
          )))

  post-short :
      length location ≤ 127
      → length outdoor ≤ 63
      → length (float.two_decimals (celsius float sensor)) ≤ 64
      → snprintf 1024 (
          post_text (codes "/") server_ip server_port (
            snprintf 512
              (payload_text location outdoor (float.two_decimals (celsius float sensor)))))
        ≡ post_text
            (codes "/")
            server_ip
            server_port
            (payload_text location outdoor (float.two_decimals (celsius float sensor)))
  post-short a b c =
      let payload = payload_text location outdoor (float.two_decimals (celsius float sensor)) in
      let short = payload-short a b c in
      rw (snprintf-short 512 payload short, post_text-post_request payload)
        (snprintf-short 1024 _ (omega (arith, post_request-length payload (omega arith))))

  -- The outdoor temperature that the weather's reply gives.
  known_temp : List ℕ
  known_temp =
      or_unknown (
        line_of 63 (http_get weather (codes "wttr.in") (codes "80") (weather_path location) 2048).0)

  report-requests :
      (asked : List (List ℕ))
      → Up server
      → length location ≤ 127
      → length outdoor ≤ 63
      → length (float.two_decimals (celsius float sensor)) ≤ 64
      → requests (http_get weather (codes "wttr.in") (codes "80") (weather_path location) 2048).1
        ≡ asked
      → known_temp ≡ outdoor
      → requests (report float weather server sensor location)
        ≡ asked
          ++ (post_text
                (codes "/")
                server_ip
                server_port
                (payload_text location outdoor (float.two_decimals (celsius float sensor)))
              ∷ [])
  unfolding report known_temp
  report-requests asked s a b c sent known =
      let get = http_get weather (codes "wttr.in") (codes "80") (weather_path location) 2048 in
      let payload = λ (temp : List ℕ).
        snprintf 512 (payload_text location temp (float.two_decimals (celsius float sensor))) in
      let post = http_post server server_ip server_port (codes "/") (payload known_temp) 2048 in
      let pause = replicate 11 (delay 1000) in
      requests-append get.1 (post.1 ++ pause)
      ∙ ap (λ r. r ++ requests (post.1 ++ pause)) sent
      ∙ ap (λ r. asked ++ r)
          (requests-append post.1 pause
            ∙ ap (λ r. r ++ requests pause)
                (http_post-requests server server_ip server_port (codes "/") s (payload known_temp)
                  2048)
            ∙ ap
                (λ (temp : List ℕ).
                  (snprintf 1024 (post_text (codes "/") server_ip server_port (payload temp)) ∷ [])
                  ++ requests pause)
                known
            ∙ ap (λ r. r ∷ requests pause) (post-short a b c)
            ∙ ap
                (λ r.
                  post_text (codes "/") server_ip server_port
                    (payload_text location outdoor (float.two_decimals (celsius float sensor)))
                  ∷ r)
                (delays-requests 11 1000))

location_short :
    snprintf 512 (get_text (codes "/location") server_ip server_port)
    ≡ get_text (codes "/location") server_ip server_port
unfolding get_text
location_short = snprintf-short 512 _ (omega arith)

located :
    (locator : Net) (response location : List ℕ)
    → (http_get locator server_ip server_port (codes "/location") 2048).0 ≡ some response
    → Replies response location
    → length location ≤ 127
    → line_of 127 (http_get locator server_ip server_port (codes "/location") 2048).0
      ≡ some location
located locator response location e r short =
    ap (line_of 127) e ∙ reply-line_of 127 response location r short

location_request : List ℕ
location_request = get_text (codes "/location") server_ip server_port

located-requests :
    (float : Float) (locator weather server : Net) (sensor : Option float.F) (location : List ℕ)
    → Up locator
    → line_of 127 (http_get locator server_ip server_port (codes "/location") 2048).0
      ≡ some location
    → requests (round float locator weather server sensor)
      ≡ location_request ∷ requests (report float weather server sensor location)
unfolding round with_location location_request
located-requests float locator weather server sensor location u e =
    let get = http_get locator server_ip server_port (codes "/location") 2048 in
    requests-append get.1 (with_location float weather server sensor (line_of 127 get.0))
    ∙ ap (λ r. r ++ requests (with_location float weather server sensor (line_of 127 get.0)))
        (http_get-requests locator server_ip server_port (codes "/location") u 2048
          ∙ ap (λ r. r ∷ []) location_short)
    ∙ ap (λ l. location_request ∷ requests (with_location float weather server sensor l)) e

-- A round in which all three connections work, the server's reply has the location and the weather
-- service's the temperature as the first line of its body, however the bytes of the replies are
-- split over reads, asks for the location, asks for the weather of that location, and posts both
-- with the sensor's temperature, each request whole: for a location of at most 127 bytes, a
-- temperature of at most 63, and a text of at most 64 for the sensor's.
pub round-requests :
    (float : Float) (locator weather server : Net) (sensor : Option float.F)
    (response reply location temp : List ℕ)
    → Up locator
    → Up weather
    → Up server
    → (http_get locator server_ip server_port (codes "/location") 2048).0 ≡ some response
    → Replies response location
    → length location ≤ 127
    → (http_get weather (codes "wttr.in") (codes "80") (weather_path location) 2048).0 ≡ some reply
    → Replies reply temp
    → length temp ≤ 63
    → length (float.two_decimals (celsius float sensor)) ≤ 64
    → requests (round float locator weather server sensor)
      ≡ get_text (codes "/location") server_ip server_port
        ∷ get_text (codes "/" ++ (location ++ codes "?format=%t")) (codes "wttr.in") (codes "80")
        ∷ post_text
            (codes "/")
            server_ip
            server_port
            (payload_text location temp (float.two_decimals (celsius float sensor)))
        ∷ []
unfolding location_request or_unknown
round-requests float locator weather server sensor response reply location temp l w s e r a e' r' b
      c =
    located-requests float locator weather server sensor location l
      (located locator response location e r a)
    ∙ ap (λ t. location_request ∷ t)
        (report-requests float weather server sensor location temp _ s a b c
          (http_get-requests weather _ _ _ w 2048
            ∙ ap (λ t. t ∷ []) (get-short float weather server sensor location temp a))
          (unfold known_temp in
            ap (λ o. or_unknown (line_of 63 o)) e'
            ∙ ap or_unknown (reply-line_of 63 reply temp r' b)))

-- Where the weather service cannot be looked up, a round in which the other two connections work and
-- the server's reply has the location as the first line of its body still posts the location and
-- the sensor's temperature, with N/A for the weather: for a location of at most 127 bytes, and a
-- text of at most 64 for the sensor's temperature.
pub round_unknown :
    (float : Float) (locator weather server : Net) (sensor : Option float.F)
    (response location : List ℕ)
    → Up locator
    → weather.resolves ≡ false
    → Up server
    → (http_get locator server_ip server_port (codes "/location") 2048).0 ≡ some response
    → Replies response location
    → length location ≤ 127
    → length (float.two_decimals (celsius float sensor)) ≤ 64
    → requests (round float locator weather server sensor)
      ≡ get_text (codes "/location") server_ip server_port
        ∷ post_text
            (codes "/")
            server_ip
            server_port
            (payload_text location (codes "N/A") (float.two_decimals (celsius float sensor)))
        ∷ []
unfolding location_request
round_unknown float locator weather server sensor response location l down s e r a c =
    located-requests float locator weather server sensor location l
      (located locator response location e r a)
    ∙ ap (λ t. location_request ∷ t)
        (report-requests float weather server sensor location (codes "N/A") [] s a (omega arith) c
          (unfold http_get send_request requests in rw down refl)
          (unfold known_temp http_get send_request or_unknown line_of in rw down refl))
