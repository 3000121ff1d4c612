-- ===== src/Weather/Sent.antt =====
-- The requests that the helpers of lab7_3/main/http_request_example_main.c send.
use cse.Base.{ℕ, zero, suc, ◌-◌, ◌≡◌, refl, ap, ◌∙◌, true, List, [], ◌∷◌, ◌++◌, length, arith}
use cse.Weather.Net.{
  Net, Call, getaddrinfo, freeaddrinfo, socket, connect, write, set_timeout, read, close, put,
  delay,
}
use cse.Weather.Http.{snprintf, get_text, post_text, send_request, read_loop, http_get, http_post}

-- The requests that calls send.
unfoldable pub requests : List Call → List (List ℕ)
requests [] = []
requests (write bytes ∷ calls) = bytes ∷ requests calls
requests (getaddrinfo ok ∷ calls) = requests calls
requests (freeaddrinfo ∷ calls) = requests calls
requests (socket ok ∷ calls) = requests calls
requests (connect ∷ calls) = requests calls
requests (set_timeout ∷ calls) = requests calls
requests (read room ∷ calls) = requests calls
requests (close ∷ calls) = requests calls
requests (put text ∷ calls) = requests calls
requests (delay ms ∷ calls) = requests calls

pub requests-append : (xs ys : List Call) → requests (xs ++ ys) ≡ requests xs ++ requests ys
unfolding requests
requests-append [] ys = refl
requests-append (write bytes ∷ calls) ys = ap (λ r. bytes ∷ r) (requests-append calls ys)
requests-append (getaddrinfo ok ∷ calls) ys = requests-append calls ys
requests-append (freeaddrinfo ∷ calls) ys = requests-append calls ys
requests-append (socket ok ∷ calls) ys = requests-append calls ys
requests-append (connect ∷ calls) ys = requests-append calls ys
requests-append (set_timeout ∷ calls) ys = requests-append calls ys
requests-append (read room ∷ calls) ys = requests-append calls ys
requests-append (close ∷ calls) ys = requests-append calls ys
requests-append (put text ∷ calls) ys = requests-append calls ys
requests-append (delay ms ∷ calls) ys = requests-append calls ys

-- A connection on which everything works.
pub record Up (net : Net) : Type 0 where
  pub resolves : net.resolves ≡ true
  pub socket_ok : net.socket_ok ≡ true
  pub connects : net.connects ≡ true
  pub writes : net.writes ≡ true

read_loop-requests :
    (peer : ℕ → ℕ → List ℕ) (fuel i room : ℕ) → requests (read_loop peer fuel i room).0 ≡ []
unfolding requests read_loop
read_loop-requests peer zero i room = refl
read_loop-requests peer (suc fuel) i room =
    ground (arith, read_loop-requests peer fuel (suc i) (room - length (peer i room)))

send_request-Up :
    (net : Net) (request : List ℕ)
    → Up net
    → send_request net request
      ≡ (true, getaddrinfo true ∷ socket true ∷ connect ∷ freeaddrinfo ∷ write request ∷ [])
unfolding send_request
send_request-Up net request u = rw (u.resolves, u.socket_ok, u.connects, u.writes) refl

module _ (net : Net) (host port path : List ℕ) (u : Up net) where
  pub http_get-requests :
      (response_size : ℕ)
      → requests (http_get net host port path response_size).1
        ≡ snprintf 512 (get_text path host port) ∷ []
  unfolding http_get requests
  http_get-requests response_size =
      let room = response_size - 1 in
      rw (send_request-Up net (snprintf 512 (get_text path host port)) u) (
        ap (λ r. snprintf 512 (get_text path host port) ∷ r)
          (requests-append (read_loop net.peer room 0 room).0 (close ∷ [])
            ∙ ap (λ r. r ++ []) (read_loop-requests net.peer room 0 room)))

  pub http_post-requests :
      (payload : List ℕ) (response_size : ℕ)
      → requests (http_post net host port path payload response_size).1
        ≡ snprintf 1024 (post_text path host port payload) ∷ []
  unfolding http_post requests
  http_post-requests payload response_size =
      rw (send_request-Up net (snprintf 1024 (post_text path host port payload)) u) refl
