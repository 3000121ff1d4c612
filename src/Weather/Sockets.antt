-- ===== src/Weather/Sockets.antt =====
-- What labs 7.1 to 7.3 hold of the network, call by call.
use cse.Base.{
  ℕ, zero, suc, ◌-◌, ◌≡◌, refl, ◌∙◌, Bool, true, false, not, ◌&&◌, Option, none, some, ◌>>=◌, List,
  [], ◌∷◌, ◌++◌, length, ◌==◌, if◌then◌else◌, arith, replicate, Bool-cases, inl, inr,
}
use cse.Weather.Net.{
  Net, Call, getaddrinfo, freeaddrinfo, socket, connect, write, set_timeout, read, close, put,
  delay,
}
use cse.Weather.Http.{is_empty, read_loop, send_request, http_get, http_post}
use cse.Weather.Station.{Float, round, report, with_location}
use cse.Weather.Home.{get_round, show_response}
use cse.Weather.Post.{post_round}

-- Whether an address list is allocated, and whether a socket is open.
pub record Held : Type 0 where
  pub found : Bool
  pub opened : Bool

-- A call by a program that holds what it must and does not ask for what it has: what it holds
-- then. A program that waits holds nothing.
abbrev pub account : Call → Held → Option Held
account (getaddrinfo ok) h = if h.found then none else some (record h { found = ok })
account freeaddrinfo h = if h.found then some (record h { found = false }) else none
account (socket ok) h = if h.found && not h.opened then some (record h { opened = ok }) else none
account connect h = if h.found && h.opened then some h else none
account (write bytes) h = if h.opened then some h else none
account set_timeout h = if h.opened then some h else none
account (read room) h = if h.opened then some h else none
account close h = if h.opened then some (record h { opened = false }) else none
account (put text) h = some h
account (delay ms) h = if h.found then none else if h.opened then none else some h

unfoldable pub account_all : List Call → Held → Option Held
account_all [] h = some h
account_all (call ∷ calls) h = account call h >>= account_all calls

abbrev pub nothing : Held
nothing = record { found = false; opened = false }

abbrev open_socket : Held
open_socket = record { found = false; opened = true }

account_all-append :
    (xs ys : List Call) (h k : Held)
    → account_all xs h ≡ some k
    → account_all (xs ++ ys) h ≡ account_all ys k
unfolding account_all
account_all-append [] ys h k e = ground (arith, e)
account_all-append (call ∷ calls) ys h k e =
    step (account call h) (λ h'. account_all-append calls ys h' k) e
  where
    step :
        (o : Option Held)
        → ((h' : Held)
            → account_all calls h' ≡ some k
            → account_all (calls ++ ys) h' ≡ account_all ys k)
        → (o >>= account_all calls) ≡ some k
        → (o >>= account_all (calls ++ ys)) ≡ account_all ys k
    step none later e = cc
    step (some h') later e = later h' e

read_loop-account :
    (peer : ℕ → ℕ → List ℕ) (fuel i room : ℕ)
    → account_all (read_loop peer fuel i room).0 open_socket ≡ some open_socket
unfolding account_all read_loop
read_loop-account peer zero i room = refl
read_loop-account peer (suc fuel) i room = elim (Bool-cases (room == 0)) [
  | inl full ↦ rw full refl
  | inr space ↦ elim (Bool-cases (is_empty (peer i room))) [
    | inl ended ↦ rw (space, ended) refl
    | inr more ↦
        rw (space, more) (read_loop-account peer fuel (suc i) (room - length (peer i room)))
  ]
]

delays-account : (n ms : ℕ) → account_all (replicate n (delay ms)) nothing ≡ some nothing
unfolding account_all
delays-account zero ms = refl
delays-account (suc n) ms = delays-account n ms

show_response-account :
    (chunks : List (List ℕ)) → account_all (show_response chunks) open_socket ≡ some open_socket
unfolding account_all show_response
show_response-account [] = refl
show_response-account (chunk ∷ chunks) = show_response-account chunks

get_round-account :
    (net : Net) (chunks : List (List ℕ)) → account_all (get_round net chunks) nothing ≡ some nothing
unfolding account_all get_round
get_round-account net chunks = ground (
  arith,
  account_all-append (show_response chunks) (close ∷ replicate 11 (delay 1000)) open_socket
      open_socket (show_response-account chunks),
  delays-account 11 1000,
)

post_round-account :
    (float : Float) (net : Net) (sensor : Option float.F)
    → account_all (post_round float net sensor) nothing ≡ some nothing
unfolding account_all post_round
post_round-account float net sensor = ground (arith, delays-account 6 1000)

http_get-account :
    (net : Net) (host port path : List ℕ) (response_size : ℕ)
    → account_all (http_get net host port path response_size).1 nothing ≡ some nothing
unfolding account_all http_get send_request
http_get-account net host port path response_size =
    let room = response_size - 1 in
    ground (
      arith,
      account_all-append (read_loop net.peer room 0 room).0 (close ∷ []) open_socket open_socket
          (read_loop-account net.peer room 0 room),
    )

http_post-account :
    (net : Net) (host port path payload : List ℕ) (response_size : ℕ)
    → account_all (http_post net host port path payload response_size).1 nothing ≡ some nothing
unfolding account_all http_post send_request
http_post-account net host port path payload response_size = ground arith

module _ (float : Float) (weather server : Net) (sensor : Option float.F) where
  report-account :
      (location : List ℕ)
      → account_all (report float weather server sensor location) nothing ≡ some nothing
  unfolding report
  report-account location =
      account_all-append _ _ nothing nothing (http_get-account weather _ _ _ 2048)
      ∙ account_all-append _ _ nothing nothing (http_post-account server _ _ _ _ 2048)
      ∙ delays-account 11 1000

  with_location-account :
      (location : Option (List ℕ))
      → account_all (with_location float weather server sensor location) nothing ≡ some nothing
  unfolding with_location
  with_location-account none = unfold account_all in refl
  with_location-account (some location) = report-account location

-- Whatever the network and the sensor answer, a round of each of the three tasks frees the address
-- list and closes the socket that it has got, once each, uses neither after that, and waits only
-- while it holds nothing.
pub rounds-account :
    (float : Float) (net locator weather server : Net) (chunks : List (List ℕ))
    (sensor : Option float.F)
    → (account_all (get_round net chunks) nothing ≡ some nothing)
      × (account_all (post_round float net sensor) nothing ≡ some nothing)
      × (account_all (round float locator weather server sensor) nothing ≡ some nothing)
unfolding round
rounds-account float net locator weather server chunks sensor = (
  get_round-account net chunks,
  post_round-account float net sensor,
  account_all-append _ _ nothing nothing (http_get-account locator _ _ _ 2048)
      ∙ with_location-account float weather server sensor _,
)
