-- ===== src/Weather/Requests.antt =====
-- The POST requests of labs 7.2 and 7.3 (main/http_request_example_main.c), as a server reads them.
use cse.Base.{
  ℕ, ◌+◌, ◌-◌, ◌<◌, ◌≡◌, ◌≢◌, refl, ap, Option, some, ◌>>=◌, List, [], ◌∷◌, ◌++◌, length,
  length-append, length-take, take-all, codes, All, arith,
}
use native.Mathlib.Decide.{dec_lt}
use cse.Weather.Http.{snprintf, decimal, post_text, begins, behind, extract_body}
use cse.Weather.Station.{server_ip, server_port}
use cse.Weather.Post.{post_request}
use cse.Weather.Body.{behind_past}
use cse.Weather.Decimal.{IsDigit, number, decimal-IsDigit, number-decimal, length-decimal}

-- The length that a request announces.
unfoldable pub content_length : List ℕ → Option ℕ
content_length request = do rest ← behind (codes "Content-Length: ") request; some (number 0 rest)

pub snprintf-short : (size : ℕ) (text : List ℕ) → length text < size → snprintf size text ≡ text
unfolding snprintf
snprintf-short size text h = take-all (size - 1) text (omega arith)

pub snprintf-length : (size : ℕ) (text : List ℕ) → 0 < size → length (snprintf size text) < size
unfolding snprintf
snprintf-length size text h = elim (dec_lt (length text) size) [
  | yes short ↦ rw (take-all (size - 1) text (omega arith)) (omega arith)
  | no long ↦ rw (length-take (size - 1) text (omega arith)) (omega arith)
]

no_return : (s : List ℕ) → All IsDigit s → All (λ c. c ≢ b'\r') s
no_return [] a = tt
no_return (c ∷ s) (h, a) = (ground (arith, h), no_return s a)

post_request-behind :
    (payload : List ℕ)
    → behind (codes "Content-Length: ") (post_request payload)
      ≡ some (decimal (length payload) ++ (codes "\r\n\r\n" ++ payload))
unfolding post_request behind begins
post_request-behind payload = refl

post_request-content_length :
    (payload : List ℕ) → content_length (post_request payload) ≡ some (length payload)
unfolding content_length
post_request-content_length payload =
    rw (post_request-behind payload)
      (ap some (number-decimal (length payload) b'\r' (codes "\n\r\n" ++ payload) (omega arith)))

post_request-extract_body : (payload : List ℕ) → extract_body (post_request payload) ≡ some payload
unfolding extract_body post_request behind begins
post_request-extract_body payload =
    behind_past b'\r' (codes "\n\r\n") (decimal (length payload)) (codes "\r\n\r\n" ++ payload)
      (no_return _ (decimal-IsDigit (length payload)))

pub post_request-length :
    (payload : List ℕ)
    → length payload < 1000
    → length (post_request payload) < length payload + 128
unfolding post_request
post_request-length payload h = omega (
  arith,
  length-append (decimal (length payload)) (codes "\r\n\r\n" ++ payload),
  length-decimal (length payload) h,
)

pub post_text-post_request :
    (payload : List ℕ) → post_text (codes "/") server_ip server_port payload ≡ post_request payload
unfolding post_text post_request
post_text-post_request payload = refl

-- A request of lab 7.2 for a payload of its buffer, and one of lab 7.3 for a payload of its own,
-- is sent whole: its body is the payload, and Content-Length is the payload's length.
pub requests_whole :
    (small large : List ℕ)
    → length small < 128
    → length large < 512
    → let sent = snprintf 512 (post_request small) in
      let posted = snprintf 1024 (post_text (codes "/") server_ip server_port large) in
      (extract_body sent ≡ some small)
      × (content_length sent ≡ some (length small))
      × (extract_body posted ≡ some large)
      × (content_length posted ≡ some (length large))
requests_whole small large h k =
    rw
      (
        post_text-post_request large,
        snprintf-short 512 (post_request small)
            (omega (arith, post_request-length small (omega arith))),
        snprintf-short 1024 (post_request large)
            (omega (arith, post_request-length large (omega arith))),
      )
      (
        post_request-extract_body small,
        post_request-content_length small,
        post_request-extract_body large,
        post_request-content_length large,
      )
