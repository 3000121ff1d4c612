-- ===== src/Weather/Net.antt =====
-- Sockets as labs 7.1 to 7.3 use them: the calls that a program makes, and what they answer.
use cse.Base.{ℕ, Bool, List}

-- A connection's answers: whether each call succeeds, and the bytes that the i-th read brings when
-- it asks for up to n. No bytes stand for a result of 0 or less.
pub record Net : Type 0 where
  pub resolves : Bool
  pub socket_ok : Bool
  pub connects : Bool
  pub writes : Bool
  pub timeout_ok : Bool
  pub peer : ℕ → ℕ → List ℕ

pub data Call : Type 0 where
  -- whether it found an address
  getaddrinfo : Bool → Call
  freeaddrinfo : Call
  -- whether there is a socket
  socket : Bool → Call
  connect : Call
  write : List ℕ → Call
  set_timeout : Call
  -- up to so many bytes
  read : ℕ → Call
  close : Call
  -- text on stdout
  put : List ℕ → Call
  -- milliseconds
  delay : ℕ → Call
