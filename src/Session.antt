-- ===== src/Session.antt =====
-- src/milecsa_rpc_session.cpp and include/milecsa_rpc_session.hpp: `http::Session`, a connection with
-- a deadline. Boost.Asio is what happens at each `run_one`, an event: the list of events to come is
-- an argument, so every schedule is covered. A list that ends before the operation does is a call
-- that never returns.
pub mod Ready
pub mod Waiting
pub mod Deadline
pub mod Connect
pub mod Identity
pub mod Lifecycle
pub mod Message
pub mod Prompt
use mile_csa_jsonrpc_client.Base.{
  ℕ, ◌+◌, ◌-◌, Bool, true, false, ◌&&◌, ◌||◌, not, Option, none, some,
}
use mile_csa_jsonrpc_client.Base.{List, [], ◌∷◌, String, leb, if◌then◌else◌, Text}
use mile_csa_jsonrpc_client.Effects.{
  Code, fail, not_found, timeout, Exception, is_std, Report, report,
}
use mile_csa_jsonrpc_client.Url.Parse.{Protocol, http, https, unknown}

-- `boost::system::error_code`: success converts to false.
pub data ErrorCode : Type 0 where
  success would_block other_code : ErrorCode

abbrev pub is_error : ErrorCode → Bool
is_error success = false
is_error _ = true

-- The expiry of the deadline timer; a timer that was never set has none.
pub data Expiry : Type 0 where
  unset infinite : Expiry
  time_at : ℕ → Expiry

-- A socket, or the stream over one, that exists: is it open?
pub record Session : Type 0 where
  pub use_ssl : Bool
  pub verify_ssl : Bool
  pub seconds : ℕ
  pub host : Text
  pub port : Text
  pub target : Text
  pub socket : Option Bool
  pub stream : Option Bool
  pub deadline : Expiry
  -- handlers of `deadline.async_wait` that are pending
  pub waits : ℕ
  -- the time, in seconds
  pub clock : ℕ

-- One call of `ioc.run_one`: the timer's handler runs, or `async_connect` opens the socket for the
-- next endpoint, or the operation's handler stores its code, or an exception is thrown.
pub data IoEvent : Type 0 where
  timer : ℕ → IoEvent
  opening : ℕ → IoEvent
  done : ℕ → ErrorCode → IoEvent
  raising : ℕ → Exception → IoEvent

unfoldable pub expired : Expiry → ℕ → Bool
expired unset now = false
expired infinite now = false
expired (time_at t) now = leb t now

abbrev is_there : {A : Type 0} → Option A → Bool
is_there none = false
is_there (some a) = true

-- `close`, of the transport that is in use.
unfoldable pub close : Session → Session
close s =
    if s.use_ssl && is_there s.stream
    then record s { stream = some false }
    else if is_there s.socket
    then record s { socket = some false }
    else s

-- The deadline's handler: close an expired connection, and wait again.
unfoldable pub wait_deadline : Session → Session
unfolding expired close
wait_deadline s =
    let s' = if expired s.deadline s.clock then record (close s) { deadline = infinite } else s in
    record s' { waits = s'.waits + 1 }

-- The two pointers after `prepare` has made one of the objects.
unfoldable pub prepare : Session → Session
unfolding wait_deadline
prepare s =
    wait_deadline
      (if s.use_ssl then record s { stream = some false } else record s { socket = some false })

abbrev pub is_https : Protocol → Bool
is_https https = true
is_https _ = false

-- The constructor; `port` is the text that `boost::to_string` has made.
unfoldable pub new_session : Text → Text → Text → Protocol → Bool → ℕ → ℕ → Session
unfolding prepare
new_session host port target protocol verify seconds now = prepare (record {
  use_ssl = is_https protocol;
  verify_ssl = verify;
  seconds = seconds;
  host = host;
  port = port;
  target = target;
  socket = none;
  stream = none;
  deadline = unset;
  waits = 0;
  clock = now;
})

abbrev is_open : Option Bool → Bool
is_open none = false
is_open (some b) = b

unfoldable pub check_socket : Session → Bool
check_socket s =
    if s.use_ssl && is_there s.stream
    then is_open s.stream
    else if is_there s.socket
    then is_open s.socket
    else false

-- `deadline.expires_from_now`
abbrev pub expires_from_now : Session → Session
expires_from_now s = record s { deadline = time_at (s.clock + s.seconds) }

-- `async_connect` opens the socket of an endpoint before it connects it.
unfoldable pub open_socket : Session → Session
open_socket s =
    if s.use_ssl then record s { stream = some true } else record s { socket = some true }

-- The end of `do ioc.run_one(); while (ec == would_block)`.
pub data Waited : Type 0 where
  completed : ErrorCode → Session → List IoEvent → Waited
  raised : Exception → Session → List IoEvent → Waited
  never : Waited

unfoldable pub wait_loop : List IoEvent → Session → Waited
unfolding wait_deadline open_socket
wait_loop [] s = never
wait_loop (timer t ∷ es) s =
    wait_loop es (wait_deadline (record s { clock = t; waits = s.waits - 1 }))
wait_loop (opening t ∷ es) s = wait_loop es (open_socket (record s { clock = t }))
wait_loop (done t would_block ∷ es) s = wait_loop es (record s { clock = t })
wait_loop (done t success ∷ es) s = completed success (record s { clock = t }) es
wait_loop (done t other_code ∷ es) s = completed other_code (record s { clock = t }) es
wait_loop (raising t e ∷ es) s = raised e (record s { clock = t }) es

-- How an operation on the session ends: with its result, the reports it made, the session and the
-- events still to come; with an exception; with a null pointer dereferenced; or not at all.
pub data Ended (A : Type 0) : Type 0 where
  ended : A → List Report → Session → List IoEvent → Ended A
  thrown : Exception → Session → List IoEvent → Ended A
  null_pointer : Ended A
  hangs : Ended A

-- The pointer that `async_write` and `async_read` dereference.
abbrev pub transport : Session → Option Bool
transport s = if s.use_ssl then s.stream else s.socket

-- `if (ec || !check_socket())`
abbrev pub checked : String → Waited → Ended Bool
checked stage (completed ec s es) =
    if is_error ec || not (check_socket s)
    then ended false (report timeout stage ∷ []) s es
    else ended true [] s es
checked stage (raised e s es) = thrown e s es
checked stage never = hangs

-- A dereferenced pointer and what is done through it.
abbrev pub through : Option Bool → Ended Bool → Ended Bool
through none r = null_pointer
through (some _) r = r

-- `write` and `read` differ in the operation and in the message.
unfoldable pub exchange : String → Session → List IoEvent → Ended Bool
unfolding wait_loop check_socket
exchange stage s es = through (transport s) (checked stage (wait_loop es (expires_from_now s)))

unfoldable pub write : Session → List IoEvent → Ended Bool
unfolding exchange
write = exchange "Sending request timeout"

unfoldable pub read : Session → List IoEvent → Ended Bool
unfolding exchange
read = exchange "Reading response timeout"

-- What `tcp::resolver::resolve` gives: whether there are endpoints, or an exception.
pub data Resolved : Type 0 where
  endpoints : Bool → Resolved
  unresolved : Exception → Resolved

-- The handlers of `connect`: `catch (std::exception const&)`, then `catch (...)`. The handlers of
-- the inner `try` report the same.
abbrev pub connect_failed : Ended Bool → Ended Bool
connect_failed (thrown e s es) =
    ended false (report fail (if is_std e then "%s: %s:%s" else "Unknown error: %s:%s") ∷ []) s es
connect_failed r = r

-- The end of `connect`: the loop that waits for the connection or the handshake.
unfoldable pub finish_connect : String → Session → List IoEvent → Ended Bool
unfolding wait_loop check_socket
finish_connect stage s es = checked stage (wait_loop es s)

-- The rest of the branch `if (use_ssl)` after the wait for the connection, and the handshake.
abbrev pub handshake : Ended Bool → Ended Bool
handshake (ended true reports s es) = finish_connect "SSL Handshake timeout" (expires_from_now s) es
handshake r = r

-- The branch `if (use_ssl)`; `sni` is the result of `SSL_set_tlsext_host_name`.
unfoldable pub connect_ssl : Bool → Session → List IoEvent → Ended Bool
unfolding finish_connect
connect_ssl sni s es = through s.stream (
    if sni
    then handshake (connect_failed (finish_connect "Connection timeout" s es))
    else ended false (report fail "SSL  %s:%s  handshake error" ∷ []) s es)

unfoldable pub connect_plain : Session → List IoEvent → Ended Bool
unfolding finish_connect
connect_plain s es = through s.socket (finish_connect "Connection timeout" s es)

unfoldable pub connect_to : Resolved → Bool → Session → List IoEvent → Ended Bool
unfolding connect_ssl connect_plain
connect_to (unresolved e) sni s es = thrown e s es
connect_to (endpoints false) sni s es =
    ended false (report not_found "Host %s:%s not found" ∷ []) s es
connect_to (endpoints true) sni s es =
    let s' = expires_from_now s in if s.use_ssl then connect_ssl sni s' es else connect_plain s' es

unfoldable pub connect : Resolved → Bool → Session → List IoEvent → Ended Bool
unfolding connect_to
connect resolved sni s es = connect_failed (connect_to resolved sni s es)

-- The destructor: both objects are deleted and the pointers reset.
unfoldable pub destroy : Session → Session
destroy s = record s { socket = none; stream = none }
