-- ===== src/Session/Ready.antt =====
-- The pointer that an operation dereferences is never null.
use mile_csa_jsonrpc_client.Base.{
  ℕ, ◌-◌, refl, ◌≡◌, ◌≢◌, Bool, true, false, Option, none, some, List, [], ◌∷◌,
}
use mile_csa_jsonrpc_client.Base.{String, if◌then◌else◌, Text, arith}
use mile_csa_jsonrpc_client.Url.Parse.{Protocol, http, https, unknown}
use mile_csa_jsonrpc_client.Session.{
  Session, IoEvent, timer, opening, done, raising, success, would_block,
}
use mile_csa_jsonrpc_client.Session.{other_code, Waited, completed, raised, never, wait_loop}
use mile_csa_jsonrpc_client.Session.{wait_deadline, open_socket, new_session, transport, checked}
use mile_csa_jsonrpc_client.Session.{Ended, ended, thrown, null_pointer, hangs, exchange, through}
use mile_csa_jsonrpc_client.Session.{
  expires_from_now, connect, connect_to, connect_ssl, connect_plain,
}
use mile_csa_jsonrpc_client.Session.{connect_failed, finish_connect, handshake, Resolved, endpoints}
use mile_csa_jsonrpc_client.Session.{unresolved}

-- The pointer in use is set, the other one is null, and one wait for the deadline is pending.
pub record IsReady (s : Session) : Type 0 where
  pub in_use : transport s ≢ none
  pub not_in_use : (if s.use_ssl then s.socket else s.stream) ≡ none
  pub waiting : s.waits ≡ 1

-- A new session is ready: the pointer of its transport is set, the other one is null, and one wait
-- for the deadline is pending.
pub new_session-IsReady :
    (host port target : Text) (p : Protocol) (verify : Bool) (seconds now : ℕ)
    → IsReady (new_session host port target p verify seconds now)
unfolding new_session
new_session-IsReady host port target http verify seconds now = ground arith
new_session-IsReady host port target https verify seconds now = ground arith
new_session-IsReady host port target unknown verify seconds now = ground arith

-- The session that an operation leaves is ready, and no null pointer was dereferenced.
abbrev pub Safe : {A : Type 0} → Ended A → Type 0
Safe (ended a reports s es) = IsReady s
Safe (thrown e s es) = IsReady s
Safe null_pointer = ⊥
Safe hangs = Unit {0}

abbrev SafeWait : Waited → Type 0
SafeWait (completed c s es) = IsReady s
SafeWait (raised e s es) = IsReady s
SafeWait never = Unit {0}

timer-IsReady :
    (t : ℕ) (s : Session)
    → IsReady s
    → IsReady (wait_deadline (record s { clock = t; waits = s.waits - 1 }))
unfolding wait_deadline
timer-IsReady t s r = ground arith

open_socket-IsReady :
    (t : ℕ) (s : Session) → IsReady s → IsReady (open_socket (record s { clock = t }))
unfolding open_socket
open_socket-IsReady t s r = ground arith

tick-IsReady : (t : ℕ) (s : Session) → IsReady s → IsReady (record s { clock = t })
tick-IsReady t s r = record { in_use = r.in_use; not_in_use = r.not_in_use; waiting = r.waiting }

wait_loop-Safe : (es : List IoEvent) (s : Session) → IsReady s → SafeWait (wait_loop es s)
unfolding wait_loop
wait_loop-Safe [] s r = tt
wait_loop-Safe (timer t ∷ es) s r = wait_loop-Safe es _ (timer-IsReady t s r)
wait_loop-Safe (opening t ∷ es) s r = wait_loop-Safe es _ (open_socket-IsReady t s r)
wait_loop-Safe (done t success ∷ es) s r = tick-IsReady t s r
wait_loop-Safe (done t would_block ∷ es) s r = wait_loop-Safe es _ (tick-IsReady t s r)
wait_loop-Safe (done t other_code ∷ es) s r = tick-IsReady t s r
wait_loop-Safe (raising t e ∷ es) s r = tick-IsReady t s r

checked-Safe : (stage : String) (w : Waited) → SafeWait w → Safe (checked stage w)
checked-Safe stage (completed c s es) r = ground arith
checked-Safe stage (raised e s es) r = r
checked-Safe stage never r = tt

expires_from_now-IsReady : (s : Session) → IsReady s → IsReady (expires_from_now s)
expires_from_now-IsReady s r = record {
  in_use = r.in_use;
  not_in_use = r.not_in_use;
  waiting = r.waiting;
}

through-Safe : (o : Option Bool) (e : Ended Bool) → o ≢ none → Safe e → Safe (through o e)
through-Safe none e n h = absurd (n refl)
through-Safe (some b) e n h = h

-- On a ready session `write` and `read` dereference no null pointer and leave it ready.
pub exchange-Safe :
    (stage : String) (s : Session) (es : List IoEvent) → IsReady s → Safe (exchange stage s es)
unfolding exchange
exchange-Safe stage s es r =
    through-Safe _ _ r.in_use
      (checked-Safe stage _ (wait_loop-Safe es _ (expires_from_now-IsReady s r)))

finish_connect-Safe :
    (stage : String) (s : Session) (es : List IoEvent)
    → IsReady s
    → Safe (finish_connect stage s es)
unfolding finish_connect
finish_connect-Safe stage s es r = checked-Safe stage _ (wait_loop-Safe es s r)

connect_failed-Safe : (e : Ended Bool) → Safe e → Safe (connect_failed e)
connect_failed-Safe (ended a reports s es) r = r
connect_failed-Safe (thrown e s es) r = r
connect_failed-Safe null_pointer r = r
connect_failed-Safe hangs r = r

handshake-Safe : (e : Ended Bool) → Safe e → Safe (handshake e)
handshake-Safe (ended true reports s es) r =
    finish_connect-Safe _ _ es (expires_from_now-IsReady s r)
handshake-Safe (ended false reports s es) r = r
handshake-Safe (thrown e s es) r = r
handshake-Safe null_pointer r = r
handshake-Safe hangs r = r

connect_ssl-Safe :
    (sni : Bool) (s : Session) (es : List IoEvent)
    → s.stream ≢ none
    → IsReady s
    → Safe (connect_ssl sni s es)
unfolding connect_ssl
connect_ssl-Safe true s es n r =
    through-Safe _ _ n (handshake-Safe _ (connect_failed-Safe _ (finish_connect-Safe _ s es r)))
connect_ssl-Safe false s es n r = through-Safe _ _ n r

connect_plain-Safe :
    (s : Session) (es : List IoEvent) → s.socket ≢ none → IsReady s → Safe (connect_plain s es)
unfolding connect_plain
connect_plain-Safe s es n r = through-Safe _ _ n (finish_connect-Safe _ s es r)

branch-Safe :
    (b : Bool) (x y : Ended Bool)
    → (b ≡ true → Safe x)
    → (b ≡ false → Safe y)
    → Safe (if b then x else y)
branch-Safe true x y f g = f refl
branch-Safe false x y f g = g refl

connect_to-Safe :
    (resolved : Resolved) (sni : Bool) (s : Session) (es : List IoEvent)
    → IsReady s
    → Safe (connect_to resolved sni s es)
unfolding connect_to
connect_to-Safe (unresolved e) sni s es r = r
connect_to-Safe (endpoints false) sni s es r = r
connect_to-Safe (endpoints true) sni s es r =
    branch-Safe s.use_ssl _ _
      (λ ssl. connect_ssl-Safe sni _ es (rw ssl at r.in_use) (expires_from_now-IsReady s r))
      (λ plain. connect_plain-Safe _ es (rw plain at r.in_use) (expires_from_now-IsReady s r))

-- On a ready session `connect` dereferences no null pointer, on every branch, and leaves it ready.
pub connect-Safe :
    (resolved : Resolved) (sni : Bool) (s : Session) (es : List IoEvent)
    → IsReady s
    → Safe (connect resolved sni s es)
unfolding connect
connect-Safe resolved sni s es r = connect_failed-Safe _ (connect_to-Safe resolved sni s es r)
