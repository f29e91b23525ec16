-- ===== src/Session/Identity.antt =====
-- What no operation changes: whom the session talks to.
use mile_csa_jsonrpc_client.Base.{
  ◌-◌, ◌≡◌, ◌∙◌, refl, Bool, true, false, List, [], ◌∷◌, String, Text, Option, none, some,
}
use mile_csa_jsonrpc_client.Base.{if◌then◌else◌, not, ◌||◌, arith}
use mile_csa_jsonrpc_client.Session.{
  Session, IoEvent, timer, opening, done, raising, success, would_block,
}
use mile_csa_jsonrpc_client.Session.{
  other_code, Waited, completed, raised, never, wait_loop, checked,
}
use mile_csa_jsonrpc_client.Session.{
  Ended, ended, thrown, null_pointer, hangs, through, is_error, check_socket,
}
use mile_csa_jsonrpc_client.Session.{
  expires_from_now, wait_deadline, open_socket, close, expired, infinite,
}
use mile_csa_jsonrpc_client.Session.{
  Resolved, endpoints, unresolved, connect, connect_to, connect_ssl,
}
use mile_csa_jsonrpc_client.Session.{connect_plain, connect_failed, finish_connect, handshake}
use mile_csa_jsonrpc_client.Session.{exchange, transport}
use mile_csa_jsonrpc_client.Base.{ℕ}
use mile_csa_jsonrpc_client.Session.{new_session, is_https}
use mile_csa_jsonrpc_client.Url.Parse.{Protocol, http, https, unknown}

-- The peer: the transport, the host, the port and the target.
abbrev pub peer : Session → Bool × Text × Text × Text
peer s = (s.use_ssl, s.host, s.port, s.target)

pub new_session-peer :
    (host port target : Text) (p : Protocol) (verify : Bool) (seconds now : ℕ)
    → peer (new_session host port target p verify seconds now) ≡ (is_https p, host, port, target)
unfolding new_session
new_session-peer host port target http verify seconds now = refl
new_session-peer host port target https verify seconds now = refl
new_session-peer host port target unknown verify seconds now = refl

abbrev pub Keeps : {A : Type 0} → Session → Ended A → Type 0
Keeps s (ended a reports s' es) = peer s' ≡ peer s
Keeps s (thrown e s' es) = peer s' ≡ peer s
Keeps s null_pointer = Unit {0}
Keeps s hangs = Unit {0}

abbrev KeepsWait : Session → Waited → Type 0
KeepsWait s (completed c s' es) = peer s' ≡ peer s
KeepsWait s (raised e s' es) = peer s' ≡ peer s
KeepsWait s never = Unit {0}

branch-peer :
    (b : Bool) (x y s : Session)
    → peer x ≡ peer s
    → peer y ≡ peer s
    → peer (if b then x else y) ≡ peer s
branch-peer true x y s e f = e
branch-peer false x y s e f = f

close-peer : (s : Session) → peer (close s) ≡ peer s
unfolding close
close-peer s = ground arith

wait_deadline-peer : (s : Session) → peer (wait_deadline s) ≡ peer s
unfolding wait_deadline
wait_deadline-peer s =
    branch-peer (expired s.deadline s.clock) (record (close s) { deadline = infinite }) s s
      (close-peer s) refl

open_socket-peer : (s : Session) → peer (open_socket s) ≡ peer s
unfolding open_socket
open_socket-peer s =
    branch-peer s.use_ssl (record s { stream = some true }) (record s { socket = some true }) s refl
      refl

KeepsWait-trans : (s s' : Session) (w : Waited) → peer s' ≡ peer s → KeepsWait s' w → KeepsWait s w
KeepsWait-trans s s' (completed c t es) e h = h ∙ e
KeepsWait-trans s s' (raised x t es) e h = h ∙ e
KeepsWait-trans s s' never e h = tt

wait_loop-KeepsWait : (es : List IoEvent) (s : Session) → KeepsWait s (wait_loop es s)
unfolding wait_loop
wait_loop-KeepsWait [] s = tt
wait_loop-KeepsWait (timer t ∷ es) s =
    KeepsWait-trans s (wait_deadline (record s { clock = t; waits = s.waits - 1 })) _
      (wait_deadline-peer (record s { clock = t; waits = s.waits - 1 })) (wait_loop-KeepsWait es _)
wait_loop-KeepsWait (opening t ∷ es) s =
    KeepsWait-trans s (open_socket (record s { clock = t })) _
      (open_socket-peer (record s { clock = t })) (wait_loop-KeepsWait es _)
wait_loop-KeepsWait (done t success ∷ es) s = refl
wait_loop-KeepsWait (done t would_block ∷ es) s = wait_loop-KeepsWait es (record s { clock = t })
wait_loop-KeepsWait (done t other_code ∷ es) s = refl
wait_loop-KeepsWait (raising t e ∷ es) s = refl

branch-Keeps :
    (b : Bool) (x y : Ended Bool) (s : Session)
    → Keeps s x
    → Keeps s y
    → Keeps s (if b then x else y)
branch-Keeps true x y s h k = h
branch-Keeps false x y s h k = k

checked-Keeps :
    (stage : String) (s : Session) (w : Waited) → KeepsWait s w → Keeps s (checked stage w)
checked-Keeps stage s (completed c t es) h =
    branch-Keeps (is_error c || not (check_socket t)) _ _ s h h
checked-Keeps stage s (raised e t es) h = h
checked-Keeps stage s never h = tt

through-Keeps : (o : Option Bool) (e : Ended Bool) (s : Session) → Keeps s e → Keeps s (through o e)
through-Keeps none e s h = tt
through-Keeps (some b) e s h = h

finish_connect-Keeps :
    (stage : String) (s : Session) (es : List IoEvent) → Keeps s (finish_connect stage s es)
unfolding finish_connect
finish_connect-Keeps stage s es = checked-Keeps stage s _ (wait_loop-KeepsWait es s)

connect_failed-Keeps : (s : Session) (e : Ended Bool) → Keeps s e → Keeps s (connect_failed e)
connect_failed-Keeps s (ended a reports t es) h = h
connect_failed-Keeps s (thrown e t es) h = h
connect_failed-Keeps s null_pointer h = h
connect_failed-Keeps s hangs h = h

Keeps-trans : (s s' : Session) (e : Ended Bool) → peer s' ≡ peer s → Keeps s' e → Keeps s e
Keeps-trans s s' (ended a reports t es) q h = h ∙ q
Keeps-trans s s' (thrown e t es) q h = h ∙ q
Keeps-trans s s' null_pointer q h = h
Keeps-trans s s' hangs q h = h

handshake-Keeps : (s : Session) (e : Ended Bool) → Keeps s e → Keeps s (handshake e)
handshake-Keeps s (ended true reports t es) h =
    Keeps-trans s (expires_from_now t) _ h (finish_connect-Keeps _ (expires_from_now t) es)
handshake-Keeps s (ended false reports t es) h = h
handshake-Keeps s (thrown e t es) h = h
handshake-Keeps s null_pointer h = h
handshake-Keeps s hangs h = h

connect_ssl-Keeps : (sni : Bool) (s : Session) (es : List IoEvent) → Keeps s (connect_ssl sni s es)
unfolding connect_ssl
connect_ssl-Keeps true s es =
    through-Keeps s.stream _ s
      (handshake-Keeps s _ (connect_failed-Keeps s _ (finish_connect-Keeps _ s es)))
connect_ssl-Keeps false s es = through-Keeps s.stream _ s refl

connect_to-Keeps :
    (r : Resolved) (sni : Bool) (s : Session) (es : List IoEvent) → Keeps s (connect_to r sni s es)
unfolding connect_to connect_plain
connect_to-Keeps (unresolved e) sni s es = refl
connect_to-Keeps (endpoints false) sni s es = refl
connect_to-Keeps (endpoints true) sni s es =
    branch-Keeps s.use_ssl _ _ s (connect_ssl-Keeps sni (expires_from_now s) es)
      (through-Keeps s.socket _ s (finish_connect-Keeps _ (expires_from_now s) es))

-- However `connect` ends, the session's transport, host, port and target are those that it had.
pub connect-Keeps :
    (r : Resolved) (sni : Bool) (s : Session) (es : List IoEvent) → Keeps s (connect r sni s es)
unfolding connect
connect-Keeps r sni s es = connect_failed-Keeps s _ (connect_to-Keeps r sni s es)

-- However `write` or `read` ends, it does not change them either.
pub exchange-Keeps :
    (stage : String) (s : Session) (es : List IoEvent) → Keeps s (exchange stage s es)
unfolding exchange
exchange-Keeps stage s es =
    through-Keeps (transport s) _ s
      (checked-Keeps stage s _ (wait_loop-KeepsWait es (expires_from_now s)))
