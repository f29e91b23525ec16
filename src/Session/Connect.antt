-- ===== src/Session/Connect.antt =====
-- What the operations report: `connect`, `write` and `read`.
use mile_csa_jsonrpc_client.Base.{◌≡◌, ◌⊎◌, inl, inr, refl, Bool, true, false, List, [], ◌∷◌}
use mile_csa_jsonrpc_client.Base.{
  Option, none, some, String, if◌then◌else◌, Bool-cases, not, ◌||◌, arith,
}
use mile_csa_jsonrpc_client.Effects.{Code, fail, not_found, timeout, report}
use mile_csa_jsonrpc_client.Session.{
  Session, IoEvent, Waited, completed, raised, never, checked, wait_loop,
}
use mile_csa_jsonrpc_client.Session.{
  Ended, ended, thrown, null_pointer, hangs, exchange, through, transport,
}
use mile_csa_jsonrpc_client.Session.{expires_from_now, check_socket, Resolved, endpoints}
use mile_csa_jsonrpc_client.Session.{unresolved, connect, connect_to, connect_ssl, connect_plain}
use mile_csa_jsonrpc_client.Session.{is_error, connect_failed, finish_connect, handshake}

-- A call that returns true has reported nothing and leaves an open connection; one that returns
-- false has made one report, with a code that satisfies `P`.
abbrev pub Reporting : (Code → Type 0) → Ended Bool → Type 0
Reporting P (ended true reports s es) = (reports ≡ []) × (check_socket s ≡ true)
Reporting P (ended false reports s es) =
    (c : Code) × (m : String) × (reports ≡ report c m ∷ []) × P c
Reporting P (thrown e s es) = Unit {0}
Reporting P null_pointer = Unit {0}
Reporting P hangs = Unit {0}

abbrev pub IsTimeout : Code → Type 0
IsTimeout c = c ≡ timeout

abbrev pub IsConnectCode : Code → Type 0
IsConnectCode c = (c ≡ timeout) ⊎ ((c ≡ fail) ⊎ (c ≡ not_found))

checked-Reporting : (stage : String) (w : Waited) → Reporting IsTimeout (checked stage w)
checked-Reporting stage (completed c s es) =
    elim (Bool-cases (is_error c || not (check_socket s))) [
      | inl bad ↦ rw bad (timeout, stage, refl, refl)
      | inr good ↦ rw good (refl, ground arith)
    ]
checked-Reporting stage (raised e s es) = tt
checked-Reporting stage never = tt

through-Reporting :
    (P : Code → Type 0) (o : Option Bool) (e : Ended Bool)
    → Reporting P e
    → Reporting P (through o e)
through-Reporting P none e h = tt
through-Reporting P (some b) e h = h

-- `write` and `read` report a timeout if they return false, and nothing if they return true, with
-- an open connection.
pub exchange-Reporting :
    (stage : String) (s : Session) (es : List IoEvent) → Reporting IsTimeout (exchange stage s es)
unfolding exchange
exchange-Reporting stage s es =
    through-Reporting IsTimeout (transport s) _
      (checked-Reporting stage (wait_loop es (expires_from_now s)))

weaken : (e : Ended Bool) → Reporting IsTimeout e → Reporting IsConnectCode e
weaken (ended true reports s es) h = h
weaken (ended false reports s es) (c, m, q, p) = (c, m, q, inl p)
weaken (thrown e s es) h = tt
weaken null_pointer h = tt
weaken hangs h = tt

finish_connect-Reporting :
    (stage : String) (s : Session) (es : List IoEvent)
    → Reporting IsConnectCode (finish_connect stage s es)
unfolding finish_connect
finish_connect-Reporting stage s es = weaken _ (checked-Reporting stage (wait_loop es s))

connect_failed-Reporting :
    (e : Ended Bool) → Reporting IsConnectCode e → Reporting IsConnectCode (connect_failed e)
connect_failed-Reporting (ended ok reports s es) h = h
connect_failed-Reporting (thrown e s es) h = (fail, _, refl, inr (inl refl))
connect_failed-Reporting null_pointer h = tt
connect_failed-Reporting hangs h = tt

handshake-Reporting :
    (e : Ended Bool) → Reporting IsConnectCode e → Reporting IsConnectCode (handshake e)
handshake-Reporting (ended true reports s es) h = finish_connect-Reporting _ (expires_from_now s) es
handshake-Reporting (ended false reports s es) h = h
handshake-Reporting (thrown e s es) h = tt
handshake-Reporting null_pointer h = tt
handshake-Reporting hangs h = tt

connect_ssl-Reporting :
    (sni : Bool) (s : Session) (es : List IoEvent) → Reporting IsConnectCode (connect_ssl sni s es)
unfolding connect_ssl
connect_ssl-Reporting true s es = through-Reporting IsConnectCode s.stream _ (
    handshake-Reporting _
      (connect_failed-Reporting _ (finish_connect-Reporting "Connection timeout" s es)))
connect_ssl-Reporting false s es =
    through-Reporting IsConnectCode s.stream _ (fail, _, refl, inr (inl refl))

branch-Reporting :
    (b : Bool) (x y : Ended Bool)
    → Reporting IsConnectCode x
    → Reporting IsConnectCode y
    → Reporting IsConnectCode (if b then x else y)
branch-Reporting true x y f g = f
branch-Reporting false x y f g = g

connect_to-Reporting :
    (resolved : Resolved) (sni : Bool) (s : Session) (es : List IoEvent)
    → Reporting IsConnectCode (connect_to resolved sni s es)
unfolding connect_to connect_plain
connect_to-Reporting (unresolved e) sni s es = tt
connect_to-Reporting (endpoints false) sni s es = (not_found, _, refl, inr (inr refl))
connect_to-Reporting (endpoints true) sni s es =
    branch-Reporting s.use_ssl _ _ (connect_ssl-Reporting sni (expires_from_now s) es) (
      through-Reporting IsConnectCode s.socket _
        (finish_connect-Reporting "Connection timeout" (expires_from_now s) es))

abbrev pub Returns : Ended Bool → Type 0
Returns (thrown e s es) = ⊥
Returns _ = Unit {0}

connect_failed-Returns : (e : Ended Bool) → Returns (connect_failed e)
connect_failed-Returns (ended ok reports s es) = tt
connect_failed-Returns _ = tt

-- `connect` lets no exception out. If it returns true it has reported nothing and the connection is
-- open; if it returns false it has made one report, a timeout, a failure or that the host is not
-- found.
pub connect-Reporting :
    (resolved : Resolved) (sni : Bool) (s : Session) (es : List IoEvent)
    → Returns (connect resolved sni s es) × Reporting IsConnectCode (connect resolved sni s es)
unfolding connect
connect-Reporting resolved sni s es =
    (connect_failed-Returns _, connect_failed-Reporting _ (connect_to-Reporting resolved sni s es))
