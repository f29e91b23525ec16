-- ===== src/Session/Lifecycle.antt =====
-- The life of a session: any operations, in any order, with any events.
use mile_csa_jsonrpc_client.Base.{ℕ, ◌≡◌, ◌∙◌, Bool, List, String, Text, some, false}
use mile_csa_jsonrpc_client.Url.Parse.{Protocol}
use mile_csa_jsonrpc_client.Session.{
  Session, IoEvent, Ended, ended, thrown, null_pointer, hangs, exchange, connect, Resolved,
}
use mile_csa_jsonrpc_client.Session.{new_session, is_https, transport}
use mile_csa_jsonrpc_client.Session.Ready.{
  IsReady, Safe, new_session-IsReady, exchange-Safe, connect-Safe,
}
use mile_csa_jsonrpc_client.Session.Identity.{
  peer, Keeps, connect-Keeps, exchange-Keeps, new_session-peer,
}
use mile_csa_jsonrpc_client.Session.Deadline.{OpensNothing, IsDead, exchange-IsDead}

-- The session that an operation leaves, and the events that are then still to come.
abbrev pub Leaves : {A : Type 0} → Ended A → Session → List IoEvent → Type 0
Leaves (ended a reports s es) t fs = (s ≡ t) × (es ≡ fs)
Leaves (thrown e s es) t fs = (s ≡ t) × (es ≡ fs)
Leaves _ t fs = ⊥

-- An operation that has come to an end, with a result or an exception.
pub data Step (s : Session) (t : Session) : Type 0 where
  connecting :
      (r : Resolved) (sni : Bool) (es fs : List IoEvent)
      → Leaves (connect r sni s es) t fs
      → Step s t
  exchanging :
      (stage : String) (es fs : List IoEvent) → Leaves (exchange stage s es) t fs → Step s t

pub data Reach (s : Session) : Session → Type 0 where
  here : Reach s s
  next : {t u : Session} → Reach s t → Step t u → Reach s u

-- What an operation leaves has what holds of each session that it may leave.
Leaves-IsReady :
    {A : Type 0} (e : Ended A) (t : Session) (fs : List IoEvent)
    → Safe e
    → Leaves e t fs
    → IsReady t
Leaves-IsReady (ended a reports s es) t fs h l = rw (← l.0) h
Leaves-IsReady (thrown e s es) t fs h l = rw (← l.0) h
Leaves-IsReady null_pointer t fs h l = absurd l
Leaves-IsReady hangs t fs h l = absurd l

Leaves-peer :
    {A : Type 0} (e : Ended A) (s t : Session) (fs : List IoEvent)
    → Keeps s e
    → Leaves e t fs
    → peer t ≡ peer s
Leaves-peer (ended a reports u es) s t fs h l = rw (← l.0) h
Leaves-peer (thrown e u es) s t fs h l = rw (← l.0) h
Leaves-peer null_pointer s t fs h l = absurd l
Leaves-peer hangs s t fs h l = absurd l

-- A session that is ready and talks to the peer `p`.
pub record IsFor (p : Bool × Text × Text × Text) (s : Session) : Type 0 where
  pub ready : IsReady s
  pub same_peer : peer s ≡ p

Step-IsFor : {p : Bool × Text × Text × Text} {s t : Session} → IsFor p s → Step s t → IsFor p t
Step-IsFor {p} {s} {t} h (connecting r sni es fs l) = record {
  ready = Leaves-IsReady _ t fs (connect-Safe r sni s es h.ready) l;
  same_peer = Leaves-peer _ s t fs (connect-Keeps r sni s es) l ∙ h.same_peer;
}
Step-IsFor {p} {s} {t} h (exchanging stage es fs l) = record {
  ready = Leaves-IsReady _ t fs (exchange-Safe stage s es h.ready) l;
  same_peer = Leaves-peer _ s t fs (exchange-Keeps stage s es) l ∙ h.same_peer;
}

Reach-IsFor : {p : Bool × Text × Text × Text} {s t : Session} → IsFor p s → Reach s t → IsFor p t
Reach-IsFor h here = h
Reach-IsFor h (next r st) = Step-IsFor (Reach-IsFor h r) st

-- A session that any sequence of `connect`, `write` and `read` leaves, from a new one on, is ready,
-- and has the transport, host, port and target that it was made with.
pub new_session-IsFor :
    (host port target : Text) (p : Protocol) (verify : Bool) (seconds now : ℕ) {s : Session}
    → Reach (new_session host port target p verify seconds now) s
    → IsFor (is_https p, host, port, target) s
new_session-IsFor host port target p verify seconds now r =
    Reach-IsFor
      (record {
        ready = new_session-IsReady host port target p verify seconds now;
        same_peer = new_session-peer host port target p verify seconds now;
      })
      r

-- Writes and reads one after the other, each with the events that the last one left.
pub data Uses (s : Session) (es : List IoEvent) : Session → List IoEvent → Type 0 where
  unused : Uses s es s es
  used :
      {t u : Session} {fs gs : List IoEvent} (stage : String)
      → Uses s es t fs
      → Leaves (exchange stage t fs) u gs
      → Uses s es u gs

abbrev pub Shut : Session → List IoEvent → Type 0
Shut s es = (transport s ≡ some false) × OpensNothing es

Leaves-Shut :
    (e : Ended Bool) (t : Session) (fs : List IoEvent) → IsDead e → Leaves e t fs → Shut t fs
Leaves-Shut (ended a reports s es) t fs h l = rw (← l.0, ← l.1) (h.1, h.2)
Leaves-Shut (thrown e s es) t fs h l = rw (← l.0, ← l.1) h
Leaves-Shut null_pointer t fs h l = absurd l
Leaves-Shut hangs t fs h l = absurd l

Uses-Shut :
    {s : Session} {es : List IoEvent} {t : Session} {fs : List IoEvent}
    → Shut s es
    → Uses s es t fs
    → Shut t fs
Uses-Shut h unused = h
Uses-Shut h (used {t} {u} {fs} {gs} stage r l) =
    Leaves-Shut _ u gs (exchange-IsDead stage t fs (Uses-Shut h r).0 (Uses-Shut h r).1) l

-- Once the connection is closed and no socket is opened, every later `write` and `read` of a
-- sequence fails, throws or hangs, and leaves the connection closed.
pub Uses-IsDead :
    {s : Session} {es : List IoEvent} {t : Session} {fs : List IoEvent} (stage : String)
    → transport s ≡ some false
    → OpensNothing es
    → Uses s es t fs
    → IsDead (exchange stage t fs)
Uses-IsDead {s} {es} {t} {fs} stage h o r =
    exchange-IsDead stage t fs (Uses-Shut (h, o) r).0 (Uses-Shut (h, o) r).1
