-- ===== src/Session/Prompt/Connect.antt =====
-- A connection that is made before the deadline.
use mile_csa_jsonrpc_client.Base.{
  ℕ, ◌+◌, ◌<◌, ◌≡◌, ◌∙◌, ap, refl, Bool, true, false, some, List, [], ◌∷◌, String, if◌then◌else◌,
}
use mile_csa_jsonrpc_client.Session.{
  Session, IoEvent, timer, opening, done, success, would_block, completed, wait_loop, Ended, ended,
  transport, open_socket, finish_connect, connect_failed, handshake, connect_ssl, connect_plain,
  connect_to, connect, endpoints, expires_from_now,
}
use mile_csa_jsonrpc_client.Session.Ready.{IsReady}
use mile_csa_jsonrpc_client.Session.Prompt.{
  Arrives, timed, wait_deadline-early, wait_loop-Arrives, check_socket-open,
}
use mile_csa_jsonrpc_client.Session.Waiting.{through-some}

-- The events open the socket of an endpoint, or of several one after the other, and connect it.
pub data Connects (d : ℕ) : List IoEvent → ℕ → List IoEvent → Type 0 where
  opens : {t u : ℕ} {es fs : List IoEvent} → Arrives d es u fs → Connects d (opening t ∷ es) u fs
  opens_again :
      {t u : ℕ} {es fs : List IoEvent} → Connects d es u fs → Connects d (opening t ∷ es) u fs
  idle_before :
      {t u : ℕ} {es fs : List IoEvent}
      → Connects d es u fs
      → Connects d (done t would_block ∷ es) u fs
  early_before :
      {t u : ℕ} {es fs : List IoEvent} → t < d → Connects d es u fs → Connects d (timer t ∷ es) u fs

-- The events of the whole of `connect`, and the deadline that is set last: with ssl a handshake follows.
pub data Joins (s : Session) : Bool → List IoEvent → ℕ → ℕ → List IoEvent → Type 0 where
  plainly :
      {u : ℕ} {es fs : List IoEvent}
      → Connects (s.clock + s.seconds) es u fs
      → Joins s false es (s.clock + s.seconds) u fs
  securely :
      {t u : ℕ} {es ms fs : List IoEvent}
      → Connects (s.clock + s.seconds) es t ms
      → Arrives (t + s.seconds) ms u fs
      → Joins s true es (t + s.seconds) u fs

-- The socket is open, or the one under the stream.
abbrev pub opened : Bool → Session → Session
opened true s = record s { stream = some true }
opened false s = record s { socket = some true }

open_socket-opened : (b : Bool) (s : Session) → s.use_ssl ≡ b → open_socket s ≡ opened b s
unfolding open_socket
open_socket-opened true s e = rw e refl
open_socket-opened false s e = rw e refl

opened-timed : (b : Bool) (s : Session) (d t : ℕ) → opened b (timed s d t) ≡ timed (opened b s) d t
opened-timed true s d t = refl
opened-timed false s d t = refl

opened-twice : (b : Bool) (s : Session) → opened b (opened b s) ≡ opened b s
opened-twice true s = refl
opened-twice false s = refl

opened-use_ssl : (b : Bool) (s : Session) → (opened b s).use_ssl ≡ s.use_ssl
opened-use_ssl true s = refl
opened-use_ssl false s = refl

opened-waits : (b : Bool) (s : Session) → (opened b s).waits ≡ s.waits
opened-waits true s = refl
opened-waits false s = refl

pub opened-transport : (b : Bool) (s : Session) → s.use_ssl ≡ b → transport (opened b s) ≡ some true
opened-transport true s e = rw e refl
opened-transport false s e = rw e refl

opening-opened :
    (b : Bool) (s : Session) (d t : ℕ)
    → s.use_ssl ≡ b
    → open_socket (timed s d t) ≡ timed (opened b s) d t
opening-opened b s d t e = open_socket-opened b (timed s d t) e ∙ opened-timed b s d t

wait_loop-Connects :
    (b : Bool) (d : ℕ) (s : Session) (t u : ℕ) (es fs : List IoEvent)
    → s.use_ssl ≡ b
    → s.waits ≡ 1
    → Connects d es u fs
    → wait_loop es (timed s d t) ≡ completed success (timed (opened b s) d u) fs
unfolding wait_loop
wait_loop-Connects b d s t u es fs e w (opens {t = t'} a) =
    rw (opening-opened b s d t' e)
      (wait_loop-Arrives (opened b s) d t' u _ fs (opened-waits b s ∙ w) a)
wait_loop-Connects b d s t u es fs e w (opens_again {t = t'} a) = rw (opening-opened b s d t' e) (
    wait_loop-Connects b d (opened b s) t' u _ fs (opened-use_ssl b s ∙ e) (opened-waits b s ∙ w) a
    ∙ ap (λ x. completed success (timed x d u) fs) (opened-twice b s))
wait_loop-Connects b d s t u es fs e w (idle_before {t = t'} a) =
    wait_loop-Connects b d s t' u _ fs e w a
wait_loop-Connects b d s t u es fs e w (early_before {t = t'} l a) =
    rw (wait_deadline-early s d t' w l) (wait_loop-Connects b d s t' u _ fs e w a)

finish_connect-Connects :
    (stage : String) (b : Bool) (s : Session) (u : ℕ) (es fs : List IoEvent)
    → s.use_ssl ≡ b
    → s.waits ≡ 1
    → Connects (s.clock + s.seconds) es u fs
    → finish_connect stage (expires_from_now s) es
      ≡ ended true [] (timed (opened b s) (s.clock + s.seconds) u) fs
unfolding finish_connect
finish_connect-Connects stage b s u es fs e w a =
    rw
      (
        wait_loop-Connects b (s.clock + s.seconds) s s.clock u es fs e w a,
        check_socket-open (timed (opened b s) (s.clock + s.seconds) u) (opened-transport b s e),
      )
      refl

finish_connect-Arrives :
    (stage : String) (s : Session) (u : ℕ) (es fs : List IoEvent)
    → transport s ≡ some true
    → s.waits ≡ 1
    → Arrives (s.clock + s.seconds) es u fs
    → finish_connect stage (expires_from_now s) es
      ≡ ended true [] (timed s (s.clock + s.seconds) u) fs
unfolding finish_connect
finish_connect-Arrives stage s u es fs o w a =
    rw
      (
        wait_loop-Arrives s (s.clock + s.seconds) s.clock u es fs w a,
        check_socket-open (timed s (s.clock + s.seconds) u) o,
      )
      refl

connect_plain-Connects :
    (s : Session) (u : ℕ) (es fs : List IoEvent)
    → IsReady s
    → s.use_ssl ≡ false
    → Connects (s.clock + s.seconds) es u fs
    → connect_plain (expires_from_now s) es
      ≡ ended true [] (timed (opened false s) (s.clock + s.seconds) u) fs
unfolding connect_plain
connect_plain-Connects s u es fs r e a =
    rw
      (
        through-some s.socket (finish_connect "Connection timeout" (expires_from_now s) es)
            (rw e at r.in_use),
        finish_connect-Connects "Connection timeout" false s u es fs e r.waiting a,
      )
      refl

connect_ssl-Connects :
    (s : Session) (t u : ℕ) (es ms fs : List IoEvent)
    → IsReady s
    → s.use_ssl ≡ true
    → Connects (s.clock + s.seconds) es t ms
    → Arrives (t + s.seconds) ms u fs
    → connect_ssl true (expires_from_now s) es
      ≡ ended true [] (timed (opened true s) (t + s.seconds) u) fs
unfolding connect_ssl
connect_ssl-Connects s t u es ms fs r e a h =
    rw
      (
        through-some s.stream
            (handshake
              (connect_failed (finish_connect "Connection timeout" (expires_from_now s) es)))
            (rw e at r.in_use),
        finish_connect-Connects "Connection timeout" true s t es ms e r.waiting a,
        finish_connect-Arrives "SSL Handshake timeout"
            (timed (opened true s) (s.clock + s.seconds) t) u ms fs (opened-transport true s e)
            r.waiting h,
      )
      refl

branch_yes : (c : Bool) (x y : Ended Bool) → c ≡ true → (if c then x else y) ≡ x
branch_yes c x y e = rw e refl

branch_no : (c : Bool) (x y : Ended Bool) → c ≡ false → (if c then x else y) ≡ y
branch_no c x y e = rw e refl

-- On a ready session, if the host is found and the events open a socket, connect it and, with ssl, end
-- the handshake, each within its deadline, then `connect` returns true with no report, and the socket
-- is open.
pub connect-prompt :
    (b : Bool) (s : Session) (d u : ℕ) (es fs : List IoEvent)
    → IsReady s
    → s.use_ssl ≡ b
    → Joins s b es d u fs
    → connect (endpoints true) true s es ≡ ended true [] (timed (opened b s) d u) fs
unfolding connect connect_to
connect-prompt b s d u es fs r e (plainly a) = ap connect_failed (
    branch_no s.use_ssl (connect_ssl true (expires_from_now s) es)
      (connect_plain (expires_from_now s) es) e
    ∙ connect_plain-Connects s u es fs r e a)
connect-prompt b s d u es fs r e (securely {t = t} {ms = ms} a h) = ap connect_failed (
    branch_yes s.use_ssl (connect_ssl true (expires_from_now s) es)
      (connect_plain (expires_from_now s) es) e
    ∙ connect_ssl-Connects s t u es ms fs r e a h)
