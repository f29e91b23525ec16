-- ===== src/Session/Prompt.antt =====
-- An operation that comes to its end before the deadline.
pub mod Connect
use mile_csa_jsonrpc_client.Base.{
  ℕ, ◌+◌, ◌-◌, ◌<◌, ◌≡◌, ◌≢◌, refl, Bool, true, false, some, List, [], ◌∷◌, String, arith, leb,
}
use mile_csa_jsonrpc_client.Session.{
  Session, IoEvent, timer, done, success, would_block, completed, wait_loop, checked, Ended, ended,
  exchange, through, transport, wait_deadline, time_at, check_socket, expires_from_now, expired,
}
use mile_csa_jsonrpc_client.Session.Ready.{IsReady}
use mile_csa_jsonrpc_client.Session.Waiting.{through-some}

-- The events bring the success of the operation, at the time `u`, and then `fs` are still to come; before
-- it only the timer has run, and not after `d`.
pub data Arrives (d : ℕ) : List IoEvent → ℕ → List IoEvent → Type 0 where
  arriving : {u : ℕ} {fs : List IoEvent} → Arrives d (done u success ∷ fs) u fs
  idle :
      {t u : ℕ} {es fs : List IoEvent}
      → Arrives d es u fs
      → Arrives d (done t would_block ∷ es) u fs
  early :
      {t u : ℕ} {es fs : List IoEvent} → t < d → Arrives d es u fs → Arrives d (timer t ∷ es) u fs

-- The session at the time `u`, with a deadline.
abbrev pub timed : Session → ℕ → ℕ → Session
timed s d u = record s { deadline = time_at d; clock = u }

not_passed : (d t : ℕ) → t < d → leb d t ≡ false
not_passed d t l = ground arith

one_again : (n : ℕ) → n ≡ 1 → n - 1 + 1 ≡ n
one_again n e = omega arith

pub wait_deadline-early :
    (s : Session) (d t : ℕ)
    → s.waits ≡ 1
    → t < d
    → wait_deadline (record s { deadline = time_at d; clock = t; waits = s.waits - 1 })
      ≡ timed s d t
unfolding wait_deadline expired
wait_deadline-early s d t w l = rw (not_passed d t l, one_again s.waits w) refl

pub wait_loop-Arrives :
    (s : Session) (d t u : ℕ) (es fs : List IoEvent)
    → s.waits ≡ 1
    → Arrives d es u fs
    → wait_loop es (timed s d t) ≡ completed success (timed s d u) fs
unfolding wait_loop
wait_loop-Arrives s d t u es fs w arriving = refl
wait_loop-Arrives s d t u es fs w (idle {t = t'} a) = wait_loop-Arrives s d t' u _ fs w a
wait_loop-Arrives s d t u es fs w (early {t = t'} l a) =
    rw (wait_deadline-early s d t' w l) (wait_loop-Arrives s d t' u _ fs w a)

pub check_socket-open : (s : Session) → transport s ≡ some true → check_socket s ≡ true
unfolding check_socket
check_socket-open s h = ground arith

-- On a ready session that is open, if the events bring the success of the operation, and before it
-- the timer has run at times before the deadline only, then `write` and `read` return true, with no
-- report, and leave the session as it was but for its deadline and the time.
pub exchange-prompt :
    (stage : String) (s : Session) (u : ℕ) (es fs : List IoEvent)
    → IsReady s
    → transport s ≡ some true
    → Arrives (s.clock + s.seconds) es u fs
    → exchange stage s es ≡ ended true [] (timed s (s.clock + s.seconds) u) fs
unfolding exchange
exchange-prompt stage s u es fs r o a =
    rw
      (
        through-some (transport s) (checked stage (wait_loop es (expires_from_now s))) r.in_use,
        wait_loop-Arrives s (s.clock + s.seconds) s.clock u es fs r.waiting a,
        check_socket-open (timed s (s.clock + s.seconds) u) o,
      )
      refl
