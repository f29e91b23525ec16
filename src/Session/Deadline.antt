-- ===== src/Session/Deadline.antt =====
-- The deadline is enforced: after it has passed no operation succeeds.
use mile_csa_jsonrpc_client.Base.{ℕ, ◌+◌, ◌≤◌, ◌≡◌, ◌≢◌, ◌⊎◌, inr, refl, Bool, false}
use mile_csa_jsonrpc_client.Base.{none, some, List, [], ◌∷◌, ◌++◌, String, arith}
use mile_csa_jsonrpc_client.Session.{
  Session, IoEvent, timer, opening, done, raising, success, would_block,
}
use mile_csa_jsonrpc_client.Session.{
  other_code, Waited, completed, raised, never, wait_loop, checked,
}
use mile_csa_jsonrpc_client.Session.{Ended, ended, thrown, null_pointer, hangs, exchange, transport}
use mile_csa_jsonrpc_client.Session.{wait_deadline, time_at, check_socket}
use mile_csa_jsonrpc_client.Session.{expires_from_now}
use mile_csa_jsonrpc_client.Session.Ready.{IsReady}
use mile_csa_jsonrpc_client.Session.Waiting.{through-some}

-- No socket is opened: the operation is `async_write`, `async_read` or `async_handshake`.
abbrev pub OpensNothing : List IoEvent → Type 0
OpensNothing [] = Unit {0}
OpensNothing (opening t ∷ es) = ⊥
OpensNothing (timer t ∷ es) = OpensNothing es
OpensNothing (done t c ∷ es) = OpensNothing es
OpensNothing (raising t e ∷ es) = OpensNothing es

-- The operation goes on through all of these events.
abbrev pub IsQuiet : List IoEvent → Type 0
IsQuiet [] = Unit {0}
IsQuiet (opening t ∷ es) = ⊥
IsQuiet (timer t ∷ es) = IsQuiet es
IsQuiet (done t would_block ∷ es) = IsQuiet es
IsQuiet (done t success ∷ es) = ⊥
IsQuiet (done t other_code ∷ es) = ⊥
IsQuiet (raising t e ∷ es) = ⊥

-- The connection is closed, or its deadline is still `d`.
abbrev Watched : ℕ → Session → Type 0
Watched d s = (transport s ≡ some false) ⊎ ((transport s ≢ none) × (s.deadline ≡ time_at d))

abbrev Closed : Waited → Type 0
Closed (completed c s es) = (transport s ≡ some false) × OpensNothing es
Closed (raised e s es) = (transport s ≡ some false) × OpensNothing es
Closed never = Unit {0}

timer-closed :
    (t n : ℕ) (s : Session)
    → transport s ≡ some false
    → transport (wait_deadline (record s { clock = t; waits = n })) ≡ some false
unfolding wait_deadline
timer-closed t n s h = ground arith

timer-Watched :
    (t n d : ℕ) (s : Session)
    → Watched d s
    → Watched d (wait_deadline (record s { clock = t; waits = n }))
unfolding wait_deadline
timer-Watched t n d s h = ground arith

timer-late :
    (t n d : ℕ) (s : Session)
    → d ≤ t
    → Watched d s
    → transport (wait_deadline (record s { clock = t; waits = n })) ≡ some false
unfolding wait_deadline
timer-late t n d s l h = ground arith

check_socket-closed : (s : Session) → transport s ≡ some false → check_socket s ≡ false
unfolding check_socket
check_socket-closed s h = ground arith

wait_loop-Closed :
    (es : List IoEvent) (s : Session)
    → OpensNothing es
    → transport s ≡ some false
    → Closed (wait_loop es s)
unfolding wait_loop
wait_loop-Closed [] s o h = tt
wait_loop-Closed (timer t ∷ es) s o h = wait_loop-Closed es _ o (timer-closed t _ s h)
wait_loop-Closed (opening t ∷ es) s o h = absurd o
wait_loop-Closed (done t success ∷ es) s o h = (h, o)
wait_loop-Closed (done t would_block ∷ es) s o h = wait_loop-Closed es _ o h
wait_loop-Closed (done t other_code ∷ es) s o h = (h, o)
wait_loop-Closed (raising t e ∷ es) s o h = (h, o)

wait_loop-late :
    (before : List IoEvent) (t d : ℕ) (after : List IoEvent) (s : Session)
    → IsQuiet before
    → OpensNothing after
    → d ≤ t
    → Watched d s
    → Closed (wait_loop (before ++ (timer t ∷ after)) s)
unfolding wait_loop
wait_loop-late [] t d after s q o l h = wait_loop-Closed after _ o (timer-late t _ d s l h)
wait_loop-late (timer u ∷ before) t d after s q o l h =
    wait_loop-late before t d after _ q o l (timer-Watched u _ d s h)
wait_loop-late (opening u ∷ before) t d after s q o l h = absurd q
wait_loop-late (done u success ∷ before) t d after s q o l h = absurd q
wait_loop-late (done u would_block ∷ before) t d after s q o l h =
    wait_loop-late before t d after _ q o l h
wait_loop-late (done u other_code ∷ before) t d after s q o l h = absurd q
wait_loop-late (raising u e ∷ before) t d after s q o l h = absurd q

-- The operation did not succeed, and left a closed connection that no event to come opens.
abbrev pub IsDead : Ended Bool → Type 0
IsDead (ended ok reports s es) = (ok ≡ false) × (transport s ≡ some false) × OpensNothing es
IsDead (thrown e s es) = (transport s ≡ some false) × OpensNothing es
IsDead null_pointer = ⊥
IsDead hangs = Unit {0}

checked-IsDead : (stage : String) (w : Waited) → Closed w → IsDead (checked stage w)
checked-IsDead stage (completed c s es) h = ground (arith, check_socket-closed s)
checked-IsDead stage (raised e s es) h = h
checked-IsDead stage never h = tt

-- On a ready session, if the deadline's timer fires at or after its time while `write` or `read`
-- still waits, and no socket is opened, then the call does not return true, whatever the operation
-- reports afterwards; and if it ends, it leaves the connection closed.
pub exchange-late :
    (stage : String) (s : Session) (before : List IoEvent) (t : ℕ) (after : List IoEvent)
    → IsReady s
    → IsQuiet before
    → OpensNothing after
    → s.clock + s.seconds ≤ t
    → IsDead (exchange stage s (before ++ (timer t ∷ after)))
unfolding exchange
exchange-late stage s before t after r q o l =
    rw (through-some (transport s) _ r.in_use)
      (checked-IsDead stage _ (wait_loop-late before t _ after _ q o l (inr (r.in_use, refl))))

-- On a closed connection, while no socket is opened, `write` and `read` do not return true, and
-- leave the connection closed.
pub exchange-IsDead :
    (stage : String) (s : Session) (es : List IoEvent)
    → transport s ≡ some false
    → OpensNothing es
    → IsDead (exchange stage s es)
unfolding exchange
exchange-IsDead stage s es h o =
    rw (through-some (transport s) _ (λ e. cc))
      (checked-IsDead stage _ (wait_loop-Closed es (expires_from_now s) o h))
