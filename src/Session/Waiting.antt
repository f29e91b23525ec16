-- ===== src/Session/Waiting.antt =====
-- When the loops `do ioc.run_one(); while (ec == would_block)` end.
use mile_csa_jsonrpc_client.Base.{◌≡◌, ◌≢◌, ◌↔◌, refl, Bool, true, false, Option, none, some, List}
use mile_csa_jsonrpc_client.Base.{[], ◌∷◌, String, arith}
use mile_csa_jsonrpc_client.Session.{
  Session, IoEvent, timer, opening, done, raising, success, would_block,
}
use mile_csa_jsonrpc_client.Session.{
  other_code, Waited, completed, raised, never, wait_loop, checked,
}
use mile_csa_jsonrpc_client.Session.{Ended, hangs, exchange, through, transport}
use mile_csa_jsonrpc_client.Session.Ready.{IsReady}

-- The events bring the operation's end, or an exception.
unfoldable pub completes : List IoEvent → Bool
completes [] = false
completes (timer t ∷ es) = completes es
completes (opening t ∷ es) = completes es
completes (done t success ∷ es) = true
completes (done t would_block ∷ es) = completes es
completes (done t other_code ∷ es) = true
completes (raising t e ∷ es) = true

pub wait_loop-never :
    (es : List IoEvent) (s : Session) → (wait_loop es s ≡ never) ↔ (completes es ≡ false)
unfolding wait_loop completes
wait_loop-never [] s = (λ _. refl, λ _. refl)
wait_loop-never (timer t ∷ es) s = wait_loop-never es _
wait_loop-never (opening t ∷ es) s = wait_loop-never es _
wait_loop-never (done t success ∷ es) s = (λ h. cc, λ h. cc)
wait_loop-never (done t would_block ∷ es) s = wait_loop-never es _
wait_loop-never (done t other_code ∷ es) s = (λ h. cc, λ h. cc)
wait_loop-never (raising t e ∷ es) s = (λ h. cc, λ h. cc)

checked-hangs : (stage : String) (w : Waited) → (checked stage w ≡ hangs) ↔ (w ≡ never)
checked-hangs stage (completed c s es) = ground arith
checked-hangs stage (raised e s es) = ground arith
checked-hangs stage never = ground arith

pub through-some : (o : Option Bool) (e : Ended Bool) → o ≢ none → through o e ≡ e
through-some none e n = absurd (n refl)
through-some (some b) e n = refl

-- On a ready session `write` and `read` return or throw if the events bring the end of the
-- operation, and hang if they do not: the timer alone never ends the loop.
pub exchange-hangs :
    (stage : String) (s : Session) (es : List IoEvent)
    → IsReady s
    → (exchange stage s es ≡ hangs) ↔ (completes es ≡ false)
unfolding exchange
exchange-hangs stage s es r = rw (through-some (transport s) _ r.in_use) (
  λ h. (wait_loop-never es _).0 ((checked-hangs stage _).0 h),
  λ h. (checked-hangs stage _).1 ((wait_loop-never es _).1 h),
)
