-- ===== src/Tests/Sessions.antt =====
-- Sessions with concrete events.
use mile_csa_jsonrpc_client.Base.{◌≡◌, ◌↔◌, refl, Bool, true, false, List, [], ◌∷◌, codes, arith}
use mile_csa_jsonrpc_client.Url.Parse.{https}
use mile_csa_jsonrpc_client.Session.{Session, IoEvent, timer, opening, done, success, would_block}
use mile_csa_jsonrpc_client.Session.{
  exchange, connect, endpoints, new_session, hangs, Ended, ended, thrown,
}
use mile_csa_jsonrpc_client.Session.Ready.{IsReady, Safe, new_session-IsReady, connect-Safe}
use mile_csa_jsonrpc_client.Session.Lifecycle.{IsFor, here, next, exchanging, new_session-IsFor}
use mile_csa_jsonrpc_client.Session.Waiting.{completes, exchange-hangs}
use mile_csa_jsonrpc_client.Session.Deadline.{IsDead, exchange-late}
use mile_csa_jsonrpc_client.Session.Connect.{Reporting, IsConnectCode, Returns}
use mile_csa_jsonrpc_client.Session.Connect.{connect-Reporting}

-- A new session with a timeout of three seconds, at time 10.
abbrev node_session : Session
node_session = new_session (codes "node.mile") (codes "443") (codes "/v1/api") https true 3 10

node_session-IsReady : IsReady node_session
node_session-IsReady =
    new_session-IsReady (codes "node.mile") (codes "443") (codes "/v1/api") https true 3 10

-- A connection and a handshake that succeed.
abbrev connecting : List IoEvent
connecting = opening 10 ∷ done 11 success ∷ done 12 success ∷ []

connect-Safe_example : Safe (connect (endpoints true) true node_session connecting)
connect-Safe_example =
    connect-Safe (endpoints true) true node_session connecting node_session-IsReady

connect-Reporting_example :
    Returns (connect (endpoints true) true node_session connecting)
    × Reporting IsConnectCode (connect (endpoints true) true node_session connecting)
connect-Reporting_example = connect-Reporting (endpoints true) true node_session connecting

-- The timer fires in time, and the operation ends later.
abbrev slow : List IoEvent
slow = done 11 would_block ∷ timer 13 ∷ done 14 success ∷ []

exchange-hangs_example : (exchange "write" node_session slow ≡ hangs) ↔ (completes slow ≡ false)
exchange-hangs_example = exchange-hangs "write" node_session slow node_session-IsReady

exchange-late_example : IsDead (exchange "write" node_session slow)
unfolding new_session
exchange-late_example =
    exchange-late "write" node_session (done 11 would_block ∷ []) 13 (done 14 success ∷ [])
      node_session-IsReady tt tt (omega arith)

-- The session after the slow write.
abbrev left_by : Ended Bool → Session
left_by (ended a reports s es) = s
left_by (thrown x s es) = s
left_by _ = node_session

new_session-IsFor_example :
    IsFor
      (true, codes "node.mile", codes "443", codes "/v1/api")
      (left_by (exchange "write" node_session slow))
unfolding new_session exchange
new_session-IsFor_example =
    new_session-IsFor (codes "node.mile") (codes "443") (codes "/v1/api") https true 3 10
      (next here (exchanging "write" slow [] (refl, refl)))
