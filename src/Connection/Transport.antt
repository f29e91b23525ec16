-- ===== src/Connection/Transport.antt =====
-- A session as the connection that `RpcSession::request` writes to and reads from.
use mile_csa_jsonrpc_client.Base.{
  ℕ, ◌+◌, ◌*◌, ◌≡◌, Bool, true, false, Option, none, some, List, ◌∷◌, Text,
}
use mile_csa_jsonrpc_client.Effects.{Result, returned, threw, undefined, hung, Report}
use mile_csa_jsonrpc_client.Session.{
  Session, IoEvent, Ended, ended, thrown, null_pointer, hangs, write, read,
}
use mile_csa_jsonrpc_client.Session.Message.{Message, post_message}
use mile_csa_jsonrpc_client.Session.Connect.{Reporting, IsTimeout, exchange-Reporting}
use mile_csa_jsonrpc_client.Rpc.Env.{Reply, Transport, IsTransport, ReportsOnce, is_there}

-- The session, the events to come, and the responses that its reads store, with their number so far; and
-- the messages that its `write` was called with, the newest first.
pub record Line : Type 0 where
  pub session : Session
  pub events : List IoEvent
  pub replies : ℕ → Reply
  pub received : ℕ
  pub written : List Message

abbrev moved : Line → Session → List IoEvent → Line
moved l s es = record l { session = s; events = es }

-- `request` calls `write`.
abbrev pub posting : Text → Line → Line
posting body l = record l { written = post_message l.session body ∷ l.written }

unfoldable pub write_result : Line → Ended Bool → Result (Bool × List Report) × Line
write_result l (ended ok reports s es) = (returned (ok, reports), moved l s es)
write_result l (thrown e s es) = (threw e, moved l s es)
write_result l null_pointer = (undefined, l)
write_result l hangs = (hung, l)

unfoldable pub read_result : Line → Ended Bool → Result (Option Reply × List Report) × Line
read_result l (ended true reports s es) = (
  returned (some (l.replies l.received), reports),
  record (moved l s es) { received = l.received + 1 },
)
read_result l (ended false reports s es) = (returned (none, reports), moved l s es)
read_result l (thrown e s es) = (threw e, moved l s es)
read_result l null_pointer = (undefined, l)
read_result l hangs = (hung, l)

-- The clock of a session counts seconds.
abbrev pub session_transport : Transport
session_transport = record {
  Link = Line;
  write = λ body l. write_result (posting body l) (write l.session l.events);
  read = λ l. read_result l (read l.session l.events);
  micros = λ l. 1000000 * l.session.clock;
  seconds = λ l. l.session.clock;
}

write_result-once :
    (l l' : Line) (r : Ended Bool) (ok : Bool) (reports : List Report)
    → Reporting IsTimeout r
    → write_result l r ≡ (returned (ok, reports), l')
    → ReportsOnce ok reports
unfolding write_result
write_result-once l l' (ended true rs s es) true reports (q, o) e = cc
write_result-once l l' (ended true rs s es) false reports h e = cc
write_result-once l l' (ended false rs s es) true reports h e = cc
write_result-once l l' (ended false rs s es) false reports (c, m, q, p) e = (m, cc)
write_result-once l l' (thrown x s es) ok reports h e = cc
write_result-once l l' null_pointer ok reports h e = cc
write_result-once l l' hangs ok reports h e = cc

read_result-once :
    (l l' : Line) (r : Ended Bool) (reply : Option Reply) (reports : List Report)
    → Reporting IsTimeout r
    → read_result l r ≡ (returned (reply, reports), l')
    → ReportsOnce (is_there reply) reports
unfolding read_result
read_result-once l l' (ended true rs s es) (some r) reports (q, o) e = cc
read_result-once l l' (ended true rs s es) none reports h e = cc
read_result-once l l' (ended false rs s es) (some r) reports h e = cc
read_result-once l l' (ended false rs s es) none reports (c, m, q, p) e = (m, cc)
read_result-once l l' (thrown x s es) reply reports h e = cc
read_result-once l l' null_pointer reply reports h e = cc
read_result-once l l' hangs reply reports h e = cc

-- A session keeps the promise that the client relies on: whatever events occur, a write or a read
-- that returns has reported a timeout once if it failed, and nothing if it succeeded.
pub session_transport-IsTransport : IsTransport session_transport
unfolding write read
session_transport-IsTransport = record {
  write_reports = λ body l l' ok reports e.
      write_result-once (posting body l) l' _ ok reports (exchange-Reporting _ l.session l.events)
        e;
  read_reports = λ l l' reply reports e.
      read_result-once l l' _ reply reports (exchange-Reporting _ l.session l.events) e;
}
