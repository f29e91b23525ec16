-- ===== src/Connection/Answers.antt =====
-- A call of a connected client that the node answers in time.
use mile_csa_jsonrpc_client.Base.{
  ℕ, ◌+◌, ◌%◌, ◌^◌, ◌≡◌, refl, true, Bool, some, List, [], ◌∷◌, String, Text,
}
use mile_csa_jsonrpc_client.Effects.{returned}
use mile_csa_jsonrpc_client.Session.{Session, IoEvent, transport, write, read}
use mile_csa_jsonrpc_client.Session.Ready.{IsReady}
use mile_csa_jsonrpc_client.Session.Message.{post_message}
use mile_csa_jsonrpc_client.Session.Prompt.{Arrives, timed, exchange-prompt}
use mile_csa_jsonrpc_client.Rpc.Env.{JsonLibrary, MileLibrary, Env}
use mile_csa_jsonrpc_client.Rpc.World.{World, posted, get_next}
use mile_csa_jsonrpc_client.Rpc.Request.{command, next_command, request}
use mile_csa_jsonrpc_client.Rpc.Request.Answer.{IsAnswer, request-answered}
use mile_csa_jsonrpc_client.Rpc.Client.{
  ask, get_network_state, get_nodes, get_blockchain_info, get_blockchain_state,
}
use mile_csa_jsonrpc_client.Rpc.Transaction.{response}
use mile_csa_jsonrpc_client.Rpc.Call.{
  Method, method_of, network_state, nodes, blockchain_info, blockchain_state, answer, dispatch,
  call,
}
use mile_csa_jsonrpc_client.Connection.Transport.{Line, write_result, read_result}
use mile_csa_jsonrpc_client.Connection.Calls.{session_env}

-- The line after a message was written and its response was read, at the times `u` and `v`.
abbrev pub answered : Line → Text → ℕ → ℕ → List IoEvent → Line
answered l d u v fs = record l {
  session =
      timed (timed l.session (l.session.clock + l.session.seconds) u) (u + l.session.seconds) v;
  events = fs;
  received = l.received + 1;
  written = post_message l.session d ∷ l.written;
}

-- The session is open, and both operations succeed in time.
pub record IsTimely (l : Line) (u v : ℕ) (fs : List IoEvent) : Type 0 where
  pub between : List IoEvent
  pub ready : IsReady l.session
  pub is_open : transport l.session ≡ some true
  pub sent : Arrives (l.session.clock + l.session.seconds) l.events u between
  pub was_read : Arrives (u + l.session.seconds) between v fs

-- The methods without parameters whose answer is returned as it is, with the name in the command.
pub data Asks : Method → String → Type 0 where
  asks_network_state : Asks network_state "get-network-state"
  asks_nodes : Asks nodes "get-nodes"
  asks_info : Asks blockchain_info "get-blockchain-info"
  asks_state : Asks blockchain_state "get-blockchain-state"

timed-IsReady : (s : Session) (d u : ℕ) → IsReady s → IsReady (timed s d u)
timed-IsReady s d u r = record { in_use = r.in_use; not_in_use = r.not_in_use; waiting = r.waiting }

-- A second exchange in time, after the first.
pub again-IsTimely :
    (l : Line) (u v : ℕ) (fs : List IoEvent) (d : Text) (u' v' : ℕ) (ms gs : List IoEvent)
    → IsTimely l u v fs
    → Arrives (v + l.session.seconds) fs u' ms
    → Arrives (u' + l.session.seconds) ms v' gs
    → IsTimely (answered l d u v fs) u' v' gs
again-IsTimely l u v fs d u' v' ms gs t a b = record {
  between = ms;
  ready =
      timed-IsReady (timed l.session (l.session.clock + l.session.seconds) u)
        (u + l.session.seconds) v
        (timed-IsReady l.session (l.session.clock + l.session.seconds) u t.ready);
  is_open = t.is_open;
  sent = a;
  was_read = b;
}

module _ (J : JsonLibrary) (L : MileLibrary J.Json J.Float) (rand : ℕ → ℕ) where
  abbrev env : Env
  env = session_env J L rand

  module _ (l : Line) (u v : ℕ) (fs : List IoEvent) (t : IsTimely l u v fs) where
    abbrev halfway : Text → Line
    halfway d = record l {
      session = timed l.session (l.session.clock + l.session.seconds) u;
      events = t.between;
      written = post_message l.session d ∷ l.written;
    }

    written-answered : (d : Text) → env.write d l ≡ (returned (true, []), halfway d)
    unfolding write write_result
    written-answered d =
        rw
          (exchange-prompt "Sending request timeout" l.session u l.events t.between t.ready
            t.is_open t.sent)
          refl

    read-answered :
        (d : Text)
        → env.read (halfway d) ≡ (returned (some (l.replies l.received), []), answered l d u v fs)
    unfolding read read_result
    read-answered d =
        rw
          (exchange-prompt "Reading response timeout" (timed l.session _ u) v t.between fs
            (timed-IsReady l.session _ u t.ready) t.is_open t.was_read)
          refl

  pub request-served :
      (body : J.Json) (w : World (session_env J L rand)) (d : Text) (u v : ℕ) (fs : List IoEvent)
      (r : J.Json)
      → J.dump body ≡ returned d
      → IsTimely w.link u v fs
      → IsAnswer J (w.link.replies w.link.received) r
      → request (session_env J L rand) body w ≡ (
        returned (some r),
        record w { link = answered w.link d u v fs; log = posted body ∷ w.log },
      )
  request-served body w d u v fs r h t a =
      request-answered env body w d (halfway w.link u v fs t d) (answered w.link d u v fs)
        (w.link.replies w.link.received) r h (written-answered w.link u v fs t d)
        (read-answered w.link u v fs t d) a

  -- The state after the question `name` was answered.
  abbrev pub after :
      World (session_env J L rand)
      → J.Json
      → Text
      → ℕ
      → ℕ
      → List IoEvent
      → World (session_env J L rand)
  after w body d u v fs = record w {
    link = answered w.link d u v fs;
    next_id = (w.next_id + 1) % 2 ^ 64;
    log = posted body ∷ w.log;
  }

  pub ask-answered :
      (name : String) (params : J.Json) (w : World (session_env J L rand)) (d : Text) (u v : ℕ)
      (fs : List IoEvent) (r : J.Json)
      → J.dump (command (session_env J L rand) name params w.next_id) ≡ returned d
      → IsTimely w.link u v fs
      → IsAnswer J (w.link.replies w.link.received) r
      → ask (session_env J L rand) name params w ≡ (
        returned (some r),
        after w (command (session_env J L rand) name params w.next_id) d u v fs,
      )
  unfolding ask next_command get_next
  ask-answered name params w d u v fs r h t a =
      request-served (command env name params w.next_id)
        (record w { next_id = (w.next_id + 1) % 2 ^ 64 }) d u v fs r h t a

  answer-answered :
      (name : String) (w : World env) (d : Text) (u v : ℕ) (fs : List IoEvent) (r : J.Json)
      → J.dump (command env name J.null w.next_id) ≡ returned d
      → IsTimely w.link u v fs
      → IsAnswer J (w.link.replies w.link.received) r
      → answer env (ask env name J.null) w
        ≡ (returned (response r), after w (command env name J.null w.next_id) d u v fs)
  answer-answered name w d u v fs r h t a = rw (ask-answered name J.null w d u v fs r h t a) refl

  dispatch-answered :
      (m : Method) (name : String) (params : J.Json) (w : World env) (d : Text) (u v : ℕ)
      (fs : List IoEvent) (r : J.Json)
      → Asks m name
      → J.dump (command env name J.null w.next_id) ≡ returned d
      → IsTimely w.link u v fs
      → IsAnswer J (w.link.replies w.link.received) r
      → dispatch env m params w
        ≡ (returned (response r), after w (command env name J.null w.next_id) d u v fs)
  unfolding dispatch get_network_state get_nodes get_blockchain_info get_blockchain_state
  dispatch-answered m name params w d u v fs r asks_network_state =
      answer-answered name w d u v fs r
  dispatch-answered m name params w d u v fs r asks_nodes = answer-answered name w d u v fs r
  dispatch-answered m name params w d u v fs r asks_info = answer-answered name w d u v fs r
  dispatch-answered m name params w d u v fs r asks_state = answer-answered name w d u v fs r

  -- If a session is ready and open, the write and then the read succeed within their deadlines, and
  -- the response has status 200 and a result that is not null, then a call of `get-network-state`,
  -- `get-nodes`, `get-blockchain-info` or `get-blockchain-state` returns that result. It has posted
  -- the command of the method with the next id, as one message, and called no handler; the counters
  -- of ids and of calls have advanced by one.
  pub call-answered :
      (emits : Bool) (method : String) (name : String) (params : J.Json)
      (w : World (session_env J L rand)) (d : Text) (u v : ℕ) (fs : List IoEvent) (r : J.Json)
      → Asks (method_of emits method) name
      → J.dump (command (session_env J L rand) name J.null w.next_id) ≡ returned d
      → IsTimely w.link u v fs
      → IsAnswer J (w.link.replies w.link.received) r
      → call (session_env J L rand) emits method params w ≡ (
        returned (response r),
        record (after w (command (session_env J L rand) name J.null w.next_id) d u v fs) {
          call_counter = w.call_counter + 1;
        },
      )
  unfolding call
  call-answered emits method name params w d u v fs r q h t a =
      rw
        (dispatch-answered (method_of emits method) name params
          (record w { call_counter = w.call_counter + 1 }) d u v fs r q h t a)
        refl
