-- ===== src/Connection/Calls.antt =====
-- The client over a session: what holds for as long as the client is used.
use mile_csa_jsonrpc_client.Base.{
  ℕ, ◌≡◌, ◌≢◌, ◌∙◌, refl, Bool, true, false, Option, none, some, ◌∷◌, String, Text,
}
use mile_csa_jsonrpc_client.Effects.{
  Result, returned, threw, undefined, hung, continue_with, handle,
}
use mile_csa_jsonrpc_client.Session.{Ended, ended, thrown, null_pointer, hangs, write, read}
use mile_csa_jsonrpc_client.Session.Ready.{Safe, exchange-Safe}
use mile_csa_jsonrpc_client.Session.Identity.{Keeps, exchange-Keeps}
use mile_csa_jsonrpc_client.Session.Deadline.{IsDead, exchange-IsDead}
use mile_csa_jsonrpc_client.Session.Lifecycle.{IsFor, Shut}
use mile_csa_jsonrpc_client.Rpc.Env.{JsonLibrary, MileLibrary, Env}
use mile_csa_jsonrpc_client.Rpc.World.{World, posted, get_next}
use mile_csa_jsonrpc_client.Rpc.Request.{
  request, exchange as post, request_failed, after_write, next_command,
}
use mile_csa_jsonrpc_client.Rpc.Client.{ask}
use mile_csa_jsonrpc_client.Rpc.Call.Link.{Called, IsKept, Called-link}
use mile_csa_jsonrpc_client.Connection.Transport.{
  Line, session_transport, posting, write_result, read_result,
}

-- The session that is left by an operation on the line.
pub write_result-IsFor :
    {p : Bool × Text × Text × Text} (l : Line) (e : Ended Bool)
    → Safe e
    → Keeps l.session e
    → IsFor p l.session
    → IsFor p (write_result l e).1.session
unfolding write_result
write_result-IsFor l (ended ok rs s es) r k h = record { ready = r; same_peer = k ∙ h.same_peer }
write_result-IsFor l (thrown x s es) r k h = record { ready = r; same_peer = k ∙ h.same_peer }
write_result-IsFor l null_pointer r k h = h
write_result-IsFor l hangs r k h = h

pub read_result-IsFor :
    {p : Bool × Text × Text × Text} (l : Line) (e : Ended Bool)
    → Safe e
    → Keeps l.session e
    → IsFor p l.session
    → IsFor p (read_result l e).1.session
unfolding read_result
read_result-IsFor l (ended true rs s es) r k h = record { ready = r; same_peer = k ∙ h.same_peer }
read_result-IsFor l (ended false rs s es) r k h = record { ready = r; same_peer = k ∙ h.same_peer }
read_result-IsFor l (thrown x s es) r k h = record { ready = r; same_peer = k ∙ h.same_peer }
read_result-IsFor l null_pointer r k h = h
read_result-IsFor l hangs r k h = h

abbrev pub IsShut : Line → Type 0
IsShut l = Shut l.session l.events

write_result-IsShut :
    (l : Line) (e : Ended Bool) → IsDead e → IsShut l → IsShut (write_result l e).1
unfolding write_result
write_result-IsShut l (ended ok rs s es) d h = (d.1, d.2)
write_result-IsShut l (thrown x s es) d h = d
write_result-IsShut l null_pointer d h = absurd d
write_result-IsShut l hangs d h = h

read_result-IsShut : (l : Line) (e : Ended Bool) → IsDead e → IsShut l → IsShut (read_result l e).1
unfolding read_result
read_result-IsShut l (ended true rs s es) d h = (d.1, d.2)
read_result-IsShut l (ended false rs s es) d h = (d.1, d.2)
read_result-IsShut l (thrown x s es) d h = d
read_result-IsShut l null_pointer d h = absurd d
read_result-IsShut l hangs d h = h

module _ (J : JsonLibrary) (L : MileLibrary J.Json J.Float) (rand : ℕ → ℕ) where
  abbrev pub session_env : Env
  session_env = record { json = J; mile = L; transport = session_transport; rand = rand }

  kept-IsFor : (p : Bool × Text × Text × Text) → IsKept session_env (λ l. IsFor p l.session)
  unfolding write read
  kept-IsFor p = record {
    write_keeps = λ d l h.
        write_result-IsFor (posting d l) _ (exchange-Safe _ l.session l.events h.ready)
          (exchange-Keeps _ l.session l.events) h;
    read_keeps = λ l h.
        read_result-IsFor l _ (exchange-Safe _ l.session l.events h.ready)
          (exchange-Keeps _ l.session l.events) h;
  }

  pub kept-IsShut : IsKept session_env IsShut
  unfolding write read
  kept-IsShut = record {
    write_keeps = λ d l h.
        write_result-IsShut (posting d l) _ (exchange-IsDead _ l.session l.events h.0 h.1) h;
    read_keeps = λ l h. read_result-IsShut l _ (exchange-IsDead _ l.session l.events h.0 h.1) h;
  }

  -- After any calls of the client, the session is ready and has the transport, host, port and
  -- target that it had.
  pub Called-IsFor :
      (p : Bool × Text × Text × Text) {w v : World session_env}
      → IsFor p w.link.session
      → Called session_env w v
      → IsFor p v.link.session
  Called-IsFor p h c = Called-link session_env (λ l. IsFor p l.session) (kept-IsFor p) c h

  -- A query without a result, that has changed nothing for the better.
  abbrev pub IsBarred : Result (Option J.Json) × World session_env → Type 0
  IsBarred (returned (some j), w) = ⊥
  IsBarred (returned none, w) = IsShut w.link
  IsBarred (threw x, w) = ⊥
  IsBarred (undefined, w) = ⊥
  IsBarred (hung, w) = Unit {0}

  -- A write on a shut line, and what the request makes of it.
  abbrev tried :
      J.Json → Text → World session_env → Ended Bool → Result (Option J.Json) × World session_env
  tried body d w e =
      let (r, l) = write_result (posting d w.link) e in
      handle (request_failed session_env)
        (continue_with (after_write session_env body) (r, record w { link = l }))

  tried-IsBarred :
      (body : J.Json) (d : Text) (w : World session_env) (e : Ended Bool)
      → IsDead e
      → IsBarred (tried body d w e)
  unfolding write_result after_write request_failed
  tried-IsBarred body c w (ended true rs s es) d = cc
  tried-IsBarred body c w (ended false rs s es) d = (d.1, d.2)
  tried-IsBarred body c w (thrown x s es) d = d
  tried-IsBarred body c w null_pointer d = d
  tried-IsBarred body c w hangs d = tt

  module _ (dumps : (j : J.Json) → J.dump j ≢ undefined) where
    pub request-IsBarred :
        (body : J.Json) (w : World session_env)
        → IsShut w.link
        → IsBarred (request session_env body w)
    unfolding request post request_failed
    request-IsBarred body w h = go (J.dump body) refl
      where
        go : (r : Result Text) → J.dump body ≡ r → IsBarred (request session_env body w)
        go (returned d) e = rw e (
            unfold write in
            tried-IsBarred body d (record w { log = posted body ∷ w.log }) _
              (exchange-IsDead _ w.link.session w.link.events h.0 h.1))
        go (threw x) e = rw e h
        go undefined e = absurd (dumps body e)
        go hung e = rw e tt

    -- If the json library turns a value into text or throws, then once the connection is closed and
    -- no socket is opened, a query after any calls of the client gives no result: it returns
    -- `nullopt`, with the connection still closed, or it hangs.
    pub Called-IsBarred :
        {w v : World session_env} (name : String) (params : J.Json)
        → IsShut w.link
        → Called session_env w v
        → IsBarred (ask session_env name params v)
    unfolding ask next_command get_next
    Called-IsBarred name params h c =
        request-IsBarred _ _ (Called-link session_env IsShut kept-IsShut c h)
