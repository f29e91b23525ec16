-- ===== src/Rpc/Call/Link.antt =====
-- What the operations of a connection keep, calls keep, in any number and order.
use mile_csa_jsonrpc_client.Base.{ℕ, Bool, Option, none, some, List, String}
use mile_csa_jsonrpc_client.Rpc.Env.{Env}
use mile_csa_jsonrpc_client.Rpc.World.{World, get_next}
use mile_csa_jsonrpc_client.Rpc.Request.{request, command, next_command}
use mile_csa_jsonrpc_client.Rpc.Client.{ask, send_transaction}
use mile_csa_jsonrpc_client.Rpc.Call.{Method, call, method_of}
use mile_csa_jsonrpc_client.Rpc.Call.Stages.{Stages}
use mile_csa_jsonrpc_client.Rpc.Call.Stages.Dispatch.{call-after}
use mile_csa_jsonrpc_client.Rpc.Ends.{Ends, Stays, Stable, Linked, Given, weaken-Ends, lift-Ends}
use mile_csa_jsonrpc_client.Rpc.Ends.Request.{request-Ends}

-- The states that calls lead to, whatever they are called with and however they end.
pub data Called (E : Env) (w : World E) : World E → Type 0 where
  uncalled : Called E w w
  calling :
      {v : World E} (emits : Bool) (method : String) (params : E.Json)
      → Called E w v
      → Called E w (call E emits method params v).1

-- A predicate of the connection that writes and reads keep.
module _ (E : Env) (K : E.Link → Type 0) where
  pub record IsKept : Type 0 where
    pub write_keeps : (d : List ℕ) (l : E.Link) → K l → K (E.write d l).1
    pub read_keeps : (l : E.Link) → K l → K (E.read l).1

  abbrev Holds : World E → Type 0
  Holds w = K w.link

  Holds-Stable : Stable Holds
  Holds-Stable = record { logged = λ w log e h. h; drawn = λ w n h. h }

  module _ (kept : IsKept) where
    Holds-Linked : Linked Holds
    Holds-Linked = record {
      written = λ d w h. kept.write_keeps d w.link h;
      was_read = λ w h. kept.read_keeps w.link h;
    }

    request-Given :
        (body : E.Json) (w : World E) → Holds w → Ends (Given Holds Holds) Holds (request E body w)
    request-Given body w h =
        request-Ends E Holds Holds-Stable Holds-Linked Holds Holds-Stable (λ w' h'. h') body w h h

    request-Stays : (body : E.Json) (w : World E) → Holds w → Stays Holds (request E body w)
    request-Stays body w h = weaken-Ends _ (λ w' h'. h') either (request-Given body w h)
      where
        either : (a : Option E.Json) (w' : World E) → Given Holds Holds a w' → Holds w'
        either none w' k = k
        either (some j) w' k = k

    ask-Given :
        (name : String) (params : E.Json) (w : World E)
        → Holds w
        → Ends (Given Holds Holds) Holds (ask E name params w)
    unfolding ask next_command get_next
    ask-Given name params w h = request-Given _ _ h

    ask-Stays :
        (name : String) (params : E.Json) (w : World E)
        → Holds w
        → Stays Holds (ask E name params w)
    unfolding ask next_command get_next
    ask-Stays name params w h = request-Stays _ _ h

    send_transaction-Stays :
        (body : E.Json) (w : World E) → Holds w → Stays Holds (send_transaction E body w)
    unfolding send_transaction next_command get_next
    send_transaction-Stays body w h =
        lift-Ends (E.set "params" body (command E "send-transaction" E.null w.next_id)) _ h
          λ c. request-Stays c _ h

    abbrev link_stages : (m : Method) → Stages E m
    link_stages m = record {
      before = Holds;
      between = Holds;
      after = Holds;
      before_Stable = Holds-Stable;
      between_Stable = Holds-Stable;
      after_Stable = Holds-Stable;
      before_after = λ w h. h;
      between_after = λ q w h. h;
      querying = λ name params w q h. ask-Stays name params w h;
      asking = λ w q h. ask-Given "get-current-block-id" E.null w h;
      sending = λ body w q h. send_transaction-Stays body w h;
    }

    -- Calls keep it too, whatever they are called with and however they end.
    pub Called-link : {w v : World E} → Called E w v → K w.link → K v.link
    Called-link uncalled h = h
    Called-link (calling {v} emits method params c) h =
        call-after E emits method params v (link_stages (method_of emits method)) (Called-link c h)
