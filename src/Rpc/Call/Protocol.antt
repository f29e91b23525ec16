-- ===== src/Rpc/Call/Protocol.antt =====
-- What a call sends to the node, in which order and under which ids.
use mile_csa_jsonrpc_client.Base.{
  Bool, ℕ, ◌+◌, ◌%◌, ◌^◌, ◌≡◌, ◌∙◌, refl, Option, none, some, List, ◌∷◌, String, ap,
}
use mile_csa_jsonrpc_client.Effects.{Result, returned, threw, undefined, hung, continue_with}
use mile_csa_jsonrpc_client.Rpc.Env.{Env}
use mile_csa_jsonrpc_client.Rpc.World.{World, get_next}
use mile_csa_jsonrpc_client.Rpc.Request.{request, command, next_command}
use mile_csa_jsonrpc_client.Rpc.Client.{ask, send_transaction}
use mile_csa_jsonrpc_client.Rpc.Call.{Method, call, method_of}
use mile_csa_jsonrpc_client.Rpc.Call.Stages.{Stages, query_of}
use mile_csa_jsonrpc_client.Rpc.Call.Stages.Dispatch.{call-after}
use mile_csa_jsonrpc_client.Rpc.Ends.{
  Ends, Stays, Stable, Linked, Given, posted_of, weaken-Ends, Stays-of,
}
use mile_csa_jsonrpc_client.Rpc.Ends.Request.{request-Ends}

-- The id after an id.
abbrev pub succeeding : ℕ → ℕ
succeeding id = (id + 1) % 2 ^ 64

-- What a call of the method that starts in the state `w0` may have posted, the newest first: nothing;
-- its query; the question for the block id; or that and the transaction.
pub data IsTrace (E : Env) (m : Method) (w0 : World E) (js : List E.Json) : Type 0 where
  silent : js ≡ posted_of w0.log → IsTrace E m w0 js
  queried :
      (name : String) (params : E.Json)
      → query_of m ≡ some name
      → js ≡ command E name params w0.next_id ∷ posted_of w0.log
      → IsTrace E m w0 js
  asked :
      query_of m ≡ none
      → js ≡ command E "get-current-block-id" E.null w0.next_id ∷ posted_of w0.log
      → IsTrace E m w0 js
  sent :
      (body c : E.Json)
      → query_of m ≡ none
      → E.set "params" body (command E "send-transaction" E.null (succeeding w0.next_id))
        ≡ returned c
      → js ≡ c ∷ command E "get-current-block-id" E.null w0.next_id ∷ posted_of w0.log
      → IsTrace E m w0 js

module _ (E : Env) where
  -- The requests posted, and the next id.
  abbrev Tagged : List E.Json → ℕ → World E → Type 0
  Tagged js id w = (posted_of w.log ≡ js) × (w.next_id ≡ id)

  Tagged-Stable : (js : List E.Json) (id : ℕ) → Stable (Tagged js id)
  Tagged-Stable js id = record { logged = λ w log e h. (e ∙ h.0, h.1); drawn = λ w n h. h }

  Tagged-Linked : (js : List E.Json) (id : ℕ) → Linked (Tagged js id)
  Tagged-Linked js id = record { written = λ d w h. h; was_read = λ w h. h }

  module _ (m : Method) (w0 : World E) where
    abbrev Traced : World E → Type 0
    Traced w = IsTrace E m w0 (posted_of w.log)

    Traced-Stable : Stable Traced
    Traced-Stable = record { logged = λ w log e h. rw e h; drawn = λ w n h. h }

    abbrev first : E.Json
    first = command E "get-current-block-id" E.null w0.next_id

    abbrev Start : World E → Type 0
    Start = Tagged (posted_of w0.log) w0.next_id

    abbrev HasAsked : World E → Type 0
    HasAsked = Tagged (first ∷ posted_of w0.log) (succeeding w0.next_id)

    asking-Ends :
        (w : World E)
        → query_of m ≡ none
        → Start w
        → Ends (Given HasAsked Traced) Traced (ask E "get-current-block-id" E.null w)
    unfolding ask next_command get_next
    asking-Ends w q h =
        request-Ends E HasAsked (Tagged-Stable _ _) (Tagged-Linked _ _) Traced Traced-Stable
          (λ w' h'. asked q h'.0) _ _ (silent h.0)
          (
            ap (λ id. command E "get-current-block-id" E.null id ∷ posted_of w.log) h.1
                ∙ ap (λ js. first ∷ js) h.0,
            ap succeeding h.1,
          )

    -- With or without a value.
    either_way :
        {U : World E → Type 0} (p : Result (Option E.Json) × World E)
        → Ends (Given U Traced) Traced p
        → ((w : World E) → U w → Traced w)
        → Stays Traced p
    either_way {U} p h l = weaken-Ends p (λ w k. k) either h
      where
        either : (a : Option E.Json) (w : World E) → Given U Traced a w → Traced w
        either none w k = k
        either (some j) w k = l w k

    querying-Stays :
        (name : String) (params : E.Json) (w : World E)
        → query_of m ≡ some name
        → Start w
        → Stays Traced (ask E name params w)
    unfolding ask next_command get_next
    querying-Stays name params w q h =
        either_way _
          (request-Ends E
            (Tagged (command E name params w0.next_id ∷ posted_of w0.log) (succeeding w0.next_id))
            (Tagged-Stable _ _) (Tagged-Linked _ _) Traced Traced-Stable
            (λ w' h'. queried name params q h'.0) _ _ (silent h.0)
            (
              ap (λ id. command E name params id ∷ posted_of w.log) h.1
                  ∙ ap (λ js. command E name params w0.next_id ∷ js) h.0,
              ap succeeding h.1,
            ))
          (λ w' h'. queried name params q h'.0)

    sending-Stays :
        (body : E.Json) (w : World E)
        → query_of m ≡ none
        → HasAsked w
        → Stays Traced (send_transaction E body w)
    unfolding send_transaction next_command get_next
    sending-Stays body w q h =
        go (E.set "params" body (command E "send-transaction" E.null w.next_id)) refl
      where
        unsent : Traced (record w { next_id = succeeding w.next_id })
        unsent = asked q h.0

        go :
            (r : Result E.Json)
            → E.set "params" body (command E "send-transaction" E.null w.next_id) ≡ r
            → Stays Traced
                (continue_with (λ c. request E c) (r, record w { next_id = succeeding w.next_id }))
        go (returned c) e =
            either_way _
              (request-Ends E
                (Tagged (c ∷ first ∷ posted_of w0.log) (succeeding (succeeding w0.next_id)))
                (Tagged-Stable _ _) (Tagged-Linked _ _) Traced Traced-Stable
                (λ w' h'. sent body c q (rw h.1 at e) h'.0) c _ unsent
                (ap (λ js. c ∷ js) h.0, ap succeeding h.1))
              (λ w' h'. sent body c q (rw h.1 at e) h'.0)
        go (threw x) e = Stays-of _ unsent
        go undefined e = Stays-of _ unsent
        go hung e = Stays-of _ unsent

    abbrev protocol : Stages E m
    protocol = record {
      before = Start;
      between = HasAsked;
      after = Traced;
      before_Stable = Tagged-Stable _ _;
      between_Stable = Tagged-Stable _ _;
      after_Stable = Traced-Stable;
      before_after = λ w h. silent h.0;
      between_after = λ q w h. asked q h.0;
      querying = querying-Stays;
      asking = asking-Ends;
      sending = sending-Stays;
    }

  -- Whatever happens, a call of `Client::call` posts nothing; or the one query of its method; or,
  -- for a method that sends a transaction, the question for the block id, alone or followed by one
  -- `send-transaction` with the next id. What was posted before stays.
  pub call-IsTrace :
      (emits : Bool) (method : String) (params : E.Json) (w : World E)
      → IsTrace E (method_of emits method) w (posted_of (call E emits method params w).1.log)
  call-IsTrace emits method params w =
      call-after E emits method params w (protocol (method_of emits method) w) (refl, refl)
