-- ===== src/Rpc/Call/Branches.antt =====
-- Single outcomes of calls, errors among them.
use text.Mathlib.Text.{◌==◌ as str_eq}
use mile_csa_jsonrpc_client.Base.{◌+◌, ◌≡◌, Bool, true, false, ◌&&◌, [], ◌∷◌}
use mile_csa_jsonrpc_client.Base.{String, List}
use mile_csa_jsonrpc_client.Effects.{returned, threw, Exception, exception, not_found}
use mile_csa_jsonrpc_client.Rpc.Env.{Env}
use mile_csa_jsonrpc_client.Rpc.World.{World, reported}
use mile_csa_jsonrpc_client.Rpc.Transaction.{no_value}
use mile_csa_jsonrpc_client.Rpc.Call.{call, dispatch, method_of, is_json_error}
use mile_csa_jsonrpc_client.Rpc.Call.{unknown_method}

-- The names that `call` compares the method with, `send-emission` excepted.
abbrev pub known_methods : List String
known_methods =
    "ping" ∷ "get-current-block-id" ∷ "get-network-state" ∷ "get-nodes" ∷ "get-blockchain-info"
    ∷ "get-blockchain-state" ∷ "get-block" ∷ "get-wallet-state" ∷ "get-wallet-transactions"
    ∷ "send-transfer" ∷ "register-node" ∷ "unregister-node" ∷ "vote-for-rate" ∷ []

abbrev pub NoneOf : String → List String → Type 0
NoneOf m [] = Unit {0}
NoneOf m (k ∷ ks) = (str_eq m k ≡ false) × NoneOf m ks

method_of-unknown :
    (emits : Bool) (m : String)
    → NoneOf m known_methods
    → (emits && str_eq m "send-emission") ≡ false
    → method_of emits m ≡ unknown_method
unfolding method_of
method_of-unknown emits m h e = rw (
  h.0, h.1.0, h.1.1.0, h.1.1.1.0, h.1.1.1.1.0, h.1.1.1.1.1.0, h.1.1.1.1.1.1.0, h.1.1.1.1.1.1.1.0,
  h.1.1.1.1.1.1.1.1.0, h.1.1.1.1.1.1.1.1.1.0, e, h.1.1.1.1.1.1.1.1.1.1.0, h.1.1.1.1.1.1.1.1.1.1.1.0,
  h.1.1.1.1.1.1.1.1.1.1.1.1.0,
)

abbrev counted : {E : Env} → World E → World E
counted w = record w { call_counter = w.call_counter + 1 }

-- A method that is not known is reported as not found, and nothing else happens but the counting of
-- the call.
pub call_unknown :
    (E : Env) (emits : Bool) (m : String) (params : E.Json) (w : World E)
    → NoneOf m known_methods
    → (emits && str_eq m "send-emission") ≡ false
    → call E emits m params w ≡ (
      returned no_value,
      record (counted w) { log = reported not_found "Method %s not found" ∷ w.log },
    )
unfolding call dispatch
call_unknown E emits m params w h e = rw (method_of-unknown emits m h e)

-- If the id of `get-block` is a value from which the json library makes no text but throws, the
-- call reports an exception, returns no value and sends nothing.
pub call-get_block_of_number :
    (E : Env) (emits : Bool) (params id : E.Json) (x : Exception) (w : World E)
    → E.index_const "id" params ≡ returned id
    → E.as_text id ≡ threw x
    → is_json_error E x ≡ true
    → call E emits "get-block" params w ≡ (
      returned no_value,
      record (counted w) { log = reported exception "Parser error: %s, %s" ∷ w.log },
    )
unfolding call dispatch
call-get_block_of_number E emits params id x w h g k = rw (h, g, k)
