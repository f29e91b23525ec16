-- ===== src/Rpc/Call/Bound.antt =====
-- No call makes more than two requests.
use mile_csa_jsonrpc_client.Base.{◌+◌, ◌≤◌, Bool, String, length, List, arith, ap}
use mile_csa_jsonrpc_client.Rpc.Env.{Env}
use mile_csa_jsonrpc_client.Rpc.World.{World}
use mile_csa_jsonrpc_client.Rpc.Call.{Method, call, method_of}
use mile_csa_jsonrpc_client.Rpc.Call.Protocol.{IsTrace, silent, queried, asked, sent, call-IsTrace}
use mile_csa_jsonrpc_client.Rpc.Ends.{posts}

length-IsTrace :
    (E : Env) (m : Method) (w : World E) (js : List E.Json)
    → IsTrace E m w js
    → length js ≤ posts w.log + 2
length-IsTrace E m w js (silent e) = omega (arith, ap length e)
length-IsTrace E m w js (queried name params q e) = omega (arith, ap length e)
length-IsTrace E m w js (asked q e) = omega (arith, ap length e)
length-IsTrace E m w js (sent body c q s e) = omega (arith, ap length e)

-- However it ends, a call posts two requests at most.
pub call-posts :
    (E : Env) (emits : Bool) (method : String) (params : E.Json) (w : World E)
    → posts (call E emits method params w).1.log ≤ posts w.log + 2
call-posts E emits method params w =
    length-IsTrace E (method_of emits method) w _ (call-IsTrace E emits method params w)
