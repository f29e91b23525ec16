-- ===== src/Rpc/Request/Answer.antt =====
-- A request that is answered.
use mile_csa_jsonrpc_client.Base.{◌≡◌, refl, true, false, some, [], ◌∷◌, Text}
use mile_csa_jsonrpc_client.Effects.{returned}
use mile_csa_jsonrpc_client.Url.Parse.{c_str}
use mile_csa_jsonrpc_client.Rpc.Env.{JsonLibrary, Env, Reply}
use mile_csa_jsonrpc_client.Rpc.World.{World, posted}
use mile_csa_jsonrpc_client.Rpc.Request.{request}

-- The response of a node that has the result `r`, which is not null.
pub record IsAnswer (J : JsonLibrary) (reply : Reply) (r : J.Json) : Type 0 where
  pub json : J.Json
  pub member : J.Json
  pub is_ok : reply.status ≡ 200
  pub parsed : J.parse (c_str reply.body) ≡ returned json
  pub has_result : J.has "result" json ≡ true
  pub found : J.at "result" json ≡ returned member
  pub not_null : J.is_null member ≡ false
  pub result : J.index "result" json ≡ returned r

module _ (E : Env) where
  -- What is written as text, handed to the connection and answered gives the result, and calls no
  -- handler.
  pub request-answered :
      (body : E.Json) (w : World E) (d : Text) (l l' : E.Link) (reply : Reply) (r : E.Json)
      → E.dump body ≡ returned d
      → E.write d w.link ≡ (returned (true, []), l)
      → E.read l ≡ (returned (some reply, []), l')
      → IsAnswer E.json reply r
      → request E body w ≡ (returned (some r), record w { link = l'; log = posted body ∷ w.log })
  unfolding request
  request-answered body w d l l' reply r hd hw hr a =
      rw (hd, hw, hr, a.is_ok, a.parsed, a.has_result, a.found, a.not_null, a.result) refl
