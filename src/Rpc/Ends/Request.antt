-- ===== src/Rpc/Ends/Request.antt =====
-- How a request ends.
use mile_csa_jsonrpc_client.Base.{◌≡◌, refl, Bool, true, false, Option, none, some, List, ◌∷◌, ◌==◌}
use mile_csa_jsonrpc_client.Effects.{returned, Report}
use mile_csa_jsonrpc_client.Url.Parse.{c_str}
use mile_csa_jsonrpc_client.Rpc.Env.{Env, Reply}
use mile_csa_jsonrpc_client.Rpc.World.{World, posted}
use mile_csa_jsonrpc_client.Rpc.Request.{
  request, exchange, response_fail, pick_result, request_failed,
}
use mile_csa_jsonrpc_client.Rpc.Request.{look_for_result, on_status, after_read, after_write}
use mile_csa_jsonrpc_client.Rpc.Ends.{Ends, Given, Stays, Stable, Linked, lift-Ends, handle-Ends}
use mile_csa_jsonrpc_client.Rpc.Ends.{weaken-Ends, Stays-of, reports-Stable}

module _ (E : Env) (U : World E → Type 0) (stable : Stable U) (linked : Linked U) where
  response_fail-Stays :
      (body : E.Json) (reply : Reply) (w : World E) → U w → Stays U (response_fail E body reply w)
  unfolding response_fail
  response_fail-Stays body reply w h =
      lift-Ends (E.index_const "method" body) _ h
        λ m. lift-Ends (E.as_text m) _ h λ a. Stays-of _ (stable.logged w _ refl h)

  pick_result-Stays :
      (b : Bool) (j body : E.Json) (reply : Reply) (w : World E)
      → U w
      → Stays U (pick_result E b j body reply w)
  unfolding pick_result
  pick_result-Stays true j body reply w h = response_fail-Stays body reply w h
  pick_result-Stays false j body reply w h = lift-Ends (E.index "result" j) _ h λ r. Stays-of _ h

  look_for_result-Stays :
      (b : Bool) (j body : E.Json) (reply : Reply) (w : World E)
      → U w
      → Stays U (look_for_result E b j body reply w)
  unfolding look_for_result
  look_for_result-Stays false j body reply w h = response_fail-Stays body reply w h
  look_for_result-Stays true j body reply w h =
      lift-Ends (E.at "result" j) _ h λ r. pick_result-Stays (E.is_null r) j body reply w h

  on_status-Stays :
      (b : Bool) (body : E.Json) (reply : Reply) (w : World E)
      → U w
      → Stays U (on_status E b body reply w)
  unfolding on_status
  on_status-Stays false body reply w h = response_fail-Stays body reply w h
  on_status-Stays true body reply w h =
      lift-Ends (E.parse (c_str reply.body)) _ h
        λ j. look_for_result-Stays (E.has "result" j) j body reply w h

  after_read-Stays :
      (body : E.Json) (r : Option Reply × List Report) (w : World E)
      → U w
      → Stays U (after_read E body r w)
  unfolding after_read
  after_read-Stays body (none, rs) w h = Stays-of _ (reports-Stable rs w stable h)
  after_read-Stays body (some reply, rs) w h =
      on_status-Stays (reply.status == 200) body reply _ (reports-Stable rs w stable h)

  after_write-Stays :
      (body : E.Json) (r : Bool × List Report) (w : World E)
      → U w
      → Stays U (after_write E body r w)
  unfolding after_write
  after_write-Stays body (false, rs) w h = Stays-of _ (reports-Stable rs w stable h)
  after_write-Stays body (true, rs) w h =
      lift-Ends (E.read w.link).0 _ (linked.was_read _ (reports-Stable rs w stable h))
        λ r. after_read-Stays body r _ (linked.was_read _ (reports-Stable rs w stable h))

  -- `U` once the request is posted, and `T` if it could not be written as text.
  module _ (T : World E → Type 0) (T_stable : Stable T) (weaker : (w : World E) → U w → T w) where
    answered : (o : Option E.Json) (w : World E) → U w → Given U T o w
    answered none w h = weaker w h
    answered (some j) w h = h

    none-Given :
        (a : Option E.Json) (w : World E) → returned none ≡ returned a → T w → Given U T a w
    none-Given none w e h = h
    none-Given (some j) w e h = cc

    gave_none : (w : World E) → T w → Ends (Given {A = E.Json} U T) T (returned none, w)
    gave_none w h = record { ends = h; value = λ a e. none-Given a w e h }

    exchange-Ends :
        (body : E.Json) (w : World E)
        → T w
        → U (record w { log = posted body ∷ w.log })
        → Ends (Given U T) T (exchange E body w)
    unfolding exchange
    exchange-Ends body w t u = lift-Ends (E.dump body) _ t λ d. weaken-Ends _ weaker answered (
        lift-Ends (E.write d w.link).0 _ (linked.written d _ u)
          λ r. after_write-Stays body r _ (linked.written d _ u))

    -- A request that gives a result was posted.
    pub request-Ends :
        (body : E.Json) (w : World E)
        → T w
        → U (record w { log = posted body ∷ w.log })
        → Ends (Given U T) T (request E body w)
    unfolding request request_failed
    request-Ends body w t u =
        handle-Ends (exchange E body w) (exchange-Ends body w t u)
          λ x w' h. gave_none _ (T_stable.logged w' _ refl h)
