-- ===== src/Rpc/Call/Stages/Dispatch.antt =====
-- The stages of a whole call.
use mile_csa_jsonrpc_client.Base.{◌+◌, refl, Bool, true, false, Option, none, some, String}
use mile_csa_jsonrpc_client.Rpc.Env.{Env}
use mile_csa_jsonrpc_client.Rpc.World.{World}
use mile_csa_jsonrpc_client.Rpc.Client.{
  ask, ping, micros_now, get_current_block_id, get_network_state, get_nodes,
}
use mile_csa_jsonrpc_client.Rpc.Client.{get_blockchain_info, get_blockchain_state, get_block}
use mile_csa_jsonrpc_client.Rpc.Client.{get_wallet_state, get_wallet_transactions}
use mile_csa_jsonrpc_client.Rpc.Transaction.{text_at}
use mile_csa_jsonrpc_client.Rpc.Call.{
  Method, dispatch, call_block, limit_of, call, method_of, call_failed,
}
use mile_csa_jsonrpc_client.Rpc.Call.{
  ping_method, current_block_id_method, network_state, nodes, block,
}
use mile_csa_jsonrpc_client.Rpc.Call.{
  blockchain_info, blockchain_state, wallet_state, wallet_transactions,
}
use mile_csa_jsonrpc_client.Rpc.Call.{
  transfer, emission, register, unregister, vote, unknown_method,
}
use mile_csa_jsonrpc_client.Rpc.Ends.{Stays, Given, step-Ends, handle-Ends, weaken-Ends}
use mile_csa_jsonrpc_client.Rpc.Ends.{Stays-of}
use mile_csa_jsonrpc_client.Rpc.Ends.Parts.{text_at-Stays}
use mile_csa_jsonrpc_client.Rpc.Ends.Parts.{limit_of-Stays}
use mile_csa_jsonrpc_client.Rpc.Ends.Parts.{pong-Stays, block_id_of-Ends}
use mile_csa_jsonrpc_client.Rpc.Call.Stages.{Stages, query_of, quiet, guarded, answer-Stays}
use mile_csa_jsonrpc_client.Rpc.Call.Stages.Transactions.{
  send_transfer-Stays, send_emission-Stays, register_node-Stays, unregister_node-Stays,
  vote_for_rate-Stays,
}

module _ (E : Env) where
  call_block-Stays :
      (st : Stages E block) (p : Bool × E.BlockId) (w : World E)
      → st.before w
      → Stays st.after (call_block E p w)
  unfolding get_block query_of
  call_block-Stays st (true, id) w h = answer-Stays E block st _ _ w refl h
  call_block-Stays st (false, id) w h =
      Stays-of _ (st.before_after _ (st.before_Stable.logged w _ refl h))

  -- Whatever the method, a call that starts before it has asked the node ends after it has sent.
  dispatch-Stays :
      (m : Method) (st : Stages E m) (params : E.Json) (w : World E)
      → st.before w
      → Stays st.after (dispatch E m params w)
  unfolding query_of dispatch ping micros_now get_current_block_id get_network_state get_nodes
      get_blockchain_info get_blockchain_state get_wallet_state get_wallet_transactions
  dispatch-Stays ping_method st params w h =
      step-Ends (ping E w) (λ w' h'. h')
        (step-Ends (ask E "ping" E.null w) (λ w' h'. h') (st.querying "ping" E.null w refl h)
          λ r w' h'. pong-Stays E st.after st.after_Stable (E.micros w.link) r w' h')
        λ t w' h'. Stays-of _ h'
  dispatch-Stays current_block_id_method st params w h =
      step-Ends (get_current_block_id E w) (λ w' h'. h')
        (step-Ends (ask E "get-current-block-id" E.null w) (λ w' h'. h')
          (st.querying "get-current-block-id" E.null w refl h)
          λ o w' h'.
            weaken-Ends _ (λ w2 h2. h2) (λ a w2 h2. given a w2 h2)
              (block_id_of-Ends E st.after st.after (λ w2 h2. h2) o w' (gives o w' h')))
        λ id w' h'. Stays-of _ h'
    where
      given : (a : Option E.BlockId) (w2 : World E) → Given st.after st.after a w2 → st.after w2
      given none w2 k = k
      given (some a) w2 k = k

      gives : (o : Option E.Json) (w2 : World E) → st.after w2 → Given st.after st.after o w2
      gives none w2 k = k
      gives (some a) w2 k = k
  dispatch-Stays network_state st params w h = answer-Stays E network_state st _ _ w refl h
  dispatch-Stays nodes st params w h = answer-Stays E nodes st _ _ w refl h
  dispatch-Stays blockchain_info st params w h = answer-Stays E blockchain_info st _ _ w refl h
  dispatch-Stays blockchain_state st params w h = answer-Stays E blockchain_state st _ _ w refl h
  dispatch-Stays block st params w h =
      quiet E block st (text_at E "id" params w)
        (text_at-Stays E st.before st.before_Stable "id" params w h)
        λ sid w1 h1. call_block-Stays st (E.to_uint256 sid E.initial_id) w1 h1
  dispatch-Stays wallet_state st params w h =
      guarded E wallet_state st (E.has "public-key" params) _ _ _ w h (
        quiet E wallet_state st (text_at E "public-key" params w)
          (text_at-Stays E st.before st.before_Stable "public-key" params w h)
          λ key w1 h1. answer-Stays E wallet_state st _ _ w1 refl h1)
  dispatch-Stays wallet_transactions st params w h =
      guarded E wallet_transactions st (E.has "public-key" params) _ _ _ w h (
        quiet E wallet_transactions st (limit_of E (E.has "limit" params) params w)
          (limit_of-Stays E st.before st.before_Stable (E.has "limit" params) params w h)
          λ limit w1 h1.
            quiet E wallet_transactions st (text_at E "public-key" params w1)
              (text_at-Stays E st.before st.before_Stable "public-key" params w1 h1)
              λ key w2 h2. answer-Stays E wallet_transactions st _ _ w2 refl h2)
  dispatch-Stays transfer st params w h = send_transfer-Stays E transfer st params w refl h
  dispatch-Stays emission st params w h = send_emission-Stays E emission st params w refl h
  dispatch-Stays register st params w h = register_node-Stays E register st params w refl h
  dispatch-Stays unregister st params w h = unregister_node-Stays E unregister st params w refl h
  dispatch-Stays vote st params w h = vote_for_rate-Stays E vote st params w refl h
  dispatch-Stays unknown_method st params w h =
      Stays-of _ (st.before_after _ (st.before_Stable.logged w _ refl h))

  -- A call is after its last stage, however it ends.
  pub call-after :
      (emits : Bool) (method : String) (params : E.Json) (w : World E)
      (st : Stages E (method_of emits method))
      → st.before (record w { call_counter = w.call_counter + 1 })
      → st.after (call E emits method params w).1
  unfolding call call_failed
  call-after emits method params w st h =
      (handle-Ends
        (dispatch E (method_of emits method) params
          (record w { call_counter = w.call_counter + 1 }))
        (dispatch-Stays (method_of emits method) st params _ h)
        λ x w' h'. Stays-of _ (st.after_Stable.logged w' _ refl h')).ends
