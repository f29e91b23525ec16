-- ===== src/Rpc/Call/Typed/Dispatch.antt =====
-- What the `std::any` of a whole call holds.
use mile_csa_jsonrpc_client.Base.{◌≡◌, refl, Bool, true, false, Option, none, some, String}
use mile_csa_jsonrpc_client.Effects.{returned}
use mile_csa_jsonrpc_client.Rpc.Env.{Env}
use mile_csa_jsonrpc_client.Rpc.World.{World}
use mile_csa_jsonrpc_client.Base.{◌+◌}
use mile_csa_jsonrpc_client.Base.Int.{to_unsigned}
use mile_csa_jsonrpc_client.Rpc.Client.{
  get_network_state, get_nodes, get_blockchain_info, get_blockchain_state, get_wallet_state,
  get_wallet_transactions,
}
use mile_csa_jsonrpc_client.Rpc.Client.{ping, get_current_block_id, get_block}
use mile_csa_jsonrpc_client.Rpc.Transaction.{Any, no_value, time, block_id}
use mile_csa_jsonrpc_client.Rpc.Transaction.{text_at}
use mile_csa_jsonrpc_client.Rpc.Call.{
  Method, method_of, any_time, any_block_id, call_block, limit_of, dispatch, call_failed, call,
}
use mile_csa_jsonrpc_client.Rpc.Call.{
  ping_method, current_block_id_method, network_state, nodes, block,
}
use mile_csa_jsonrpc_client.Rpc.Call.{
  blockchain_info, blockchain_state, wallet_state, wallet_transactions,
}
use mile_csa_jsonrpc_client.Rpc.Call.{
  transfer, emission, register, unregister, vote, unknown_method,
}
use mile_csa_jsonrpc_client.Rpc.Call.Typed.{
  Typed, Allows-of, allowed, Typed-pure, Typed-step, Typed-handle, answer-Typed, guarded,
}
use mile_csa_jsonrpc_client.Rpc.Call.Typed.Transactions.{
  send_transfer-Typed, send_emission-Typed, register_node-Typed, unregister_node-Typed,
  vote_for_rate-Typed,
}

module _ (E : Env) where
  call_block-Typed : (p : Bool × E.BlockId) (w : World E) → Typed block (call_block E p w)
  unfolding allowed
  call_block-Typed (true, id) w = answer-Typed E block (get_block E id) w refl
  call_block-Typed (false, id) w = Typed-pure no_value _ refl

  dispatch-Typed : (m : Method) (params : E.Json) (w : World E) → Typed m (dispatch E m params w)
  unfolding dispatch allowed
  dispatch-Typed ping_method params w = Typed-step (ping E w) timed
    where
      timed : (t : Option _) (w : World E) → Typed {E = E} ping_method (returned (any_time E t), w)
      timed none w = Typed-pure no_value w refl
      timed (some t) w = Typed-pure (time t) w refl
  dispatch-Typed current_block_id_method params w = Typed-step (get_current_block_id E w) identified
    where
      identified :
          (id : Option E.BlockId) (w : World E)
          → Typed {E = E} current_block_id_method (returned (any_block_id E id), w)
      identified none w = Typed-pure no_value w refl
      identified (some id) w = Typed-pure (block_id id) w refl
  dispatch-Typed network_state params w = answer-Typed E network_state (get_network_state E) w refl
  dispatch-Typed nodes params w = answer-Typed E nodes (get_nodes E) w refl
  dispatch-Typed blockchain_info params w =
      answer-Typed E blockchain_info (get_blockchain_info E) w refl
  dispatch-Typed blockchain_state params w =
      answer-Typed E blockchain_state (get_blockchain_state E) w refl
  dispatch-Typed block params w =
      Typed-step (text_at E "id" params w)
        λ sid w1. call_block-Typed (E.to_uint256 sid E.initial_id) w1
  dispatch-Typed wallet_state params w =
      guarded E wallet_state (E.has "public-key" params) _ _ w refl (
        Typed-step (text_at E "public-key" params w)
          λ key w1. answer-Typed E wallet_state (get_wallet_state E key) w1 refl)
  dispatch-Typed wallet_transactions params w =
      guarded E wallet_transactions (E.has "public-key" params) _ _ w refl (
        Typed-step (limit_of E (E.has "limit" params) params w) λ limit w1.
          Typed-step (text_at E "public-key" params w1) λ key w2.
            answer-Typed E wallet_transactions (get_wallet_transactions E key (to_unsigned limit))
              w2 refl)
  dispatch-Typed transfer params w = send_transfer-Typed E transfer params w refl refl
  dispatch-Typed emission params w = send_emission-Typed E emission params w refl refl
  dispatch-Typed register params w = register_node-Typed E register params w refl refl
  dispatch-Typed unregister params w = unregister_node-Typed E unregister params w refl refl
  dispatch-Typed vote params w = vote_for_rate-Typed E vote params w refl refl
  dispatch-Typed unknown_method params w = Typed-pure no_value _ refl

  pub called-Typed :
      (emits : Bool) (method : String) (params : E.Json) (w : World E)
      → Typed (method_of emits method) (call E emits method params w)
  unfolding call call_failed allowed
  called-Typed emits method params w =
      Typed-handle
        (dispatch E (method_of emits method) params
          (record w { call_counter = w.call_counter + 1 }))
        _ (dispatch-Typed (method_of emits method) params _) λ x w1. Typed-pure no_value _ refl

  -- A value that `call` returns is one that its method may return: a time for `ping`, a block id
  -- for `get-current-block-id`, an answer for any other known method, a `nullopt` for those that
  -- need parameters, and no value for every one.
  pub call-allowed :
      (emits : Bool) (method : String) (params : E.Json) (w : World E) (a : Any E)
      → (call E emits method params w).0 ≡ returned a
      → allowed (method_of emits method) a ≡ true
  call-allowed emits method params w a e =
      Allows-of (method_of emits method) _ _ e (called-Typed emits method params w).typed
