-- ===== src/Rpc/Call/Rejected.antt =====
-- A call that is rejected for its parameters has not touched the connection.
use mile_csa_jsonrpc_client.Base.{◌≡◌, refl, Bool, true, false, Option, none, some, String}
use mile_csa_jsonrpc_client.Base.{◌+◌}
use mile_csa_jsonrpc_client.Base.Int.{ℤ, to_unsigned}
use mile_csa_jsonrpc_client.Effects.{Result, returned, threw, undefined, hung, M}
use mile_csa_jsonrpc_client.Effects.{handle}
use mile_csa_jsonrpc_client.Rpc.Env.{Env}
use mile_csa_jsonrpc_client.Rpc.World.{World}
use mile_csa_jsonrpc_client.Rpc.Client.{ping, get_current_block_id, get_network_state, get_nodes}
use mile_csa_jsonrpc_client.Rpc.Client.{get_blockchain_info, get_blockchain_state, get_block}
use mile_csa_jsonrpc_client.Rpc.Client.{get_wallet_state, get_wallet_transactions}
use mile_csa_jsonrpc_client.Rpc.Transaction.{Any, nullopt}
use mile_csa_jsonrpc_client.Rpc.Transaction.{text_at}
use mile_csa_jsonrpc_client.Rpc.Call.{
  Method, call, call_failed, dispatch, method_of, answer, call_block,
}
use mile_csa_jsonrpc_client.Rpc.Call.{limit_of, any_time, any_block_id, ping_method, nodes, block}
use mile_csa_jsonrpc_client.Rpc.Call.{current_block_id_method, network_state, blockchain_info}
use mile_csa_jsonrpc_client.Rpc.Call.{blockchain_state, wallet_state, wallet_transactions, transfer}
use mile_csa_jsonrpc_client.Rpc.Call.{emission, register, unregister, vote, unknown_method}
use mile_csa_jsonrpc_client.Rpc.Call.Calm.{
  Unchanged, Early, NotNull, Early-NotNull, NotNull-step, answered,
}
use mile_csa_jsonrpc_client.Rpc.Call.Early.{
  guard_key-Early, send_transfer-Early, send_emission-Early, register_node-Early,
  unregister_node-Early, vote_for_rate-Early,
}

module _ (E : Env) (w0 : World E) where
  answer-NotNull : (m : M (World E) (Option E.Json)) (w : World E) → NotNull (answer E m w)
  answer-NotNull m w = NotNull-step (m w) _ λ r w1. answered E r w1

  call_block-NotNull : (p : Bool × E.BlockId) (w : World E) → NotNull (call_block E p w)
  call_block-NotNull (true, id) w = answer-NotNull (get_block E id) w
  call_block-NotNull (false, id) w = record { never = λ e. cc }

  timed : (t : Option ℤ) (w : World E) → NotNull {E = E} (returned (any_time E t), w)
  timed none w = record { never = λ e. cc }
  timed (some t) w = record { never = λ e. cc }

  identified :
      (t : Option E.BlockId) (w : World E) → NotNull {E = E} (returned (any_block_id E t), w)
  identified none w = record { never = λ e. cc }
  identified (some t) w = record { never = λ e. cc }

  dispatch-Early :
      (m : Method) (params : E.Json) (w : World E)
      → Unchanged w0 w
      → Early w0 (dispatch E m params w)
  unfolding dispatch
  dispatch-Early ping_method params w u =
      Early-NotNull (NotNull-step (ping E w) _ λ t w1. timed t w1)
  dispatch-Early current_block_id_method params w u =
      Early-NotNull (NotNull-step (get_current_block_id E w) _ λ t w1. identified t w1)
  dispatch-Early network_state params w u = Early-NotNull (answer-NotNull (get_network_state E) w)
  dispatch-Early nodes params w u = Early-NotNull (answer-NotNull (get_nodes E) w)
  dispatch-Early blockchain_info params w u =
      Early-NotNull (answer-NotNull (get_blockchain_info E) w)
  dispatch-Early blockchain_state params w u =
      Early-NotNull (answer-NotNull (get_blockchain_state E) w)
  dispatch-Early block params w u = Early-NotNull (
      NotNull-step (text_at E "id" params w) _
        λ sid w1. call_block-NotNull (E.to_uint256 sid E.initial_id) w1)
  dispatch-Early wallet_state params w u =
      guard_key-Early E w0 (E.has "public-key" params) _ _ w u (
        Early-NotNull (
          NotNull-step (text_at E "public-key" params w) _
            λ key w1. answer-NotNull (get_wallet_state E key) w1))
  dispatch-Early wallet_transactions params w u =
      guard_key-Early E w0 (E.has "public-key" params) _ _ w u (
        Early-NotNull (
          NotNull-step (limit_of E (E.has "limit" params) params w) _ λ limit w1.
            NotNull-step (text_at E "public-key" params w1) _
              λ key w2. answer-NotNull (get_wallet_transactions E key (to_unsigned limit)) w2))
  dispatch-Early transfer params w u = send_transfer-Early E w0 params w u
  dispatch-Early emission params w u = send_emission-Early E w0 params w u
  dispatch-Early register params w u = register_node-Early E w0 params w u
  dispatch-Early unregister params w u = unregister_node-Early E w0 params w u
  dispatch-Early vote params w u = vote_for_rate-Early E w0 params w u
  dispatch-Early unknown_method params w u = record { kept = λ e. cc }

  handle-Early : (p : Result (Any E) × World E) → Early w0 p → Early w0 (handle (call_failed E) p)
  unfolding call_failed
  handle-Early (returned a, w) h = h
  handle-Early (threw x, w) h = record { kept = λ e. cc }
  handle-Early (undefined, w) h = h
  handle-Early (hung, w) h = h

-- A call that returns a `nullopt`, which it does for a missing parameter or a bad private key, has
-- sent nothing: the connection is untouched, no id was taken, and no request was posted.
pub call-nullopt :
    (E : Env) (emits : Bool) (method : String) (params : E.Json) (w : World E)
    → (call E emits method params w).0 ≡ returned nullopt
    → Unchanged w (call E emits method params w).1
unfolding call
call-nullopt E emits method params w e =
    (handle-Early E w _ (dispatch-Early E w (method_of emits method) params _ start)).kept e
  where
    start : Unchanged w (record w { call_counter = w.call_counter + 1 })
    start = record { same_link = refl; same_id = refl; same_trx = refl; same_posts = refl }
