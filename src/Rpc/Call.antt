-- ===== src/Rpc/Call.antt =====
-- `Client::call`: a method by its name.
pub mod Bound
pub mod Calm
pub mod Early
pub mod Rejected
pub mod Stages
pub mod Protocol
pub mod Link
pub mod Typed
pub mod Branches
use text.Mathlib.Text.{◌==◌ as str_eq}
use mile_csa_jsonrpc_client.Base.{
  ℕ, ◌+◌, Bool, true, false, Option, none, some, List, [], ◌∷◌, String,
}
use mile_csa_jsonrpc_client.Base.{◌&&◌, if◌then◌else◌}
use mile_csa_jsonrpc_client.Base.Int.{ℤ, pos, to_unsigned}
use mile_csa_jsonrpc_client.Effects.{Exception, std_exception, foreign, exception, fail, not_found}
use mile_csa_jsonrpc_client.Effects.{M, pure, lift, returned, ◌>>=◌, ◌>>◌, continue_with}
use mile_csa_jsonrpc_client.Effects.{try_catch, handle}
use mile_csa_jsonrpc_client.Rpc.Env.{Env}
use mile_csa_jsonrpc_client.Rpc.World.{World, error}
use mile_csa_jsonrpc_client.Rpc.Client.{ping, get_current_block_id, get_network_state, get_nodes}
use mile_csa_jsonrpc_client.Rpc.Client.{get_blockchain_info, get_blockchain_state, get_block}
use mile_csa_jsonrpc_client.Rpc.Client.{get_wallet_state, get_wallet_transactions}
use mile_csa_jsonrpc_client.Rpc.Transaction.{
  Any, no_value, time, block_id, nullopt, any_response, text_at,
}
use mile_csa_jsonrpc_client.Rpc.Transaction.{require, guard_key, send_transfer, send_emission}
use mile_csa_jsonrpc_client.Rpc.Transaction.{register_node, unregister_node, vote_for_rate}

-- The methods that `call` knows.
pub data Method : Type 0 where
  ping_method current_block_id_method network_state nodes blockchain_info blockchain_state : Method
  block wallet_state wallet_transactions : Method
  transfer emission register unregister vote unknown_method : Method

-- The chain of comparisons; `send-emission` is there if the library was built with support for it.
unfoldable pub method_of : Bool → String → Method
method_of emits m =
    if str_eq m "ping"
    then ping_method
    else if str_eq m "get-current-block-id"
    then current_block_id_method
    else if str_eq m "get-network-state"
    then network_state
    else if str_eq m "get-nodes"
    then nodes
    else if str_eq m "get-blockchain-info"
    then blockchain_info
    else if str_eq m "get-blockchain-state"
    then blockchain_state
    else if str_eq m "get-block"
    then block
    else if str_eq m "get-wallet-state"
    then wallet_state
    else if str_eq m "get-wallet-transactions"
    then wallet_transactions
    else if str_eq m "send-transfer"
    then transfer
    else if emits && str_eq m "send-emission"
    then emission
    else if str_eq m "register-node"
    then register
    else if str_eq m "unregister-node"
    then unregister
    else if str_eq m "vote-for-rate"
    then vote
    else unknown_method

module _ (E : Env) where
  abbrev pub any_time : Option ℤ → Any E
  any_time none = no_value
  any_time (some t) = time t

  abbrev pub any_block_id : Option E.BlockId → Any E
  any_block_id none = no_value
  any_block_id (some id) = block_id id

  abbrev pub answer : M (World E) (Option E.Json) → M (World E) (Any E)
  answer m = do r ← m; pure (any_response E r)

  -- The branch `get-block` after `StringToUInt256`.
  abbrev pub call_block : Bool × E.BlockId → M (World E) (Any E)
  call_block (true, id) = answer (get_block E id)
  call_block (false, id) = do error fail " %s could not convert to uint256_t"; pure no_value

  abbrev pub limit_of : Bool → E.Json → M (World E) ℤ
  limit_of true params = do v ← lift (E.index_const "limit" params); lift (E.as_int v)
  limit_of false params = pure (pos 1)

  unfoldable pub dispatch : Method → E.Json → M (World E) (Any E)
  dispatch ping_method params = do t ← ping E; pure (any_time t)
  dispatch current_block_id_method params = do id ← get_current_block_id E; pure (any_block_id id)
  dispatch network_state params = answer (get_network_state E)
  dispatch nodes params = answer (get_nodes E)
  dispatch blockchain_info params = answer (get_blockchain_info E)
  dispatch blockchain_state params = answer (get_blockchain_state E)
  dispatch block params = do sid ← text_at E "id" params; call_block (E.to_uint256 sid E.initial_id)
  dispatch wallet_state params =
      require E params "public-key" "public key %s not defined" nullopt
        (do key ← text_at E "public-key" params; answer (get_wallet_state E key))
  dispatch wallet_transactions params =
      require E params "public-key" "public key %s not defined" nullopt (do
        limit ← limit_of (E.has "limit" params) params
        key ← text_at E "public-key" params
        answer (get_wallet_transactions E key (to_unsigned limit)))
  dispatch transfer params = send_transfer E params
  dispatch emission params = send_emission E params
  dispatch register params = register_node E params
  dispatch unregister params = unregister_node E params
  dispatch vote params = vote_for_rate E params
  dispatch unknown_method params = do error not_found "Method %s not found"; pure no_value

  -- `srand(time(NULL) + _trx_counter++)`; the number drawn is not used.
  abbrev pub count_call : M (World E) (Unit {0})
  count_call w = (returned tt, record w { call_counter = w.call_counter + 1 })

  abbrev pub is_json_error : Exception → Bool
  is_json_error std_exception = false
  is_json_error foreign = false
  is_json_error _ = true

  -- The handlers of `call`: one for each exception of the json library, and `catch (...)`.
  unfoldable pub call_failed : Exception → M (World E) (Any E)
  call_failed e = do
    error exception (if is_json_error e then "Parser error: %s, %s" else "Unknown parser error: %s")
    pure no_value

  unfoldable pub call : Bool → String → E.Json → M (World E) (Any E)
  unfolding method_of call_failed
  call emits method params =
      try_catch (do count_call; dispatch (method_of emits method) params) call_failed
