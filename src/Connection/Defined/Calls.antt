-- ===== src/Connection/Defined/Calls.antt =====
-- The calls of `Client::call` over a session that have no undefined behaviour.
use mile_csa_jsonrpc_client.Base.{
  ℕ, ◌*◌, ◌≡◌, ◌≢◌, refl, Bool, true, false, Option, none, some, String,
}
use mile_csa_jsonrpc_client.Base.Int.{to_unsigned}
use mile_csa_jsonrpc_client.Effects.{undefined}
use mile_csa_jsonrpc_client.Session.Ready.{IsReady}
use mile_csa_jsonrpc_client.Rpc.Env.{JsonLibrary, MileLibrary, Env}
use mile_csa_jsonrpc_client.Rpc.World.{World}
use mile_csa_jsonrpc_client.Rpc.Client.{
  ask, block_id_of, block_id_field, get_current_block_id, get_network_state, get_nodes, pong,
  pong_value, micros_now, ping,
}
use mile_csa_jsonrpc_client.Rpc.Client.{
  get_blockchain_info, get_blockchain_state, get_block, get_wallet_state, get_wallet_transactions,
}
use mile_csa_jsonrpc_client.Rpc.Call.{Method, method_of, call_block, dispatch, call_failed, call}
use mile_csa_jsonrpc_client.Rpc.Call.{
  ping_method, current_block_id_method, network_state, nodes, block, blockchain_info,
  blockchain_state, wallet_state, wallet_transactions, transfer, emission, register, unregister,
  vote, unknown_method,
}
use mile_csa_jsonrpc_client.Connection.Calls.{session_env}
use mile_csa_jsonrpc_client.Connection.Defined.{
  IsJson, IsDefined, lift-IsDefined, handle-IsDefined, ask-IsDefined,
}
use mile_csa_jsonrpc_client.Connection.Defined.Steps.{
  step-IsDefined, answer-IsDefined, member-IsDefined, limited-IsDefined, guarded-IsDefined,
}

-- The methods that send a transaction, and so take the block id without a test.
abbrev pub sends : Method → Bool
sends transfer = true
sends emission = true
sends register = true
sends unregister = true
sends vote = true
sends m = false

-- `get-block` takes its parameter without a test.
abbrev pub unchecked : Method → Bool
unchecked block = true
unchecked m = sends m

checked : (m : Method) → unchecked m ≡ false → (sends m ≡ false) × (m ≢ block)
checked block h = cc
checked transfer h = cc
checked emission h = cc
checked register h = cc
checked unregister h = cc
checked vote h = cc
checked m h = (refl, λ e. cc)

module _ (J : JsonLibrary) (json : IsJson J) (L : MileLibrary J.Json J.Float) (rand : ℕ → ℕ) where
  abbrev env : Env
  env = session_env J L rand

  block_id_of-IsDefined : (o : Option J.Json) (w : World env) → IsDefined (block_id_of env o w)
  block_id_of-IsDefined none w = λ e. cc
  block_id_of-IsDefined (some j) w = go (J.is_empty j)
    where
      go : (b : Bool) → IsDefined (block_id_field env b j w)
      go true = λ e. cc
      go false =
          lift-IsDefined (J.index "current-block-id" j) _ w (json.index_defined _ j)
            λ v. lift-IsDefined (J.as_text v) _ w (json.as_text_defined v) λ s e. cc

  pong-IsDefined : (start : ℕ) (o : Option J.Json) (w : World env) → IsDefined (pong env start o w)
  unfolding micros_now
  pong-IsDefined start none w = λ e. cc
  pong-IsDefined start (some j) w = go (J.is_true j)
    where
      go : (b : Bool) → IsDefined (pong_value env start b w)
      go true = λ e. cc
      go false = λ e. cc

  get_current_block_id-IsDefined :
      (w : World env) → IsReady w.link.session → IsDefined (get_current_block_id env w)
  unfolding get_current_block_id
  get_current_block_id-IsDefined w r =
      step-IsDefined (ask env "get-current-block-id" J.null w) (block_id_of env)
        (ask-IsDefined J json L rand "get-current-block-id" J.null w r) block_id_of-IsDefined

  ping-IsDefined : (w : World env) → IsReady w.link.session → IsDefined (ping env w)
  unfolding ping micros_now
  ping-IsDefined w r =
      step-IsDefined (ask env "ping" J.null w) (pong env (1000000 * w.link.session.clock))
        (ask-IsDefined J json L rand "ping" J.null w r) (pong-IsDefined _)

  call_block-IsDefined :
      (p : Bool × L.BlockId) (w : World env)
      → IsReady w.link.session
      → IsDefined (call_block env p w)
  unfolding get_block
  call_block-IsDefined (true, id) w r =
      answer-IsDefined J json L rand (get_block env id) w
        (ask-IsDefined J json L rand "get-block-by-id" _ w r)
  call_block-IsDefined (false, id) w r = λ e. cc

  -- On a ready session, a method that sends no transaction; `get-block` has its parameter.
  dispatch-IsDefined :
      (m : Method) (params : J.Json) (w : World env)
      → IsReady w.link.session
      → sends m ≡ false
      → (m ≡ block → J.has "id" params ≡ true)
      → IsDefined (dispatch env m params w)
  unfolding dispatch get_network_state get_nodes get_blockchain_info get_blockchain_state
      get_wallet_state get_wallet_transactions
  dispatch-IsDefined ping_method params w r s h =
      step-IsDefined (ping env w) _ (ping-IsDefined w r) λ t v e. cc
  dispatch-IsDefined current_block_id_method params w r s h =
      step-IsDefined (get_current_block_id env w) _ (get_current_block_id-IsDefined w r) λ t v e. cc
  dispatch-IsDefined network_state params w r s h =
      answer-IsDefined J json L rand (get_network_state env) w (ask-IsDefined J json L rand _ _ w r)
  dispatch-IsDefined nodes params w r s h =
      answer-IsDefined J json L rand (get_nodes env) w (ask-IsDefined J json L rand _ _ w r)
  dispatch-IsDefined blockchain_info params w r s h =
      answer-IsDefined J json L rand (get_blockchain_info env) w
        (ask-IsDefined J json L rand _ _ w r)
  dispatch-IsDefined blockchain_state params w r s h =
      answer-IsDefined J json L rand (get_blockchain_state env) w
        (ask-IsDefined J json L rand _ _ w r)
  dispatch-IsDefined block params w r s h =
      member-IsDefined J json L rand "id" params J.as_text _ w (h refl) json.as_text_defined
        λ sid. call_block-IsDefined (L.to_uint256 sid L.initial_id) w r
  dispatch-IsDefined wallet_state params w r s h =
      guarded-IsDefined J json L rand (J.has "public-key" params) "public-key" _ params _ w refl
        λ e.
          member-IsDefined J json L rand "public-key" params J.as_text _ w e json.as_text_defined
            λ key.
              answer-IsDefined J json L rand (get_wallet_state env key) w
                (ask-IsDefined J json L rand _ _ w r)
  dispatch-IsDefined wallet_transactions params w r s h =
      guarded-IsDefined J json L rand (J.has "public-key" params) "public-key" _ params _ w refl
        λ e. limited-IsDefined J json L rand (J.has "limit" params) params _ w refl λ limit.
          member-IsDefined J json L rand "public-key" params J.as_text _ w e json.as_text_defined
            λ key.
              answer-IsDefined J json L rand (get_wallet_transactions env key (to_unsigned limit)) w
                (ask-IsDefined J json L rand _ _ w r)
  dispatch-IsDefined transfer params w r s h = cc
  dispatch-IsDefined emission params w r s h = cc
  dispatch-IsDefined register params w r s h = cc
  dispatch-IsDefined unregister params w r s h = cc
  dispatch-IsDefined vote params w r s h = cc
  dispatch-IsDefined unknown_method params w r s h = λ e. cc

  ready-IsDefined :
      (emits : Bool) (method : String) (params : J.Json) (w : World (session_env J L rand))
      → IsReady w.link.session
      → sends (method_of emits method) ≡ false
      → (method_of emits method ≡ block → J.has "id" params ≡ true)
      → (call (session_env J L rand) emits method params w).0 ≢ undefined
  unfolding call call_failed
  ready-IsDefined emits method params w r s h =
      handle-IsDefined (dispatch env (method_of emits method) params _) _
        (dispatch-IsDefined (method_of emits method) params _ r s h) λ x v e. cc

  -- A call with undefined behaviour is one of those methods.
  pub undefined-unchecked :
      (emits : Bool) (method : String) (params : J.Json) (w : World (session_env J L rand))
      → IsReady w.link.session
      → (call (session_env J L rand) emits method params w).0 ≡ undefined
      → unchecked (method_of emits method) ≡ true
  undefined-unchecked emits method params w r e = go (unchecked (method_of emits method)) refl
    where
      go : (b : Bool) → unchecked (method_of emits method) ≡ b → b ≡ true
      go true q = refl
      go false q =
          let (s, n) = checked (method_of emits method) q in
          absurd (ready-IsDefined emits method params w r s (λ m. absurd (n m)) e)
