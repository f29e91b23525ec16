-- ===== src/Rpc/Client.antt =====
-- The methods of `rpc::Client`, each of which makes one request.
use mile_csa_jsonrpc_client.Base.{ℕ, Bool, true, false, Option, none, some, [], ◌∷◌, String}
use mile_csa_jsonrpc_client.Base.Int.{ℤ, negsuc, sub_ℕ}
use mile_csa_jsonrpc_client.Effects.{M, pure, lift, returned, ◌>>=◌}
use mile_csa_jsonrpc_client.Rpc.Env.{Env}
use mile_csa_jsonrpc_client.Rpc.World.{World}
use mile_csa_jsonrpc_client.Rpc.Request.{next_command, request}

module _ (E : Env) where
  -- `session->request(session->next_command(method, params), …)`
  unfoldable pub ask : String → E.Json → M (World E) (Option E.Json)
  ask method params = do c ← next_command E method params; request E c

  unfoldable pub micros_now : M (World E) ℕ
  micros_now w = (returned (E.micros w.link), w)

  -- The time that the request took, or -1 if the answer is not true.
  abbrev pub pong_value : ℕ → Bool → M (World E) (Option ℤ)
  pong_value start true = do stop ← micros_now; pure (some (sub_ℕ stop start))
  pong_value start false = pure (some (negsuc 0))

  abbrev pub pong : ℕ → Option E.Json → M (World E) (Option ℤ)
  pong start none = pure none
  pong start (some j) = pong_value start (E.is_true j)

  unfoldable pub ping : M (World E) (Option ℤ)
  unfolding micros_now
  ping = do start ← micros_now; r ← ask "ping" E.null; pong start r

  abbrev pub block_id_field : Bool → E.Json → M (World E) (Option E.BlockId)
  block_id_field true j = pure none
  block_id_field false j = do
    v ← lift (E.index "current-block-id" j)
    s ← lift (E.as_text v)
    pure (some (E.to_uint256 s E.initial_id).1)

  abbrev pub block_id_of : Option E.Json → M (World E) (Option E.BlockId)
  block_id_of none = pure none
  block_id_of (some j) = block_id_field (E.is_empty j) j

  -- The result of `StringToUInt256` is not looked at.
  unfoldable pub get_current_block_id : M (World E) (Option E.BlockId)
  get_current_block_id = do r ← ask "get-current-block-id" E.null; block_id_of r

  unfoldable pub get_network_state : M (World E) (Option E.Json)
  get_network_state = ask "get-network-state" E.null

  unfoldable pub get_nodes : M (World E) (Option E.Json)
  get_nodes = ask "get-nodes" E.null

  unfoldable pub get_blockchain_info : M (World E) (Option E.Json)
  get_blockchain_info = ask "get-blockchain-info" E.null

  unfoldable pub get_blockchain_state : M (World E) (Option E.Json)
  get_blockchain_state = ask "get-blockchain-state" E.null

  unfoldable pub get_block : E.BlockId → M (World E) (Option E.Json)
  get_block id = ask "get-block-by-id" (E.object (("id", E.block_json id) ∷ []))

  unfoldable pub get_wallet_state : String → M (World E) (Option E.Json)
  get_wallet_state key = ask "get-wallet-state" (E.object (("public-key", E.text key) ∷ []))

  unfoldable pub get_wallet_transactions : String → ℕ → M (World E) (Option E.Json)
  get_wallet_transactions key limit =
      ask "get-wallet-transactions"
        (E.object (("public-key", E.text key) ∷ ("limit", E.number limit) ∷ []))

  -- The overloads that take a key pair.
  unfoldable pub get_wallet_state_of_pair : E.KeyPair → M (World E) (Option E.Json)
  get_wallet_state_of_pair pair = get_wallet_state (E.public_key pair)

  unfoldable pub get_wallet_transactions_of_pair : E.KeyPair → ℕ → M (World E) (Option E.Json)
  get_wallet_transactions_of_pair pair limit = get_wallet_transactions (E.public_key pair) limit

  unfoldable pub send_transaction : E.Json → M (World E) (Option E.Json)
  send_transaction transaction = do
    c ← next_command E "send-transaction" E.null
    c' ← lift (E.set "params" transaction c)
    request E c'
