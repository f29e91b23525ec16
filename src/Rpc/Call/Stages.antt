-- ===== src/Rpc/Call/Stages.antt =====
-- A call goes through stages: before it has asked the node, between the block id and the transaction,
-- and after it has sent what it sends.
pub mod Transactions
pub mod Dispatch
use mile_csa_jsonrpc_client.Base.{
  ℕ, ◌+◌, ◌≡◌, refl, Bool, true, false, Option, none, some, List, String,
}
use mile_csa_jsonrpc_client.Effects.{Result, M, Report, Exception, continue_with}
use mile_csa_jsonrpc_client.Rpc.Env.{Env}
use mile_csa_jsonrpc_client.Rpc.World.{World, log_reports}
use mile_csa_jsonrpc_client.Rpc.Client.{
  ask, ping, micros_now, get_current_block_id, get_network_state, get_nodes,
}
use mile_csa_jsonrpc_client.Rpc.Client.{
  get_blockchain_info, get_blockchain_state, get_block, send_transaction,
}
use mile_csa_jsonrpc_client.Rpc.Client.{get_wallet_state, get_wallet_transactions}
use mile_csa_jsonrpc_client.Rpc.Transaction.{
  get_private, get_asset, current_block_id, submit, generate_trx_id,
}
use mile_csa_jsonrpc_client.Rpc.Transaction.{
  send_transfer, send_emission, register_node, unregister_node,
}
use mile_csa_jsonrpc_client.Rpc.Transaction.{
  guard_key, or_nullopt, Any, vote_for_rate, text_at, float_at, description_of,
}
use mile_csa_jsonrpc_client.Rpc.Call.{
  Method, dispatch, answer, call_block, limit_of, call, method_of, call_failed,
}
use mile_csa_jsonrpc_client.Rpc.Call.{
  ping_method, current_block_id_method, network_state, nodes, block,
}
use mile_csa_jsonrpc_client.Rpc.Call.{
  blockchain_info, blockchain_state, wallet_state, wallet_transactions,
}
use mile_csa_jsonrpc_client.Rpc.Call.{
  transfer, emission, register, unregister, vote, unknown_method,
}
use mile_csa_jsonrpc_client.Rpc.Ends.{
  Ends, Stays, Stable, Given, step-Ends, lift-Ends, handle-Ends, weaken-Ends,
}
use mile_csa_jsonrpc_client.Rpc.Ends.{Stays-of, reports-Stable}
use mile_csa_jsonrpc_client.Rpc.Ends.Parts.{
  guard_key-Stays, or_nullopt-Stays, text_at-Stays, float_at-Stays,
}
use mile_csa_jsonrpc_client.Rpc.Ends.Parts.{limit_of-Stays, description_of-Stays, get_private-Stays}
use mile_csa_jsonrpc_client.Rpc.Ends.Parts.{
  get_asset-Stays, pong-Stays, block_id_of-Ends, deref-Ends,
}

-- The node's name of the query that a method makes; the other methods make none, or a transaction.
unfoldable pub query_of : Method → Option String
query_of ping_method = some "ping"
query_of current_block_id_method = some "get-current-block-id"
query_of network_state = some "get-network-state"
query_of nodes = some "get-nodes"
query_of blockchain_info = some "get-blockchain-info"
query_of blockchain_state = some "get-blockchain-state"
query_of block = some "get-block-by-id"
query_of wallet_state = some "get-wallet-state"
query_of wallet_transactions = some "get-wallet-transactions"
query_of _ = none

-- Predicates for the stages of a call of the method, with what the requests do to them.
pub record Stages (E : Env) (m : Method) : Type 1 where
  pub before : World E → Type 0
  pub between : World E → Type 0
  pub after : World E → Type 0
  pub before_Stable : Stable before
  pub between_Stable : Stable between
  pub after_Stable : Stable after
  pub before_after : (w : World E) → before w → after w
  pub between_after : query_of m ≡ none → (w : World E) → between w → after w
  pub querying :
      (name : String) (params : E.Json) (w : World E)
      → query_of m ≡ some name
      → before w
      → Stays after (ask E name params w)
  pub asking :
      (w : World E)
      → query_of m ≡ none
      → before w
      → Ends (Given between after) after (ask E "get-current-block-id" E.null w)
  pub sending :
      (body : E.Json) (w : World E)
      → query_of m ≡ none
      → between w
      → Stays after (send_transaction E body w)

module _ (E : Env) (m : Method) (st : Stages E m) where
  open st use {
    before, between, after, before_Stable, between_Stable, after_Stable, before_after,
    between_after,
  }

  -- After a step that sends nothing.
  pub quiet :
      {A B : Type 0} (p : Result A × World E) {f : A → M (World E) B}
      → Stays before p
      → ((a : A) (w : World E) → before w → Stays after (f a w))
      → Stays after (continue_with f p)
  quiet p h g = step-Ends p before_after h g

  pub guarded :
      {A : Type 0} (b : Bool) (message : String) (missing : A) (k : M (World E) A) (w : World E)
      → before w
      → Stays after (k w)
      → Stays after (guard_key E b message missing k w)
  guarded b message missing k w h g =
      guard_key-Stays E after after_Stable b message missing k w (before_after w h) g

  pub optional :
      {A : Type 0} (o : Option A) (k : A → M (World E) (Any E)) (w : World E)
      → before w
      → ((a : A) → Stays after (k a w))
      → Stays after (or_nullopt E o k w)
  optional o k w h g = or_nullopt-Stays E after after_Stable o k w (before_after w h) g

  -- The block id, and what follows it if there is one.
  pub block_then :
      {B : Type 0} (w : World E) {f : E.BlockId → M (World E) B}
      → query_of m ≡ none
      → before w
      → ((id : E.BlockId) (w : World E) → between w → Stays after (f id w))
      → Stays after (continue_with f (current_block_id E w))
  unfolding current_block_id get_current_block_id
  block_then w q h g =
      step-Ends (current_block_id E w) (λ w' h'. h')
        (step-Ends (get_current_block_id E w) (λ w' h'. h')
          (step-Ends (ask E "get-current-block-id" E.null w) (λ w' h'. h') (st.asking w q h)
            λ o w' h'. block_id_of-Ends E between after (between_after q) o w' h')
          λ o w' h'. deref-Ends E between after (between_after q) o w' h')
        g

  submit-Stays :
      (p : Option (Option E.Json) × List Report) (w : World E)
      → query_of m ≡ none
      → between w
      → Stays after (submit E p w)
  unfolding submit
  submit-Stays (none, rs) w q h =
      Stays-of _ (between_after q _ (reports-Stable rs w between_Stable h))
  submit-Stays (some none, rs) w q h =
      Stays-of _ (between_after q _ (reports-Stable rs w between_Stable h))
  submit-Stays (some (some body), rs) w q h =
      lift-Ends (E.dump body) _ (between_after q _ (reports-Stable rs w between_Stable h)) λ d.
        step-Ends (send_transaction E body (record w { log = log_reports rs w.log })) (λ w' h'. h')
          (st.sending body _ q (reports-Stable rs w between_Stable h)) λ r w' h'. Stays-of _ h'

  -- With a fresh transaction id.
  pub drawn-Stays :
      (p : Option (Option E.Json) × List Report) (w : World E)
      → query_of m ≡ none
      → between w
      → Stays after (submit E p (record w { trx_counter = w.trx_counter + 1 }))
  drawn-Stays p w q h = submit-Stays p _ q (between_Stable.drawn w _ h)

  pub answer-Stays :
      (name : String) (params : E.Json) (w : World E)
      → query_of m ≡ some name
      → before w
      → Stays after (answer E (ask E name params) w)
  answer-Stays name params w q h =
      step-Ends (ask E name params w) (λ w' h'. h') (st.querying name params w q h)
        λ r w' h'. Stays-of _ h'
