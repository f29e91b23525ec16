-- ===== src/Rpc/Call/Typed.antt =====
-- What the `std::any` of a call holds.
pub mod Transactions
pub mod Dispatch
use mile_csa_jsonrpc_client.Base.{ℕ, ◌≡◌, refl, Bool, true, false, Option, none, some, List, String}
use mile_csa_jsonrpc_client.Effects.{
  Exception, Result, returned, threw, undefined, hung, M, Report, continue_with, handle,
}
use mile_csa_jsonrpc_client.Rpc.Env.{Env}
use mile_csa_jsonrpc_client.Rpc.World.{World, log_reports}
use mile_csa_jsonrpc_client.Rpc.Client.{ping, get_current_block_id, get_block, send_transaction}
use mile_csa_jsonrpc_client.Rpc.Transaction.{
  Any, no_value, time, block_id, response, nullopt, any_response,
}
use mile_csa_jsonrpc_client.Rpc.Transaction.{
  text_at, float_at, generate_trx_id, guard_key, or_nullopt, get_private, get_asset,
}
use mile_csa_jsonrpc_client.Rpc.Transaction.{
  submit, current_block_id, description_of, send_transfer, send_emission, register_node,
  unregister_node, vote_for_rate,
}
use mile_csa_jsonrpc_client.Rpc.Call.{
  Method, method_of, any_time, any_block_id, answer, call_block, limit_of, dispatch, call_failed,
  call,
}
use mile_csa_jsonrpc_client.Rpc.Call.{
  ping_method, current_block_id_method, network_state, nodes, block,
}
use mile_csa_jsonrpc_client.Rpc.Call.{
  blockchain_info, blockchain_state, wallet_state, wallet_transactions,
}
use mile_csa_jsonrpc_client.Rpc.Call.{
  transfer, emission, register, unregister, vote, unknown_method,
}

-- The methods that return the node's answer as it is.
abbrev pub answers : Method → Bool
answers ping_method = false
answers current_block_id_method = false
answers unknown_method = false
answers _ = true

-- The methods that ask for parameters with `return std::nullopt`.
abbrev pub requires : Method → Bool
requires wallet_state = true
requires wallet_transactions = true
requires transfer = true
requires emission = true
requires register = true
requires unregister = true
requires vote = true
requires _ = false

abbrev pub is_ping : Method → Bool
is_ping ping_method = true
is_ping _ = false

abbrev pub is_block_id : Method → Bool
is_block_id current_block_id_method = true
is_block_id _ = false

-- May a call of the method return the value?
unfoldable pub allowed : {E : Env} → Method → Any E → Bool
allowed m no_value = true
allowed m (time t) = is_ping m
allowed m (block_id id) = is_block_id m
allowed m (response j) = answers m
allowed m nullopt = requires m

abbrev pub Allows : {E : Env} → Method → Result (Any E) → Type 0
Allows m (returned a) = allowed m a ≡ true
Allows m (threw e) = Unit {0}
Allows m undefined = Unit {0}
Allows m hung = Unit {0}

-- If a value is returned, the method may return it.
pub record Typed {E : Env} (m : Method) (p : Result (Any E) × World E) : Type 0 where
  pub typed : Allows m p.0

pub Allows-of : {E : Env} (m : Method) (r s : Result (Any E)) → r ≡ s → Allows m r → Allows m s
Allows-of m r s e h = rw (← e) h

module _ {E : Env} {m : Method} where
  pub Typed-pure : (a : Any E) (w : World E) → allowed m a ≡ true → Typed m (returned a, w)
  Typed-pure a w h = record { typed = h }

  pub Typed-step :
      {A : Type 0} (p : Result A × World E) {f : A → M (World E) (Any E)}
      → ((a : A) (w : World E) → Typed m (f a w))
      → Typed m (continue_with f p)
  Typed-step (returned a, w) g = g a w
  Typed-step (threw x, w) g = record { typed = tt }
  Typed-step (undefined, w) g = record { typed = tt }
  Typed-step (hung, w) g = record { typed = tt }

  pub Typed-handle :
      (p : Result (Any E) × World E) (f : Exception → M (World E) (Any E))
      → Typed m p
      → ((x : Exception) (w : World E) → Typed m (f x w))
      → Typed m (handle f p)
  Typed-handle (returned a, w) f h g = h
  Typed-handle (threw x, w) f h g = g x w
  Typed-handle (undefined, w) f h g = h
  Typed-handle (hung, w) f h g = h

module _ (E : Env) (m : Method) where
  pub response-allowed :
      (r : Option E.Json) → answers m ≡ true → allowed m (any_response E r) ≡ true
  unfolding allowed
  response-allowed none h = refl
  response-allowed (some j) h = h

  pub answer-Typed :
      (q : M (World E) (Option E.Json)) (w : World E) → answers m ≡ true → Typed m (answer E q w)
  answer-Typed q w h = Typed-step (q w) λ r w1. Typed-pure _ w1 (response-allowed r h)

  pub guarded :
      (b : Bool) (message : String) (k : M (World E) (Any E)) (w : World E)
      → requires m ≡ true
      → Typed m (k w)
      → Typed m (guard_key E b message nullopt k w)
  unfolding allowed
  guarded true message k w q h = h
  guarded false message k w q h = Typed-pure nullopt _ q

  pub optional :
      {A : Type 0} (o : Option A) (k : A → M (World E) (Any E)) (w : World E)
      → requires m ≡ true
      → ((a : A) → Typed m (k a w))
      → Typed m (or_nullopt E o k w)
  unfolding allowed
  optional none k w q h = Typed-pure nullopt w q
  optional (some a) k w q h = h a
