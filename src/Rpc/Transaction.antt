-- ===== src/Rpc/Transaction.antt =====
-- The commands of `Client::call` that sign and send a transaction: the static functions of
-- src/milecsa_jsonrpc_call.cpp.
use mile_csa_jsonrpc_client.Base.{ℕ, ◌+◌, Bool, true, false, Option, none, some, List, String}
use mile_csa_jsonrpc_client.Base.Int.{ℤ}
use mile_csa_jsonrpc_client.Effects.{not_found, Report, M, pure, lift, deref, returned, ◌>>=◌, ◌>>◌}
use mile_csa_jsonrpc_client.Rpc.Env.{Env}
use mile_csa_jsonrpc_client.Rpc.World.{World, error, errors}
use mile_csa_jsonrpc_client.Rpc.Client.{get_current_block_id, send_transaction}

-- The `std::any` that `call` returns. It holds a `nullopt_t` where the source writes
-- `return std::nullopt`, and then it has a value.
pub data Any (E : Env) : Type 0 where
  no_value : Any E
  time : ℤ → Any E
  block_id : E.BlockId → Any E
  response : E.Json → Any E
  nullopt : Any E

-- `result.has_value()`
abbrev pub has_value : {E : Env} → Any E → Bool
has_value no_value = false
has_value _ = true

module _ (E : Env) where
  -- The member of the parameters as a text, and as a float.
  abbrev pub text_at : String → E.Json → M (World E) String
  text_at key params = do v ← lift (E.index_const key params); lift (E.as_text v)

  abbrev pub float_at : String → E.Json → M (World E) E.Float
  float_at key params = do v ← lift (E.index_const key params); lift (E.as_float v)

  unfoldable pub generate_trx_id : M (World E) ℕ
  generate_trx_id w = (
    returned (E.rand (E.seconds w.link + w.trx_counter)),
    record w { trx_counter = w.trx_counter + 1 },
  )

  -- `if (params.count(key) == 0) { error_handler(NOT_FOUND, …); return std::nullopt; }`
  abbrev pub guard_key : {A : Type 0} → Bool → String → A → M (World E) A → M (World E) A
  guard_key true message missing k = k
  guard_key false message missing k = do error not_found message; pure missing

  abbrev pub require : {A : Type 0} → E.Json → String → String → A → M (World E) A → M (World E) A
  require params key message missing k = guard_key (E.has key params) message missing k

  -- `if (!o) return std::nullopt;`
  abbrev pub or_nullopt : {A : Type 0} → Option A → (A → M (World E) (Any E)) → M (World E) (Any E)
  or_nullopt none k = pure nullopt
  or_nullopt (some a) k = k a

  abbrev pub with_reports : {A : Type 0} → A × List Report → M (World E) A
  with_reports (a, reports) = do errors reports; pure a

  unfoldable pub get_private : E.Json → M (World E) (Option E.KeyPair)
  get_private params =
      require params "private-key" "source private key %s not defined" none
        (do s ← text_at "private-key" params; with_reports (E.from_private_key s))

  unfoldable pub get_asset : E.Json → M (World E) (Option E.Token)
  get_asset params = require params "asset-code" "asset-code %s not defined" none (do
    v ← lift (E.index_const "asset-code" params)
    code ← lift (E.as_ushort v)
    pure (some (E.token_from_code code)))

  -- `if (auto t = …) return std::any_cast<rpc::response>(t);`, and `return std::any();`
  abbrev pub any_response : Option E.Json → Any E
  any_response none = no_value
  any_response (some j) = response j

  abbrev pub submit_body : Option E.Json → M (World E) (Any E)
  submit_body none = pure no_value
  submit_body (some body) = do
    _ ← lift (E.dump body)
    r ← send_transaction E body
    pure (any_response r)

  -- `CreateRequest(…)->get_body()` and what follows it.
  unfoldable pub submit : Option (Option E.Json) × List Report → M (World E) (Any E)
  submit (prepared, reports) = do errors reports; body ← deref prepared; submit_body body

  -- `*client->get_current_block_id()`
  unfoldable pub current_block_id : M (World E) E.BlockId
  current_block_id = do id ← get_current_block_id E; deref id

  abbrev pub description_of : Bool → E.Json → M (World E) String
  description_of true params = text_at "description" params
  description_of false params = pure ""

  -- The order in which C++ evaluates the arguments of `CreateRequest` is not fixed: here it is from
  -- left to right.
  unfoldable pub send_transfer : E.Json → M (World E) (Any E)
  unfolding get_private get_asset
  send_transfer params = require params "to" "destination public key %s not defined" nullopt (do
    ppk ← get_private params
    or_nullopt ppk (λ pair. require params "amount" "amount %s not defined" nullopt (do
      amount ← float_at "amount" params
      asset ← get_asset params
      or_nullopt asset (λ token. do
        description ← description_of (E.has "description" params) params
        block ← current_block_id
        to ← text_at "to" params
        trx ← generate_trx_id
        submit (E.transfer_request pair to block trx token amount E.zero description)))))

  unfoldable pub send_emission : E.Json → M (World E) (Any E)
  unfolding get_private get_asset
  send_emission params = do
    ppk ← get_private params
    or_nullopt ppk (λ pair. do
      asset ← get_asset params
      or_nullopt asset (λ token. do
        block ← current_block_id
        trx ← generate_trx_id
        submit (E.emission_request pair block trx token E.zero)))

  unfoldable pub register_node : E.Json → M (World E) (Any E)
  unfolding get_private
  register_node params = do
    ppk ← get_private params
    or_nullopt ppk (λ pair. require params "amount" "amount %s not defined" nullopt (do
      amount ← float_at "amount" params
      require params "address" "address %s not defined" nullopt (do
        address ← lift (E.index_const "address" params)
        block ← current_block_id
        address' ← lift (E.as_text address)
        trx ← generate_trx_id
        submit (E.register_request pair address' block trx amount E.zero))))

  unfoldable pub unregister_node : E.Json → M (World E) (Any E)
  unfolding get_private
  unregister_node params = do
    ppk ← get_private params
    or_nullopt ppk (λ pair. do
      block ← current_block_id
      trx ← generate_trx_id
      submit (E.unregister_request pair block trx E.zero))

  unfoldable pub vote_for_rate : E.Json → M (World E) (Any E)
  unfolding get_private
  vote_for_rate params = do
    ppk ← get_private params
    or_nullopt ppk (λ pair. require params "amount" "amount %s not defined" nullopt (do
      amount ← float_at "amount" params
      block ← current_block_id
      trx ← generate_trx_id
      submit (E.vote_request pair block trx amount E.zero)))
