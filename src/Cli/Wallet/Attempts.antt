-- ===== src/Cli/Wallet/Attempts.antt =====
-- The body of `do_request` of mile_cli_wallet/mile_cli_wallet.cpp: what an attempt meets is made of
-- `Connect`, the parser of the parameters, and `Client::call` over the session.
pub mod Outcome
pub mod Served
use mile_csa_jsonrpc_client.Base.{
  ℕ, ◌≡◌, ◌≢◌, refl, ap, ◌∙◌, Bool, true, false, List, [], ◌∷◌, ◌++◌, String, Text, if◌then◌else◌,
}
use mile_csa_jsonrpc_client.Effects.{
  Code, Result, returned, threw, undefined, hung, Exception, is_std, Report, M, continue_with,
  handle,
}
use mile_csa_jsonrpc_client.Url.Parse.{IsBoost, parse}
use mile_csa_jsonrpc_client.Url.Parse as Parse
use mile_csa_jsonrpc_client.Session.{IoEvent}
use mile_csa_jsonrpc_client.Rpc.Env.{JsonLibrary, MileLibrary, Env, Reply}
use mile_csa_jsonrpc_client.Rpc.World.{World, Event, posted, reported, response_failed}
use mile_csa_jsonrpc_client.Rpc.Transaction.{Any, no_value, time, block_id, response, nullopt}
use mile_csa_jsonrpc_client.Rpc.Call.{call, method_of}
use mile_csa_jsonrpc_client.Connection.Client.{
  Client, Surroundings, Connected, connected, not_connected, url_threw, escaped, crashed, stuck,
  connect_url,
}
use mile_csa_jsonrpc_client.Connection.Calls.{session_env}
use mile_csa_jsonrpc_client.Cli.Outside.{Outside, codes_of, E, logged, world}
use mile_csa_jsonrpc_client.Cli.Wallet.{
  Attempt, Called, unreachable, reached, escapes, crashes, hangs, raises, value, Shown, shown_time,
  shown_block_id, shown_response, shown_nothing,
}
use mile_csa_jsonrpc_client.Cli.Wallet as Wallet

module _ (J : JsonLibrary) (L : MileLibrary J.Json J.Float) (rand : ℕ → ℕ) where
  -- An exception in the `try` block.
  abbrev pub failed : World (E J L rand) → Exception → Attempt
  failed w x =
      if is_std x then reached (logged J L rand w.log) raises else escapes (logged J L rand w.log)

  -- A response is printed as text.
  abbrev pub show_response : World (E J L rand) → Result Text → Attempt
  show_response w (returned d) = reached (logged J L rand w.log) (value shown_response)
  show_response w (threw x) = failed w x
  show_response w undefined = crashes (logged J L rand w.log)
  show_response w hung = hangs (logged J L rand w.log)

  -- The tests of the type of the result: a `nullopt` has a value and none of the three types.
  unfoldable pub show : World (E J L rand) → Any (E J L rand) → Attempt
  show w no_value = reached (logged J L rand w.log) Wallet.no_value
  show w (time t) = reached (logged J L rand w.log) (value shown_time)
  show w (block_id id) = reached (logged J L rand w.log) (value shown_block_id)
  show w (response j) = show_response w (J.dump j)
  show w nullopt = reached (logged J L rand w.log) (value shown_nothing)

  -- The result of the call.
  unfoldable pub finished : Result (Any (E J L rand)) × World (E J L rand) → Attempt
  unfolding show
  finished (returned a, w) = show w a
  finished (threw x, w) = failed w x
  finished (undefined, w) = crashes (logged J L rand w.log)
  finished (hung, w) = hangs (logged J L rand w.log)

  -- `params = nlohmann::json::parse(opt_method_params)`; after an exception `params` is null.
  unfoldable pub with_params : Bool → String → World (E J L rand) → Result J.Json → Attempt
  unfolding finished
  with_params emits method w (returned params) = finished (call (E J L rand) emits method params w)
  with_params emits method w (threw x) =
      if is_std x then finished (call (E J L rand) emits method J.null w) else escapes []
  with_params emits method w undefined = crashes []
  with_params emits method w hung = hangs []

  unfoldable pub with_client : Bool → String → Text → Outside → Connected → Attempt
  unfolding with_params
  with_client emits method params o (connected c reports es) =
      with_params emits method (world J L rand o c es) (J.parse params)
  with_client emits method params o (not_connected reports) = unreachable (codes_of reports)
  with_client emits method params o (url_threw e) = escapes []
  with_client emits method params o (escaped e) = escapes []
  with_client emits method params o crashed = crashes []
  with_client emits method params o stuck = hangs []

  unfoldable pub attempt : Bool → String → Text → Text → Outside → Attempt
  unfolding with_client
  attempt emits method params url o =
      with_client emits method params o (connect_url o.surroundings true o.events url)
