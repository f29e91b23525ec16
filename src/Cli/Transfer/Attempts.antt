-- ===== src/Cli/Transfer/Attempts.antt =====
-- The body of `do_request` of mile_cli_wallet/mile_cli_transfer.cpp: what an attempt meets is made of
-- `Connect`, the question for the block id, the request of the MILE API library, and sending it.
pub mod Block
pub mod Heard
pub mod Served
pub mod Test
pub mod Outcome
use mile_csa_jsonrpc_client.Base.{
  ℕ, Bool, true, false, Option, none, some, List, [], ◌++◌, String, Text,
}
use mile_csa_jsonrpc_client.Effects.{Code, Result, returned, threw, undefined, hung, Report}
use mile_csa_jsonrpc_client.Rpc.Env.{JsonLibrary, MileLibrary}
use mile_csa_jsonrpc_client.Rpc.World.{World}
use mile_csa_jsonrpc_client.Rpc.Client.{get_current_block_id, send_transaction}
use mile_csa_jsonrpc_client.Connection.Client.{
  Connected, connected, not_connected, url_threw, escaped, crashed, stuck, connect_url,
}
use mile_csa_jsonrpc_client.Cli.Outside.{Outside, codes_of, E, logged, world}
use mile_csa_jsonrpc_client.Cli.Transfer.{
  Attempt, unreachable, no_block, no_request, no_body, body, stops, unprinted, cut, escapes,
  crashes, hangs,
}

module _ (J : JsonLibrary) (L : MileLibrary J.Json J.Float) (rand : ℕ → ℕ) where
  -- `ppk`, the options, and the transaction's id, which `rand` has given.
  pub record Order : Type 0 where
    pub ppk : Option L.KeyPair
    pub destination : String
    pub asset_code : ℕ
    pub amount : J.Float
    pub memo : String
    pub test : Bool
    pub trx_id : ℕ

  abbrev pub print_text : List Code → World (E J L rand) → Result Text → Attempt
  print_text codes w (returned d) = body codes (logged J L rand w.log)
  print_text codes w (threw x) = cut escapes codes (logged J L rand w.log)
  print_text codes w undefined = cut crashes codes (logged J L rand w.log)
  print_text codes w hung = cut hangs codes (logged J L rand w.log)

  -- The answer is printed, if there is one.
  unfoldable pub print_answer : List Code → Result (Option J.Json) × World (E J L rand) → Attempt
  print_answer codes (returned none, w) = body codes (logged J L rand w.log)
  print_answer codes (returned (some j), w) = print_text codes w (J.dump j)
  print_answer codes (threw x, w) = cut escapes codes (logged J L rand w.log)
  print_answer codes (undefined, w) = cut crashes codes (logged J L rand w.log)
  print_answer codes (hung, w) = cut hangs codes (logged J L rand w.log)

  -- `request->dump()`, to be printed with `--test` and before the request is sent without it.
  unfoldable pub send_body : Bool → List Code → J.Json → World (E J L rand) → Result Text → Attempt
  unfolding print_answer
  send_body true codes b w (returned d) = body codes []
  send_body false codes b w (returned d) =
      print_answer codes (send_transaction (E J L rand) b (record w { log = [] }))
  send_body test codes b w (threw x) = unprinted escapes codes
  send_body test codes b w undefined = unprinted crashes codes
  send_body test codes b w hung = unprinted hangs codes

  unfoldable pub with_request :
      Order → List Code → World (E J L rand) → Option (Option J.Json) × List Report → Attempt
  unfolding send_body
  with_request order codes w (none, reports) = no_request (codes ++ codes_of reports)
  with_request order codes w (some none, reports) = no_body (codes ++ codes_of reports)
  with_request order codes w (some (some b), reports) =
      send_body order.test (codes ++ codes_of reports) b w (J.dump b)

  -- `CreateRequest`
  abbrev pub prepared : Order → L.KeyPair → L.BlockId → Option (Option J.Json) × List Report
  prepared order pair id =
      L.transfer_request pair order.destination id order.trx_id (L.token_from_code order.asset_code)
        order.amount J.zero order.memo

  -- `*ppk`
  abbrev pub with_pair :
      Order → List Code → World (E J L rand) → L.BlockId → Option L.KeyPair → Attempt
  with_pair order codes w id none = unprinted crashes codes
  with_pair order codes w id (some pair) = with_request order codes w (prepared order pair id)

  unfoldable pub with_block : Order → Result (Option L.BlockId) × World (E J L rand) → Attempt
  unfolding with_request
  with_block order (returned none, w) = no_block (logged J L rand w.log)
  with_block order (returned (some id), w) = with_pair order (logged J L rand w.log) w id order.ppk
  with_block order (threw x, w) = stops escapes (logged J L rand w.log)
  with_block order (undefined, w) = stops crashes (logged J L rand w.log)
  with_block order (hung, w) = stops hangs (logged J L rand w.log)

  unfoldable pub with_client : Order → Outside → Connected → Attempt
  unfolding with_block
  with_client order o (connected c reports es) =
      with_block order (get_current_block_id (E J L rand) (world J L rand o c es))
  with_client order o (not_connected reports) = unreachable (codes_of reports)
  with_client order o (url_threw e) = stops escapes []
  with_client order o (escaped e) = stops escapes []
  with_client order o crashed = stops crashes []
  with_client order o stuck = stops hangs []

  unfoldable pub attempt : Order → Text → Outside → Attempt
  unfolding with_client
  attempt order url o = with_client order o (connect_url o.surroundings true o.events url)
