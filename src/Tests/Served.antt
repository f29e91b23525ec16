-- ===== src/Tests/Served.antt =====
-- The wallet finds no host at first, and is answered then.
use mile_csa_jsonrpc_client.Base.{
  ℕ, zero, suc, ◌<◌, ◌≡◌, refl, true, false, [], ◌∷◌, String, Text, codes, arith,
}
use mile_csa_jsonrpc_client.Base.Int.{pos}
use mile_csa_jsonrpc_client.Effects.{returned, std_exception}
use mile_csa_jsonrpc_client.Regex.{backtrack}
use mile_csa_jsonrpc_client.Url.Pattern.{url_regex, scheme, authority, file_path, tail}
use mile_csa_jsonrpc_client.Url.Parse.{Url, http, parse, parsed, perl, upper, finish, read_port}
use mile_csa_jsonrpc_client.Session.{done, opening, success, unresolved, new_session}
use mile_csa_jsonrpc_client.Session.Prompt.{arriving}
use mile_csa_jsonrpc_client.Session.Prompt.Connect.{opens, plainly}
use mile_csa_jsonrpc_client.Rpc.Call.{method_of}
use mile_csa_jsonrpc_client.Connection.Client.{Surroundings, new_client}
use mile_csa_jsonrpc_client.Connection.Answers.{asks_nodes}
use mile_csa_jsonrpc_client.Connection.Reached.{IsReachable, IsUnresolved}
use mile_csa_jsonrpc_client.Cli.Options.{returns}
use mile_csa_jsonrpc_client.Cli.Outside.{Outside}
use mile_csa_jsonrpc_client.Cli.Wallet.{exited, shown_response}
use mile_csa_jsonrpc_client.Cli.Wallet.Attempts.Served.{IsServed}
use mile_csa_jsonrpc_client.Cli.Wallet.Options.{Settings, parse_cmdline, initial, runs}
use mile_csa_jsonrpc_client.Cli.Wallet.Program.{run, timed}
use mile_csa_jsonrpc_client.Cli.Wallet.Program.Served.{IsServedAfter, run-serves}
use mile_csa_jsonrpc_client.Tests.Fixture.{field, end, small_json, small_mile}
use mile_csa_jsonrpc_client.Tests.Calls.{ok_reply}
use mile_csa_jsonrpc_client.Tests.Connections.{nearby}
use mile_csa_jsonrpc_client.Tests.Options.{reader, wallets}
use mile_csa_jsonrpc_client.Tests.Answers.{ok_reply-IsAnswer, result}

abbrev node_url : Url
node_url = record {
  url_string = codes "http://lotus000.testnet.mile.global/v1/api";
  protocol = http;
  domain = codes "lotus000.testnet.mile.global";
  port = 80;
  path = codes "/v1/api";
  query = [];
  fragment = [];
}

node_url-parsed : parse perl (codes "http://lotus000.testnet.mile.global/v1/api") ≡ parsed node_url
unfolding parse backtrack url_regex scheme authority file_path tail upper finish read_port
node_url-parsed = refl

abbrev no_service : Surroundings
no_service = record nearby { resolve = λ host port. unresolved std_exception }

abbrev surroundings_of : ℕ → Surroundings
surroundings_of zero = no_service
surroundings_of (suc n) = nearby

abbrev outside : ℕ → Outside
outside n = record {
  surroundings = surroundings_of n;
  events = opening 10 ∷ done 11 success ∷ done 12 success ∷ done 13 success ∷ [];
  replies = λ n. ok_reply;
  next_id = 0;
  call_counter = 0;
  trx_counter = 0;
}

abbrev as_string : Text → String
as_string t = "get-nodes"

abbrev accepted : Settings
accepted = record initial { method = codes "get-nodes"; read_timeout = pos 3 }

accepted-parsed :
    parse_cmdline reader wallets (codes "get-nodes" ∷ []) initial
    ≡ (returned (returns true), accepted)
unfolding parse_cmdline
accepted-parsed = refl

first-IsUnresolved :
    (i : ℕ) → i < 1 → IsUnresolved (timed accepted (outside i)).surroundings accepted.address
first-IsUnresolved zero l = record {
  address = node_url;
  failure = std_exception;
  is_parsed = node_url-parsed;
  not_found = refl;
}
first-IsUnresolved (suc n) l = absurd (omega arith)

second-IsReachable :
    IsReachable
      (timed accepted (outside 1)).surroundings
      accepted.address
      (outside 1).events
      node_url
      13
      11
      (done 12 success ∷ done 13 success ∷ [])
unfolding new_client new_session
second-IsReachable = record {
  is_parsed = node_url-parsed;
  is_found = refl;
  is_named = refl;
  joins = plainly (opens arriving);
}

second-IsServed :
    IsServed small_json small_mile
      (λ n. n)
      (timed accepted (outside 1))
      accepted.address
      "get-nodes"
      result
second-IsServed = record {
  address = node_url;
  deadline = 13;
  connected_at = 11;
  sent_at = 12;
  answered_at = 13;
  to_send = done 12 success ∷ done 13 success ∷ [];
  to_read = done 13 success ∷ [];
  left = [];
  question = b'j' ∷ [];
  reachable = second-IsReachable;
  writes = arriving;
  reads = arriving;
  is_text = refl;
  answers = ok_reply-IsAnswer;
}

after_one : IsServedAfter small_json small_mile (λ n. n) false as_string outside accepted 1
unfolding method_of
after_one = record {
  name = "get-nodes";
  given = field "result" result end;
  response = result;
  text = b'j' ∷ [];
  asks = asks_nodes;
  unresolved = first-IsUnresolved;
  served = second-IsServed;
  params_parsed = refl;
  response_dumped = refl;
}

run-serves_example :
    run small_json small_mile
      (λ n. n)
      false
      as_string
      outside
      reader
      wallets
      (codes "get-nodes" ∷ [])
    ≡ runs accepted (exited (pos 0) (record { reconnections = 1; printed = shown_response ∷ [] }))
run-serves_example =
    run-serves small_json small_mile (λ n. n) false as_string outside reader wallets
      (codes "get-nodes" ∷ []) accepted 1 3 accepted-parsed refl (omega arith) after_one
