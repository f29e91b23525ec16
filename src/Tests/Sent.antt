-- ===== src/Tests/Sent.antt =====
-- A transfer that is sent, with a private key that is typed.
use mile_csa_jsonrpc_client.Base.{ℕ, ◌≡◌, refl, true, some, [], ◌∷◌, ◌++◌, String, Text, codes}
use mile_csa_jsonrpc_client.Base.Int.{pos}
use mile_csa_jsonrpc_client.Effects.{returned}
use mile_csa_jsonrpc_client.Regex.{backtrack}
use mile_csa_jsonrpc_client.Url.Pattern.{url_regex, scheme, authority, file_path, tail}
use mile_csa_jsonrpc_client.Url.Parse.{Url, http, parse, parsed, perl, upper, finish, read_port}
use mile_csa_jsonrpc_client.Session.{done, opening, success, new_session}
use mile_csa_jsonrpc_client.Session.Prompt.{arriving}
use mile_csa_jsonrpc_client.Session.Prompt.Connect.{opens, plainly}
use mile_csa_jsonrpc_client.Connection.Client.{new_client}
use mile_csa_jsonrpc_client.Connection.Reached.{IsReachable, joined-IsReady, joined-open}
use mile_csa_jsonrpc_client.Cli.Options.{returns}
use mile_csa_jsonrpc_client.Rpc.Request.{command}
use mile_csa_jsonrpc_client.Connection.Transport.{Line}
use mile_csa_jsonrpc_client.Connection.Answers.{IsTimely, again-IsTimely}
use mile_csa_jsonrpc_client.Cli.Outside.{Outside, E}
use mile_csa_jsonrpc_client.Cli.Transfer.{exited, find_key, prompt}
use mile_csa_jsonrpc_client.Cli.Password.{
  getpasswd, after_loop, read_loop, goes_on, cap_size, take_byte,
}
use mile_csa_jsonrpc_client.Cli.Transfer.Attempts.{Order}
use mile_csa_jsonrpc_client.Cli.Transfer.Attempts.Served.{IsServed, connected_world}
use mile_csa_jsonrpc_client.Cli.Transfer.Options.{Settings, parse_cmdline, initial, runs}
use mile_csa_jsonrpc_client.Cli.Transfer.Program.{run, order_of}
use mile_csa_jsonrpc_client.Cli.Transfer.Program.Served.{IsServedAtOnce, run-sends}
use mile_csa_jsonrpc_client.Tests.Fixture.{
  null_value, end, field, text_value, small_json, small_mile,
}
use mile_csa_jsonrpc_client.Tests.Calls.{ok_reply}
use mile_csa_jsonrpc_client.Tests.Connections.{nearby}
use mile_csa_jsonrpc_client.Tests.Options.{reader, wallets}
use mile_csa_jsonrpc_client.Tests.Transfers.{terminal, of_three}
use mile_csa_jsonrpc_client.Tests.Answers.{ok_reply-IsAnswer, result}

abbrev node_url : Url
node_url = record {
  url_string = codes "http://lotus001.testnet.mile.global/v1/api";
  protocol = http;
  domain = codes "lotus001.testnet.mile.global";
  port = 80;
  path = codes "/v1/api";
  query = [];
  fragment = [];
}

node_url-parsed : parse perl (codes "http://lotus001.testnet.mile.global/v1/api") ≡ parsed node_url
unfolding parse backtrack url_regex scheme authority file_path tail upper finish read_port
node_url-parsed = refl

abbrev outside : ℕ → Outside
outside n = record {
  surroundings = nearby;
  events =
      opening 10
      ∷ done 11 success
      ∷ done 12 success
      ∷ done 13 success
      ∷ done 14 success
      ∷ done 15 success
      ∷ [];
  replies = λ n. ok_reply;
  next_id = 0;
  call_counter = 0;
  trx_counter = 0;
}

abbrev as_string : Text → String
as_string t = "k"

abbrev accepted : Settings ℕ
accepted = record (initial reader wallets) { destination = codes "x"; asset_code = 1; amount = 5 }

accepted-parsed :
    parse_cmdline reader wallets (codes "x" ∷ []) (initial reader wallets)
    ≡ (returned (returns true), accepted)
unfolding parse_cmdline
accepted-parsed = refl

node_url-IsReachable :
    IsReachable nearby accepted.address
      (outside 0).events
      node_url
      13
      11
      (done 12 success ∷ done 13 success ∷ done 14 success ∷ done 15 success ∷ [])
unfolding new_client new_session
node_url-IsReachable = record {
  is_parsed = node_url-parsed;
  is_found = refl;
  is_named = refl;
  joins = plainly (opens arriving);
}

abbrev order : Order small_json small_mile (λ n. n)
order =
    order_of small_json small_mile (λ n. n) reader as_string (λ x. x) (λ n. n) outside accepted
      (some "k") 0

abbrev first : Line
first =
    (connected_world small_json small_mile (λ n. n) (outside 0) node_url 13 11
      (done 12 success ∷ done 13 success ∷ done 14 success ∷ done 15 success ∷ [])).link

first-IsTimely : IsTimely first 12 13 (done 14 success ∷ done 15 success ∷ [])
first-IsTimely = record {
  between = done 13 success ∷ done 14 success ∷ done 15 success ∷ [];
  ready = joined-IsReady nearby accepted.address _ node_url 13 11 _ node_url-IsReachable;
  is_open = joined-open nearby node_url 13 11;
  sent = arriving;
  was_read = arriving;
}

order-IsServed : IsServed small_json small_mile (λ n. n) order (outside 0) accepted.address
order-IsServed = record {
  address = node_url;
  deadline = 13;
  connected_at = 11;
  to_ask = done 12 success ∷ done 13 success ∷ done 14 success ∷ done 15 success ∷ [];
  block = 0;
  question = b'j' ∷ [];
  asked_at = 12;
  identified_at = 13;
  to_send = done 14 success ∷ done 15 success ∷ [];
  pair = "k";
  body = end;
  printed = b'j' ∷ [];
  reachable = node_url-IsReachable;
  is_identified = record {
    reply = result;
    member = text_value "x";
    text = "x";
    is_text = refl;
    in_time = first-IsTimely;
    is_answer = ok_reply-IsAnswer;
    not_empty = refl;
    found = refl;
    is_id = refl;
    same_id = refl;
  };
  has_keys = refl;
  is_made = refl;
  is_printed = refl;
  is_real = refl;
  is_taken = record {
    transaction =
        field "params" end
          (command (E small_json small_mile (λ n. n)) "send-transaction" null_value 1);
    message = b'j' ∷ [];
    sent_at = 14;
    confirmed_at = 15;
    left = [];
    reply = result;
    shown = b'j' ∷ [];
    is_command = refl;
    is_text = refl;
    in_time =
        again-IsTimely first 12 13 (done 14 success ∷ done 15 success ∷ []) (b'j' ∷ []) 14 15
          (done 15 success ∷ []) [] first-IsTimely arriving arriving;
    is_answer = ok_reply-IsAnswer;
    is_shown = refl;
  };
}

at_once :
    IsServedAtOnce small_json small_mile
      (λ n. n)
      reader
      as_string
      (λ x. x)
      (λ n. n)
      outside
      wallets
      90
      terminal
      of_three
      (codes "abc" ++ (10 ∷ []))
      accepted
unfolding find_key prompt getpasswd after_loop read_loop goes_on cap_size take_byte
at_once = record {
  key = codes "abc";
  rest = [];
  ppk = some "k";
  is_found = refl;
  has_pair = refl;
  is_real = refl;
  served = order-IsServed;
}

run-sends_example :
    run small_json small_mile
      (λ n. n)
      reader
      as_string
      (λ x. x)
      (λ n. n)
      outside
      wallets
      90
      terminal
      of_three
      (codes "abc" ++ (10 ∷ []))
      (codes "x" ∷ [])
    ≡ runs accepted (exited (pos 0) (record { reconnections = 0; draws = 1; sent = 0 ∷ [] }))
run-sends_example =
    run-sends small_json small_mile (λ n. n) reader as_string (λ x. x) (λ n. n) outside wallets 90
      terminal of_three (codes "abc" ++ (10 ∷ [])) (codes "x" ∷ []) accepted accepted-parsed at_once
