-- ===== src/Tests/Messages.antt =====
-- What is written for a call of a connected client.
use mile_csa_jsonrpc_client.Base.{◌≡◌, refl, true, false, List, [], ◌∷◌, Text, codes}
use mile_csa_jsonrpc_client.Effects.{Report}
use mile_csa_jsonrpc_client.Regex.{backtrack}
use mile_csa_jsonrpc_client.Url.Pattern.{url_regex, scheme, authority, file_path, tail}
use mile_csa_jsonrpc_client.Url.Parse.{http, parse, upper, finish, read_port}
use mile_csa_jsonrpc_client.Session.{IoEvent, done, success, new_session, connect}
use mile_csa_jsonrpc_client.Rpc.World.{World}
use mile_csa_jsonrpc_client.Rpc.Call.{call}
use mile_csa_jsonrpc_client.Rpc.Call.Link.{uncalled, calling}
use mile_csa_jsonrpc_client.Connection.Client.{
  Client, Connected, connected, connect_url, connect_client, new_client,
}
use mile_csa_jsonrpc_client.Connection.Calls.{session_env}
use mile_csa_jsonrpc_client.Connection.Messages.{IsPost, Every, connected-posts}
use mile_csa_jsonrpc_client.Tests.Fixture.{null_value, small_json, small_mile}
use mile_csa_jsonrpc_client.Tests.Calls.{ok_reply}
use mile_csa_jsonrpc_client.Tests.Connections.{nearby, connecting, perl-IsBoost}

abbrev address : Text
address = codes "http://a/v1"

-- Before the connection.
abbrev unconnected : Client
unconnected = record {
  url = record {
    url_string = [];
    protocol = http;
    domain = [];
    port = 80;
    path = [];
    query = [];
    fragment = [];
  };
  verify_ssl = true;
  session = new_session [] [] [] http true 3 0;
}

abbrev client_of : Connected → Client
client_of (connected c reports es) = c
client_of other = unconnected

abbrev reports_of : Connected → List Report
reports_of (connected c reports es) = reports
reports_of other = []

abbrev events_of : Connected → List IoEvent
events_of (connected c reports es) = es
events_of other = []

abbrev made : Connected
made = connect_url nearby true connecting address

address-connected : made ≡ connected (client_of made) (reports_of made) (events_of made)
unfolding connect_url parse backtrack url_regex scheme authority file_path tail upper finish
    read_port connect_client connect new_client new_session
address-connected = refl

abbrev before : World (session_env small_json small_mile (λ n. n))
before = record {
  link = record {
    session = (client_of made).session;
    events = done 13 success ∷ done 14 success ∷ [];
    replies = λ n. ok_reply;
    received = 0;
    written = [];
  };
  next_id = 0;
  call_counter = 0;
  trx_counter = 0;
  log = [];
}

connected-posts_example :
    Every
      (IsPost (client_of made).url.domain (client_of made).url.path)
      (call
        (session_env small_json small_mile (λ n. n))
        false
        "get-nodes"
        null_value
        before).1.link.written
connected-posts_example =
    connected-posts small_json small_mile (λ n. n) nearby true connecting (events_of made) address
      (client_of made) (reports_of made) perl-IsBoost address-connected {w = before} refl refl
      (calling false "get-nodes" null_value uncalled)
