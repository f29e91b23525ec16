-- ===== src/Tests/Connections.antt =====
-- `Connect` and `get` at concrete events.
use mile_csa_jsonrpc_client.Base.{true, List, [], ◌∷◌, codes, refl, if◌then◌else◌}
use mile_csa_jsonrpc_client.Url.Parse.{text_eq, perl, IsBoost, https}
use mile_csa_jsonrpc_client.Session.{
  Session, IoEvent, opening, done, success, endpoints, new_session,
}
use mile_csa_jsonrpc_client.Session.Ready.{new_session-IsReady}
use mile_csa_jsonrpc_client.Session.Message.{Message, get_message}
use mile_csa_jsonrpc_client.Rpc.Env.{Reply}
use mile_csa_jsonrpc_client.Connection.Client.{Surroundings, connect_url, get}
use mile_csa_jsonrpc_client.Connection.Client.Laws.{
  IsConnected, IsGot, connect_url-IsConnected, get-IsGot,
}

-- Every host is found, and every port is written as 8080.
abbrev pub nearby : Surroundings
nearby = record {
  boost = perl;
  to_string = λ n. codes "8080";
  resolve = λ host port. endpoints true;
  sni = true;
  timeout = 3;
  now = 10;
}

abbrev pub connecting : List IoEvent
connecting = opening 10 ∷ done 11 success ∷ done 12 success ∷ []

pub perl-IsBoost : IsBoost perl
perl-IsBoost = record { match_order = λ r s o e. cc; upper_case = λ s a. refl }

connect_url-IsConnected_example :
    IsConnected nearby
      (codes "https://node.mile:8080/v1?a=1")
      (connect_url nearby true connecting (codes "https://node.mile:8080/v1?a=1"))
connect_url-IsConnected_example =
    connect_url-IsConnected nearby true connecting (codes "https://node.mile:8080/v1?a=1")
      perl-IsBoost

abbrev page_session : Session
page_session = new_session (codes "node.mile") (codes "443") (codes "/") https true 3 10

-- Only the root is there.
abbrev pages : Message → Reply
pages m =
    if text_eq m.target (codes "/")
    then record { status = 200; body = codes "hello" }
    else record { status = 404; body = codes "none" }

get-IsGot_example :
    IsGot
      (pages (get_message page_session))
      (get pages page_session (done 11 success ∷ done 12 success ∷ []))
get-IsGot_example =
    get-IsGot pages page_session (done 11 success ∷ done 12 success ∷ [])
      (new_session-IsReady (codes "node.mile") (codes "443") (codes "/") https true 3 10)
