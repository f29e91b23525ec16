-- ===== src/Session/Message.antt =====
-- The HTTP messages that `RpcSession::request` of src/milecsa_rpc_session.cpp and `http::Client::get` of
-- src/milcesa_http.cpp make for the session to write.
use mile_csa_jsonrpc_client.Base.{ℕ, Option, none, some, [], ◌++◌, Text, codes, length}
use mile_csa_jsonrpc_client.Session.{Session}

pub data Verb : Type 0 where
  post get : Verb

-- A message of Boost.Beast: its fields that are set, and its body. The version is 11 for HTTP/1.1.
pub record Message : Type 0 where
  pub version : ℕ
  pub verb : Verb
  pub target : Text
  pub host : Text
  pub user_agent : Text
  pub content_type : Option Text
  pub content_length : Option ℕ
  pub body : Text

abbrev version : Text
version = codes "v1.0"

abbrev pub user_agent : Text
user_agent = codes "MILE CLI Wallet" ++ version

-- `req`, after `prepare_payload`; the body is the text that `dump` has made.
unfoldable pub post_message : Session → Text → Message
post_message s content = record {
  version = 11;
  verb = post;
  target = s.target;
  host = s.host;
  user_agent = user_agent;
  content_type = some (codes "application/json");
  content_length = some (length content);
  body = content;
}

unfoldable pub get_message : Session → Message
get_message s = record {
  version = 11;
  verb = get;
  target = s.target;
  host = s.host;
  user_agent = user_agent;
  content_type = none;
  content_length = none;
  body = [];
}
