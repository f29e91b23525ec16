-- ===== src/Connection/Client.antt =====
-- `Client::Connect` of src/milecsa_jsonrpc.cpp and of src/milcesa_http.cpp, and `http::Client::get`.
-- The two classes have the same members but for the handler of failed responses.
pub mod Laws
use mile_csa_jsonrpc_client.Base.{
  ℕ, Bool, true, false, Option, none, some, List, [], ◌∷◌, ◌++◌, Text, ◌==◌, if◌then◌else◌,
}
use mile_csa_jsonrpc_client.Effects.{Code, Exception, exception, fail, is_std, Report, report}
use mile_csa_jsonrpc_client.Url.Parse.{Thrown}
use mile_csa_jsonrpc_client.Url.Parse.{
  Url, copy, Boost, parse, Outcome, parsed, refused, threw, c_str,
}
use mile_csa_jsonrpc_client.Session.{Session, new_session, IoEvent, Resolved, connect, write, read}
use mile_csa_jsonrpc_client.Session.{Ended, ended, thrown, null_pointer, hangs}
use mile_csa_jsonrpc_client.Session.Message.{Message, get_message}
use mile_csa_jsonrpc_client.Rpc.Env.{Reply}

pub record Client : Type 0 where
  pub url : Url
  pub verify_ssl : Bool
  pub session : Session

-- What surrounds a call: Boost, `boost::to_string`, the name service, the result of
-- `SSL_set_tlsext_host_name`, the static `Client::timeout`, and the time.
pub record Surroundings : Type 0 where
  pub boost : Boost
  pub to_string : ℕ → Text
  pub resolve : Text → Text → Resolved
  pub sni : Bool
  pub timeout : ℕ
  pub now : ℕ

-- How `Connect` ends; an exception of `Url::Parse` passes through it.
pub data Connected : Type 0 where
  connected : Client → List Report → List IoEvent → Connected
  not_connected : List Report → Connected
  url_threw : Thrown → Connected
  escaped : Exception → Connected
  crashed stuck : Connected

-- The private constructor: the client keeps a copy of the url.
unfoldable pub new_client : Surroundings → Url → Bool → Client
new_client n u verify = record {
  url = copy u;
  verify_ssl = verify;
  session = new_session u.domain (n.to_string u.port) u.path u.protocol verify n.timeout n.now;
}

abbrev pub of_connect : Client → Ended Bool → Connected
of_connect c (ended true reports s es) = connected (record c { session = s }) reports es
of_connect c (ended false reports s es) = not_connected reports
of_connect c (thrown e s es) = escaped e
of_connect c null_pointer = crashed
of_connect c hangs = stuck

unfoldable pub connect_client : Surroundings → Client → List IoEvent → Connected
connect_client n c es =
    of_connect c (connect (n.resolve c.session.host c.session.port) n.sni c.session es)

abbrev pub of_parse : Surroundings → Bool → List IoEvent → Outcome → Connected
of_parse n verify es (parsed u) = connect_client n (new_client n u verify) es
of_parse n verify es (refused c m) = not_connected (report c m ∷ [])
of_parse n verify es (threw e) = url_threw e

unfoldable pub connect_url : Surroundings → Bool → List IoEvent → Text → Connected
connect_url n verify es s = of_parse n verify es (parse n.boost s)

-- `http::Client::get`: the end of its `try` block, with the response that was read. A status
-- other than 200 gives no body and no report.
unfoldable pub got : Reply → Ended Bool → Ended (Option Text)
got reply (ended true reports s es) =
    ended (if reply.status == 200 then some (c_str reply.body) else none) reports s es
got reply (ended false reports s es) = ended none reports s es
got reply (thrown e s es) = thrown e s es
got reply null_pointer = null_pointer
got reply hangs = hangs

-- A write that returns true has made no report.
abbrev pub after_get_write : Reply → Ended Bool → Ended (Option Text)
after_get_write reply (ended true reports s es) = got reply (read s es)
after_get_write reply (ended false reports s es) = ended none reports s es
after_get_write reply (thrown e s es) = thrown e s es
after_get_write reply null_pointer = null_pointer
after_get_write reply hangs = hangs

-- The handlers.
unfoldable pub get_failed : Ended (Option Text) → Ended (Option Text)
get_failed (thrown e s es) =
    ended none
      (report (if is_std e then fail else exception)
          (if is_std e then "http request: %s: %s:%s" else "http request: unknown error")
        ∷ [])
      s es
get_failed r = r

-- `answer` is what the other side makes of the request.
unfoldable pub get : (Message → Reply) → Session → List IoEvent → Ended (Option Text)
get answer s es = get_failed (after_get_write (answer (get_message s)) (write s es))
