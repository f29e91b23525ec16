-- ===== src/Tests/Queries.antt =====
-- The client over a session, with the json of `Fixture`.
use mile_csa_jsonrpc_client.Connection.Barred.{IsLost, Called-IsLost}
use mile_csa_jsonrpc_client.Base.{
  ◌≡◌, ◌≢◌, refl, Bool, true, false, ◌||◌, List, [], ◌∷◌, String, Text, codes, if◌then◌else◌,
}
use text.Mathlib.Text.{◌==◌ as str_eq}
use mile_csa_jsonrpc_client.Effects.{Result, returned, undefined}
use mile_csa_jsonrpc_client.Url.Parse.{https}
use mile_csa_jsonrpc_client.Session.{Session, IoEvent, done, success, close, new_session}
use mile_csa_jsonrpc_client.Session.Lifecycle.{here, new_session-IsFor}
use mile_csa_jsonrpc_client.Rpc.World.{World}
use mile_csa_jsonrpc_client.Rpc.Client.{ask}
use mile_csa_jsonrpc_client.Rpc.Call.{call}
use mile_csa_jsonrpc_client.Rpc.Call.Link.{uncalled, calling}
use mile_csa_jsonrpc_client.Connection.Transport.{Line}
use mile_csa_jsonrpc_client.Connection.Calls.{session_env, IsBarred, Called-IsBarred}
use mile_csa_jsonrpc_client.Connection.Defined.{has_key, IsJson, Called-IsDefined}
use mile_csa_jsonrpc_client.Tests.Fixture.{
  Json, null_value, end, text_value, number_value, field, object_of, has_field, field_at,
  field_or_null, field_or_undefined, text_of, small_json, small_mile, parse_answer,
}
use mile_csa_jsonrpc_client.Tests.Calls.{ok_reply}

if_true-or : (b c : Bool) → (if b then true else c) ≡ (b || c)
if_true-or true c = refl
if_true-or false c = refl

object_of-has :
    (k : String) (fields : List (String × Json)) → has_field k (object_of fields) ≡ has_key k fields
object_of-has k [] = refl
object_of-has k ((l, v) ∷ fields) =
    rw (object_of-has k fields) (if_true-or (str_eq k l) (has_key k fields))

if-defined :
    (b : Bool) (v : Json) (r : Result Json)
    → r ≢ undefined
    → (if b then returned v else r) ≢ undefined
if-defined true v r h e = cc
if-defined false v r h e = h e

if-found :
    (b c : Bool) (v : Json) (r : Result Json)
    → (if b then true else c) ≡ true
    → (c ≡ true → r ≢ undefined)
    → (if b then returned v else r) ≢ undefined
if-found true c v r q h e = cc
if-found false c v r q h e = h q e

field_at-defined : (k : String) (j : Json) → field_at k j ≢ undefined
field_at-defined k null_value e = cc
field_at-defined k end e = cc
field_at-defined k (text_value s) e = cc
field_at-defined k (number_value n) e = cc
field_at-defined k (field l v rest) e =
    if-defined (str_eq k l) v (field_at k rest) (field_at-defined k rest) e

field_or_null-defined : (k : String) (j : Json) → field_or_null k j ≢ undefined
field_or_null-defined k null_value e = cc
field_or_null-defined k end e = cc
field_or_null-defined k (text_value s) e = cc
field_or_null-defined k (number_value n) e = cc
field_or_null-defined k (field l v rest) e =
    if-defined (str_eq k l) v (field_or_null k rest) (field_or_null-defined k rest) e

field_or_undefined-defined :
    (k : String) (j : Json) → has_field k j ≡ true → field_or_undefined k j ≢ undefined
field_or_undefined-defined k null_value h e = cc
field_or_undefined-defined k end h e = cc
field_or_undefined-defined k (text_value s) h e = cc
field_or_undefined-defined k (number_value n) h e = cc
field_or_undefined-defined k (field l v rest) h e =
    if-found (str_eq k l) (has_field k rest) v (field_or_undefined k rest) h
      (field_or_undefined-defined k rest) e

text_of-defined : (j : Json) → text_of j ≢ undefined
text_of-defined null_value e = cc
text_of-defined end e = cc
text_of-defined (text_value s) e = cc
text_of-defined (number_value n) e = cc
text_of-defined (field l v rest) e = cc

int_of-defined : (j : Json) → small_json.as_int j ≢ undefined
int_of-defined null_value e = cc
int_of-defined end e = cc
int_of-defined (text_value s) e = cc
int_of-defined (number_value n) e = cc
int_of-defined (field l v rest) e = cc

parse_answer-defined : (s : Text) → parse_answer s ≢ undefined
parse_answer-defined [] e = cc
parse_answer-defined (c ∷ s) e = cc

dump-defined : (j : Json) → small_json.dump j ≢ undefined
dump-defined j e = cc

pub small_json-IsJson : IsJson small_json
small_json-IsJson = record {
  dump_defined = dump-defined;
  parse_defined = parse_answer-defined;
  at_defined = field_at-defined;
  index_defined = field_or_null-defined;
  as_text_defined = text_of-defined;
  as_int_defined = int_of-defined;
  index_const_defined = field_or_undefined-defined;
  object_has = object_of-has;
}

-- A session with a response to come, at time 10.
abbrev line : List IoEvent → Session → Line
line es s = record { session = s; events = es; replies = λ n. ok_reply; received = 0; written = [] }

abbrev open_session : Session
open_session = new_session (codes "node.mile") (codes "443") (codes "/v1/api") https true 3 10

abbrev world : Line → World (session_env small_json small_mile (λ n. n))
world l = record { link = l; next_id = 0; call_counter = 0; trx_counter = 0; log = [] }

-- One call, and then a query.
Called-IsDefined_example :
    (ask
      (session_env small_json small_mile (λ n. n))
      "get-nodes"
      null_value
      (call
        (session_env small_json small_mile (λ n. n))
        false
        "get-nodes"
        null_value
        (world (line (done 11 success ∷ done 12 success ∷ []) open_session))).1).0
    ≢ undefined
Called-IsDefined_example =
    Called-IsDefined small_json small_json-IsJson small_mile (λ n. n)
      (true, codes "node.mile", codes "443", codes "/v1/api") "get-nodes" null_value
      (new_session-IsFor (codes "node.mile") (codes "443") (codes "/v1/api") https true 3 10 here)
      (calling false "get-nodes" null_value uncalled)

-- The deadline has closed the stream.
abbrev shut_session : Session
shut_session = close open_session

Called-IsBarred_example :
    IsBarred small_json small_mile
      (λ n. n)
      (ask
        (session_env small_json small_mile (λ n. n))
        "get-nodes"
        null_value
        (call
          (session_env small_json small_mile (λ n. n))
          false
          "get-nodes"
          null_value
          (world (line (done 11 success ∷ done 12 success ∷ []) shut_session))).1)
unfolding new_session close
Called-IsBarred_example =
    Called-IsBarred small_json small_mile (λ n. n) dump-defined "get-nodes" null_value (refl, tt)
      (calling false "get-nodes" null_value uncalled)

Called-IsLost_example : IsLost (
    call
      (session_env small_json small_mile (λ n. n))
      false
      "unregister-node"
      (field "private-key" (text_value "k") end)
      (call
        (session_env small_json small_mile (λ n. n))
        false
        "get-nodes"
        null_value
        (world (line (done 11 success ∷ done 12 success ∷ []) shut_session))).1)
unfolding new_session close
Called-IsLost_example =
    Called-IsLost small_json small_mile (λ n. n) dump-defined
      (field "private-key" (text_value "k") end) (text_value "k") "k" "k" [] refl refl refl refl
      false (refl, tt) (calling false "get-nodes" null_value uncalled)
