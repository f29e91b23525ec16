-- ===== src/Tests/Fixture.antt =====
-- A concrete environment for the client: a small json, a library whose values are texts and numbers,
-- and a connection that answers with the replies that it is given.
use text.Mathlib.Text.{◌==◌ as str_eq}
use mile_csa_jsonrpc_client.Base.{
  ℕ, ◌≡◌, Bool, true, false, Option, none, some, List, [], ◌∷◌, String,
}
use mile_csa_jsonrpc_client.Base.{Text, length, if◌then◌else◌}
use mile_csa_jsonrpc_client.Base.Int.{ℤ, pos}
use mile_csa_jsonrpc_client.Effects.{
  Result, returned, threw, undefined, parse_error, type_error, json_out_of_range,
}
use mile_csa_jsonrpc_client.Effects.{timeout, Report, report, M}
use mile_csa_jsonrpc_client.Rpc.Env.{
  JsonLibrary, MileLibrary, Reply, Transport, IsTransport, ReportsOnce, is_there, Env,
}
use mile_csa_jsonrpc_client.Rpc.World.{World}

-- An object is a chain of fields, the newest first.
pub data Json : Type 0 where
  null_value end : Json
  text_value : String → Json
  number_value : ℕ → Json
  field : String → Json → Json → Json

abbrev pub object_of : List (String × Json) → Json
object_of [] = end
object_of ((k, v) ∷ fields) = field k v (object_of fields)

abbrev pub has_field : String → Json → Bool
has_field k (field l v rest) = if str_eq k l then true else has_field k rest
has_field k _ = false

abbrev pub field_at : String → Json → Result Json
field_at k (field l v rest) = if str_eq k l then returned v else field_at k rest
field_at k end = threw json_out_of_range
field_at k _ = threw type_error

abbrev pub field_or_undefined : String → Json → Result Json
field_or_undefined k (field l v rest) = if str_eq k l then returned v else field_or_undefined k rest
field_or_undefined k end = undefined
field_or_undefined k _ = threw type_error

abbrev pub field_or_null : String → Json → Result Json
field_or_null k (field l v rest) = if str_eq k l then returned v else field_or_null k rest
field_or_null k end = returned null_value
field_or_null k _ = threw type_error

abbrev is_null_value : Json → Bool
is_null_value null_value = true
is_null_value _ = false

abbrev is_empty_value : Json → Bool
is_empty_value null_value = true
is_empty_value end = true
is_empty_value _ = false

abbrev pub text_of : Json → Result String
text_of (text_value s) = returned s
text_of _ = threw type_error

abbrev number_of : Json → Result ℕ
number_of (number_value n) = returned n
number_of _ = threw type_error

abbrev int_of : Json → Result ℤ
int_of (number_value n) = returned (pos n)
int_of _ = threw type_error

-- The empty text is no json; any other is an answer with a block id that is no number.
abbrev pub parse_answer : Text → Result Json
parse_answer [] = threw parse_error
parse_answer (c ∷ s) = returned (field "result" (field "current-block-id" (text_value "x") end) end)

abbrev pub small_json : JsonLibrary
small_json = record {
  Json = Json;
  Float = ℕ;
  parse = parse_answer;
  dump = λ j. returned (b'j' ∷ []);
  null = null_value;
  text = text_value;
  number = number_value;
  float = number_value;
  zero = 0;
  object = object_of;
  has = has_field;
  at = field_at;
  index_const = field_or_undefined;
  index = field_or_null;
  set = λ k v j. returned (field k v j);
  is_null = is_null_value;
  is_empty = is_empty_value;
  is_true = λ j. false;
  as_text = text_of;
  as_float = number_of;
  as_int = int_of;
  as_ushort = number_of;
}

-- A key is its text, the empty one excepted; only "7" is a block id.
abbrev pub small_mile : MileLibrary Json ℕ
small_mile = record {
  KeyPair = String;
  Token = ℕ;
  BlockId = ℕ;
  public_key = λ k. k;
  from_private_key = λ s. if str_eq s "" then (none, report timeout "empty" ∷ []) else (some s, []);
  token_from_code = λ n. n;
  initial_id = 0;
  to_uint256 = λ s id. if str_eq s "7" then (true, 7) else (false, id);
  block_json = number_value;
  transfer_request = λ pair to block trx token amount fee description. (some (some end), []);
  emission_request = λ pair block trx token fee. (some (some end), []);
  register_request = λ pair address block trx amount fee. (some (some end), []);
  unregister_request = λ pair block trx fee. (some (some end), []);
  vote_request = λ pair block trx amount fee. (some (some end), []);
}

-- `write` succeeds, and `read` gives the next reply.
abbrev next_reply : M (List Reply) (Option Reply × List Report)
next_reply [] = (returned (none, report timeout "Reading response timeout" ∷ []), [])
next_reply (r ∷ rs) = (returned (some r, []), rs)

abbrev replies : Transport
replies = record {
  Link = List Reply;
  write = λ body l. (returned (true, []), l);
  read = next_reply;
  micros = length;
  seconds = length;
}

write_once :
    (l l' : List Reply) (ok : Bool) (reports : List Report)
    → replies.write [] l ≡ (returned (ok, reports), l')
    → ReportsOnce ok reports
write_once l l' true reports e = cc
write_once l l' false reports e = cc

read_once :
    (l l' : List Reply) (reply : Option Reply) (reports : List Report)
    → next_reply l ≡ (returned (reply, reports), l')
    → ReportsOnce (is_there reply) reports
read_once [] l' (some r) reports e = cc
read_once [] l' none reports e = ("Reading response timeout", cc)
read_once (r ∷ rs) l' (some r') reports e = cc
read_once (r ∷ rs) l' none reports e = cc

pub replies-IsTransport : IsTransport replies
replies-IsTransport = record {
  write_reports = λ body l l' ok reports e. write_once l l' ok reports e;
  read_reports = read_once;
}

abbrev pub env : Env
env = record { json = small_json; mile = small_mile; transport = replies; rand = λ n. n }

abbrev pub start : List Reply → World env
start rs = record { link = rs; next_id = 0; call_counter = 0; trx_counter = 0; log = [] }
