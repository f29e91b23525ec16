-- ===== src/Rpc/Env.antt =====
-- What the client uses of other code: nlohmann::json, the MILE API library, and a connection.
use mile_csa_jsonrpc_client.Base.{
  ℕ, ◌≡◌, Bool, true, false, Option, none, some, List, [], ◌∷◌, String, Text,
}
use mile_csa_jsonrpc_client.Base.Int.{ℤ}
use mile_csa_jsonrpc_client.Effects.{Result, returned, M, Report, report, timeout}

-- nlohmann::json. An operation that throws on a value of the wrong kind gives a `Result`.
pub record JsonLibrary : Type 1 where
  pub Json : Type 0
  pub Float : Type 0
  pub parse : Text → Result Json
  pub dump : Json → Result Text
  pub null : Json
  pub text : String → Json
  pub number : ℕ → Json
  pub float : Float → Json
  pub zero : Float
  pub object : List (String × Json) → Json
  -- `j.count(key) > 0`
  pub has : String → Json → Bool
  -- `j.at(key)`: a missing key throws
  pub at : String → Json → Result Json
  -- `j[key]` of a constant `j`: a missing key is undefined behaviour
  pub index_const : String → Json → Result Json
  -- `j[key]` of a variable: a missing key is inserted with null
  pub index : String → Json → Result Json
  -- `j[key] = v`
  pub set : String → Json → Json → Result Json
  pub is_null : Json → Bool
  pub is_empty : Json → Bool
  -- `j == true || j == "true"`
  pub is_true : Json → Bool
  pub as_text : Json → Result String
  pub as_float : Json → Result Float
  pub as_int : Json → Result ℤ
  pub as_ushort : Json → Result ℕ

-- The MILE API library, over the values of a json library.
pub record MileLibrary (Json Float : Type 0) : Type 1 where
  pub KeyPair : Type 0
  pub Token : Type 0
  pub BlockId : Type 0
  -- `pair.get_public_key().encode()`
  pub public_key : KeyPair → String
  -- `Pair::FromPrivateKey`, with its reports
  pub from_private_key : String → Option KeyPair × List Report
  pub token_from_code : ℕ → Token
  -- a `uint256_t` that is not initialised
  pub initial_id : BlockId
  -- `StringToUInt256(text, id, false)`: the result, and what `id` holds afterwards
  pub to_uint256 : String → BlockId → Bool × BlockId
  pub block_json : BlockId → Json
  -- `CreateRequest(...)`, its `get_body()`, and the reports made
  pub transfer_request :
      KeyPair
      → String
      → BlockId
      → ℕ
      → Token
      → Float
      → Float
      → String
      → Option (Option Json) × List Report
  pub emission_request : KeyPair → BlockId → ℕ → Token → Float → Option (Option Json) × List Report
  pub register_request :
      KeyPair → String → BlockId → ℕ → Float → Float → Option (Option Json) × List Report
  pub unregister_request : KeyPair → BlockId → ℕ → Float → Option (Option Json) × List Report
  pub vote_request : KeyPair → BlockId → ℕ → Float → Float → Option (Option Json) × List Report

-- An HTTP response.
pub record Reply : Type 0 where
  pub status : ℕ
  pub body : Text

-- A connected session, as its client sees it: `write` and `read` with the reports that they make.
pub record Transport : Type 1 where
  pub Link : Type 0
  pub write : Text → M Link (Bool × List Report)
  pub read : M Link (Option Reply × List Report)
  -- clocks: microseconds, and `time(NULL)`
  pub micros : Link → ℕ
  pub seconds : Link → ℕ

-- One report if the operation failed, and none if it did not.
abbrev pub ReportsOnce : Bool → List Report → Type 0
ReportsOnce true reports = reports ≡ []
ReportsOnce false reports = (message : String) × (reports ≡ report timeout message ∷ [])

abbrev pub is_there : {A : Type 0} → Option A → Bool
is_there none = false
is_there (some a) = true

-- What the client relies on.
pub record IsTransport (t : Transport) : Type 0 where
  pub write_reports :
      (body : Text) (l l' : t.Link) (ok : Bool) (reports : List Report)
      → t.write body l ≡ (returned (ok, reports), l')
      → ReportsOnce ok reports
  pub read_reports :
      (l l' : t.Link) (reply : Option Reply) (reports : List Report)
      → t.read l ≡ (returned (reply, reports), l')
      → ReportsOnce (is_there reply) reports

pub record Env : Type 1 where
  pub json : JsonLibrary
  pub open json use *
  pub mile : MileLibrary json.Json json.Float
  pub open mile use *
  pub transport : Transport
  pub open transport use *
  -- the value of `rand()` after `srand(seed)`
  pub rand : ℕ → ℕ
