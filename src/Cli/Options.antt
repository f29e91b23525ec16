-- ===== src/Cli/Options.antt =====
-- What the two programs use of boost::program_options, for `parse_cmdline`.
pub mod Steps
use mathlib.Core.Option
use mile_csa_jsonrpc_client.Url.Parse.{text_eq}
use text.Mathlib.Text.{◌==◌ as str_eq}
use mile_csa_jsonrpc_client.Base.{
  ℕ, ◌≡◌, ◌≢◌, Bool, true, false, Option, none, some, List, [], ◌∷◌, String, Text, if◌then◌else◌,
  codes, ◌||◌,
}
use mile_csa_jsonrpc_client.Base.Int.{ℤ}
use mile_csa_jsonrpc_client.Effects.{
  Result, returned, threw, undefined, hung, std_exception, M, pure, raise,
}
use mile_csa_jsonrpc_client.Rpc.Env.{is_there}

-- `po::value<T>`, by its type; an option without one takes no value. Of a float nothing is known but
-- what the library says.
pub data Value (Float : Type 0) : Type 0 where
  text_value : Text → Value Float
  int_value time_value : ℤ → Value Float
  ushort_value : ℕ → Value Float
  float_value : Float → Value Float
  no_argument : Value Float

-- The type of the value that an option takes, with its `default_value`.
pub data Semantic (Float : Type 0) : Type 0 where
  flag : Semantic Float
  takes_text : Option Text → Semantic Float
  takes_int takes_time : Option ℤ → Semantic Float
  takes_ushort : Option ℕ → Semantic Float
  takes_float : Option Float → Semantic Float

-- An option of `add_options()`, by its long name.
abbrev pub Described : Type 0 → Type 0
Described Float = String × Semantic Float

-- `po::variable_value`: the value, and whether it is the default.
pub record Entry (Float : Type 0) : Type 0 where
  pub value : Value Float
  pub defaulted : Bool

-- `po::variables_map`
abbrev pub Variables : Type 0 → Type 0
Variables Float = String → Option (Entry Float)

-- `po::parse_command_line` and `po::store`, and the comparison `x <= 0` of a float.
pub record ProgramOptions : Type 1 where
  pub Float : Type 0
  pub zero_float : Float
  pub at_most_zero : Float → Bool
  pub parse_and_store : List (Described Float) → List Text → Result (Variables Float)

abbrev pub semantic_of {ℓ} : {A : Type ℓ} → String → List (String × A) → Option A
semantic_of name [] = none
semantic_of name ((n, s) ∷ ds) = if str_eq name n then some s else semantic_of name ds

abbrev pub default_of : {F : Type 0} → Semantic F → Option (Value F)
default_of flag = none
default_of (takes_text d) = Option.map text_value d
default_of (takes_int d) = Option.map int_value d
default_of (takes_time d) = Option.map time_value d
default_of (takes_ushort d) = Option.map ushort_value d
default_of (takes_float d) = Option.map float_value d

-- What the library documents: the call returns or throws; only options that are described are stored;
-- a value that is marked as the default is the default of the description.
pub record IsProgramOptions (P : ProgramOptions) : Type 0 where
  pub parse_defined :
      (ds : List (Described P.Float)) (av : List Text) → P.parse_and_store ds av ≢ undefined
  pub parse_ends : (ds : List (Described P.Float)) (av : List Text) → P.parse_and_store ds av ≢ hung
  pub only_described :
      (ds : List (Described P.Float)) (av : List Text) (vm : Variables P.Float) (name : String)
      → P.parse_and_store ds av ≡ returned vm
      → semantic_of name ds ≡ none
      → vm name ≡ none
  pub default_kept :
      (ds : List (Described P.Float)) (av : List Text) (vm : Variables P.Float) (name : String)
      (s : Semantic P.Float) (e : Entry P.Float)
      → P.parse_and_store ds av ≡ returned vm
      → semantic_of name ds ≡ some s
      → vm name ≡ some e
      → e.defaulted ≡ true
      → default_of s ≡ some e.value

-- `vm.count(name)`
abbrev pub counted : {F : Type 0} → String → Variables F → Bool
counted name vm = is_there (vm name)

-- `po::notify` for the options of each type: `f` is the assignment to the variable. A value of another
-- type throws `boost::bad_any_cast`.
abbrev pub assign : {A W : Type 0} → (A → W → W) → Option A → M W (Unit {0})
assign f none w = (threw std_exception, w)
assign f (some a) w = (returned tt, f a w)

module _ {F : Type 0} where
  abbrev pub as_text : Value F → Option Text
  as_text (text_value v) = some v
  as_text _ = none

  abbrev pub as_int : Value F → Option ℤ
  as_int (int_value v) = some v
  as_int _ = none

  abbrev pub as_time : Value F → Option ℤ
  as_time (time_value v) = some v
  as_time _ = none

  abbrev pub as_ushort : Value F → Option ℕ
  as_ushort (ushort_value v) = some v
  as_ushort _ = none

  abbrev pub as_float : Value F → Option F
  as_float (float_value v) = some v
  as_float _ = none

  abbrev pub store :
      {A W : Type 0} → (Value F → Option A) → (A → W → W) → Option (Entry F) → M W (Unit {0})
  store cast f none w = (returned tt, w)
  store cast f (some e) w = assign f (cast e.value) w

-- `milecsa::keys::Pair`: `Random()`, `WithSecret(phrase)`, and the encoded keys of a pair.
pub record KeyLibrary : Type 1 where
  pub KeyPair : Type 0
  pub random : Result (Option KeyPair)
  pub with_secret : Text → Result (Option KeyPair)
  pub encoded_private : KeyPair → String
  pub encoded_public : KeyPair → String

-- How `parse_cmdline` ends: `exit(n)`, or the result.
pub data Ending : Type 0 where
  exits : ℤ → Ending
  returns : Bool → Ending

abbrev pub is_empty : Text → Bool
is_empty [] = true
is_empty _ = false

-- The pair that the option `--wallet` asks for.
module _ (K : KeyLibrary) where
  unfoldable pub pair_for : Text → Result (Option K.KeyPair)
  pair_for phrase =
      if is_empty phrase || text_eq phrase (codes "random") then K.random else K.with_secret phrase
