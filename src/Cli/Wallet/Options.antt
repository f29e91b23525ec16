-- ===== src/Cli/Wallet/Options.antt =====
-- `parse_cmdline` of mile_cli_wallet/mile_cli_wallet.cpp, and the program from its arguments on.
pub mod Outcome
pub mod Timeout
use mile_csa_jsonrpc_client.Base.{
  ℕ, Bool, true, false, ◌||◌, Option, none, some, List, [], ◌∷◌, String, Text, codes, if◌then◌else◌,
}
use mile_csa_jsonrpc_client.Base.Int.{ℤ, pos}
use mile_csa_jsonrpc_client.Effects.{
  Result, returned, threw, undefined, hung, Exception, M, pure, lift, deref, ◌>>=◌, ◌>>◌,
  continue_with, try_catch, handle,
}
use mile_csa_jsonrpc_client.Url.Parse.{text_eq}
use mile_csa_jsonrpc_client.Cli.Options.{
  KeyLibrary, pair_for, Ending, exits, returns, is_empty, ProgramOptions, Described, Variables,
  flag, takes_text, takes_int, takes_time, counted, store, as_text, as_int, as_time, assign,
}
use mile_csa_jsonrpc_client.Cli.Wallet.{Attempt, Run, main}

-- What is written: the options, the list of methods, the keys of a new wallet with or without their
-- labels, and an exception that was caught.
pub data Printed : Type 0 where
  options methods : Printed
  keys : Bool → String → String → Printed
  caught : Exception → Printed

-- The static variables `opt_…` that the options set, the local `wallet_phrase`, the statics
-- `RpcSession::debug_on` and `Client::timeout`, and the output, the newest first.
pub record Settings : Type 0 where
  pub address : Text
  pub method : Text
  pub params : Text
  pub reconnections : ℤ
  pub read_timeout : ℤ
  pub wallet_phrase : Text
  pub debug_on : Bool
  pub client_timeout : ℤ
  pub printed : List Printed

abbrev pub initial : Settings
initial = record {
  address = codes "http://lotus000.testnet.mile.global/v1/api";
  method = [];
  params = codes "{}";
  reconnections = pos 3;
  read_timeout = pos 5;
  wallet_phrase = [];
  debug_on = false;
  client_timeout = pos 3;
  printed = [];
}

abbrev print : Printed → M Settings (Unit {0})
print p s = (returned tt, record s { printed = p ∷ s.printed })

-- `desc.add_options()`: the defaults are what the variables hold, but for the timeout's, which is that
-- of `opt_reconnections`.
abbrev pub wallet_options : (F : Type 0) → Settings → List (Described F)
wallet_options F s =
    ("help", flag)
    ∷ ("debug", flag)
    ∷ ("wallet", takes_text none)
    ∷ ("output", flag)
    ∷ ("url", takes_text (some s.address))
    ∷ ("method", takes_text (some s.method))
    ∷ ("params", takes_text (some s.params))
    ∷ ("reconnections", takes_int (some s.reconnections))
    ∷ ("timeout", takes_time (some s.reconnections))
    ∷ []

-- `po::notify(vm)`
unfoldable pub notify : (F : Type 0) → Variables F → M Settings (Unit {0})
notify F vm = do
  store as_text (λ v s. record s { wallet_phrase = v }) (vm "wallet")
  store as_text (λ v s. record s { address = v }) (vm "url")
  store as_text (λ v s. record s { method = v }) (vm "method")
  store as_text (λ v s. record s { params = v }) (vm "params")
  store as_int (λ v s. record s { reconnections = v }) (vm "reconnections")
  store as_time (λ v s. record s { read_timeout = v }) (vm "timeout")

unfoldable pub show_help : M Settings Ending
show_help = do print options; print methods; pure (exits (pos 0))

unfoldable pub accept : Bool → M Settings Ending
accept debug s = (
  returned (returns true),
  record s { debug_on = debug || s.debug_on; client_timeout = s.read_timeout },
)

-- The two handlers of `parse_cmdline`.
unfoldable pub refuse : Exception → M Settings Ending
refuse e = do print (caught e); pure (returns false)

module _ (K : KeyLibrary) where
  abbrev pub write_pair : Bool → Option K.KeyPair → M Settings Ending
  write_pair bare o = do
    pair ← deref o
    print (keys bare (K.encoded_private pair) (K.encoded_public pair))
    pure (exits (pos 0))

  -- The option `--wallet`; the pair is dereferenced without a test.
  unfoldable pub show_wallet : Bool → M Settings Ending
  unfolding pair_for
  show_wallet bare s = continue_with (write_pair bare) (pair_for K s.wallet_phrase, s)

module _ (P : ProgramOptions) (K : KeyLibrary) where
  unfoldable pub examine : Variables P.Float → M Settings Ending
  unfolding show_help accept show_wallet
  examine vm s =
      if counted "help" vm
      then show_help s
      else if counted "wallet" vm
      then show_wallet K (counted "output" vm) s
      else if is_empty s.method
      then show_help s
      else accept (counted "debug" vm) s

  unfoldable pub parse_cmdline : List Text → M Settings Ending
  unfolding notify examine refuse
  parse_cmdline av s =
      try_catch
        (do
          vm ← lift (P.parse_and_store (wallet_options P.Float s) av)
          notify P.Float vm
          examine vm)
        refuse s

-- The program: it quits with a code, goes on with the rest of `main` and the settings, or does not
-- return from `parse_cmdline`.
pub data Program : Type 0 where
  quits : ℤ → Program
  runs : Settings → Run → Program
  crashes stuck : Program

-- `if (!parse_cmdline(argc, argv)) return 1;`. What the attempts meet depends on the settings.
unfoldable pub start : (Settings → ℕ → Attempt) → Result Ending × Settings → Program
start plan (returned (returns true), s) = runs s (main s.reconnections (plan s))
start plan (returned (returns false), s) = quits (pos 1)
start plan (returned (exits n), s) = quits n
start plan (threw e, s) = crashes
start plan (undefined, s) = crashes
start plan (hung, s) = stuck

unfoldable pub program :
    ProgramOptions → KeyLibrary → List Text → (Settings → ℕ → Attempt) → Program
unfolding parse_cmdline start
program P K av plan = start plan (parse_cmdline P K av initial)
