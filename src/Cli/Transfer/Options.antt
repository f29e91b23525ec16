-- ===== src/Cli/Transfer/Options.antt =====
-- `parse_cmdline` of mile_cli_wallet/mile_cli_transfer.cpp, and the program from its arguments on.
pub mod Outcome
pub mod Test
use mile_csa_jsonrpc_client.Base.{
  ℕ, Bool, true, false, ◌||◌, ◌==◌, Option, none, some, List, [], ◌∷◌, String, Text, codes,
  if◌then◌else◌,
}
use mile_csa_jsonrpc_client.Base.Int.{ℤ, pos}
use mile_csa_jsonrpc_client.Effects.{
  Result, returned, threw, undefined, hung, Exception, M, pure, deref, ◌>>=◌, ◌>>◌, lift,
  continue_with, try_catch, handle,
}
use mile_csa_jsonrpc_client.Cli.Options.{
  KeyLibrary, pair_for, Ending, exits, returns, is_empty, ProgramOptions, Described, Variables,
  flag, takes_text, takes_int, takes_ushort, takes_float, counted, store, as_text, as_int,
  as_ushort, as_float, assign,
}
use mile_csa_jsonrpc_client.Cli.Password.{Terminal}
use mile_csa_jsonrpc_client.Cli.Transfer.{Prepared, Run, main}

-- What is written: the options, the keys of a new wallet, and an exception that was caught.
pub data Printed : Type 0 where
  options : Printed
  keys : String → String → Printed
  caught : Exception → Printed

-- The static variables `opt_…`, the static `RpcSession::debug_on`, and the output, the newest first.
pub record Settings (F : Type 0) : Type 0 where
  pub address : Text
  pub destination : Text
  pub asset_code : ℕ
  pub amount : F
  pub memo : Text
  pub private_key : Text
  pub reconnections : ℤ
  pub test : Bool
  pub debug_on : Bool
  pub printed : List Printed

module _ (P : ProgramOptions) (K : KeyLibrary) where
  abbrev pub initial : Settings P.Float
  initial = record {
    address = codes "http://lotus001.testnet.mile.global/v1/api";
    destination = [];
    asset_code = 100;
    amount = P.zero_float;
    memo = [];
    private_key = [];
    reconnections = pos 3;
    test = false;
    debug_on = false;
    printed = [];
  }

  abbrev print : Printed → M (Settings P.Float) (Unit {0})
  print p s = (returned tt, record s { printed = p ∷ s.printed })

  -- `desc.add_options()`
  abbrev pub transfer_options : Settings P.Float → List (Described P.Float)
  transfer_options s =
      ("help", flag)
      ∷ ("debug", flag)
      ∷ ("test", flag)
      ∷ ("url", takes_text (some s.address))
      ∷ ("to", takes_text none)
      ∷ ("asset", takes_ushort none)
      ∷ ("amount", takes_float (some s.amount))
      ∷ ("description", takes_text (some s.memo))
      ∷ ("private_key", takes_text (some s.private_key))
      ∷ ("reconnections", takes_int (some s.reconnections))
      ∷ []

  -- `po::notify(vm)`
  unfoldable pub notify : Variables P.Float → M (Settings P.Float) (Unit {0})
  notify vm = do
    store as_text (λ v s. record s { address = v }) (vm "url")
    store as_text (λ v s. record s { destination = v }) (vm "to")
    store as_ushort (λ v s. record s { asset_code = v }) (vm "asset")
    store as_float (λ v s. record s { amount = v }) (vm "amount")
    store as_text (λ v s. record s { memo = v }) (vm "description")
    store as_text (λ v s. record s { private_key = v }) (vm "private_key")
    store as_int (λ v s. record s { reconnections = v }) (vm "reconnections")

  unfoldable pub show_help : M (Settings P.Float) Ending
  show_help = do print options; pure (exits (pos 0))

  abbrev pub write_pair : Option K.KeyPair → M (Settings P.Float) Ending
  write_pair o = do
    pair ← deref o
    print (keys (K.encoded_public pair) (K.encoded_private pair))
    pure (exits (pos 0))

  -- The local `wallet_phrase` stays empty, since no option is stored in it.
  unfoldable pub show_wallet : M (Settings P.Float) Ending
  show_wallet s = continue_with write_pair (pair_for K [], s)

  unfoldable pub accept : Bool → Bool → M (Settings P.Float) Ending
  accept debug test s =
      (returned (returns true), record s { debug_on = debug || s.debug_on; test = test || s.test })

  -- The tests of the variables.
  unfoldable pub check_values : Variables P.Float → M (Settings P.Float) Ending
  unfolding show_help accept
  check_values vm s =
      if is_empty s.destination
      then show_help s
      else if s.asset_code == 100
      then show_help s
      else if P.at_most_zero s.amount
      then show_help s
      else accept (counted "debug" vm) (counted "test" vm) s

  unfoldable pub examine : Variables P.Float → M (Settings P.Float) Ending
  unfolding show_help show_wallet check_values
  examine vm s =
      if counted "help" vm
      then show_help s
      else if counted "wallet" vm
      then show_wallet s
      else check_values vm s

  -- The two handlers of `parse_cmdline`.
  unfoldable pub refuse : Exception → M (Settings P.Float) Ending
  refuse e = do print (caught e); pure (returns false)

  unfoldable pub parse_cmdline : List Text → M (Settings P.Float) Ending
  unfolding notify examine refuse
  parse_cmdline av s =
      try_catch (do vm ← lift (P.parse_and_store (transfer_options s) av); notify vm; examine vm)
        refuse s

-- The program: it quits with a code, goes on with `main` after the options, or does not return from
-- `parse_cmdline`.
pub data Program (F : Type 0) : Type 0 where
  quits : ℤ → Program F
  runs : Settings F → Run → Program F
  crashes stuck : Program F

module _ (F : Type 0) (rand : ℕ → ℕ) (maxpw : ℕ) (t : Terminal) (valid : Text → Bool)
    (input : List ℕ) (prepare : Settings F → Text → Prepared) where
  abbrev pub continued : Settings F → Run
  continued s = main rand s.reconnections s.test maxpw t valid s.private_key input (prepare s)

  -- `if (!parse_cmdline(argc, argv)) return 1;`
  unfoldable pub start : Result Ending × Settings F → Program F
  start (returned (returns true), s) = runs s (continued s)
  start (returned (returns false), s) = quits (pos 1)
  start (returned (exits n), s) = quits n
  start (threw e, s) = crashes
  start (undefined, s) = crashes
  start (hung, s) = stuck

unfoldable pub program :
    (P : ProgramOptions)
    → KeyLibrary
    → (ℕ → ℕ)
    → ℕ
    → Terminal
    → (Text → Bool)
    → List ℕ
    → (Settings P.Float → Text → Prepared)
    → List Text
    → Program P.Float
unfolding parse_cmdline start
program P K rand maxpw t valid input prepare av =
    start P.Float rand maxpw t valid input prepare (parse_cmdline P K av (initial P K))
