-- ===== src/Cli/Transfer/Options/Test.antt =====
-- The option `--test`, from the command line on.
use mile_csa_jsonrpc_client.Base.{
  ℕ, ◌≡◌, refl, Bool, true, false, ◌==◌, Option, none, some, List, [], Text, if◌then◌else◌,
}
use mile_csa_jsonrpc_client.Base.Int.{ℤ}
use mile_csa_jsonrpc_client.Effects.{
  Result, returned, threw, undefined, hung, continue_with, handle,
}
use mile_csa_jsonrpc_client.Cli.Options.{
  KeyLibrary, pair_for, Ending, exits, returns, is_empty, ProgramOptions, Variables, counted,
}
use mile_csa_jsonrpc_client.Cli.Password.{Terminal}
use mile_csa_jsonrpc_client.Cli.Transfer.{Prepared, main}
use mile_csa_jsonrpc_client.Cli.Transfer.DryRun.{IsDry, main-IsDry}
use mile_csa_jsonrpc_client.Cli.Transfer.Options.{
  Settings, initial, transfer_options, notify, show_help, show_wallet, write_pair, accept,
  check_values, examine, refuse, parse_cmdline, Program, quits, runs, crashes, stuck, start,
  program,
}

module _ (P : ProgramOptions) (K : KeyLibrary) where
  -- If the command line is accepted, the variable of `--test` is set.
  abbrev IsTest : Result Ending × Settings P.Float → Type 0
  IsTest (returned (returns true), s) = s.test ≡ true
  IsTest (returned (returns false), s) = Unit {0}
  IsTest (returned (exits n), s) = Unit {0}
  IsTest (threw e, s) = Unit {0}
  IsTest (undefined, s) = Unit {0}
  IsTest (hung, s) = Unit {0}

  show_help-IsTest : (s : Settings P.Float) → IsTest (show_help P K s)
  unfolding show_help
  show_help-IsTest s = tt

  show_wallet-IsTest : (s : Settings P.Float) → IsTest (show_wallet P K s)
  unfolding show_wallet
  show_wallet-IsTest s = go (pair_for K [])
    where
      go : (r : Result (Option K.KeyPair)) → IsTest (continue_with (write_pair P K) (r, s))
      go (returned (some pair)) = tt
      go (returned none) = tt
      go (threw x) = tt
      go undefined = tt
      go hung = tt

  accept-IsTest :
      (debug test : Bool) (s : Settings P.Float) → test ≡ true → IsTest (accept P K debug test s)
  unfolding accept
  accept-IsTest debug true s e = refl
  accept-IsTest debug false s e = absurd cc

  module _ (vm : Variables P.Float) (asked : counted "test" vm ≡ true) where
    check_values-IsTest : (s : Settings P.Float) → IsTest (check_values P K vm s)
    unfolding check_values
    check_values-IsTest s =
        go (is_empty s.destination) (s.asset_code == 100) (P.at_most_zero s.amount)
      where
        go :
            (missing unset small : Bool)
            → IsTest (
                if missing
                then show_help P K s
                else if unset
                then show_help P K s
                else if small
                then show_help P K s
                else accept P K (counted "debug" vm) (counted "test" vm) s)
        go true unset small = show_help-IsTest s
        go false true small = show_help-IsTest s
        go false false true = show_help-IsTest s
        go false false false = accept-IsTest (counted "debug" vm) (counted "test" vm) s asked

    examine-IsTest : (s : Settings P.Float) → IsTest (examine P K vm s)
    unfolding examine
    examine-IsTest s = go (counted "help" vm) (counted "wallet" vm)
      where
        go :
            (help wallet : Bool)
            → IsTest (
                if help
                then show_help P K s
                else if wallet
                then show_wallet P K s
                else check_values P K vm s)
        go true wallet = show_help-IsTest s
        go false true = show_wallet-IsTest s
        go false false = check_values-IsTest s

    notified-IsTest :
        (p : Result (Unit {0}) × Settings P.Float)
        → IsTest (handle (refuse P K) (continue_with (λ u. examine P K vm) p))
    unfolding refuse
    notified-IsTest (returned a, s) = go _ (examine-IsTest s)
      where
        go : (p : Result Ending × Settings P.Float) → IsTest p → IsTest (handle (refuse P K) p)
        go (returned e, t) k = k
        go (threw e, t) k = tt
        go (undefined, t) k = k
        go (hung, t) k = k
    notified-IsTest (threw e, s) = tt
    notified-IsTest (undefined, s) = tt
    notified-IsTest (hung, s) = tt

    parse_cmdline-IsTest :
        (av : List Text) (s : Settings P.Float)
        → P.parse_and_store (transfer_options P K s) av ≡ returned vm
        → IsTest (parse_cmdline P K av s)
    unfolding parse_cmdline
    parse_cmdline-IsTest av s e = rw e (notified-IsTest (notify P K vm s))

  -- If the prompts and retries are come to, then with the option, and nothing is handed over to be sent.
  abbrev pub IsTested : Program P.Float → Type 0
  IsTested (quits n) = Unit {0}
  IsTested (runs s r) = (s.test ≡ true) × IsDry r
  IsTested crashes = Unit {0}
  IsTested stuck = Unit {0}

  module _ (rand : ℕ → ℕ) (maxpw : ℕ) (t : Terminal) (valid : Text → Bool) (input : List ℕ)
      (prepare : Settings P.Float → Text → Prepared) where
    tested-IsDry :
        (test : Bool) (limit : ℤ) (key : Text) (p : Text → Prepared)
        → test ≡ true
        → IsDry (main rand limit test maxpw t valid key input p)
    tested-IsDry test limit key p e = rw e (main-IsDry rand limit maxpw t valid key input p)

    start-IsTested :
        (p : Result Ending × Settings P.Float)
        → IsTest p
        → IsTested (start P.Float rand maxpw t valid input prepare p)
    unfolding start
    start-IsTested (returned (returns true), s) h =
        (h, tested-IsDry s.test s.reconnections s.private_key (prepare s) h)
    start-IsTested (returned (returns false), s) h = tt
    start-IsTested (returned (exits n), s) h = tt
    start-IsTested (threw e, s) h = tt
    start-IsTested (undefined, s) h = tt
    start-IsTested (hung, s) h = tt

    -- If the options that are stored have `--test`, the program of a transfer runs with it, however it
    -- comes by its key and whatever the attempts are.
    pub program-IsTested :
        (av : List Text) (vm : Variables P.Float)
        → P.parse_and_store (transfer_options P K (initial P K)) av ≡ returned vm
        → counted "test" vm ≡ true
        → IsTested (program P K rand maxpw t valid input prepare av)
    unfolding program
    program-IsTested av vm e asked =
        start-IsTested _ (parse_cmdline-IsTest vm asked av (initial P K) e)
