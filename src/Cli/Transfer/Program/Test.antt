-- ===== src/Cli/Transfer/Program/Test.antt =====
-- A transfer with the option `--test`, from the command line to the attempts.
use mile_csa_jsonrpc_client.Base.{ℕ, ◌≡◌, Bool, true, Option, List, String, Text}
use mile_csa_jsonrpc_client.Effects.{returned}
use mile_csa_jsonrpc_client.Rpc.Env.{JsonLibrary, MileLibrary}
use mile_csa_jsonrpc_client.Cli.Options.{ProgramOptions, KeyLibrary, Variables, counted}
use mile_csa_jsonrpc_client.Cli.Outside.{Outside}
use mile_csa_jsonrpc_client.Cli.Password.{Terminal}
use mile_csa_jsonrpc_client.Cli.Transfer.DryRun.{IsDry}
use mile_csa_jsonrpc_client.Cli.Transfer.Attempts.{attempt}
use mile_csa_jsonrpc_client.Cli.Transfer.Attempts.Test.{IsUnsent, attempt-IsUnsent}
use mile_csa_jsonrpc_client.Cli.Transfer.Options.{
  initial, transfer_options, Program, quits, runs, crashes, stuck,
}
use mile_csa_jsonrpc_client.Cli.Transfer.Options.Test.{IsTested, program-IsTested}
use mile_csa_jsonrpc_client.Cli.Transfer.Program.{order_of, prepare, run}

module _ (J : JsonLibrary) (L : MileLibrary J.Json J.Float) (rand : ℕ → ℕ) (P : ProgramOptions)
    (as_string : Text → String) (as_amount : P.Float → J.Float) (ids : ℕ → ℕ)
    (outside : ℕ → Outside) where
  -- No transaction's id is handed over to be sent, and no attempt stops or reports an error in the
  -- sending.
  abbrev pub SendsNoTransaction : Program P.Float → Type 0
  SendsNoTransaction (quits n) = Unit {0}
  SendsNoTransaction (runs s r) =
      IsDry r
      × ((ppk : Option L.KeyPair) (n : ℕ)
          → IsUnsent (
              attempt J L rand (order_of J L rand P as_string as_amount ids outside s ppk n)
                s.address (outside n)))
  SendsNoTransaction crashes = Unit {0}
  SendsNoTransaction stuck = Unit {0}

  tested-SendsNoTransaction :
      (K : KeyLibrary) (p : Program P.Float) → IsTested P K p → SendsNoTransaction p
  tested-SendsNoTransaction K (quits n) h = tt
  tested-SendsNoTransaction K (runs s r) (e, h) = (
    h,
    λ ppk n.
        attempt-IsUnsent J L rand (order_of J L rand P as_string as_amount ids outside s ppk n) e
          s.address (outside n),
  )
  tested-SendsNoTransaction K crashes h = tt
  tested-SendsNoTransaction K stuck h = tt

  -- If the options that are stored have `--test`, then in the run of a transfer, however it comes
  -- by its key and whatever surrounds its attempts, the id of no transaction is handed over to be
  -- sent; and with any pair of keys none of its attempts stops in the sending of the request or
  -- reports an error there.
  pub run-SendsNoTransaction :
      (K : KeyLibrary) (maxpw : ℕ) (t : Terminal) (valid : Text → Bool) (input : List ℕ)
      (av : List Text) (vm : Variables P.Float)
      → P.parse_and_store (transfer_options P K (initial P K)) av ≡ returned vm
      → counted "test" vm ≡ true
      → SendsNoTransaction (run J L rand P as_string as_amount ids outside K maxpw t valid input av)
  unfolding run
  run-SendsNoTransaction K maxpw t valid input av vm e asked = tested-SendsNoTransaction K _ (
      program-IsTested P K rand maxpw t valid input
        (prepare J L rand P as_string as_amount ids outside) av vm e asked)
