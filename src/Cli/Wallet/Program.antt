-- ===== src/Cli/Wallet/Program.antt =====
-- `main` of mile_cli_wallet/mile_cli_wallet.cpp from its arguments on: each attempt is made of the url,
-- the method and the parameters that `parse_cmdline` has left.
pub mod Outcome
pub mod Served
use mile_csa_jsonrpc_client.Base.{ℕ, Bool, List, String, Text}
use mile_csa_jsonrpc_client.Base.Int.{ℤ, pos, negsuc}
use mile_csa_jsonrpc_client.Rpc.Env.{JsonLibrary, MileLibrary}
use mile_csa_jsonrpc_client.Cli.Options.{ProgramOptions, KeyLibrary}
use mile_csa_jsonrpc_client.Cli.Outside.{Outside}
use mile_csa_jsonrpc_client.Cli.Wallet.{Attempt}
use mile_csa_jsonrpc_client.Cli.Wallet.Attempts.{attempt}
use mile_csa_jsonrpc_client.Cli.Wallet.Options.{Settings, Program, program}

-- A deadline that is before now has passed, as one of no seconds has.
abbrev pub seconds : ℤ → ℕ
seconds (pos n) = n
seconds (negsuc n) = 0

-- The static `Client::timeout`, which `parse_cmdline` has set, for the session.
abbrev pub timed : Settings → Outside → Outside
timed s o = record o {
  surroundings = record (o.surroundings) { timeout = seconds s.client_timeout };
}

-- `as_string` is between the two types that stand for `std::string`, and `outside` is what surrounds the
-- n-th attempt.
module _ (J : JsonLibrary) (L : MileLibrary J.Json J.Float) (rand : ℕ → ℕ) (emits : Bool)
    (as_string : Text → String) (outside : ℕ → Outside) where
  unfoldable pub plan : Settings → ℕ → Attempt
  plan s n = attempt J L rand emits (as_string s.method) s.params s.address (timed s (outside n))

  unfoldable pub run : ProgramOptions → KeyLibrary → List Text → Program
  run P K av = program P K av plan
