-- ===== src/Cli/Transfer/Program.antt =====
-- `main` of mile_cli_wallet/mile_cli_transfer.cpp from its arguments on: the attempts are made of the pair
-- of keys of the private key and of what `parse_cmdline` has left.
pub mod Outcome
pub mod Served
pub mod Test
use mile_csa_jsonrpc_client.Base.{ℕ, Bool, Option, none, some, List, [], ◌∷◌, String, Text}
use mile_csa_jsonrpc_client.Effects.{Report}
use mile_csa_jsonrpc_client.Rpc.Env.{JsonLibrary, MileLibrary}
use mile_csa_jsonrpc_client.Cli.Options.{ProgramOptions, KeyLibrary}
use mile_csa_jsonrpc_client.Cli.Outside.{Outside}
use mile_csa_jsonrpc_client.Cli.Password.{Terminal}
use mile_csa_jsonrpc_client.Cli.Transfer.{Prepared}
use mile_csa_jsonrpc_client.Cli.Transfer.Attempts.{Order, attempt}
use mile_csa_jsonrpc_client.Cli.Transfer.Options.{Settings, Program, program}

-- The functions of the program are between the types that stand for `std::string` and `float` in the
-- libraries; `ids` has the transaction ids that the attempts draw, and `outside` is what surrounds them.
module _ (J : JsonLibrary) (L : MileLibrary J.Json J.Float) (rand : ℕ → ℕ) (P : ProgramOptions)
    (as_string : Text → String) (as_amount : P.Float → J.Float) (ids : ℕ → ℕ)
    (outside : ℕ → Outside) where
  abbrev pub order_of : Settings P.Float → Option L.KeyPair → ℕ → Order J L rand
  order_of s ppk n = record {
    ppk = ppk;
    destination = as_string s.destination;
    asset_code = s.asset_code;
    amount = as_amount s.amount;
    memo = as_string s.memo;
    test = s.test;
    trx_id = ids n;
  }

  abbrev pub with_keys : Settings P.Float → Option L.KeyPair × List Report → Prepared
  with_keys s (ppk, []) = some (λ n. attempt J L rand (order_of s ppk n) s.address (outside n))
  with_keys s (ppk, r ∷ rs) = none

  -- `auto ppk = milecsa::keys::Pair::FromPrivateKey(opt_private, error_handler);`
  unfoldable pub prepare : Settings P.Float → Text → Prepared
  prepare s key = with_keys s (L.from_private_key (as_string key))

  unfoldable pub run :
      KeyLibrary → ℕ → Terminal → (Text → Bool) → List ℕ → List Text → Program P.Float
  run K maxpw t valid input av = program P K rand maxpw t valid input prepare av
