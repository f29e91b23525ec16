-- ===== src/Tests/Programs.antt =====
-- The wallet from its command line on, over the events of a connection.
use mile_csa_jsonrpc_client.Base.{
  ℕ, refl, Bool, some, true, false, [], ◌∷◌, ◌++◌, String, Text, codes,
}
use mile_csa_jsonrpc_client.Effects.{Result, threw, is_std}
use mile_csa_jsonrpc_client.Cli.Outside.{Outside}
use mile_csa_jsonrpc_client.Cli.Wallet.Attempts.{attempt}
use mile_csa_jsonrpc_client.Cli.Wallet.Program.{run}
use mile_csa_jsonrpc_client.Cli.Transfer.Attempts.{Order}
use mile_csa_jsonrpc_client.Cli.Transfer.Attempts as Transfer
use mile_csa_jsonrpc_client.Cli.Transfer.Attempts.Outcome as Transferred
use mile_csa_jsonrpc_client.Cli.Transfer.Program as Transferring
use mile_csa_jsonrpc_client.Cli.Transfer.Program.Outcome.{IsTransferred, run-IsTransferred}
use mile_csa_jsonrpc_client.Tests.Transfers.{terminal, of_three}
use mile_csa_jsonrpc_client.Tests.Fixture.{Json, small_json, small_mile}
use mile_csa_jsonrpc_client.Tests.Calls.{ok_reply}
use mile_csa_jsonrpc_client.Tests.Queries.{small_json-IsJson}
use mile_csa_jsonrpc_client.Tests.Connections.{nearby, connecting, perl-IsBoost}
use mile_csa_jsonrpc_client.Cli.Transfer.Options as Options
use mile_csa_jsonrpc_client.Cli.Transfer.Program.Test.{SendsNoTransaction, run-SendsNoTransaction}
use mile_csa_jsonrpc_client.Tests.Options.{variables, reader, wallets, reader-IsProgramOptions}

-- The node answers each attempt.
abbrev answering : ℕ → Outside
answering n = record {
  surroundings = nearby;
  events = connecting;
  replies = λ n. ok_reply;
  next_id = 0;
  call_counter = 0;
  trx_counter = 0;
}

abbrev one_method : Text → String
one_method t = "get-nodes"

abbrev std_result : Result Json → Bool
std_result (threw x) = is_std x
std_result r = true

-- A transfer to the node, which gives a block id that is no number.
abbrev ordered : Order small_json small_mile (λ n. n)
ordered = record {
  ppk = some "k";
  destination = "x";
  asset_code = 1;
  amount = 5;
  memo = "";
  test = false;
  trx_id = 7;
}

attempt-IsAttempted_example :
    Transferred.IsAttempted small_json small_mile
      (λ n. n)
      ordered
      (answering 0)
      (codes "http://node.mile/v1")
      (Transfer.attempt small_json small_mile
        (λ n. n)
        ordered
        (codes "http://node.mile/v1")
        (answering 0))
attempt-IsAttempted_example =
    Transferred.attempt-IsAttempted small_json small_mile (λ n. n) small_json-IsJson ordered
      (codes "http://node.mile/v1") (answering 0) perl-IsBoost

run-IsTransferred_example :
    IsTransferred small_json small_mile
      (λ n. n)
      reader
      one_method
      (λ x. x)
      (λ n. n)
      answering
      of_three
      90
      terminal
      (codes "abc" ++ (10 ∷ []))
      (Transferring.run small_json small_mile
        (λ n. n)
        reader
        one_method
        (λ x. x)
        (λ n. n)
        answering
        wallets
        90
        terminal
        of_three
        (codes "abc" ++ (10 ∷ []))
        (codes "x" ∷ []))
run-IsTransferred_example =
    run-IsTransferred small_json small_mile (λ n. n) reader one_method (λ x. x) (λ n. n) answering
      of_three 90 terminal (codes "abc" ++ (10 ∷ [])) small_json-IsJson (λ n. perl-IsBoost) wallets
      reader-IsProgramOptions (codes "x" ∷ [])

run-SendsNoTransaction_example :
    SendsNoTransaction small_json small_mile
      (λ n. n)
      reader
      one_method
      (λ x. x)
      (λ n. n)
      answering
      (Transferring.run small_json small_mile
        (λ n. n)
        reader
        one_method
        (λ x. x)
        (λ n. n)
        answering
        wallets
        90
        terminal
        of_three
        (codes "abc" ++ (10 ∷ []))
        (codes "x" ∷ codes "--test" ∷ []))
run-SendsNoTransaction_example =
    run-SendsNoTransaction small_json small_mile (λ n. n) reader one_method (λ x. x) (λ n. n)
      answering wallets 90 terminal of_three (codes "abc" ++ (10 ∷ []))
      (codes "x" ∷ codes "--test" ∷ [])
      (variables (Options.transfer_options reader wallets (Options.initial reader wallets))
        (codes "x" ∷ codes "--test" ∷ []))
      refl refl
