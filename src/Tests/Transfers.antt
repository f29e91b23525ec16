-- ===== src/Tests/Transfers.antt =====
-- Transfers with concrete attempts.
use mile_csa_jsonrpc_client.Base.{
  ℕ, ◌+◌, ◌≡◌, ◌==◌, Bool, true, false, some, List, [], ◌∷◌, ◌++◌, Text, codes, length, refl,
}
use mile_csa_jsonrpc_client.Base.Int.{pos, negsuc}
use mile_csa_jsonrpc_client.Effects.{fail}
use mile_csa_jsonrpc_client.Cli.Password.{Terminal}
use mile_csa_jsonrpc_client.Cli.Transfer.{
  Prepared, body, main, find_key, exited, do_request, on_errors,
}
use mile_csa_jsonrpc_client.Cli.Transfer.{send, on_error}
use mile_csa_jsonrpc_client.Cli.Wallet.{reaches}
use mile_csa_jsonrpc_client.Cli.Transfer.Sends.{HasSent, main-HasSent}

abbrev pub terminal : Terminal
terminal = record { gets = true; sets = true; resets = true }

-- A key of three bytes is valid.
abbrev pub of_three : Text → Bool
of_three key = length key == 3

-- Every attempt sends the transfer, and its answer cannot be read.
abbrev pub unlucky : Text → Prepared
unlucky key = some (λ n. body [] (fail ∷ []))

-- The first key is too short.
abbrev typing : List ℕ
typing = codes "ab" ++ (10 ∷ (codes "abc" ++ (10 ∷ [])))

main-HasSent_example :
    HasSent (pos 3) (main (λ n. n + 100) (pos 3) false 90 terminal of_three [] typing unlucky)
main-HasSent_example =
    main-HasSent (λ n. n + 100) (pos 3) false 90 terminal of_three [] typing unlucky

-- The transfer is sent three times, each time with another transaction id.
sent_three_times :
    main (λ n. n + 100) (pos 3) false 90 terminal of_three (codes "abc") [] unlucky
    ≡ exited (negsuc 0) (record { reconnections = 3; draws = 3; sent = 102 ∷ 101 ∷ 100 ∷ [] })
unfolding main find_key do_request on_errors send on_error reaches
sent_three_times = refl
