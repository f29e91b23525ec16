-- ===== src/Tests/Wallets.antt =====
-- The wallet's `main` with concrete attempts.
use mile_csa_jsonrpc_client.Base.{ℕ, refl, zero, suc, [], ◌∷◌}
use mile_csa_jsonrpc_client.Base.Int.{pos}
use mile_csa_jsonrpc_client.Effects.{fail}
use mile_csa_jsonrpc_client.Cli.Wallet.{Attempt, reached, no_value, value, shown_time, main}
use mile_csa_jsonrpc_client.Cli.Wallet.Retries.{Fails, main-Fails}

-- The first attempt is connected and its request fails, and the others give a time.
abbrev pub broken_plan : ℕ → Attempt
broken_plan zero = reached (fail ∷ []) no_value
broken_plan (suc n) = reached [] (value shown_time)

main-Fails_example : Fails (pos 3) broken_plan (main (pos 3) broken_plan)
main-Fails_example = main-Fails (pos 3) broken_plan (fail ∷ []) refl
