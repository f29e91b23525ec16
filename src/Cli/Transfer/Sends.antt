-- ===== src/Cli/Transfer/Sends.antt =====
-- How often a transfer is sent.
pub mod Bounds
use mile_csa_jsonrpc_client.Base.{
  ℕ, zero, suc, ◌+◌, ◌≤◌, ◌<◌, ◌≡◌, ◌⊎◌, inl, inr, refl, Bool, true, false, ◌||◌, none, some,
}
use mile_csa_jsonrpc_client.Base.{List, [], ◌∷◌, Text, length, if◌then◌else◌, arith}
use mile_csa_jsonrpc_client.Base.Int.{ℤ, pos, negsuc}
use mile_csa_jsonrpc_client.Effects.{Code}
use mile_csa_jsonrpc_client.Cli.Password.{Terminal}
use mile_csa_jsonrpc_client.Cli.Wallet.{reaches, is_fail, attempts}
use mile_csa_jsonrpc_client.Cli.Wallet.Retries.Bounds.{bound, reaches-bound, enough, some_bound}
use mile_csa_jsonrpc_client.Cli.Transfer.{
  Attempt, unreachable, no_block, no_request, no_body, body, stops, unprinted, cut, Stop, escapes,
  crashes, hangs, State,
}
use mile_csa_jsonrpc_client.Cli.Transfer.{
  Run, exited, goes_on, stopped, lost, out_of_fuel, and_then, nested,
}
use mile_csa_jsonrpc_client.Cli.Transfer.{
  Key, on_error, on_errors, send, drawn, attempted, do_request, transfer,
}
use mile_csa_jsonrpc_client.Cli.Transfer.{find_key, main}
use mile_csa_jsonrpc_client.Cli.Transfer.{Prepared, begin, fresh}
use mile_csa_jsonrpc_client.Cli.Transfer.Sends.Bounds.{Bounded, do_request-Bounded}

-- The program has ended, with 0 or -1 if it has exited, after no more reconnections and no more
-- transactions than `bound limit`.
abbrev pub HasSent : ℤ → Run → Type 0
HasSent limit (exited code t) =
    ((code ≡ pos 0) ⊎ (code ≡ negsuc 0))
    × (t.reconnections ≤ bound limit)
    × (length t.sent ≤ bound limit)
HasSent limit (goes_on t) = ⊥
HasSent limit (stopped k t) = (t.reconnections ≤ bound limit) × (length t.sent ≤ bound limit)
HasSent limit (lost t) = (t.reconnections ≤ bound limit) × (length t.sent ≤ bound limit)
HasSent limit out_of_fuel = ⊥

exit-HasSent :
    (limit : ℤ) (r : Run) → Bounded limit 1 fresh r → HasSent limit (and_then (exited (pos 0)) r)
exit-HasSent limit (exited code t) (a, b, c, d) = (inr a, c, omega arith)
exit-HasSent limit (goes_on t) (b, c, d) = (inl refl, omega arith, omega arith)
exit-HasSent limit (stopped k t) (b, c, d) = (omega arith, omega arith)
exit-HasSent limit (lost t) (b, c, d) = (omega arith, omega arith)
exit-HasSent limit out_of_fuel h = h

begin-HasSent :
    (rand : ℕ → ℕ) (limit : ℤ) (test : Bool) (p : Prepared)
    → HasSent limit (begin rand limit test p)
begin-HasSent rand limit test none = (omega arith, omega arith)
begin-HasSent rand limit test (some plan) = exit-HasSent limit _ (
    do_request-Bounded rand limit test (attempts limit) plan fresh (some_bound limit)
      (enough limit))

transfer-HasSent :
    (rand : ℕ → ℕ) (limit : ℤ) (test : Bool) (key : Key) (prepare : Text → Prepared)
    → HasSent limit (transfer rand limit test key prepare)
transfer-HasSent rand limit test (false, key, rest) prepare = (inr refl, omega arith, omega arith)
transfer-HasSent rand limit test (true, key, rest) prepare =
    begin-HasSent rand limit test (prepare key)

-- Whatever is typed and whatever the attempts meet, the prompts and the nested retries end and the
-- fuel is enough: if the program exits it does so with 0 or -1, and however it ends, also by an
-- exception, by undefined behaviour or in a call that does not return, it has made no more
-- reconnections and sent no more transactions than its option says, and one if the option is not
-- positive.
pub main-HasSent :
    (rand : ℕ → ℕ) (limit : ℤ) (test : Bool) (maxpw : ℕ) (t : Terminal) (valid : Text → Bool)
    (key : Text) (input : List ℕ) (prepare : Text → Prepared)
    → HasSent limit (main rand limit test maxpw t valid key input prepare)
unfolding main
main-HasSent rand limit test maxpw t valid key input prepare =
    transfer-HasSent rand limit test (find_key maxpw t valid key input) prepare
