-- ===== src/Cli/Transfer.antt =====
-- `main` of mile_cli_wallet/mile_cli_transfer.cpp: the private key, and a transfer that the error
-- handler tries again. What the n-th attempt meets with a key is an argument.
pub mod Sends
pub mod DryRun
pub mod Options
pub mod Attempts
pub mod Stops
pub mod Program
use mile_csa_jsonrpc_client.Base.{
  ℕ, zero, suc, ◌+◌, Bool, true, false, not, ◌||◌, Option, none, some, List, [], ◌∷◌, Text,
  if◌then◌else◌,
}
use mile_csa_jsonrpc_client.Base.Int.{ℤ, pos, negsuc}
use mile_csa_jsonrpc_client.Effects.{Code}
use mile_csa_jsonrpc_client.Cli.Password.{Terminal, getpasswd}
use mile_csa_jsonrpc_client.Cli.Wallet.{reaches, is_fail, attempts}

-- Is the key valid, which key is it, and what is left of the input?
abbrev pub Key : Type 0
Key = Bool × Text × List ℕ

-- `for (int j = 0; j < 3; ++j)`, with the tries that are left.
unfoldable pub prompt : ℕ → ℕ → Terminal → (Text → Bool) → Text → List ℕ → Key
prompt zero maxpw t valid key input = (false, key, input)
prompt (suc j) maxpw t valid key input =
    let r = getpasswd maxpw t true key maxpw b'*' input in
    let next = prompt j maxpw t valid r.text r.rest in
    if valid r.text then (true, r.text, r.rest) else next

-- `opt_private`, or the prompts if it is empty.
unfoldable pub find_key : ℕ → Terminal → (Text → Bool) → Text → List ℕ → Key
find_key maxpw t valid [] input = prompt 3 maxpw t valid [] input
find_key maxpw t valid (c ∷ key) input = (valid (c ∷ key), c ∷ key, input)

-- How an attempt stops before its end: an exception leaves it, its behaviour is undefined, or it does
-- not return.
pub data Stop : Type 0 where
  escapes crashes hangs : Stop

-- An attempt, with the codes that the error handler is called with: the node is not reached, or
-- gives no block id; `CreateRequest` gives nothing, or a request without a body; or there is a body,
-- and the codes of sending it follow. Or it stops: before the transaction's id is drawn, when the
-- body is to be made or printed, or when it is sent or the answer printed.
pub data Attempt : Type 0 where
  unreachable no_block no_request no_body : List Code → Attempt
  body : List Code → List Code → Attempt
  stops unprinted : Stop → List Code → Attempt
  cut : Stop → List Code → List Code → Attempt

-- What the attempts meet, after `FromPrivateKey`. It is handed the error handler before this has a
-- function, so that a report of it throws, and there are no attempts.
abbrev pub Prepared : Type 0
Prepared = Option (ℕ → Attempt)

-- `sent` has the transaction ids that were handed to `send_transaction`, the newest first, and
-- `draws` counts the calls of `rand`.
pub record State : Type 0 where
  pub reconnections : ℕ
  pub draws : ℕ
  pub sent : List ℕ

abbrev pub fresh : State
fresh = record { reconnections = 0; draws = 0; sent = [] }

-- `lost` is an exception that leaves an attempt of the error handler: what the attempt round it makes of
-- it is not followed.
pub data Run : Type 0 where
  exited : ℤ → State → Run
  goes_on : State → Run
  stopped : Stop → State → Run
  lost : State → Run
  out_of_fuel : Run

abbrev pub and_then : (State → Run) → Run → Run
and_then f (exited n s) = exited n s
and_then f (goes_on s) = f s
and_then f (stopped k s) = stopped k s
and_then f (lost s) = lost s
and_then f out_of_fuel = out_of_fuel

-- `do_request` inside the error handler.
abbrev pub nested : Run → Run
nested (stopped escapes s) = lost s
nested (stopped crashes s) = stopped crashes s
nested (stopped hangs s) = stopped hangs s
nested (exited n s) = exited n s
nested (goes_on s) = goes_on s
nested (lost s) = lost s
nested out_of_fuel = out_of_fuel

module _ (rand : ℕ → ℕ) (limit : ℤ) (test : Bool) where
  -- `error_handler`; `retry` is the call of `do_request`.
  unfoldable pub on_error : (State → Run) → Code → State → Run
  on_error retry code s =
      if reaches (s.reconnections + 1) limit || test
      then exited (negsuc 0) (record s { reconnections = s.reconnections + 1 })
      else if is_fail code
      then nested (retry (record s { reconnections = s.reconnections + 1 }))
      else goes_on (record s { reconnections = s.reconnections + 1 })

  unfoldable pub on_errors : (State → Run) → List Code → State → Run
  on_errors retry [] s = goes_on s
  on_errors retry (c ∷ cs) s = and_then (on_errors retry cs) (on_error retry c s)

  -- The body is printed if `opt_test` is set, and sent if it is not; `id` is its transaction id.
  unfoldable pub send : (State → Run) → ℕ → List Code → State → Run
  send retry id cs s =
      if test then goes_on s else on_errors retry cs (record s { sent = id ∷ s.sent })

  -- `uint64_t trx_id = rand();`
  abbrev pub drawn : State → State
  drawn s = record s { draws = s.draws + 1 }

  abbrev pub attempted : (State → Run) → Attempt → State → Run
  attempted retry (unreachable cs) s = on_errors retry cs s
  attempted retry (no_block cs) s = on_errors retry cs s
  attempted retry (no_request cs) s = and_then (stopped crashes) (on_errors retry cs (drawn s))
  attempted retry (no_body cs) s = on_errors retry cs (drawn s)
  attempted retry (body cs cs') s =
      and_then (send retry (rand s.draws) cs') (on_errors retry cs (drawn s))
  attempted retry (stops k cs) s = and_then (stopped k) (on_errors retry cs s)
  attempted retry (unprinted k cs) s = and_then (stopped k) (on_errors retry cs (drawn s))
  attempted retry (cut k cs cs') s =
      and_then (stopped k) (and_then (send retry (rand s.draws) cs') (on_errors retry cs (drawn s)))

  unfoldable pub do_request : ℕ → (ℕ → Attempt) → State → Run
  do_request zero plan s = out_of_fuel
  do_request (suc fuel) plan s = attempted (do_request fuel plan) (plan s.reconnections) s

  -- The end of `main` returns 0.
  abbrev pub begin : Prepared → Run
  begin none = stopped escapes fresh
  begin (some plan) = and_then (exited (pos 0)) (do_request (attempts limit) plan fresh)

  abbrev pub transfer : Key → (Text → Prepared) → Run
  transfer (false, key, rest) prepare = exited (negsuc 0) fresh
  transfer (true, key, rest) prepare = begin (prepare key)

  unfoldable pub main : ℕ → Terminal → (Text → Bool) → Text → List ℕ → (Text → Prepared) → Run
  main maxpw t valid key input prepare = transfer (find_key maxpw t valid key input) prepare
