-- ===== src/Cli/Wallet.antt =====
-- `main` of mile_cli_wallet/mile_cli_wallet.cpp: a call that the error handler tries again. What the
-- n-th attempt meets is an argument.
pub mod Retries
pub mod Options
pub mod Attempts
pub mod Program
use mile_csa_jsonrpc_client.Base.{
  ℕ, zero, suc, ◌+◌, ◌-◌, Bool, true, false, List, [], ◌∷◌, ◌++◌, leb, if◌then◌else◌,
}
use mile_csa_jsonrpc_client.Base.Int.{ℤ, pos, negsuc}
use mile_csa_jsonrpc_client.Effects.{
  Code, fail, exception, empty, not_found, not_supported, timeout,
}

-- What is printed of the result: its `std::any` holds a time, a block id or a response, or
-- something else, of which nothing is printed.
pub data Shown : Type 0 where
  shown_time shown_block_id shown_response shown_nothing : Shown

-- The end of an attempt that is connected: a result without a value, a value, or an exception.
pub data Called : Type 0 where
  no_value raises : Called
  value : Shown → Called

-- An attempt: the codes that the error handler is called with, and what comes after them. It is not
-- connected; it is, and its call has ended; or an exception leaves it, its behaviour is undefined, or it
-- does not return.
pub data Attempt : Type 0 where
  unreachable : List Code → Attempt
  reached : List Code → Called → Attempt
  escapes crashes hangs : List Code → Attempt

pub record State : Type 0 where
  pub reconnections : ℕ
  pub printed : List Shown

-- How a run ends: `exit`, a return, an exception that nothing catches, undefined behaviour, or a call
-- that does not return. `lost` is an exception that leaves an attempt of the error handler: what the
-- attempt round it makes of it is not followed.
pub data Run : Type 0 where
  exited : ℤ → State → Run
  goes_on : State → Run
  escaped crashed stuck lost out_of_fuel : Run

-- `++reconnections >= opt_reconnections`
unfoldable pub reaches : ℕ → ℤ → Bool
reaches n (pos m) = leb m n
reaches n (negsuc m) = true

abbrev pub is_fail : Code → Bool
is_fail fail = true
is_fail _ = false

-- `do_request` inside the error handler.
abbrev pub nested : Run → Run
nested escaped = lost
nested (exited n s) = exited n s
nested (goes_on s) = goes_on s
nested crashed = crashed
nested stuck = stuck
nested lost = lost
nested out_of_fuel = out_of_fuel

-- `error_handler`; `retry` is the call of `do_request`, which captures the handler.
unfoldable pub on_error : ℤ → (State → Run) → Code → State → Run
on_error limit retry code s =
    if is_fail code
    then (if reaches (s.reconnections + 1) limit
        then exited (negsuc 0) (record s { reconnections = s.reconnections + 1 })
        else nested (retry (record s { reconnections = s.reconnections + 1 })))
    else exited (negsuc 0) s

abbrev pub and_then : (State → Run) → Run → Run
and_then f (exited n s) = exited n s
and_then f (goes_on s) = f s
and_then f escaped = escaped
and_then f crashed = crashed
and_then f stuck = stuck
and_then f lost = lost
and_then f out_of_fuel = out_of_fuel

-- The calls of the handler that an attempt makes, in their order.
unfoldable pub on_errors : ℤ → (State → Run) → List Code → State → Run
on_errors limit retry [] s = goes_on s
on_errors limit retry (c ∷ cs) s = and_then (on_errors limit retry cs) (on_error limit retry c s)

-- `if (!result.has_value()) exit(-1)`, and the printing.
unfoldable pub finish_call : Called → State → Run
finish_call no_value s = exited (negsuc 0) s
finish_call raises s = goes_on s
finish_call (value v) s = goes_on (record s { printed = v ∷ s.printed })

abbrev pub attempted : ℤ → (State → Run) → Attempt → State → Run
attempted limit retry (unreachable codes) s = on_errors limit retry codes s
attempted limit retry (reached codes c) s = and_then (finish_call c) (on_errors limit retry codes s)
attempted limit retry (escapes codes) s = and_then (λ t. escaped) (on_errors limit retry codes s)
attempted limit retry (crashes codes) s = and_then (λ t. crashed) (on_errors limit retry codes s)
attempted limit retry (hangs codes) s = and_then (λ t. stuck) (on_errors limit retry codes s)

-- `do_request`. Each attempt but the first comes after a reconnection, so that their number is the
-- attempt's.
unfoldable pub do_request : ℕ → ℤ → (ℕ → Attempt) → State → Run
do_request zero limit plan s = out_of_fuel
do_request (suc fuel) limit plan s =
    attempted limit (do_request fuel limit plan) (plan s.reconnections) s

abbrev pub attempts : ℤ → ℕ
attempts (pos m) = suc m
attempts (negsuc m) = 1

-- `do_request(); exit(0);`
unfoldable pub main : ℤ → (ℕ → Attempt) → Run
main limit plan =
    and_then (exited (pos 0))
      (do_request (attempts limit) limit plan (record { reconnections = 0; printed = [] }))
