-- ===== src/Cli/Wallet/Retries.antt =====
-- The retries end, and what the program's exit says of them.
pub mod Bounds
use mile_csa_jsonrpc_client.Base.{
  ℕ, zero, suc, ◌+◌, ◌≤◌, ◌<◌, ◌≡◌, ◌⊎◌, inl, inr, refl, Bool, true, false,
}
use mile_csa_jsonrpc_client.Base.{List, [], ◌∷◌, arith, if◌then◌else◌, leb}
use mile_csa_jsonrpc_client.Base.Int.{ℤ, pos, negsuc}
use mile_csa_jsonrpc_client.Effects.{Code, fail}
use mile_csa_jsonrpc_client.Cli.Wallet.{
  Attempt, unreachable, reached, escapes, crashes, hangs, Called, no_value, raises, value, Shown,
}
use mile_csa_jsonrpc_client.Cli.Wallet.{
  State, Run, exited, goes_on, escaped, crashed, stuck, lost, out_of_fuel, nested, reaches, is_fail,
}
use mile_csa_jsonrpc_client.Cli.Wallet.{
  on_error, on_errors, and_then, finish_call, attempted, do_request,
}
use mile_csa_jsonrpc_client.Cli.Wallet.{attempts, main}
use mile_csa_jsonrpc_client.Cli.Wallet.Retries.Bounds.{
  bound, IsMet, Bounded, on_errors-Bounded, do_request-Bounded, enough, some_bound,
}

module _ (limit : ℤ) (plan : ℕ → Attempt) where
  -- The program has ended: with 0 or with -1, after no more reconnections than `bound limit`; or as
  -- one of its attempts has ended, which an exception has left, whose behaviour is undefined, or which
  -- does not return.
  abbrev pub HasEnded : Run → Type 0
  HasEnded (exited code s) = ((code ≡ pos 0) ⊎ (code ≡ negsuc 0)) × (s.reconnections ≤ bound limit)
  HasEnded (goes_on s) = ⊥
  HasEnded escaped = IsMet limit plan escapes
  HasEnded crashed = IsMet limit plan crashes
  HasEnded stuck = IsMet limit plan hangs
  HasEnded lost = IsMet limit plan escapes
  HasEnded out_of_fuel = ⊥

  exit-HasEnded :
      (n : ℕ) (r : Run) → Bounded limit plan n r → HasEnded (and_then (exited (pos 0)) r)
  exit-HasEnded n (exited code s) (a, b, c) = (inr a, c)
  exit-HasEnded n (goes_on s) (b, c) = (inl refl, omega arith)
  exit-HasEnded n escaped h = h
  exit-HasEnded n crashed h = h
  exit-HasEnded n stuck h = h
  exit-HasEnded n lost h = h
  exit-HasEnded n out_of_fuel h = h

-- Whatever the attempts meet, the nested retries end and the fuel is enough: the program exits with
-- 0 or -1, after no more reconnections than its option says, and one if the option is not positive;
-- or it ends as one of the attempts that it may make, which an exception leaves, whose behaviour is
-- undefined, or which does not return.
pub main-HasEnded : (limit : ℤ) (plan : ℕ → Attempt) → HasEnded limit plan (main limit plan)
unfolding main
main-HasEnded limit plan =
    exit-HasEnded limit plan 0 _
      (do_request-Bounded limit plan (attempts limit) _ (some_bound limit) (enough limit))

-- The run has ended with -1, or as an attempt that does not return to the program.
abbrev pub Fails : ℤ → (ℕ → Attempt) → Run → Type 0
Fails limit plan (exited code s) = code ≡ negsuc 0
Fails limit plan (goes_on s) = ⊥
Fails limit plan escaped = IsMet limit plan escapes
Fails limit plan crashed = IsMet limit plan crashes
Fails limit plan stuck = IsMet limit plan hangs
Fails limit plan lost = IsMet limit plan escapes
Fails limit plan out_of_fuel = ⊥

no_value-Fails :
    (limit : ℤ) (plan : ℕ → Attempt) (n : ℕ) (r : Run)
    → Bounded limit plan n r
    → Fails limit plan (and_then (exited (pos 0)) (and_then (finish_call no_value) r))
unfolding finish_call
no_value-Fails limit plan n (exited code s) (a, b, c) = a
no_value-Fails limit plan n (goes_on s) h = refl
no_value-Fails limit plan n escaped h = h
no_value-Fails limit plan n crashed h = h
no_value-Fails limit plan n stuck h = h
no_value-Fails limit plan n lost h = h
no_value-Fails limit plan n out_of_fuel h = h

do_request-Fails :
    (fuel : ℕ) (limit : ℤ) (plan : ℕ → Attempt) (codes : List Code) (s : State)
    → s.reconnections < bound limit
    → bound limit ≤ suc (s.reconnections + fuel)
    → plan s.reconnections ≡ reached codes no_value
    → Fails limit plan (and_then (exited (pos 0)) (do_request (suc fuel) limit plan s))
unfolding do_request
do_request-Fails fuel limit plan codes s l b e = rw e (
    no_value-Fails limit plan s.reconnections _
      (on_errors-Bounded limit plan fuel _ (do_request-Bounded limit plan fuel) codes s l b))

-- If the call of the first attempt gives no value, the program exits with -1, whatever the attempts
-- that the error handler makes from inside that call give, a value among them; or it ends as one of
-- those, which an exception leaves, whose behaviour is undefined, or which does not return.
pub main-Fails :
    (limit : ℤ) (plan : ℕ → Attempt) (codes : List Code)
    → plan 0 ≡ reached codes no_value
    → Fails limit plan (main limit plan)
unfolding main
main-Fails (pos m) plan codes e =
    do_request-Fails m (pos m) plan codes _ (some_bound (pos m)) (omega (arith, enough (pos m))) e
main-Fails (negsuc m) plan codes e =
    do_request-Fails 0 (negsuc m) plan codes _ (some_bound (negsuc m))
      (omega (arith, enough (negsuc m))) e

plus_zero : (n : ℕ) → n + 0 ≡ n
plus_zero n = omega arith

zero_plus : (n : ℕ) → 0 + n ≡ n
zero_plus n = omega arith

plus_suc : (n k : ℕ) → n + suc k ≡ n + 1 + k
plus_suc n k = omega arith

not_reached : (n m : ℕ) → n + 1 < m → leb m (n + 1) ≡ false
not_reached n m l = ground arith

-- The attempts from `n` on: `k` that cannot connect, and one that gives the value.
recovers :
    (fuel k n m : ℕ) (plan : ℕ → Attempt) (v : Shown)
    → ((i : ℕ) → n ≤ i → i < n + k → plan i ≡ unreachable (fail ∷ []))
    → plan (n + k) ≡ reached [] (value v)
    → n + k < m
    → k < fuel
    → do_request fuel (pos m) plan (record { reconnections = n; printed = [] })
      ≡ goes_on (record { reconnections = n + k; printed = v ∷ [] })
unfolding do_request on_errors on_error finish_call reaches
recovers zero k n m plan v h e l f = absurd (omega arith)
recovers (suc fuel) zero n m plan v h e l f = rw (plus_zero n, rw (plus_zero n) at e) refl
recovers (suc fuel) (suc k) n m plan v h e l f =
    rw (h n (omega arith) (omega arith), not_reached n m (omega arith), plus_suc n k)
      (rw
        (recovers fuel k (n + 1) m plan v (λ i a b. h i (omega arith) (omega arith))
          (rw (plus_suc n k) at e) (omega arith) (omega arith))
        refl)

-- If the node cannot be reached for `k` attempts, fewer than the option allows, and the next
-- attempt is connected and gives a value without an error, then the value is printed, once, and the
-- program exits with 0 after `k` reconnections.
pub main-recovers :
    (k m : ℕ) (plan : ℕ → Attempt) (v : Shown)
    → ((i : ℕ) → i < k → plan i ≡ unreachable (fail ∷ []))
    → plan k ≡ reached [] (value v)
    → k < m
    → main (pos m) plan ≡ exited (pos 0) (record { reconnections = k; printed = v ∷ [] })
unfolding main
main-recovers k m plan v h e l =
    rw
      (
        recovers (suc m) k 0 m plan v (λ i a b. h i (omega arith)) (rw (zero_plus k) e)
            (omega arith) (omega arith),
        zero_plus k,
      )
      refl
