-- ===== src/Cli/Wallet/Retries/Bounds.antt =====
-- Bounds on the retries of the wallet: how often its error handler tries again, however an attempt ends.
use mile_csa_jsonrpc_client.Base.{ℕ, zero, suc, ◌+◌, ◌≤◌, ◌<◌, ◌≡◌, refl, Bool, true, false}
use mile_csa_jsonrpc_client.Base.{List, [], ◌∷◌, arith, if◌then◌else◌}
use mile_csa_jsonrpc_client.Base.Int.{ℤ, pos, negsuc}
use mile_csa_jsonrpc_client.Effects.{Code}
use mile_csa_jsonrpc_client.Cli.Wallet.{
  Attempt, unreachable, reached, escapes, crashes, hangs, Called, no_value, raises, value,
}
use mile_csa_jsonrpc_client.Cli.Wallet.{
  State, Run, exited, goes_on, escaped, crashed, stuck, lost, out_of_fuel, nested, reaches, is_fail,
}
use mile_csa_jsonrpc_client.Cli.Wallet.{
  on_error, on_errors, and_then, finish_call, attempted, do_request, attempts,
}

-- The number of reconnections at which the handler gives up.
pub bound : ℤ → ℕ
bound (pos zero) = 1
bound (pos (suc m)) = suc m
bound (negsuc m) = 1

pub reaches-bound : (n : ℕ) (limit : ℤ) → reaches (n + 1) limit ≡ false → n + 1 < bound limit
unfolding reaches bound
reaches-bound n (pos zero) e = ground arith
reaches-bound n (pos (suc m)) e = ground arith
reaches-bound n (negsuc m) e = cc

-- An attempt that the program may make is like this.
abbrev pub IsMet : ℤ → (ℕ → Attempt) → (List Code → Attempt) → Type 0
IsMet limit plan kind = (n : ℕ) × (codes : List Code) × (n < bound limit) × (plan n ≡ kind codes)

module _ (limit : ℤ) (plan : ℕ → Attempt) where
  -- From `n` reconnections: the run has ended, with -1 if it left the program, and has made no more
  -- reconnections than `bound` allows.
  abbrev pub Bounded : ℕ → Run → Type 0
  Bounded n (exited code s) =
      (code ≡ negsuc 0) × (n ≤ s.reconnections) × (s.reconnections ≤ bound limit)
  Bounded n (goes_on s) = (n ≤ s.reconnections) × (s.reconnections < bound limit)
  Bounded n escaped = IsMet limit plan escapes
  Bounded n crashed = IsMet limit plan crashes
  Bounded n stuck = IsMet limit plan hangs
  Bounded n lost = IsMet limit plan escapes
  Bounded n out_of_fuel = ⊥

  -- What is assumed of `retry`, with fuel for `k` more attempts.
  abbrev Retries : ℕ → (State → Run) → Type 0
  Retries k retry =
      (s : State)
      → s.reconnections < bound limit
      → bound limit ≤ s.reconnections + k
      → Bounded s.reconnections (retry s)

  Bounded-weaken : (n m : ℕ) (r : Run) → n ≤ m → Bounded m r → Bounded n r
  Bounded-weaken n m (exited code s) l (a, b, c) = (a, omega arith, c)
  Bounded-weaken n m (goes_on s) l (b, c) = (omega arith, c)
  Bounded-weaken n m escaped l h = h
  Bounded-weaken n m crashed l h = h
  Bounded-weaken n m stuck l h = h
  Bounded-weaken n m lost l h = h
  Bounded-weaken n m out_of_fuel l h = h

  nested-Bounded : (n : ℕ) (r : Run) → Bounded n r → Bounded n (nested r)
  nested-Bounded n (exited code s) h = h
  nested-Bounded n (goes_on s) h = h
  nested-Bounded n escaped h = h
  nested-Bounded n crashed h = h
  nested-Bounded n stuck h = h
  nested-Bounded n lost h = h
  nested-Bounded n out_of_fuel h = h

  branch-Bounded :
      (n : ℕ) (b : Bool) (x y : Run)
      → (b ≡ true → Bounded n x)
      → (b ≡ false → Bounded n y)
      → Bounded n (if b then x else y)
  branch-Bounded n true x y f g = f refl
  branch-Bounded n false x y f g = g refl

  and_then-Bounded :
      (n : ℕ) (f : State → Run) (r : Run)
      → ((s : State)
          → n ≤ s.reconnections
          → s.reconnections < bound limit
          → Bounded s.reconnections (f s))
      → Bounded n r
      → Bounded n (and_then f r)
  and_then-Bounded n f (exited code s) g h = h
  and_then-Bounded n f (goes_on s) g (a, b) = Bounded-weaken n _ (f s) a (g s a b)
  and_then-Bounded n f escaped g h = h
  and_then-Bounded n f crashed g h = h
  and_then-Bounded n f stuck g h = h
  and_then-Bounded n f lost g h = h
  and_then-Bounded n f out_of_fuel g h = h

  module _ (k : ℕ) (retry : State → Run) (r : Retries k retry) where
    on_error-Bounded :
        (c : Code) (s : State)
        → s.reconnections < bound limit
        → bound limit ≤ suc (s.reconnections + k)
        → Bounded s.reconnections (on_error limit retry c s)
    unfolding on_error
    on_error-Bounded c s l e =
        branch-Bounded s.reconnections (is_fail c) _ _
          (λ _.
            branch-Bounded s.reconnections (reaches (s.reconnections + 1) limit) _ _
              (λ _. (refl, omega arith, omega arith))
              (λ b. nested-Bounded s.reconnections _ (
                Bounded-weaken s.reconnections (s.reconnections + 1) _ (omega arith) (
                  r (record s { reconnections = s.reconnections + 1 })
                    (reaches-bound s.reconnections limit b) (omega arith)))))
          (λ _. (refl, omega arith, omega arith))

    pub on_errors-Bounded :
        (cs : List Code) (s : State)
        → s.reconnections < bound limit
        → bound limit ≤ suc (s.reconnections + k)
        → Bounded s.reconnections (on_errors limit retry cs s)
    unfolding on_errors
    on_errors-Bounded [] s l e = (omega arith, l)
    on_errors-Bounded (c ∷ cs) s l e =
        and_then-Bounded s.reconnections _ _ (λ s' a b. on_errors-Bounded cs s' b (omega arith))
          (on_error-Bounded c s l e)

    finish_call-Bounded :
        (c : Called) (s : State)
        → s.reconnections < bound limit
        → Bounded s.reconnections (finish_call c s)
    unfolding finish_call
    finish_call-Bounded no_value s l = (refl, omega arith, omega arith)
    finish_call-Bounded raises s l = (omega arith, l)
    finish_call-Bounded (value v) s l = (omega arith, l)

    attempted-Bounded :
        (a : Attempt) (s : State)
        → plan s.reconnections ≡ a
        → s.reconnections < bound limit
        → bound limit ≤ suc (s.reconnections + k)
        → Bounded s.reconnections (attempted limit retry a s)
    attempted-Bounded (unreachable cs) s q l e = on_errors-Bounded cs s l e
    attempted-Bounded (reached cs c) s q l e =
        and_then-Bounded s.reconnections _ _ (λ s' a b. finish_call-Bounded c s' b)
          (on_errors-Bounded cs s l e)
    attempted-Bounded (escapes cs) s q l e =
        and_then-Bounded s.reconnections _ _ (λ s' a b. (s.reconnections, cs, l, q))
          (on_errors-Bounded cs s l e)
    attempted-Bounded (crashes cs) s q l e =
        and_then-Bounded s.reconnections _ _ (λ s' a b. (s.reconnections, cs, l, q))
          (on_errors-Bounded cs s l e)
    attempted-Bounded (hangs cs) s q l e =
        and_then-Bounded s.reconnections _ _ (λ s' a b. (s.reconnections, cs, l, q))
          (on_errors-Bounded cs s l e)

  pub do_request-Bounded : (k : ℕ) → Retries k (do_request k limit plan)
  unfolding do_request
  do_request-Bounded zero s l e = absurd (omega arith)
  do_request-Bounded (suc k) s l e =
      attempted-Bounded k _ (do_request-Bounded k) (plan s.reconnections) s refl l (omega arith)

pub enough : (limit : ℤ) → bound limit ≤ 0 + attempts limit
unfolding bound
enough (pos zero) = omega arith
enough (pos (suc m)) = omega arith
enough (negsuc m) = omega arith

pub some_bound : (limit : ℤ) → 0 < bound limit
unfolding bound
some_bound (pos zero) = omega arith
some_bound (pos (suc m)) = omega arith
some_bound (negsuc m) = omega arith
