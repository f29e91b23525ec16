-- ===== src/Cli/Transfer/Sends/Bounds.antt =====
-- Bounds on the transactions and the reconnections of a transfer, from any state on.
use mile_csa_jsonrpc_client.Base.{ℕ, zero, suc, ◌+◌, ◌≤◌, ◌<◌, ◌≡◌, refl, Bool, true, false, ◌||◌}
use mile_csa_jsonrpc_client.Base.{List, [], ◌∷◌, length, if◌then◌else◌, arith}
use mile_csa_jsonrpc_client.Base.Int.{ℤ, negsuc}
use mile_csa_jsonrpc_client.Effects.{Code}
use mile_csa_jsonrpc_client.Cli.Wallet.{reaches, is_fail}
use mile_csa_jsonrpc_client.Cli.Wallet.Retries.Bounds.{bound, reaches-bound}
use mile_csa_jsonrpc_client.Cli.Transfer.{
  Attempt, unreachable, no_block, no_request, no_body, body, stops, unprinted, cut, Stop, escapes,
  crashes, hangs, State,
}
use mile_csa_jsonrpc_client.Cli.Transfer.{
  Run, exited, goes_on, stopped, lost, out_of_fuel, and_then, nested,
}
use mile_csa_jsonrpc_client.Cli.Transfer.{on_error, on_errors, send, drawn, attempted, do_request}

-- From the state `s`: the run has at most `e` transactions more than reconnections, and its
-- reconnections are bounded.
abbrev Within : ℤ → ℕ → State → State → Type 0
Within limit e s t =
    (s.reconnections ≤ t.reconnections)
    × (t.reconnections < bound limit)
    × (length t.sent + s.reconnections ≤ length s.sent + t.reconnections + e)

abbrev pub Bounded : ℤ → ℕ → State → Run → Type 0
Bounded limit e s (exited code t) =
    (code ≡ negsuc 0)
    × (s.reconnections ≤ t.reconnections)
    × (t.reconnections ≤ bound limit)
    × (length t.sent + s.reconnections + 1 ≤ length s.sent + t.reconnections + e)
Bounded limit e s (goes_on t) = Within limit e s t
Bounded limit e s (stopped k t) = Within limit e s t
Bounded limit e s (lost t) = Within limit e s t
Bounded limit e s out_of_fuel = ⊥

abbrev Retries : ℤ → ℕ → (State → Run) → Type 0
Retries limit k retry =
    (s : State)
    → s.reconnections < bound limit
    → bound limit ≤ s.reconnections + k
    → Bounded limit 1 s (retry s)

branch-Bounded :
    (limit : ℤ) (e : ℕ) (s : State) (b : Bool) (x y : Run)
    → (b ≡ true → Bounded limit e s x)
    → (b ≡ false → Bounded limit e s y)
    → Bounded limit e s (if b then x else y)
branch-Bounded limit e s true x y f g = f refl
branch-Bounded limit e s false x y f g = g refl

-- From a later state `s'`.
Bounded-shift :
    (limit : ℤ) (e e' : ℕ) (s s' : State) (r : Run)
    → s.reconnections ≤ s'.reconnections
    → length s'.sent + s.reconnections + e' ≤ length s.sent + s'.reconnections + e
    → Bounded limit e' s' r
    → Bounded limit e s r
Bounded-shift limit e e' s s' (exited code t) l m (a, b, c, d) = (a, omega arith, c, omega arith)
Bounded-shift limit e e' s s' (goes_on t) l m (b, c, d) = (omega arith, c, omega arith)
Bounded-shift limit e e' s s' (stopped k t) l m (b, c, d) = (omega arith, c, omega arith)
Bounded-shift limit e e' s s' (lost t) l m (b, c, d) = (omega arith, c, omega arith)
Bounded-shift limit e e' s s' out_of_fuel l m h = h

and_then-Bounded :
    (limit : ℤ) (e e' : ℕ) (s : State) (f : State → Run) (r : Run)
    → ((t : State)
        → s.reconnections ≤ t.reconnections
        → t.reconnections < bound limit
        → Bounded limit e' t (f t))
    → Bounded limit e s r
    → Bounded limit (e + e') s (and_then f r)
and_then-Bounded limit e e' s f (exited code t) g (a, b, c, d) = (a, b, c, omega arith)
and_then-Bounded limit e e' s f (goes_on t) g (b, c, d) =
    Bounded-shift limit (e + e') e' s t (f t) b (omega arith) (g t b c)
and_then-Bounded limit e e' s f (stopped k t) g (b, c, d) = (b, c, omega arith)
and_then-Bounded limit e e' s f (lost t) g (b, c, d) = (b, c, omega arith)
and_then-Bounded limit e e' s f out_of_fuel g h = h

nested-Bounded :
    (limit : ℤ) (e : ℕ) (s : State) (r : Run) → Bounded limit e s r → Bounded limit e s (nested r)
nested-Bounded limit e s (stopped escapes t) h = h
nested-Bounded limit e s (stopped crashes t) h = h
nested-Bounded limit e s (stopped hangs t) h = h
nested-Bounded limit e s (exited code t) h = h
nested-Bounded limit e s (goes_on t) h = h
nested-Bounded limit e s (lost t) h = h
nested-Bounded limit e s out_of_fuel h = h

module _ (rand : ℕ → ℕ) (limit : ℤ) (test : Bool) where
  on_error-Bounded :
      (k : ℕ) (retry : State → Run) (c : Code) (s : State)
      → Retries limit k retry
      → s.reconnections < bound limit
      → bound limit ≤ suc (s.reconnections + k)
      → Bounded limit 0 s (on_error rand limit test retry c s)
  unfolding on_error
  on_error-Bounded k retry c s r l e =
      branch-Bounded limit 0 s (reaches (s.reconnections + 1) limit || test) _ _
        (λ b. (refl, omega arith, omega arith, omega arith))
        (λ b.
          branch-Bounded limit 0 s (is_fail c) _ _
            (λ f. nested-Bounded limit 0 s _ (
              Bounded-shift limit 0 1 s (record s { reconnections = s.reconnections + 1 }) _
                (omega arith) (omega arith)
                (r (record s { reconnections = s.reconnections + 1 }) (more s b) (omega arith))))
            (λ f. (omega arith, more s b, omega arith)))
    where
      more :
          (s : State)
          → (reaches (s.reconnections + 1) limit || test) ≡ false
          → s.reconnections + 1 < bound limit
      more s b = reaches-bound s.reconnections limit (ground arith)

  on_errors-Bounded :
      (k : ℕ) (retry : State → Run) (cs : List Code) (s : State)
      → Retries limit k retry
      → s.reconnections < bound limit
      → bound limit ≤ suc (s.reconnections + k)
      → Bounded limit 0 s (on_errors rand limit test retry cs s)
  unfolding on_errors
  on_errors-Bounded k retry [] s r l e = (omega arith, l, omega arith)
  on_errors-Bounded k retry (c ∷ cs) s r l e =
      and_then-Bounded limit 0 0 s _ _ (λ t a b. on_errors-Bounded k retry cs t r b (omega arith))
        (on_error-Bounded k retry c s r l e)

  -- After the draw of a transaction id.
  drawn-Bounded :
      (k : ℕ) (retry : State → Run) (cs : List Code) (s : State)
      → Retries limit k retry
      → s.reconnections < bound limit
      → bound limit ≤ suc (s.reconnections + k)
      → Bounded limit 0 s (on_errors rand limit test retry cs (drawn rand limit test s))
  drawn-Bounded k retry cs s r l e =
      Bounded-shift limit 0 0 s (drawn rand limit test s) _ (omega arith) (omega arith)
        (on_errors-Bounded k retry cs (drawn rand limit test s) r l e)

  send-Bounded :
      (k : ℕ) (retry : State → Run) (id : ℕ) (cs : List Code) (s : State)
      → Retries limit k retry
      → s.reconnections < bound limit
      → bound limit ≤ suc (s.reconnections + k)
      → Bounded limit 1 s (send rand limit test retry id cs s)
  unfolding send
  send-Bounded k retry id cs s r l e =
      branch-Bounded limit 1 s test _ _ (λ b. (omega arith, l, omega arith))
        (λ b.
          Bounded-shift limit 1 0 s (record s { sent = id ∷ s.sent }) _ (omega arith) (omega arith)
            (on_errors-Bounded k retry cs (record s { sent = id ∷ s.sent }) r l e))

  -- What needs no transaction is allowed one.
  Bounded-one : (s : State) (r : Run) → Bounded limit 0 s r → Bounded limit 1 s r
  Bounded-one s r h = Bounded-shift limit 1 0 s s r (omega arith) (omega arith) h

  stopped-Bounded :
      (e : ℕ) (k : Stop) (s : State) (r : Run)
      → Bounded limit e s r
      → Bounded limit e s (and_then (stopped k) r)
  stopped-Bounded e k s (exited code t) h = h
  stopped-Bounded e k s (goes_on t) h = h
  stopped-Bounded e k s (stopped x t) h = h
  stopped-Bounded e k s (lost t) h = h
  stopped-Bounded e k s out_of_fuel h = h

  sent-Bounded :
      (k : ℕ) (retry : State → Run) (cs cs' : List Code) (s : State)
      → Retries limit k retry
      → s.reconnections < bound limit
      → bound limit ≤ suc (s.reconnections + k)
      → Bounded limit 1 s (
          and_then
            (send rand limit test retry (rand s.draws) cs')
            (on_errors rand limit test retry cs (drawn rand limit test s)))
  sent-Bounded k retry cs cs' s r l e =
      and_then-Bounded limit 0 1 s _ _
        (λ t a b. send-Bounded k retry (rand s.draws) cs' t r b (omega arith))
        (drawn-Bounded k retry cs s r l e)

  attempted-Bounded :
      (k : ℕ) (retry : State → Run) (a : Attempt) (s : State)
      → Retries limit k retry
      → s.reconnections < bound limit
      → bound limit ≤ suc (s.reconnections + k)
      → Bounded limit 1 s (attempted rand limit test retry a s)
  attempted-Bounded k retry (unreachable cs) s r l e =
      Bounded-one s _ (on_errors-Bounded k retry cs s r l e)
  attempted-Bounded k retry (no_block cs) s r l e =
      Bounded-one s _ (on_errors-Bounded k retry cs s r l e)
  attempted-Bounded k retry (no_request cs) s r l e =
      stopped-Bounded 1 crashes s _ (Bounded-one s _ (drawn-Bounded k retry cs s r l e))
  attempted-Bounded k retry (no_body cs) s r l e =
      Bounded-one s _ (drawn-Bounded k retry cs s r l e)
  attempted-Bounded k retry (body cs cs') s r l e = sent-Bounded k retry cs cs' s r l e
  attempted-Bounded k retry (stops x cs) s r l e =
      stopped-Bounded 1 x s _ (Bounded-one s _ (on_errors-Bounded k retry cs s r l e))
  attempted-Bounded k retry (unprinted x cs) s r l e =
      stopped-Bounded 1 x s _ (Bounded-one s _ (drawn-Bounded k retry cs s r l e))
  attempted-Bounded k retry (cut x cs cs') s r l e =
      stopped-Bounded 1 x s _ (sent-Bounded k retry cs cs' s r l e)

  pub do_request-Bounded :
      (k : ℕ) (plan : ℕ → Attempt) → Retries limit k (do_request rand limit test k plan)
  unfolding do_request
  do_request-Bounded zero plan s l e = absurd (omega arith)
  do_request-Bounded (suc k) plan s l e =
      attempted-Bounded k _ (plan s.reconnections) s (do_request-Bounded k plan) l (omega arith)
