-- ===== src/Cli/Transfer/DryRun.antt =====
-- The option `--test`, and the private key.
use mile_csa_jsonrpc_client.Base.{
  ℕ, zero, suc, ◌+◌, ◌≡◌, refl, Bool, true, false, ◌||◌, none, some, List, [], ◌∷◌, Text,
}
use mile_csa_jsonrpc_client.Base.{if◌then◌else◌}
use mile_csa_jsonrpc_client.Base.Int.{ℤ}
use mile_csa_jsonrpc_client.Effects.{Code}
use mile_csa_jsonrpc_client.Cli.Password.{Terminal}
use mile_csa_jsonrpc_client.Cli.Wallet.{reaches, attempts}
use mile_csa_jsonrpc_client.Cli.Transfer.{
  Attempt, unreachable, no_block, no_request, no_body, body, stops, unprinted, cut, crashes, State,
}
use mile_csa_jsonrpc_client.Cli.Transfer.{
  Run, exited, goes_on, stopped, lost, out_of_fuel, and_then,
}
use mile_csa_jsonrpc_client.Cli.Transfer.{
  Key, on_error, on_errors, send, drawn, attempted, do_request, Prepared, begin, transfer,
}
use mile_csa_jsonrpc_client.Cli.Transfer.{prompt, find_key, main}

-- No transaction has been sent.
abbrev pub IsDry : Run → Type 0
IsDry (exited code t) = t.sent ≡ []
IsDry (goes_on t) = t.sent ≡ []
IsDry (stopped k t) = t.sent ≡ []
IsDry (lost t) = t.sent ≡ []
IsDry out_of_fuel = Unit {0}

and_then-IsDry :
    (f : State → Run) (r : Run)
    → ((t : State) → t.sent ≡ [] → IsDry (f t))
    → IsDry r
    → IsDry (and_then f r)
and_then-IsDry f (exited code t) g h = h
and_then-IsDry f (goes_on t) g h = g t h
and_then-IsDry f (stopped k t) g h = h
and_then-IsDry f (lost t) g h = h
and_then-IsDry f out_of_fuel g h = h

stops_if_true : (b : Bool) (x y : Run) → IsDry x → IsDry (if b || true then x else y)
stops_if_true true x y h = h
stops_if_true false x y h = h

module _ (rand : ℕ → ℕ) (limit : ℤ) where
  on_errors-IsDry :
      (retry : State → Run) (cs : List Code) (s : State)
      → s.sent ≡ []
      → IsDry (on_errors rand limit true retry cs s)
  unfolding on_errors on_error
  on_errors-IsDry retry [] s h = h
  on_errors-IsDry retry (c ∷ cs) s h =
      and_then-IsDry _ _ (λ t k. on_errors-IsDry retry cs t k)
        (stops_if_true (reaches (s.reconnections + 1) limit) _ _ h)

  attempted-IsDry :
      (retry : State → Run) (a : Attempt) (s : State)
      → s.sent ≡ []
      → IsDry (attempted rand limit true retry a s)
  unfolding send
  attempted-IsDry retry (unreachable cs) s h = on_errors-IsDry retry cs s h
  attempted-IsDry retry (no_block cs) s h = on_errors-IsDry retry cs s h
  attempted-IsDry retry (no_request cs) s h =
      and_then-IsDry (stopped crashes) _ (λ t k. k)
        (on_errors-IsDry retry cs (drawn rand limit true s) h)
  attempted-IsDry retry (no_body cs) s h = on_errors-IsDry retry cs (drawn rand limit true s) h
  attempted-IsDry retry (body cs cs') s h =
      and_then-IsDry _ _ (λ t k. k) (on_errors-IsDry retry cs (drawn rand limit true s) h)
  attempted-IsDry retry (stops k cs) s h =
      and_then-IsDry (stopped k) _ (λ t q. q) (on_errors-IsDry retry cs s h)
  attempted-IsDry retry (unprinted k cs) s h =
      and_then-IsDry (stopped k) _ (λ t q. q) (on_errors-IsDry retry cs (drawn rand limit true s) h)
  attempted-IsDry retry (cut k cs cs') s h =
      and_then-IsDry (stopped k) _ (λ t q. q)
        (and_then-IsDry _ _ (λ t q. q) (on_errors-IsDry retry cs (drawn rand limit true s) h))

  do_request-IsDry :
      (k : ℕ) (plan : ℕ → Attempt) (s : State)
      → s.sent ≡ []
      → IsDry (do_request rand limit true k plan s)
  unfolding do_request
  do_request-IsDry zero plan s h = tt
  do_request-IsDry (suc k) plan s h = attempted-IsDry _ (plan s.reconnections) s h

  begin-IsDry : (p : Prepared) → IsDry (begin rand limit true p)
  begin-IsDry none = refl
  begin-IsDry (some plan) =
      and_then-IsDry _ _ (λ t k. k) (do_request-IsDry (attempts limit) plan _ refl)

  transfer-IsDry :
      (key : Key) (prepare : Text → Prepared) → IsDry (transfer rand limit true key prepare)
  transfer-IsDry (false, key, rest) prepare = refl
  transfer-IsDry (true, key, rest) prepare = begin-IsDry (prepare key)

-- With the option `--test` no transaction is sent, whatever the attempts meet.
pub main-IsDry :
    (rand : ℕ → ℕ) (limit : ℤ) (maxpw : ℕ) (t : Terminal) (valid : Text → Bool) (key : Text)
    (input : List ℕ) (prepare : Text → Prepared)
    → IsDry (main rand limit true maxpw t valid key input prepare)
unfolding main
main-IsDry rand limit maxpw t valid key input prepare =
    transfer-IsDry rand limit (find_key maxpw t valid key input) prepare

-- A key that was found is valid.
abbrev pub IsValidKey : (Text → Bool) → Key → Type 0
IsValidKey valid (false, key, rest) = Unit {0}
IsValidKey valid (true, key, rest) = valid key ≡ true

branch-IsValidKey :
    (valid : Text → Bool) (key : Text) (rest : List ℕ) (k : Key) (b : Bool)
    → valid key ≡ b
    → IsValidKey valid k
    → IsValidKey valid (if b then (true, key, rest) else k)
branch-IsValidKey valid key rest k true e h = e
branch-IsValidKey valid key rest k false e h = h

prompt-IsValidKey :
    (j maxpw : ℕ) (t : Terminal) (valid : Text → Bool) (key : Text) (input : List ℕ)
    → IsValidKey valid (prompt j maxpw t valid key input)
unfolding prompt
prompt-IsValidKey zero maxpw t valid key input = tt
prompt-IsValidKey (suc j) maxpw t valid key input =
    branch-IsValidKey valid _ _ _ _ refl (prompt-IsValidKey j maxpw t valid _ _)

given-IsValidKey :
    (valid : Text → Bool) (key : Text) (rest : List ℕ) (b : Bool)
    → valid key ≡ b
    → IsValidKey valid (b, key, rest)
given-IsValidKey valid key rest true e = e
given-IsValidKey valid key rest false e = tt

-- The key with which the program goes on, given or typed at one of three prompts, is one that
-- `ValidatePrivateKey` accepts.
pub find_key-IsValidKey :
    (maxpw : ℕ) (t : Terminal) (valid : Text → Bool) (key : Text) (input : List ℕ)
    → IsValidKey valid (find_key maxpw t valid key input)
unfolding find_key
find_key-IsValidKey maxpw t valid [] input = prompt-IsValidKey 3 maxpw t valid [] input
find_key-IsValidKey maxpw t valid (c ∷ key) input =
    given-IsValidKey valid (c ∷ key) input (valid (c ∷ key)) refl
