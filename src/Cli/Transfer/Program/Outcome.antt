-- ===== src/Cli/Transfer/Program/Outcome.antt =====
-- The ways in which a transfer ends.
use mile_csa_jsonrpc_client.Base.{
  ℕ, ◌≡◌, ◌≢◌, ◌⊎◌, inl, inr, refl, Bool, true, false, Option, List, [], ◌∷◌, String, Text,
}
use mile_csa_jsonrpc_client.Base.Int.{pos}
use mile_csa_jsonrpc_client.Effects.{Report}
use mile_csa_jsonrpc_client.Url.Parse.{IsBoost}
use mile_csa_jsonrpc_client.Rpc.Env.{JsonLibrary, MileLibrary}
use mile_csa_jsonrpc_client.Connection.Defined.{IsJson}
use mile_csa_jsonrpc_client.Cli.Options.{ProgramOptions, IsProgramOptions, KeyLibrary}
use mile_csa_jsonrpc_client.Cli.Outside.{Outside}
use mile_csa_jsonrpc_client.Cli.Password.{Terminal}
use mile_csa_jsonrpc_client.Cli.Transfer.{
  Attempt, Stop, find_key, escapes, Run, exited, goes_on, stopped, lost, out_of_fuel, Prepared, Key,
  begin, main, transfer,
}
use mile_csa_jsonrpc_client.Cli.Transfer.Sends.{HasSent}
use mile_csa_jsonrpc_client.Cli.Transfer.DryRun.{IsValidKey, find_key-IsValidKey}
use mile_csa_jsonrpc_client.Cli.Transfer.Stops.{StopsAs, IsMet, IsCaused, begin-IsCaused}
use mile_csa_jsonrpc_client.Cli.Transfer.Attempts.{Order, attempt}
use mile_csa_jsonrpc_client.Cli.Transfer.Attempts.Outcome.{IsAttempted, attempt-IsAttempted}
use mile_csa_jsonrpc_client.Cli.Transfer.Options.{
  Settings, Program, quits, runs, crashes, stuck, continued,
}
use mile_csa_jsonrpc_client.Cli.Transfer.Options.Outcome.{IsFinished, program-IsFinished}
use mile_csa_jsonrpc_client.Cli.Transfer.Program.{order_of, with_keys, prepare, run}

module _ (J : JsonLibrary) (L : MileLibrary J.Json J.Float) (rand : ℕ → ℕ) (P : ProgramOptions)
    (as_string : Text → String) (as_amount : P.Float → J.Float) (ids : ℕ → ℕ)
    (outside : ℕ → Outside) (valid : Text → Bool) (maxpw : ℕ) (t : Terminal) (input : List ℕ) where
  abbrev order : Settings P.Float → Option L.KeyPair → ℕ → Order J L rand
  order = order_of J L rand P as_string as_amount ids outside

  -- One of the program's attempts, with the pair of keys `ppk`, stops in this way, as it may.
  abbrev pub MayStop : Settings P.Float → Option L.KeyPair → Stop → Type 0
  MayStop s ppk k =
      (n : ℕ) × (a : Attempt) × (attempt J L rand (order s ppk n) s.address (outside n) ≡ a)
      × StopsAs k a
      × IsAttempted J L rand (order s ppk n) (outside n) s.address a

  -- A stop is that of an attempt with the pair of keys of the private key that the program has found,
  -- which is valid, or the exception of the handler that `FromPrivateKey` has called.
  abbrev pub IsExplained : Settings P.Float → Stop → Type 0
  IsExplained s k =
      (key : Text) × (rest : List ℕ) × (find_key maxpw t valid s.private_key input
        ≡ (true, key, rest))
      × (valid key ≡ true)
      × (ppk : Option L.KeyPair) × (rs : List Report) × (L.from_private_key (as_string key)
          ≡ (ppk, rs))
      × (((rs ≡ []) × MayStop s ppk k) ⊎ ((rs ≢ []) × (k ≡ escapes)))

  abbrev pub IsOver : Settings P.Float → Run → Type 0
  IsOver s (stopped k t) = IsExplained s k
  IsOver s (lost t) = IsExplained s escapes
  IsOver s r = Unit {0}

  -- The program has ended: with 0 or 1 at its options, or as its prompts and retries do, after no more
  -- reconnections and transactions than the option says; and if it does not exit, for a known reason.
  abbrev pub IsTransferred : Program P.Float → Type 0
  IsTransferred (quits n) = (n ≡ pos 0) ⊎ (n ≡ pos 1)
  IsTransferred (runs s r) = HasSent s.reconnections r × IsOver s r
  IsTransferred crashes = ⊥
  IsTransferred stuck = ⊥

  module _ (json : IsJson J) (lawful : (n : ℕ) → IsBoost (outside n).surroundings.boost) where
    may :
        (s : Settings P.Float) (ppk : Option L.KeyPair) (k : Stop)
        → IsMet (λ n. attempt J L rand (order s ppk n) s.address (outside n)) k
        → MayStop s ppk k
    may s ppk k (n, a, e, h) = (
      n,
      a,
      e,
      h,
      rw (← e) (attempt-IsAttempted J L rand json (order s ppk n) s.address (outside n) (lawful n)),
    )

    module _ (s : Settings P.Float) (key : Text) (rest : List ℕ)
        (f : find_key maxpw t valid s.private_key input ≡ (true, key, rest))
        (v : valid key ≡ true) where
      caused-IsOver :
          (ppk : Option L.KeyPair) (r : Run)
          → L.from_private_key (as_string key) ≡ (ppk, [])
          → IsCaused (λ n. attempt J L rand (order s ppk n) s.address (outside n)) r
          → IsOver s r
      caused-IsOver ppk (stopped k t) e h = (key, rest, f, v, ppk, [], e, inl (refl, may s ppk k h))
      caused-IsOver ppk (lost t) e h =
          (key, rest, f, v, ppk, [], e, inl (refl, may s ppk escapes h))
      caused-IsOver ppk (exited code t) e h = tt
      caused-IsOver ppk (goes_on t) e h = tt
      caused-IsOver ppk out_of_fuel e h = tt

      begin-IsOver :
          (p : Option L.KeyPair × List Report)
          → L.from_private_key (as_string key) ≡ p
          → IsOver s (
              begin rand s.reconnections s.test
                (with_keys J L rand P as_string as_amount ids outside s p))
      begin-IsOver (ppk, []) e =
          caused-IsOver ppk _ e (begin-IsCaused _ rand s.reconnections s.test)
      begin-IsOver (ppk, r ∷ rs) e = (key, rest, f, v, ppk, r ∷ rs, e, inr ((λ q. cc), refl))

    transfer-IsOver :
        (s : Settings P.Float) (k : Key)
        → find_key maxpw t valid s.private_key input ≡ k
        → IsValidKey valid k
        → IsOver s (
            transfer rand s.reconnections s.test k
              (prepare J L rand P as_string as_amount ids outside s))
    unfolding prepare
    transfer-IsOver s (false, key, rest) f v = tt
    transfer-IsOver s (true, key, rest) f v = begin-IsOver s key rest f v _ refl

    module _ (K : KeyLibrary) where
      abbrev made : Settings P.Float → Text → Prepared
      made = prepare J L rand P as_string as_amount ids outside

      continued-IsOver :
          (s : Settings P.Float) → IsOver s (continued P.Float rand maxpw t valid input made s)
      unfolding main
      continued-IsOver s =
          transfer-IsOver s _ refl (find_key-IsValidKey maxpw t valid s.private_key input)

      finished :
          (p : Program P.Float) → IsFinished P K rand maxpw t valid input made p → IsTransferred p
      finished (quits n) h = h
      finished (runs s r) (h, e) = (h, rw e (continued-IsOver s))
      finished crashes h = h
      finished stuck h = h

      -- With a Boost, a json library and options that behave as documented, the program of a
      -- transfer ends, whatever its arguments, what is typed and what its attempts meet: with 0 or
      -- 1 at its options; or as its prompts and retries do, with 0 or -1 if it exits, and however
      -- it ends after no more reconnections and transactions than its option says, and one if the
      -- option is not positive. If it does not exit, the private key that it has found is valid,
      -- and one of the attempts that the program has with its pair of keys stops in this way, which
      -- is one of those in which an attempt may; or `FromPrivateKey` has called the error handler,
      -- which has no function yet, and the exception of that ends the program.
      pub run-IsTransferred :
          IsProgramOptions P
          → (av : List Text)
          → IsTransferred (run J L rand P as_string as_amount ids outside K maxpw t valid input av)
      unfolding run
      run-IsTransferred lib av =
          finished _ (program-IsFinished P K lib rand maxpw t valid input made av)
