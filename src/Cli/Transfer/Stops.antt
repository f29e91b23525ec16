-- ===== src/Cli/Transfer/Stops.antt =====
-- Where an end of a transfer that is no exit comes from.
use mile_csa_jsonrpc_client.Base.{
  ℕ, zero, suc, ◌+◌, ◌≡◌, refl, Bool, true, false, ◌||◌, some, List, [], ◌∷◌, if◌then◌else◌,
}
use mile_csa_jsonrpc_client.Base.Int.{ℤ, pos, negsuc}
use mile_csa_jsonrpc_client.Effects.{Code}
use mile_csa_jsonrpc_client.Cli.Wallet.{reaches, is_fail, attempts}
use mile_csa_jsonrpc_client.Cli.Transfer.{
  Attempt, unreachable, no_block, no_request, no_body, body, stops, unprinted, cut, Stop, escapes,
  crashes, hangs, State, fresh,
}
use mile_csa_jsonrpc_client.Cli.Transfer.{
  Run, exited, goes_on, stopped, lost, out_of_fuel, and_then, nested, on_error, on_errors, send,
  attempted, do_request, begin,
}

-- An attempt that stops in this way.
abbrev pub StopsAs : Stop → Attempt → Type 0
StopsAs k (no_request cs) = k ≡ crashes
StopsAs k (stops j cs) = k ≡ j
StopsAs k (unprinted j cs) = k ≡ j
StopsAs k (cut j cs cs') = k ≡ j
StopsAs k a = ⊥

module _ (plan : ℕ → Attempt) where
  abbrev pub IsMet : Stop → Type 0
  IsMet k = (n : ℕ) × (a : Attempt) × (plan n ≡ a) × StopsAs k a

  -- If the run has stopped, an attempt has.
  abbrev pub IsCaused : Run → Type 0
  IsCaused (stopped k t) = IsMet k
  IsCaused (lost t) = IsMet escapes
  IsCaused r = Unit {0}

  and_then-IsCaused :
      (f : State → Run) (r : Run)
      → ((t : State) → IsCaused (f t))
      → IsCaused r
      → IsCaused (and_then f r)
  and_then-IsCaused f (exited code t) g h = tt
  and_then-IsCaused f (goes_on t) g h = g t
  and_then-IsCaused f (stopped k t) g h = h
  and_then-IsCaused f (lost t) g h = h
  and_then-IsCaused f out_of_fuel g h = tt

  nested-IsCaused : (r : Run) → IsCaused r → IsCaused (nested r)
  nested-IsCaused (stopped escapes t) h = h
  nested-IsCaused (stopped crashes t) h = h
  nested-IsCaused (stopped hangs t) h = h
  nested-IsCaused (exited code t) h = tt
  nested-IsCaused (goes_on t) h = tt
  nested-IsCaused (lost t) h = h
  nested-IsCaused out_of_fuel h = tt

  module _ (rand : ℕ → ℕ) (limit : ℤ) (test : Bool) where
    module _ (retry : State → Run) (r : (s : State) → IsCaused (retry s)) where
      on_error-IsCaused : (c : Code) (s : State) → IsCaused (on_error rand limit test retry c s)
      unfolding on_error
      on_error-IsCaused c s = go (reaches (s.reconnections + 1) limit || test) (is_fail c)
        where
          go :
              (b f : Bool)
              → IsCaused (
                  if b
                  then exited (negsuc 0) (record s { reconnections = s.reconnections + 1 })
                  else if f
                  then nested (retry (record s { reconnections = s.reconnections + 1 }))
                  else goes_on (record s { reconnections = s.reconnections + 1 }))
          go true f = tt
          go false true = nested-IsCaused _ (r _)
          go false false = tt

      on_errors-IsCaused :
          (cs : List Code) (s : State) → IsCaused (on_errors rand limit test retry cs s)
      unfolding on_errors
      on_errors-IsCaused [] s = tt
      on_errors-IsCaused (c ∷ cs) s =
          and_then-IsCaused _ _ (λ t. on_errors-IsCaused cs t) (on_error-IsCaused c s)

      send-IsCaused :
          (id : ℕ) (cs : List Code) (s : State) → IsCaused (send rand limit test retry id cs s)
      unfolding send
      send-IsCaused id cs s = go test
        where
          go :
              (b : Bool)
              → IsCaused (
                  if b
                  then goes_on s
                  else on_errors rand limit test retry cs (record s { sent = id ∷ s.sent }))
          go true = tt
          go false = on_errors-IsCaused cs _

      attempted-IsCaused :
          (n : ℕ) (a : Attempt) (s : State)
          → plan n ≡ a
          → IsCaused (attempted rand limit test retry a s)
      attempted-IsCaused n (unreachable cs) s e = on_errors-IsCaused cs s
      attempted-IsCaused n (no_block cs) s e = on_errors-IsCaused cs s
      attempted-IsCaused n (no_request cs) s e =
          and_then-IsCaused (stopped crashes) _ (λ t. (n, no_request cs, e, refl))
            (on_errors-IsCaused cs _)
      attempted-IsCaused n (no_body cs) s e = on_errors-IsCaused cs _
      attempted-IsCaused n (body cs cs') s e =
          and_then-IsCaused _ _ (λ t. send-IsCaused _ cs' t) (on_errors-IsCaused cs _)
      attempted-IsCaused n (stops k cs) s e =
          and_then-IsCaused (stopped k) _ (λ t. (n, stops k cs, e, refl)) (on_errors-IsCaused cs s)
      attempted-IsCaused n (unprinted k cs) s e =
          and_then-IsCaused (stopped k) _ (λ t. (n, unprinted k cs, e, refl))
            (on_errors-IsCaused cs _)
      attempted-IsCaused n (cut k cs cs') s e =
          and_then-IsCaused (stopped k) _ (λ t. (n, cut k cs cs', e, refl))
            (and_then-IsCaused _ _ (λ t. send-IsCaused _ cs' t) (on_errors-IsCaused cs _))

    do_request-IsCaused : (fuel : ℕ) (s : State) → IsCaused (do_request rand limit test fuel plan s)
    unfolding do_request
    do_request-IsCaused zero s = tt
    do_request-IsCaused (suc fuel) s =
        attempted-IsCaused _ (do_request-IsCaused fuel) s.reconnections (plan s.reconnections) s
          refl

    -- After the key, a run that stops does so as one of its attempts.
    pub begin-IsCaused : IsCaused (begin rand limit test (some plan))
    begin-IsCaused =
        and_then-IsCaused (exited (pos 0)) _ (λ t. tt) (do_request-IsCaused (attempts limit) fresh)
