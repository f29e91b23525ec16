-- ===== src/Cli/Wallet/Options/Timeout.antt =====
-- The timeout that the wallet's command line sets.
use mile_csa_jsonrpc_client.Base.{
  ◌≡◌, refl, Bool, true, false, Option, none, some, List, Text, if◌then◌else◌,
}
use mile_csa_jsonrpc_client.Base.Int.{ℤ}
use mile_csa_jsonrpc_client.Effects.{
  Result, returned, threw, undefined, hung, continue_with, handle,
}
use mile_csa_jsonrpc_client.Cli.Options.{
  ProgramOptions, IsProgramOptions, Entry, Value, Variables, counted, store, assign,
}
use mile_csa_jsonrpc_client.Cli.Options.{
  time_value, int_value, text_value, ushort_value, float_value, no_argument,
}
use mile_csa_jsonrpc_client.Cli.Options.{as_text, as_int, as_time}
use mile_csa_jsonrpc_client.Cli.Options.{KeyLibrary, Ending, exits, returns, is_empty}
use mile_csa_jsonrpc_client.Cli.Options.Steps.{Returning, then-Returning}
use mile_csa_jsonrpc_client.Cli.Wallet.Options.{
  Settings, wallet_options, notify, show_help, accept, refuse, show_wallet, write_pair, examine,
  parse_cmdline,
}

module _ (F : Type 0) (o : Option (Entry F)) where
  -- The value of the option, if it is there, is the one that is set.
  abbrev Sets : (Settings → ℤ) → Settings → Type 0
  Sets field s = (e : Entry F) → o ≡ some e → as_time e.value ≡ some (field s)

  store-Sets :
      (s : Settings)
      → Returning
          (Sets (λ s. s.read_timeout))
          (store as_time (λ v s. record s { read_timeout = v }) o s)
  store-Sets s = go o refl
    where
      given :
          (e : Entry F) (c : Option ℤ)
          → o ≡ some e
          → as_time e.value ≡ c
          → Returning
              (Sets (λ s. s.read_timeout))
              (assign (λ v s. record s { read_timeout = v }) c s)
      given e none q k = tt
      given e (some t) q k = λ e' q'. cc

      go :
          (r : Option (Entry F))
          → o ≡ r
          → Returning
              (Sets (λ s. s.read_timeout))
              (store as_time (λ v s. record s { read_timeout = v }) r s)
      go none q = λ e q'. cc
      go (some e) q = given e (as_time e.value) q refl

notify-Sets :
    (F : Type 0) (vm : Variables F) (s : Settings)
    → Returning (Sets F (vm "timeout") (λ s. s.read_timeout)) (notify F vm s)
unfolding notify
notify-Sets F vm s = then-Returning _ (store as_text _ (vm "wallet") s) _ λ u1 s1.
    then-Returning _ (store as_text _ (vm "url") s1) _ λ u2 s2.
      then-Returning _ (store as_text _ (vm "method") s2) _ λ u3 s3.
        then-Returning _ (store as_text _ (vm "params") s3) _ λ u4 s4.
          then-Returning _ (store as_int _ (vm "reconnections") s4) _
            λ u5 s5. store-Sets F (vm "timeout") s5

module _ (P : ProgramOptions) (K : KeyLibrary) (vm : Variables P.Float) where
  -- If the command line is accepted, the client's timeout is the option's value.
  abbrev IsTimed : Result Ending × Settings → Type 0
  IsTimed (returned (returns true), s) = Sets P.Float (vm "timeout") (λ s. s.client_timeout) s
  IsTimed (returned (returns false), s) = Unit {0}
  IsTimed (returned (exits n), s) = Unit {0}
  IsTimed (threw e, s) = Unit {0}
  IsTimed (undefined, s) = Unit {0}
  IsTimed (hung, s) = Unit {0}

  show_wallet-IsTimed : (bare : Bool) (s : Settings) → IsTimed (show_wallet K bare s)
  unfolding show_wallet
  show_wallet-IsTimed bare s = go _
    where
      go : (r : Result (Option K.KeyPair)) → IsTimed (continue_with (write_pair K bare) (r, s))
      go (returned (some pair)) = tt
      go (returned none) = tt
      go (threw x) = tt
      go undefined = tt
      go hung = tt

  examine-IsTimed :
      (s : Settings)
      → Sets P.Float (vm "timeout") (λ s. s.read_timeout) s
      → IsTimed (examine P K vm s)
  unfolding examine show_help accept
  examine-IsTimed s h = go (counted "help" vm) (counted "wallet" vm) (is_empty s.method)
    where
      go :
          (help wallet missing : Bool)
          → IsTimed (
              if help
              then show_help s
              else if wallet
              then show_wallet K (counted "output" vm) s
              else if missing
              then show_help s
              else accept (counted "debug" vm) s)
      go true wallet missing = tt
      go false true missing = show_wallet-IsTimed _ s
      go false false true = tt
      go false false false = h

  notified-IsTimed :
      (p : Result (Unit {0}) × Settings)
      → Returning (Sets P.Float (vm "timeout") (λ s. s.read_timeout)) p
      → IsTimed (handle refuse (continue_with (λ u. examine P K vm) p))
  unfolding refuse
  notified-IsTimed (returned a, s) h = go _ (examine-IsTimed s h)
    where
      go : (p : Result Ending × Settings) → IsTimed p → IsTimed (handle refuse p)
      go (returned e, t) k = k
      go (threw e, t) k = tt
      go (undefined, t) k = k
      go (hung, t) k = k
  notified-IsTimed (threw e, s) h = tt
  notified-IsTimed (undefined, s) h = tt
  notified-IsTimed (hung, s) h = tt

  parse_cmdline-IsTimed :
      (av : List Text) (s : Settings)
      → P.parse_and_store (wallet_options P.Float s) av ≡ returned vm
      → IsTimed (parse_cmdline P K av s)
  unfolding parse_cmdline
  parse_cmdline-IsTimed av s e =
      rw e (notified-IsTimed (notify P.Float vm s) (notify-Sets P.Float vm s))

  IsTimed-of : (p q : Result Ending × Settings) → p ≡ q → IsTimed p → IsTimed q
  IsTimed-of p q e h = rw (← e) h

-- If a command line is accepted and `--timeout` is not given, the client's timeout is what the
-- number of reconnections was by default, and not `opt_read_timeout`.
pub parse_cmdline-default_timeout :
    (P : ProgramOptions) (K : KeyLibrary) (av : List Text) (s t : Settings) (vm : Variables P.Float)
    (e : Entry P.Float)
    → IsProgramOptions P
    → P.parse_and_store (wallet_options P.Float s) av ≡ returned vm
    → vm "timeout" ≡ some e
    → e.defaulted ≡ true
    → parse_cmdline P K av s ≡ (returned (returns true), t)
    → t.client_timeout ≡ s.reconnections
parse_cmdline-default_timeout P K av s t vm e lib stored there d accepted =
    same e.value (lib.default_kept _ av vm "timeout" _ e stored refl there d)
      (IsTimed-of P K vm _ _ accepted (parse_cmdline-IsTimed P K vm av s stored) e there)
  where
    same :
        (v : Value P.Float)
        → some (time_value s.reconnections) ≡ some v
        → as_time v ≡ some t.client_timeout
        → t.client_timeout ≡ s.reconnections
    same (time_value r) q k = cc
    same (int_value r) q k = cc
    same (text_value r) q k = cc
    same (ushort_value r) q k = cc
    same (float_value r) q k = cc
    same no_argument q k = cc
