-- ===== src/Cli/Wallet/Options/Outcome.antt =====
-- The ways in which the wallet's command line is taken.
use mile_csa_jsonrpc_client.Base.{
  ℕ, ◌≡◌, ◌≢◌, ◌⊎◌, inl, inr, refl, Bool, true, false, Option, none, some, List, [], ◌∷◌, Text,
  if◌then◌else◌, ap,
}
use mile_csa_jsonrpc_client.Base.Int.{pos}
use mile_csa_jsonrpc_client.Effects.{
  Result, returned, threw, undefined, hung, Exception, M, continue_with, handle,
}
use mile_csa_jsonrpc_client.Cli.Options.{
  ProgramOptions, IsProgramOptions, Variables, counted, store,
}
use mile_csa_jsonrpc_client.Cli.Options.{as_text, as_int}
use mile_csa_jsonrpc_client.Cli.Wallet.{Attempt, main}
use mile_csa_jsonrpc_client.Cli.Wallet.Retries.{HasEnded, main-HasEnded}
use mile_csa_jsonrpc_client.Cli.Options.{KeyLibrary, Ending, exits, returns, is_empty, pair_for}
use mile_csa_jsonrpc_client.Cli.Options.Steps.{
  IsKeyLibrary, IsMade, pair_for-IsMade, Holds, store-Holds, then-Holds, made-Holds,
}
use mile_csa_jsonrpc_client.Cli.Wallet.Options.{
  Printed, options, methods, keys, caught, Settings, initial, wallet_options, notify, show_help,
  accept, refuse, show_wallet, write_pair, examine, parse_cmdline, Program, quits, runs, crashes,
  stuck, start, program,
}

abbrev Silent : {A : Type 0} → List Printed → Result A × Settings → Type 0
Silent ps p = Holds (λ s. s.printed ≡ ps) p

notify-Silent :
    (F : Type 0) (ps : List Printed) (vm : Variables F) (s : Settings)
    → s.printed ≡ ps
    → Silent ps (notify F vm s)
unfolding notify
notify-Silent F ps vm s h =
    then-Holds _ (store as_text _ (vm "wallet") s) _ (store-Holds _ _ _ (vm "wallet") s (λ a. h) h)
      λ u s1 h1.
        then-Holds _ (store as_text _ (vm "url") s1) _
          (store-Holds _ _ _ (vm "url") s1 (λ a. h1) h1)
          λ u s2 h2.
            then-Holds _ (store as_text _ (vm "method") s2) _
              (store-Holds _ _ _ (vm "method") s2 (λ a. h2) h2)
              λ u s3 h3.
                then-Holds _ (store as_text _ (vm "params") s3) _
                  (store-Holds _ _ _ (vm "params") s3 (λ a. h3) h3)
                  λ u s4 h4.
                    then-Holds _ (store as_int _ (vm "reconnections") s4) _
                      (store-Holds _ _ _ (vm "reconnections") s4 (λ a. h4) h4)
                      λ u s5 h5. store-Holds _ _ _ (vm "timeout") s5 (λ a. h5) h5

module _ (P : ProgramOptions) (K : KeyLibrary) where
  -- What an exit has written.
  abbrev pub HasShown : List Printed → Settings → Type 0
  HasShown ps s =
      (s.printed ≡ methods ∷ options ∷ ps)
      ⊎ ((bare : Bool) × (pair : K.KeyPair) × (pair_for K s.wallet_phrase ≡ returned (some pair))
          × (s.printed ≡ keys bare (K.encoded_private pair) (K.encoded_public pair) ∷ ps))

  -- Before the handlers.
  abbrev IsExamined : List Printed → Result Ending × Settings → Type 0
  IsExamined ps (returned (returns true), s) =
      (s.method ≢ []) × (s.client_timeout ≡ s.read_timeout) × (s.printed ≡ ps)
  IsExamined ps (returned (returns false), s) = ⊥
  IsExamined ps (returned (exits n), s) = (n ≡ pos 0) × HasShown ps s
  IsExamined ps (threw e, s) = s.printed ≡ ps
  IsExamined ps (undefined, s) = pair_for K s.wallet_phrase ≡ returned none
  IsExamined ps (hung, s) = ⊥

  -- A command line that is accepted has a method, and sets the client's timeout; one that is refused
  -- has written the exception; an exit has the code 0; and undefined behaviour is that no pair of keys
  -- could be made.
  abbrev pub IsParsed : List Printed → Result Ending × Settings → Type 0
  IsParsed ps (returned (returns true), s) =
      (s.method ≢ []) × (s.client_timeout ≡ s.read_timeout) × (s.printed ≡ ps)
  IsParsed ps (returned (returns false), s) = (e : Exception) × (s.printed ≡ caught e ∷ ps)
  IsParsed ps (returned (exits n), s) = (n ≡ pos 0) × HasShown ps s
  IsParsed ps (threw e, s) = ⊥
  IsParsed ps (undefined, s) = pair_for K s.wallet_phrase ≡ returned none
  IsParsed ps (hung, s) = ⊥

  -- The program has ended: with 0 or 1 at its options, or as its retries do; or no pair of keys could
  -- be made.
  abbrev pub IsFinished : (Settings → ℕ → Attempt) → Program → Type 0
  IsFinished plan (quits n) = (n ≡ pos 0) ⊎ (n ≡ pos 1)
  IsFinished plan (runs s r) =
      (s.method ≢ []) × (r ≡ main s.reconnections (plan s)) × HasEnded s.reconnections (plan s) r
  IsFinished plan crashes = (phrase : Text) × (pair_for K phrase ≡ returned none)
  IsFinished plan stuck = ⊥

  start-IsFinished :
      (ps : List Printed) (plan : Settings → ℕ → Attempt) (p : Result Ending × Settings)
      → IsParsed ps p
      → IsFinished plan (start plan p)
  unfolding start
  start-IsFinished ps plan (returned (returns true), s) h =
      (h.0, refl, main-HasEnded s.reconnections (plan s))
  start-IsFinished ps plan (returned (returns false), s) h = inr refl
  start-IsFinished ps plan (returned (exits n), s) h = inl h.0
  start-IsFinished ps plan (threw e, s) h = absurd h
  start-IsFinished ps plan (undefined, s) h = (s.wallet_phrase, h)
  start-IsFinished ps plan (hung, s) h = absurd h

  then-IsExamined :
      {A : Type 0} (ps : List Printed) (p : Result A × Settings) (f : A → M Settings Ending)
      → Silent ps p
      → ((a : A) (s : Settings) → s.printed ≡ ps → IsExamined ps (f a s))
      → IsExamined ps (continue_with f p)
  then-IsExamined ps (returned a, s) f h g = g a s h
  then-IsExamined ps (threw e, s) f h g = h
  then-IsExamined ps (undefined, s) f h g = absurd h
  then-IsExamined ps (hung, s) f h g = absurd h

  handle-IsParsed :
      (ps : List Printed) (p : Result Ending × Settings)
      → IsExamined ps p
      → IsParsed ps (handle refuse p)
  unfolding refuse
  handle-IsParsed ps (returned (returns true), s) h = h
  handle-IsParsed ps (returned (returns false), s) h = absurd h
  handle-IsParsed ps (returned (exits n), s) h = h
  handle-IsParsed ps (threw e, s) h = (e, ap (caught e ∷◌) h)
  handle-IsParsed ps (undefined, s) h = h
  handle-IsParsed ps (hung, s) h = h

  module _ (lib : IsProgramOptions P) (pairs : IsKeyLibrary K) where
    show_wallet-IsExamined :
        (ps : List Printed) (bare : Bool) (s : Settings)
        → s.printed ≡ ps
        → IsExamined ps (show_wallet K bare s)
    unfolding show_wallet
    show_wallet-IsExamined ps bare s h =
        go (pair_for K s.wallet_phrase) refl (pair_for-IsMade K pairs s.wallet_phrase)
      where
        go :
            (r : Result (Option K.KeyPair))
            → pair_for K s.wallet_phrase ≡ r
            → IsMade r
            → IsExamined ps (continue_with (write_pair K bare) (r, s))
        go (returned (some pair)) e m = (
          refl,
          inr (bare, pair, e, ap (keys bare (K.encoded_private pair) (K.encoded_public pair) ∷◌) h),
        )
        go (returned none) e m = e
        go (threw x) e m = h
        go undefined e m = absurd (m.0 refl)
        go hung e m = absurd (m.1 refl)

    show_help-IsExamined :
        (ps : List Printed) (s : Settings) → s.printed ≡ ps → IsExamined ps (show_help s)
    unfolding show_help
    show_help-IsExamined ps s h = (refl, inl (ap (λ l. methods ∷ options ∷ l) h))

    method-IsExamined :
        (ps : List Printed) (m : Text) (debug : Bool) (s : Settings)
        → s.method ≡ m
        → s.printed ≡ ps
        → IsExamined ps (if is_empty m then show_help s else accept debug s)
    unfolding accept
    method-IsExamined ps [] debug s e h = show_help-IsExamined ps s h
    method-IsExamined ps (c ∷ m) debug s e h = ((λ n. cc), refl, h)

    examine-IsExamined :
        (ps : List Printed) (vm : Variables P.Float) (s : Settings)
        → s.printed ≡ ps
        → IsExamined ps (examine P K vm s)
    unfolding examine
    examine-IsExamined ps vm s h = go (counted "help" vm) (counted "wallet" vm)
      where
        go :
            (help wallet : Bool)
            → IsExamined ps (
                if help
                then show_help s
                else if wallet
                then show_wallet K (counted "output" vm) s
                else if is_empty s.method
                then show_help s
                else accept (counted "debug" vm) s)
        go true wallet = show_help-IsExamined ps s h
        go false true = show_wallet-IsExamined ps _ s h
        go false false = method-IsExamined ps s.method _ s refl h

    -- With options and keys as documented, `parse_cmdline` of the wallet accepts a command line
    -- only with a method, and sets the client's timeout to that for reading; it refuses one only
    -- after an exception, which it has written; it exits only with 0, and has then written the help
    -- or the keys that were asked for; and its behaviour is undefined only if no pair of keys could
    -- be made.
    pub parse_cmdline-IsParsed :
        (av : List Text) (s : Settings) → IsParsed s.printed (parse_cmdline P K av s)
    unfolding parse_cmdline
    parse_cmdline-IsParsed av s = handle-IsParsed s.printed _ (
        then-IsExamined s.printed (P.parse_and_store (wallet_options P.Float s) av, s) _
          (made-Holds _ _ s (lib.parse_defined _ av, lib.parse_ends _ av) refl)
          λ vm s1 h1.
            then-IsExamined s.printed (notify P.Float vm s1) _
              (notify-Silent P.Float s.printed vm s1 h1)
              λ u s2 h2. examine-IsExamined s.printed vm s2 h2)

    -- The wallet's program ends: with 0 or 1 at its options, or as its retries end, or with
    -- undefined behaviour if no pair of keys could be made.
    pub program-IsFinished :
        (av : List Text) (plan : Settings → ℕ → Attempt) → IsFinished plan (program P K av plan)
    unfolding program
    program-IsFinished av plan =
        start-IsFinished [] plan (parse_cmdline P K av initial) (parse_cmdline-IsParsed av initial)
