-- ===== src/Cli/Transfer/Options/Outcome.antt =====
-- The ways in which the command line of a transfer is taken.
use mile_csa_jsonrpc_client.Base.{
  ℕ, ◌≡◌, ◌≢◌, ◌⊎◌, inl, inr, refl, ap, Bool, true, false, ◌==◌, none, List, [], ◌∷◌, Text,
  if◌then◌else◌,
}
use mile_csa_jsonrpc_client.Base.Int.{pos}
use mile_csa_jsonrpc_client.Effects.{
  Result, returned, threw, undefined, hung, Exception, M, continue_with, handle,
}
use mile_csa_jsonrpc_client.Cli.Options.{
  KeyLibrary, Ending, exits, returns, is_empty, ProgramOptions, IsProgramOptions, Variables,
  counted, store, as_text, as_ushort, as_float,
}
use mile_csa_jsonrpc_client.Cli.Options.Steps.{Holds, store-Holds, then-Holds}
use mile_csa_jsonrpc_client.Cli.Password.{Terminal}
use mile_csa_jsonrpc_client.Cli.Transfer.{Prepared}
use mile_csa_jsonrpc_client.Cli.Transfer.Sends.{HasSent, main-HasSent}
use mile_csa_jsonrpc_client.Cli.Transfer.Options.{
  Printed, options, caught, Settings, initial, transfer_options, notify, show_help, accept,
  check_values, examine, refuse, parse_cmdline, Program, quits, runs, crashes, stuck, continued,
  start, program,
}

module _ (P : ProgramOptions) (K : KeyLibrary) where
  abbrev Silent : {A : Type 0} → List Printed → Result A × Settings P.Float → Type 0
  Silent ps p = Holds (λ s. s.printed ≡ ps) p

  notify-Silent :
      (ps : List Printed) (vm : Variables P.Float) (s : Settings P.Float)
      → s.printed ≡ ps
      → Silent ps (notify P K vm s)
  unfolding notify
  notify-Silent ps vm s h =
      then-Holds _ (store as_text _ (vm "url") s) _ (store-Holds _ _ _ (vm "url") s (λ a. h) h)
        λ u s1 h1.
          then-Holds _ (store as_text _ (vm "to") s1) _
            (store-Holds _ _ _ (vm "to") s1 (λ a. h1) h1)
            λ u s2 h2.
              then-Holds _ (store as_ushort _ (vm "asset") s2) _
                (store-Holds _ _ _ (vm "asset") s2 (λ a. h2) h2)
                λ u s3 h3.
                  then-Holds _ (store as_float _ (vm "amount") s3) _
                    (store-Holds _ _ _ (vm "amount") s3 (λ a. h3) h3)
                    λ u s4 h4.
                      then-Holds _ (store as_text _ (vm "description") s4) _
                        (store-Holds _ _ _ (vm "description") s4 (λ a. h4) h4)
                        λ u s5 h5.
                          then-Holds _ (store as_text _ (vm "private_key") s5) _
                            (store-Holds _ _ _ (vm "private_key") s5 (λ a. h5) h5)
                            λ u s6 h6. store-Holds _ _ _ (vm "reconnections") s6 (λ a. h6) h6

  abbrev IsAccepted : List Printed → Settings P.Float → Type 0
  IsAccepted ps s =
      (s.destination ≢ [])
      × (s.asset_code ≢ 100)
      × (P.at_most_zero s.amount ≡ false)
      × (s.printed ≡ ps)

  abbrev IsExamined : List Printed → Result Ending × Settings P.Float → Type 0
  IsExamined ps (returned (returns true), s) = IsAccepted ps s
  IsExamined ps (returned (returns false), s) = ⊥
  IsExamined ps (returned (exits n), s) = (n ≡ pos 0) × (s.printed ≡ options ∷ ps)
  IsExamined ps (threw e, s) = s.printed ≡ ps
  IsExamined ps (undefined, s) = ⊥
  IsExamined ps (hung, s) = ⊥

  -- A command line that is accepted has a destination, an asset and an amount; one that is refused has
  -- written the exception; an exit has the code 0 and has written the options; nothing else happens.
  abbrev pub IsTaken : List Printed → Result Ending × Settings P.Float → Type 0
  IsTaken ps (returned (returns true), s) = IsAccepted ps s
  IsTaken ps (returned (returns false), s) = (e : Exception) × (s.printed ≡ caught e ∷ ps)
  IsTaken ps (returned (exits n), s) = (n ≡ pos 0) × (s.printed ≡ options ∷ ps)
  IsTaken ps (threw e, s) = ⊥
  IsTaken ps (undefined, s) = ⊥
  IsTaken ps (hung, s) = ⊥

  then-IsExamined :
      {A : Type 0} (ps : List Printed) (p : Result A × Settings P.Float)
      (f : A → M (Settings P.Float) Ending)
      → Silent ps p
      → ((a : A) (s : Settings P.Float) → s.printed ≡ ps → IsExamined ps (f a s))
      → IsExamined ps (continue_with f p)
  then-IsExamined ps (returned a, s) f h g = g a s h
  then-IsExamined ps (threw e, s) f h g = h
  then-IsExamined ps (undefined, s) f h g = h
  then-IsExamined ps (hung, s) f h g = h

  handle-IsTaken :
      (ps : List Printed) (p : Result Ending × Settings P.Float)
      → IsExamined ps p
      → IsTaken ps (handle (refuse P K) p)
  unfolding refuse
  handle-IsTaken ps (returned (returns true), s) h = h
  handle-IsTaken ps (returned (returns false), s) h = absurd h
  handle-IsTaken ps (returned (exits n), s) h = h
  handle-IsTaken ps (threw e, s) h = (e, ap (caught e ∷◌) h)
  handle-IsTaken ps (undefined, s) h = h
  handle-IsTaken ps (hung, s) h = h

  show_help-IsExamined :
      (ps : List Printed) (s : Settings P.Float) → s.printed ≡ ps → IsExamined ps (show_help P K s)
  unfolding show_help
  show_help-IsExamined ps s h = (refl, ap (options ∷◌) h)

  check_values-IsExamined :
      (ps : List Printed) (vm : Variables P.Float) (s : Settings P.Float)
      → s.printed ≡ ps
      → IsExamined ps (check_values P K vm s)
  unfolding check_values accept
  check_values-IsExamined ps vm s h =
      go s.destination (s.asset_code == 100) (P.at_most_zero s.amount) refl refl refl
    where
      go :
          (to : Text) (unset small : Bool)
          → s.destination ≡ to
          → (s.asset_code == 100) ≡ unset
          → P.at_most_zero s.amount ≡ small
          → IsExamined ps (
              if is_empty to
              then show_help P K s
              else if unset
              then show_help P K s
              else if small
              then show_help P K s
              else accept P K (counted "debug" vm) (counted "test" vm) s)
      go [] unset small a b c = show_help-IsExamined ps s h
      go (x ∷ to) true small a b c = show_help-IsExamined ps s h
      go (x ∷ to) false true a b c = show_help-IsExamined ps s h
      go (x ∷ to) false false a b c =
          ((λ n. cc), (λ n. let q : (s.asset_code == 100) ≡ true = rw n refl in cc), c, h)

  -- The option `--wallet` is not among those that are described.
  examine-IsExamined :
      (ps : List Printed) (vm : Variables P.Float) (s : Settings P.Float)
      → vm "wallet" ≡ none
      → s.printed ≡ ps
      → IsExamined ps (examine P K vm s)
  unfolding examine
  examine-IsExamined ps vm s w h = rw w (go (counted "help" vm))
    where
      go : (help : Bool) → IsExamined ps (if help then show_help P K s else check_values P K vm s)
      go true = show_help-IsExamined ps s h
      go false = check_values-IsExamined ps vm s h

  module _ (rand : ℕ → ℕ) (maxpw : ℕ) (t : Terminal) (valid : Text → Bool) (input : List ℕ)
      (prepare : Settings P.Float → Text → Prepared) where
    -- The program has ended: with 0 or 1 if it did not come to the rest of `main`, or as that does.
    abbrev pub IsFinished : Program P.Float → Type 0
    IsFinished (quits n) = (n ≡ pos 0) ⊎ (n ≡ pos 1)
    IsFinished (runs s r) =
        HasSent s.reconnections r × (r ≡ continued P.Float rand maxpw t valid input prepare s)
    IsFinished crashes = ⊥
    IsFinished stuck = ⊥

    start-IsFinished :
        (ps : List Printed) (p : Result Ending × Settings P.Float)
        → IsTaken ps p
        → IsFinished (start P.Float rand maxpw t valid input prepare p)
    unfolding start
    start-IsFinished ps (returned (returns true), s) h = (
      main-HasSent rand s.reconnections s.test maxpw t valid s.private_key input (prepare s),
      refl,
    )
    start-IsFinished ps (returned (returns false), s) h = inr refl
    start-IsFinished ps (returned (exits n), s) h = inl h.0
    start-IsFinished ps (threw e, s) h = h
    start-IsFinished ps (undefined, s) h = h
    start-IsFinished ps (hung, s) h = h

  module _ (lib : IsProgramOptions P) where
    -- The variables are stored, unless an exception is thrown.
    stored :
        (av : List Text) (s : Settings P.Float) (r : Result (Variables P.Float))
        → P.parse_and_store (transfer_options P K s) av ≡ r
        → r ≢ undefined
        → r ≢ hung
        → IsExamined s.printed (
            continue_with
              (λ vm s1. continue_with (λ u s2. examine P K vm s2) (notify P K vm s1))
              (r, s))
    stored av s (returned vm) e m n =
        then-IsExamined s.printed (notify P K vm s) _ (notify-Silent s.printed vm s refl) λ u s2 h2.
          examine-IsExamined s.printed vm s2 (lib.only_described _ av vm "wallet" e refl) h2
    stored av s (threw x) e m n = refl
    stored av s undefined e m n = m refl
    stored av s hung e m n = n refl

    -- With options as documented, `parse_cmdline` of a transfer accepts a command line only with a
    -- destination, an asset other than 100 and an amount that does not compare as zero or less; it
    -- refuses one only after an exception, which it has written; it exits only with 0, and has then
    -- written the options alone; and nothing else happens.
    pub parse_cmdline-IsTaken :
        (av : List Text) (s : Settings P.Float) → IsTaken s.printed (parse_cmdline P K av s)
    unfolding parse_cmdline
    parse_cmdline-IsTaken av s =
        handle-IsTaken s.printed _
          (stored av s _ refl (lib.parse_defined _ av) (lib.parse_ends _ av))

    -- The program of a transfer ends: with 0 or 1 at its options, or as its prompts and retries
    -- end.
    pub program-IsFinished :
        (rand : ℕ → ℕ) (maxpw : ℕ) (t : Terminal) (valid : Text → Bool) (input : List ℕ)
        (prepare : Settings P.Float → Text → Prepared) (av : List Text)
        → IsFinished rand maxpw t valid input prepare
            (program P K rand maxpw t valid input prepare av)
    unfolding program
    program-IsFinished rand maxpw t valid input prepare av =
        start-IsFinished rand maxpw t valid input prepare [] (parse_cmdline P K av (initial P K))
          (parse_cmdline-IsTaken av (initial P K))
