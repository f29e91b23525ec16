-- ===== src/Cli/Wallet/Program/Outcome.antt =====
-- The ways in which the wallet ends.
use mile_csa_jsonrpc_client.Base.{
  ℕ, ◌≤◌, ◌≡◌, ◌≢◌, ◌⊎◌, refl, ◌∙◌, sym, Bool, true, none, List, [], String, Text,
}
use mile_csa_jsonrpc_client.Base.Int.{ℤ, pos, negsuc}
use mile_csa_jsonrpc_client.Effects.{Code, threw, returned, Exception, is_std}
use mile_csa_jsonrpc_client.Url.Parse.{Boost, IsBoost, parse}
use mile_csa_jsonrpc_client.Url.Parse as Parse
use mile_csa_jsonrpc_client.Rpc.Env.{JsonLibrary, MileLibrary}
use mile_csa_jsonrpc_client.Rpc.Call.{method_of}
use mile_csa_jsonrpc_client.Connection.Client.{connect_url}
use mile_csa_jsonrpc_client.Connection.Defined.{IsJson}
use mile_csa_jsonrpc_client.Connection.Defined.Calls.{unchecked}
use mile_csa_jsonrpc_client.Cli.Options.{ProgramOptions, KeyLibrary, pair_for}
use mile_csa_jsonrpc_client.Cli.Outside.{Outside}
use mile_csa_jsonrpc_client.Cli.Wallet.{
  Attempt, escapes, crashes, hangs, Run, exited, goes_on, escaped, crashed, stuck, lost,
  out_of_fuel, do_request, on_errors, main,
}
use mile_csa_jsonrpc_client.Cli.Wallet.Retries.{HasEnded}
use mile_csa_jsonrpc_client.Cli.Wallet.Retries.Bounds.{bound, IsMet}
use mile_csa_jsonrpc_client.Cli.Wallet.Attempts.{attempt, with_client}
use mile_csa_jsonrpc_client.Cli.Wallet.Attempts.Outcome.{IsTried, attempt-IsTried}
use mile_csa_jsonrpc_client.Cli.Wallet.Options.{Settings, Program, quits, runs, program}
use mile_csa_jsonrpc_client.Cli.Wallet.Options as Options
use mile_csa_jsonrpc_client.Cli.Wallet.Options.Outcome.{IsFinished}
use mile_csa_jsonrpc_client.Cli.Wallet.Program.{timed, plan}

-- An exception of the first attempt leaves the program.
escapes-first : (limit : ℤ) (plan : ℕ → Attempt) → plan 0 ≡ escapes [] → main limit plan ≡ escaped
unfolding main do_request on_errors
escapes-first (pos m) plan e = rw e refl
escapes-first (negsuc m) plan e = rw e refl

not_both : lost ≢ escaped
not_both e = cc

module _ (J : JsonLibrary) (L : MileLibrary J.Json J.Float) (rand : ℕ → ℕ) (emits : Bool)
    (as_string : Text → String) (outside : ℕ → Outside) where
  -- After the options.
  abbrev pub IsOver : Boost → Settings → Run → Type 0
  IsOver boost s (exited code t) =
      ((code ≡ pos 0) ⊎ (code ≡ negsuc 0)) × (t.reconnections ≤ bound s.reconnections)
  IsOver boost s (goes_on t) = ⊥
  IsOver boost s escaped = (e : _) × (parse boost s.address ≡ Parse.threw e)
  IsOver boost s crashed = unchecked (method_of emits (as_string s.method)) ≡ true
  IsOver boost s stuck = IsMet s.reconnections (plan J L rand emits as_string outside s) hangs
  IsOver boost s lost = ⊥
  IsOver boost s out_of_fuel = ⊥

  -- The program has ended: with 0 or 1 at its options; after its attempts with 0 or -1, no more
  -- reconnections having been made than the option says; with an exception of `Url::Parse`; with
  -- undefined behaviour, of a method that takes an optional without a test, or if no pair of keys could
  -- be made; or one of its attempts does not return.
  abbrev pub IsRun : KeyLibrary → Boost → Program → Type 0
  IsRun K boost (quits n) = (n ≡ pos 0) ⊎ (n ≡ pos 1)
  IsRun K boost (runs s r) = (s.method ≢ []) × IsOver boost s r
  IsRun K boost Options.crashes = (phrase : Text) × (pair_for K phrase ≡ returned none)
  IsRun K boost Options.stuck = ⊥

  module _ (json : IsJson J)
      (parses : (s : Text) (x : Exception) → J.parse s ≡ threw x → is_std x ≡ true)
      (dumps : (j : J.Json) (x : Exception) → J.dump j ≡ threw x → is_std x ≡ true) (boost : Boost)
      (lawful : IsBoost boost) (same_boost : (n : ℕ) → (outside n).surroundings.boost ≡ boost) where
    plan-IsTried :
        (s : Settings) (n : ℕ) (a : Attempt)
        → plan J L rand emits as_string outside s n ≡ a
        → IsTried J L rand emits (as_string s.method) s.params s.address (timed s (outside n)) a
    unfolding plan
    plan-IsTried s n a e = rw (← e) (
        attempt-IsTried J L rand json emits (as_string s.method) parses dumps s.params s.address
          (timed s (outside n)) (rw (same_boost n) lawful))

    escapes-only :
        (s : Settings) (n : ℕ) (codes : List Code)
        → plan J L rand emits as_string outside s n ≡ escapes codes
        → (e : _) × (parse boost s.address ≡ Parse.threw e)
    escapes-only s n codes e =
        let (q, x, p) = plan-IsTried s n (escapes codes) e in (x, rw (same_boost n) at p)

    plan-first :
        (s : Settings) (e : _)
        → parse boost s.address ≡ Parse.threw e
        → plan J L rand emits as_string outside s 0 ≡ escapes []
    unfolding plan attempt with_client connect_url
    plan-first s e p = rw (same_boost 0, p) refl

    over :
        (s : Settings) (r : Run)
        → main s.reconnections (plan J L rand emits as_string outside s) ≡ r
        → HasEnded s.reconnections (plan J L rand emits as_string outside s) r
        → IsOver boost s r
    over s (exited code t) q h = h
    over s (goes_on t) q h = h
    over s escaped q (n, codes, l, e) = escapes-only s n codes e
    over s crashed q (n, codes, l, e) = plan-IsTried s n (crashes codes) e
    over s stuck q h = h
    over s lost q (n, codes, l, e) =
        let (x, p) = escapes-only s n codes e in
        absurd (not_both (sym q ∙ escapes-first s.reconnections _ (plan-first s x p)))
    over s out_of_fuel q h = h

    module _ (P : ProgramOptions) (K : KeyLibrary) where
      finished :
          (p : Program) → IsFinished P K (plan J L rand emits as_string outside) p → IsRun K boost p
      finished (quits n) h = h
      finished (runs s r) (n, q, h) = (n, over s r (sym q) h)
      finished Options.crashes h = h
      finished Options.stuck h = h
