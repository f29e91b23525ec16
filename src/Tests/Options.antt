-- ===== src/Tests/Options.antt =====
-- Command lines.
use mile_csa_jsonrpc_client.Base.{
  ℕ, ◌≡◌, ap, sym, ◌∙◌, Bool, true, false, Option, none, some, List, [], ◌∷◌, String, Text, codes,
}
use text.Mathlib.Text.{◌==◌ as str_eq}
use mile_csa_jsonrpc_client.Base.{if◌then◌else◌, ◌==◌}
use mile_csa_jsonrpc_client.Effects.{returned}
use mile_csa_jsonrpc_client.Cli.Options.{
  Value, Semantic, Described, Entry, Variables, text_value, ushort_value, float_value, no_argument,
  default_of, semantic_of, KeyLibrary, ProgramOptions, IsProgramOptions,
}
use mile_csa_jsonrpc_client.Cli.Options.Steps.{IsKeyLibrary}
use mile_csa_jsonrpc_client.Cli.Wallet.Options as Wallet
use mile_csa_jsonrpc_client.Cli.Transfer.Options as Transfer
use mile_csa_jsonrpc_client.Cli.Transfer.Options.Outcome as Accepted
use mile_csa_jsonrpc_client.Cli.Wallet.Options.Outcome.{IsParsed, parse_cmdline-IsParsed}

-- A small reader of command lines: the first argument is the method or the destination, the asset and
-- the amount are 1 and 5, and a second argument is the option `--test`.
abbrev given : List Text → String → Option (Value ℕ)
given [] name = none
given (t ∷ rest) name =
    if str_eq name "method"
    then some (text_value t)
    else if str_eq name "to"
    then some (text_value t)
    else if str_eq name "asset"
    then some (ushort_value 1)
    else if str_eq name "amount"
    then some (float_value 5)
    else if str_eq name "test"
    then second rest
    else none
  where
    second : List Text → Option (Value ℕ)
    second [] = none
    second (u ∷ us) = some no_argument

abbrev by_default : Option (Value ℕ) → Option (Entry ℕ)
by_default none = none
by_default (some v) = some (record { value = v; defaulted = true })

abbrev pick : Option (Value ℕ) → Option (Value ℕ) → Option (Entry ℕ)
pick d none = by_default d
pick d (some v) = some (record { value = v; defaulted = false })

abbrev entry : Option (Semantic ℕ) → Option (Value ℕ) → Option (Entry ℕ)
entry none g = none
entry (some s) g = pick (default_of s) g

abbrev pub variables : List (Described ℕ) → List Text → Variables ℕ
variables ds av name = entry (semantic_of name ds) (given av name)

abbrev pub reader : ProgramOptions
reader = record {
  Float = ℕ;
  zero_float = 0;
  at_most_zero = is_zero;
  parse_and_store = λ ds av. returned (variables ds av);
}
  where
    is_zero : ℕ → Bool
    is_zero n = n == 0

same_variables :
    (ds : List (Described ℕ)) (av : List Text) (vm : Variables ℕ)
    → reader.parse_and_store ds av ≡ returned vm
    → variables ds av ≡ vm
same_variables ds av vm e = cc

pick-default :
    (d g : Option (Value ℕ)) (e : Entry ℕ)
    → pick d g ≡ some e
    → e.defaulted ≡ true
    → d ≡ some e.value
pick-default none none e q t = cc
pick-default (some v) none e q t = cc
pick-default d (some v) e q t = cc

pub reader-IsProgramOptions : IsProgramOptions reader
reader-IsProgramOptions = record {
  parse_defined = λ ds av e. cc;
  parse_ends = λ ds av e. cc;
  only_described = λ ds av vm name e q.
      ap (λ f. f name) (sym (same_variables ds av vm e)) ∙ ap (λ o. entry o (given av name)) q;
  default_kept = λ ds av vm name s e p q r t.
      pick-default (default_of s) (given av name) e
        (ap (λ o. entry o (given av name)) (sym q)
          ∙ (ap (λ f. f name) (same_variables ds av vm p) ∙ r))
        t;
}

abbrev pub wallets : KeyLibrary
wallets = record {
  KeyPair = String;
  random = returned (some "random");
  with_secret = λ phrase. returned (some "secret");
  encoded_private = λ k. k;
  encoded_public = λ k. k;
}

pub wallets-IsKeyLibrary : IsKeyLibrary wallets
wallets-IsKeyLibrary = record {
  random_defined = λ e. cc;
  random_ends = λ e. cc;
  secret_defined = λ phrase e. cc;
  secret_ends = λ phrase e. cc;
}

parse_cmdline-IsParsed_example :
    IsParsed reader wallets []
      (Wallet.parse_cmdline reader wallets (codes "get-nodes" ∷ []) Wallet.initial)
parse_cmdline-IsParsed_example =
    parse_cmdline-IsParsed reader wallets reader-IsProgramOptions wallets-IsKeyLibrary
      (codes "get-nodes" ∷ []) Wallet.initial

parse_cmdline-IsTaken_example :
    Accepted.IsTaken reader wallets []
      (Transfer.parse_cmdline reader wallets (codes "x" ∷ []) (Transfer.initial reader wallets))
parse_cmdline-IsTaken_example =
    Accepted.parse_cmdline-IsTaken reader wallets reader-IsProgramOptions (codes "x" ∷ [])
      (Transfer.initial reader wallets)
