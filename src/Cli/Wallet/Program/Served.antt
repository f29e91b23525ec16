-- ===== src/Cli/Wallet/Program/Served.antt =====
-- The wallet when all goes well in the end.
use mile_csa_jsonrpc_client.Base.{
  ℕ, ◌<◌, ◌≡◌, refl, ◌∙◌, ap, Bool, true, List, [], ◌∷◌, String, Text,
}
use mile_csa_jsonrpc_client.Base.Int.{pos}
use mile_csa_jsonrpc_client.Effects.{returned}
use mile_csa_jsonrpc_client.Rpc.Env.{JsonLibrary, MileLibrary}
use mile_csa_jsonrpc_client.Rpc.Call.{method_of}
use mile_csa_jsonrpc_client.Connection.Answers.{Asks}
use mile_csa_jsonrpc_client.Connection.Reached.{IsUnresolved}
use mile_csa_jsonrpc_client.Cli.Options.{ProgramOptions, KeyLibrary, returns}
use mile_csa_jsonrpc_client.Cli.Outside.{Outside}
use mile_csa_jsonrpc_client.Cli.Wallet.{exited, shown_response, main}
use mile_csa_jsonrpc_client.Cli.Wallet.Retries.{main-recovers}
use mile_csa_jsonrpc_client.Cli.Wallet.Attempts.Served.{
  IsServed, attempt-served, attempt-unresolved,
}
use mile_csa_jsonrpc_client.Cli.Wallet.Options.{
  Settings, runs, start, program, parse_cmdline, initial,
}
use mile_csa_jsonrpc_client.Cli.Wallet.Program.{timed, plan, run}

module _ (J : JsonLibrary) (L : MileLibrary J.Json J.Float) (rand : ℕ → ℕ) (emits : Bool)
    (as_string : Text → String) (outside : ℕ → Outside) where
  -- The first `k` attempts find no host, and the next one is served.
  pub record IsServedAfter (s : Settings) (k : ℕ) : Type 0 where
    pub name : String
    pub given : J.Json
    pub response : J.Json
    pub text : Text
    pub asks : Asks (method_of emits (as_string s.method)) name
    pub unresolved : (i : ℕ) → i < k → IsUnresolved (timed s (outside i)).surroundings s.address
    pub served : IsServed J L rand (timed s (outside k)) s.address name response
    pub params_parsed : J.parse s.params ≡ returned given
    pub response_dumped : J.dump response ≡ returned text

  started :
      (P : ProgramOptions) (K : KeyLibrary) (av : List Text) (s : Settings)
      → parse_cmdline P K av initial ≡ (returned (returns true), s)
      → run J L rand emits as_string outside P K av
        ≡ runs s (main s.reconnections (plan J L rand emits as_string outside s))
  unfolding run program start
  started P K av s e = rw e refl

  served-main :
      (s : Settings) (k m : ℕ)
      → k < m
      → IsServedAfter s k
      → main (pos m) (plan J L rand emits as_string outside s)
        ≡ exited (pos 0) (record { reconnections = k; printed = shown_response ∷ [] })
  unfolding plan
  served-main s k m l h =
      main-recovers k m (plan J L rand emits as_string outside s) shown_response
        (λ i less.
          attempt-unresolved J L rand emits (as_string s.method) s.params s.address
            (timed s (outside i)) (h.unresolved i less))
        (attempt-served J L rand emits (as_string s.method) s.params s.address h.name
          (timed s (outside k)) h.given h.response h.text h.asks h.served h.params_parsed
          h.response_dumped)
        l

  -- If the wallet accepts its arguments, with a number of reconnections above `k`; if the name
  -- service throws in the first `k` attempts; and if in the next one the url is parsed, its host is
  -- found and connected, the question is written and read within the deadlines, and the node
  -- answers with status 200 and a result that is not null, to a method that is asked without
  -- parameters; then the wallet exits with 0 after `k` reconnections, and has printed the response,
  -- once.
  pub run-serves :
      (P : ProgramOptions) (K : KeyLibrary) (av : List Text) (s : Settings) (k m : ℕ)
      → parse_cmdline P K av initial ≡ (returned (returns true), s)
      → s.reconnections ≡ pos m
      → k < m
      → IsServedAfter s k
      → run J L rand emits as_string outside P K av
        ≡ runs s (exited (pos 0) (record { reconnections = k; printed = shown_response ∷ [] }))
  run-serves P K av s k m e q l h =
      started P K av s e
      ∙ ap (λ n. runs s (main n (plan J L rand emits as_string outside s))) q
      ∙ ap (runs s) (served-main s k m l h)
