-- ===== src/Cli/Transfer/Program/Served.antt =====
-- A transfer when all goes well.
use mile_csa_jsonrpc_client.Base.{
  ℕ, ◌≡◌, refl, Bool, true, false, Option, some, List, [], ◌∷◌, String, Text,
}
use mile_csa_jsonrpc_client.Base.Int.{ℤ, pos, negsuc}
use mile_csa_jsonrpc_client.Effects.{returned}
use mile_csa_jsonrpc_client.Rpc.Env.{JsonLibrary, MileLibrary}
use mile_csa_jsonrpc_client.Cli.Options.{ProgramOptions, KeyLibrary, returns}
use mile_csa_jsonrpc_client.Cli.Outside.{Outside}
use mile_csa_jsonrpc_client.Cli.Password.{Terminal}
use mile_csa_jsonrpc_client.Cli.Transfer.{
  Attempt, Prepared, body, exited, begin, find_key, main, do_request, on_errors, send,
}
use mile_csa_jsonrpc_client.Cli.Transfer.Attempts.{attempt}
use mile_csa_jsonrpc_client.Cli.Transfer.Attempts.Served.{IsServed, attempt-sends}
use mile_csa_jsonrpc_client.Cli.Transfer.Options.{
  Settings, runs, continued, start, program, parse_cmdline, initial,
}
use mile_csa_jsonrpc_client.Cli.Transfer.Program.{order_of, prepare, run}

-- One attempt, which sends the transaction and calls no handler.
begin-sends :
    (rand : ℕ → ℕ) (limit : ℤ) (test : Bool) (plan : ℕ → Attempt)
    → test ≡ false
    → plan 0 ≡ body [] []
    → begin rand limit test (some plan)
      ≡ exited (pos 0) (record { reconnections = 0; draws = 1; sent = rand 0 ∷ [] })
unfolding do_request on_errors send
begin-sends rand (pos m) test plan t e = rw (t, e) refl
begin-sends rand (negsuc m) test plan t e = rw (t, e) refl

module _ (J : JsonLibrary) (L : MileLibrary J.Json J.Float) (rand : ℕ → ℕ) (P : ProgramOptions)
    (as_string : Text → String) (as_amount : P.Float → J.Float) (ids : ℕ → ℕ)
    (outside : ℕ → Outside) (K : KeyLibrary) (maxpw : ℕ) (t : Terminal) (valid : Text → Bool)
    (input : List ℕ) where
  abbrev made : Settings P.Float → Text → Prepared
  made = prepare J L rand P as_string as_amount ids outside

  -- The private key is found and has its pair of keys, and the first attempt is served.
  pub record IsServedAtOnce (s : Settings P.Float) : Type 0 where
    pub key : Text
    pub rest : List ℕ
    pub ppk : Option L.KeyPair
    pub is_found : find_key maxpw t valid s.private_key input ≡ (true, key, rest)
    pub has_pair : L.from_private_key (as_string key) ≡ (ppk, [])
    pub is_real : s.test ≡ false
    pub served :
        IsServed J L rand
          (order_of J L rand P as_string as_amount ids outside s ppk 0)
          (outside 0)
          s.address

  prepared-served :
      (s : Settings P.Float) (h : IsServedAtOnce s)
      → made s h.key
        ≡ some (λ n.
          attempt J L rand
            (order_of J L rand P as_string as_amount ids outside s h.ppk n)
            s.address
            (outside n))
  unfolding prepare
  prepared-served s h = rw h.has_pair refl

  continued-served :
      (s : Settings P.Float)
      → IsServedAtOnce s
      → continued P.Float rand maxpw t valid input made s
        ≡ exited (pos 0) (record { reconnections = 0; draws = 1; sent = rand 0 ∷ [] })
  unfolding main
  continued-served s h =
      rw (h.is_found, prepared-served s h)
        (begin-sends rand s.reconnections s.test _ h.is_real (
          attempt-sends J L rand (order_of J L rand P as_string as_amount ids outside s h.ppk 0)
            (outside 0) s.address h.served))

  -- If a transfer accepts its arguments, without `--test`, and finds a valid private key with a
  -- pair of keys, given or typed, of which `FromPrivateKey` reports nothing; and if within the
  -- deadlines the node of the url is connected, answers the question for the block id with a text,
  -- and answers the transaction that the library has made, each with status 200 and a result that
  -- is not null; then exactly one transaction is sent, and the program exits with 0 without a
  -- reconnection.
  pub run-sends :
      (av : List Text) (s : Settings P.Float)
      → parse_cmdline P K av (initial P K) ≡ (returned (returns true), s)
      → IsServedAtOnce s
      → run J L rand P as_string as_amount ids outside K maxpw t valid input av
        ≡ runs s (exited (pos 0) (record { reconnections = 0; draws = 1; sent = rand 0 ∷ [] }))
  unfolding run program start
  run-sends av s e h = rw (e, continued-served s h) refl
