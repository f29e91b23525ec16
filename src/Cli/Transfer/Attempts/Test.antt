-- ===== src/Cli/Transfer/Attempts/Test.antt =====
-- An attempt of a transfer with the option `--test`.
use mile_csa_jsonrpc_client.Base.{
  ℕ, ◌≡◌, refl, Bool, true, false, Option, none, some, List, [], Text,
}
use mile_csa_jsonrpc_client.Effects.{Code, Result, returned, threw, undefined, hung, Report}
use mile_csa_jsonrpc_client.Rpc.Env.{JsonLibrary, MileLibrary}
use mile_csa_jsonrpc_client.Rpc.World.{World}
use mile_csa_jsonrpc_client.Connection.Client.{
  Connected, connected, not_connected, url_threw, escaped, crashed, stuck,
}
use mile_csa_jsonrpc_client.Cli.Outside.{Outside, E}
use mile_csa_jsonrpc_client.Cli.Transfer.{Attempt, body, cut}
use mile_csa_jsonrpc_client.Cli.Transfer.Attempts.{
  Order, send_body, with_request, with_pair, with_block, with_client, attempt,
}

-- The attempt does not stop in the sending of the request, and no error is reported there.
abbrev pub IsUnsent : Attempt → Type 0
IsUnsent (body codes sending) = sending ≡ []
IsUnsent (cut k codes sending) = ⊥
IsUnsent a = Unit {0}

module _ (J : JsonLibrary) (L : MileLibrary J.Json J.Float) (rand : ℕ → ℕ) where
  send_body-IsUnsent :
      (test : Bool) (codes : List Code) (b : J.Json) (w : World (E J L rand)) (r : Result Text)
      → test ≡ true
      → IsUnsent (send_body J L rand test codes b w r)
  unfolding send_body
  send_body-IsUnsent true codes b w (returned d) e = refl
  send_body-IsUnsent false codes b w (returned d) e = absurd cc
  send_body-IsUnsent test codes b w (threw x) e = tt
  send_body-IsUnsent test codes b w undefined e = tt
  send_body-IsUnsent test codes b w hung e = tt

  module _ (order : Order J L rand) (tested : order.test ≡ true) where
    with_request-IsUnsent :
        (codes : List Code) (w : World (E J L rand)) (p : Option (Option J.Json) × List Report)
        → IsUnsent (with_request J L rand order codes w p)
    unfolding with_request
    with_request-IsUnsent codes w (none, rs) = tt
    with_request-IsUnsent codes w (some none, rs) = tt
    with_request-IsUnsent codes w (some (some b), rs) =
        send_body-IsUnsent order.test _ b w (J.dump b) tested

    with_pair-IsUnsent :
        (codes : List Code) (w : World (E J L rand)) (id : L.BlockId) (o : Option L.KeyPair)
        → IsUnsent (with_pair J L rand order codes w id o)
    with_pair-IsUnsent codes w id none = tt
    with_pair-IsUnsent codes w id (some pair) = with_request-IsUnsent codes w _

    with_block-IsUnsent :
        (p : Result (Option L.BlockId) × World (E J L rand))
        → IsUnsent (with_block J L rand order p)
    unfolding with_block
    with_block-IsUnsent (returned none, w) = tt
    with_block-IsUnsent (returned (some id), w) = with_pair-IsUnsent _ w id order.ppk
    with_block-IsUnsent (threw x, w) = tt
    with_block-IsUnsent (undefined, w) = tt
    with_block-IsUnsent (hung, w) = tt

    with_client-IsUnsent : (o : Outside) (c : Connected) → IsUnsent (with_client J L rand order o c)
    unfolding with_client
    with_client-IsUnsent o (connected c reports es) = with_block-IsUnsent _
    with_client-IsUnsent o (not_connected reports) = tt
    with_client-IsUnsent o (url_threw e) = tt
    with_client-IsUnsent o (escaped e) = tt
    with_client-IsUnsent o crashed = tt
    with_client-IsUnsent o stuck = tt

    -- With the option `--test` an attempt neither stops nor reports an error in the sending, whatever
    -- surrounds it.
    pub attempt-IsUnsent : (url : Text) (o : Outside) → IsUnsent (attempt J L rand order url o)
    unfolding attempt
    attempt-IsUnsent url o = with_client-IsUnsent o _
