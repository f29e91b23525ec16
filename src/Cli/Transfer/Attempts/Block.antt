-- ===== src/Cli/Transfer/Attempts/Block.antt =====
-- How the question for the block id may stop a transfer, which catches no exception.
use mile_csa_jsonrpc_client.Base.{
  ℕ, ◌+◌, ◌%◌, ◌^◌, ◌≡◌, ◌≢◌, ◌⊎◌, inl, inr, refl, Bool, true, false, Option, none, some, List,
  String,
}
use mile_csa_jsonrpc_client.Effects.{
  Result, returned, threw, undefined, hung, Exception, continue_with,
}
use mile_csa_jsonrpc_client.Session.Ready.{IsReady}
use mile_csa_jsonrpc_client.Rpc.Env.{JsonLibrary, MileLibrary}
use mile_csa_jsonrpc_client.Rpc.World.{World, get_next}
use mile_csa_jsonrpc_client.Rpc.Request.{next_command}
use mile_csa_jsonrpc_client.Rpc.Request.Outcome.{Outcome, request-Outcome}
use mile_csa_jsonrpc_client.Rpc.Client.{ask, block_id_of, block_id_field, get_current_block_id}
use mile_csa_jsonrpc_client.Connection.Transport.{session_transport-IsTransport}
use mile_csa_jsonrpc_client.Connection.Defined.{IsJson, ask-IsDefined}
use mile_csa_jsonrpc_client.Cli.Outside.{E}

-- The json library throws at the member of the answer with the block id, or because that is no text.
abbrev pub IsUnreadable : (J : JsonLibrary) → J.Json → Exception → Type 0
IsUnreadable J j x =
    (J.index "current-block-id" j ≡ threw x)
    ⊎ ((v : J.Json) × (J.index "current-block-id" j ≡ returned v) × (J.as_text v ≡ threw x))

module _ (J : JsonLibrary) (json : IsJson J) (L : MileLibrary J.Json J.Float) (rand : ℕ → ℕ) where
  -- After the answer: an exception is that of reading it.
  abbrev pub IsAsked :
      {A : Type 0} → Result (Option J.Json) → Result A × World (E J L rand) → Type 0
  IsAsked asked (returned a, w) = Unit {0}
  IsAsked asked (threw x, w) =
      (j : J.Json) × (asked ≡ returned (some j)) × (J.is_empty j ≡ false) × IsUnreadable J j x
  IsAsked asked (undefined, w) = ⊥
  IsAsked asked (hung, w) = Unit {0}

  read-IsAsked :
      (r : Result String) (j v : J.Json) (f : String → L.BlockId) (w : World (E J L rand))
      → J.is_empty j ≡ false
      → J.index "current-block-id" j ≡ returned v
      → J.as_text v ≡ r
      → IsAsked (returned (some j)) (continue_with (λ s w. (returned (some (f s)), w)) (r, w))
  read-IsAsked (returned s) j v f w b i e = tt
  read-IsAsked (threw x) j v f w b i e = (j, refl, b, inr (v, i, e))
  read-IsAsked undefined j v f w b i e = json.as_text_defined v e
  read-IsAsked hung j v f w b i e = tt

  field-IsAsked :
      (b : Bool) (j : J.Json) (w : World (E J L rand))
      → J.is_empty j ≡ b
      → IsAsked (returned (some j)) (block_id_field (E J L rand) b j w)
  field-IsAsked true j w b = tt
  field-IsAsked false j w b = go (J.index "current-block-id" j) refl
    where
      go :
          (r : Result J.Json)
          → J.index "current-block-id" j ≡ r
          → IsAsked {A = Option L.BlockId} (returned (some j)) (
              continue_with
                (λ v w.
                  continue_with
                    (λ s w. (returned (some (L.to_uint256 s L.initial_id).1), w))
                    (J.as_text v, w))
                (r, w))
      go (returned v) e = read-IsAsked (J.as_text v) j v _ w b e refl
      go (threw x) e = (j, refl, b, inl e)
      go undefined e = json.index_defined "current-block-id" j e
      go hung e = tt

  answered-IsAsked :
      (body : J.Json) (log : List _) (p : Result (Option J.Json) × World (E J L rand))
      → Outcome (E J L rand) session_transport-IsTransport body log p
      → p.0 ≢ undefined
      → IsAsked p.0 (continue_with (block_id_of (E J L rand)) p)
  answered-IsAsked body log (returned none, w) o d = tt
  answered-IsAsked body log (returned (some j), w) o d = field-IsAsked (J.is_empty j) j w refl
  answered-IsAsked body log (threw x, w) o d = absurd o
  answered-IsAsked body log (undefined, w) o d = d refl
  answered-IsAsked body log (hung, w) o d = tt

  -- On a ready session, with a json library as documented, the question for the block id has no
  -- undefined behaviour, and throws only if the answer has no text where the block id should be.
  pub get_current_block_id-IsAsked :
      (w : World (E J L rand))
      → IsReady w.link.session
      → IsAsked
          (ask (E J L rand) "get-current-block-id" J.null w).0
          (get_current_block_id (E J L rand) w)
  unfolding get_current_block_id ask next_command get_next
  get_current_block_id-IsAsked w r =
      answered-IsAsked _ w.log _
        (request-Outcome (E J L rand) session_transport-IsTransport _
          (record w { next_id = (w.next_id + 1) % 2 ^ 64 }))
        (ask-IsDefined J json L rand "get-current-block-id" J.null w r)
