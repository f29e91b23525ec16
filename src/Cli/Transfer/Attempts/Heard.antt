-- ===== src/Cli/Transfer/Attempts/Heard.antt =====
-- How often a request of a transfer calls the error handler.
use mile_csa_jsonrpc_client.Base.{
  ℕ, ◌+◌, ◌%◌, ◌^◌, ◌≤◌, ◌≡◌, inl, inr, refl, Bool, true, false, Option, none, some, [], ◌∷◌,
  length, arith,
}
use mile_csa_jsonrpc_client.Effects.{Result, returned, threw, undefined, hung, M, continue_with}
use mile_csa_jsonrpc_client.Rpc.Env.{JsonLibrary, MileLibrary}
use mile_csa_jsonrpc_client.Rpc.World.{World, Event, posted, reported, response_failed, get_next}
use mile_csa_jsonrpc_client.Rpc.Request.{request, next_command}
use mile_csa_jsonrpc_client.Rpc.Request.Outcome.{Outcome, request-Outcome}
use mile_csa_jsonrpc_client.Rpc.Client.{
  ask, get_current_block_id, block_id_of, block_id_field, send_transaction,
}
use mile_csa_jsonrpc_client.Connection.Transport.{session_transport-IsTransport}
use mile_csa_jsonrpc_client.Cli.Outside.{E, logged}

module _ (J : JsonLibrary) (L : MileLibrary J.Json J.Float) (rand : ℕ → ℕ) where
  heard : (j : J.Json) (e : Event (E J L rand)) → length (logged J L rand (e ∷ (posted j ∷ []))) ≤ 1
  heard j (posted k) = omega arith
  heard j (reported c m) = omega arith
  heard j (response_failed s m) = omega arith

  heard_alone : (e : Event (E J L rand)) → length (logged J L rand (e ∷ [])) ≤ 1
  heard_alone (posted k) = omega arith
  heard_alone (reported c m) = omega arith
  heard_alone (response_failed s m) = omega arith

  -- Without a result the error handler has been called at most once, and with one not at all.
  abbrev pub Heard : {A : Type 0} → Result (Option A) × World (E J L rand) → Type 0
  Heard (returned none, w) = length (logged J L rand w.log) ≤ 1
  Heard (returned (some a), w) = logged J L rand w.log ≡ []
  Heard (threw x, w) = Unit {0}
  Heard (undefined, w) = Unit {0}
  Heard (hung, w) = Unit {0}

  lift-Heard :
      {A B : Type 0} (r : Result A) (f : A → M (World (E J L rand)) (Option B))
      (w : World (E J L rand))
      → ((a : A) → Heard (f a w))
      → Heard (continue_with f (r, w))
  lift-Heard (returned a) f w h = h a
  lift-Heard (threw x) f w h = tt
  lift-Heard undefined f w h = tt
  lift-Heard hung f w h = tt

  Outcome-Heard :
      (j : J.Json) (p : Result (Option J.Json) × World (E J L rand))
      → Outcome (E J L rand) session_transport-IsTransport j [] p
      → Heard p
  Outcome-Heard j (returned none, w) (e, f, inl q) = rw q (heard j e)
  Outcome-Heard j (returned none, w) (e, f, inr q) = rw q (heard_alone e)
  Outcome-Heard j (returned (some r), w) h = rw h refl
  Outcome-Heard j (threw x, w) h = tt
  Outcome-Heard j (undefined, w) h = tt
  Outcome-Heard j (hung, w) h = tt

  request-Heard :
      (j : J.Json) (w : World (E J L rand)) → w.log ≡ [] → Heard (request (E J L rand) j w)
  request-Heard j w e =
      Outcome-Heard j _ (rw (← e) (request-Outcome (E J L rand) session_transport-IsTransport j w))

  ask-Heard :
      (name : _) (params : J.Json) (w : World (E J L rand))
      → w.log ≡ []
      → Heard (ask (E J L rand) name params w)
  unfolding ask next_command get_next
  ask-Heard name params w e = request-Heard _ _ e

  block_id_field-Heard :
      (b : Bool) (j : J.Json) (w : World (E J L rand))
      → logged J L rand w.log ≡ []
      → Heard (block_id_field (E J L rand) b j w)
  block_id_field-Heard true j w e = rw e (omega arith)
  block_id_field-Heard false j w e =
      lift-Heard (J.index "current-block-id" j) _ w λ v. lift-Heard (J.as_text v) _ w λ t. e

  block_id_of-Heard :
      (p : Result (Option J.Json) × World (E J L rand))
      → Heard p
      → Heard (continue_with (block_id_of (E J L rand)) p)
  block_id_of-Heard (returned none, w) h = h
  block_id_of-Heard (returned (some j), w) h = block_id_field-Heard (J.is_empty j) j w h
  block_id_of-Heard (threw x, w) h = tt
  block_id_of-Heard (undefined, w) h = tt
  block_id_of-Heard (hung, w) h = tt

  pub get_current_block_id-Heard :
      (w : World (E J L rand)) → w.log ≡ [] → Heard (get_current_block_id (E J L rand) w)
  unfolding get_current_block_id
  get_current_block_id-Heard w e = block_id_of-Heard _ (ask-Heard "get-current-block-id" J.null w e)

  pub send_transaction-Heard :
      (b : J.Json) (w : World (E J L rand)) → w.log ≡ [] → Heard (send_transaction (E J L rand) b w)
  unfolding send_transaction next_command get_next
  send_transaction-Heard b w e =
      lift-Heard (J.set "params" b _) _ (record w { next_id = (w.next_id + 1) % 2 ^ 64 })
        λ c. request-Heard c _ e
