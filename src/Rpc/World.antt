-- ===== src/Rpc/World.antt =====
-- The state that the client's calls share, and the steps on it.
use mile_csa_jsonrpc_client.Base.{ℕ, ◌+◌, ◌%◌, ◌^◌, List, [], ◌∷◌, String}
use mile_csa_jsonrpc_client.Effects.{Code, M, returned, Report}
use mile_csa_jsonrpc_client.Rpc.Env.{Env}

-- What the outside sees of the client: requests that it hands to the connection, and the calls of
-- the two handlers.
pub data Event (E : Env) : Type 0 where
  posted : E.Json → Event E
  reported : Code → String → Event E
  response_failed : ℕ → String → Event E

-- `next_id` is `ClientId::Instance()`, and the counters are the static `_trx_counter` of `call` and
-- that of `generate_trx_id`. The log has the newest event first.
pub record World (E : Env) : Type 0 where
  pub link : E.Link
  pub next_id : ℕ
  pub call_counter : ℕ
  pub trx_counter : ℕ
  pub log : List (Event E)

module _ {E : Env} where
  abbrev pub emit : Event E → M (World E) (Unit {0})
  emit e w = (returned tt, record w { log = e ∷ w.log })

  -- A call of the error handler.
  abbrev pub error : Code → String → M (World E) (Unit {0})
  error c m = emit (reported c m)

  abbrev pub log_reports : List Report → List (Event E) → List (Event E)
  log_reports [] log = log
  log_reports (r ∷ rs) log = log_reports rs (reported r.code r.message ∷ log)

  -- The reports of a callee that was handed the error handler.
  abbrev pub errors : List Report → M (World E) (Unit {0})
  errors rs w = (returned tt, record w { log = log_reports rs w.log })

  -- An operation of the connection.
  abbrev pub on_link : {A : Type 0} → M E.Link A → M (World E) A
  on_link m w = let (r, l) = m w.link in (r, record w { link = l })

  -- `IdCounter<uint64_t>::get_next`
  unfoldable pub get_next : M (World E) ℕ
  get_next w = (returned w.next_id, record w { next_id = (w.next_id + 1) % 2 ^ 64 })
