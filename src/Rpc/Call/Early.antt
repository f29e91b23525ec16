-- ===== src/Rpc/Call/Early.antt =====
-- The transaction commands, up to the request for the block id: what returns early has posted nothing.
use mile_csa_jsonrpc_client.Base.{
  ◌≡◌, refl, ◌∙◌, Bool, true, false, Option, none, some, List, String,
}
use mile_csa_jsonrpc_client.Effects.{Result, M, Report}
use mile_csa_jsonrpc_client.Rpc.Env.{Env}
use mile_csa_jsonrpc_client.Rpc.World.{World, Event}
use mile_csa_jsonrpc_client.Rpc.Transaction.{Any, nullopt, get_private, get_asset}
use mile_csa_jsonrpc_client.Rpc.Transaction.{
  current_block_id, text_at, float_at, guard_key, or_nullopt,
}
use mile_csa_jsonrpc_client.Rpc.Transaction.{with_reports, generate_trx_id, description_of}
use mile_csa_jsonrpc_client.Rpc.Transaction.{
  send_transfer, send_emission, register_node, unregister_node,
}
use mile_csa_jsonrpc_client.Rpc.Transaction.{vote_for_rate}
use mile_csa_jsonrpc_client.Rpc.Ends.{posts, posts-log_reports}
use mile_csa_jsonrpc_client.Rpc.Call.Calm.{
  Unchanged, Calm, Early, Early-NotNull, Early-step, Calm-step, NotNull-step, submit-NotNull,
}

module _ (E : Env) (w0 : World E) where
  logged :
      (w : World E) (log : List (Event E))
      → posts log ≡ posts w.log
      → Unchanged w0 w
      → Unchanged w0 (record w { log = log })
  logged w log e u = record {
    same_link = u.same_link;
    same_id = u.same_id;
    same_trx = u.same_trx;
    same_posts = e ∙ u.same_posts;
  }

  pub guard_key-Early :
      (b : Bool) (message : String) (k : M (World E) (Any E)) (w : World E)
      → Unchanged w0 w
      → Early w0 (k w)
      → Early w0 (guard_key E b message nullopt k w)
  guard_key-Early true message k w u h = h
  guard_key-Early false message k w u h = record { kept = λ e. logged w _ refl u }

  guard_key-Calm :
      {A : Type 0} (b : Bool) (message : String) (missing : A) (k : M (World E) A) (w : World E)
      → Unchanged w0 w
      → Calm w0 (k w)
      → Calm w0 (guard_key E b message missing k w)
  guard_key-Calm true message missing k w u h = h
  guard_key-Calm false message missing k w u h = record { calm = logged w _ refl u }

  or_nullopt-Early :
      {A : Type 0} (o : Option A) (k : A → M (World E) (Any E)) (w : World E)
      → Unchanged w0 w
      → ((a : A) → Early w0 (k a w))
      → Early w0 (or_nullopt E o k w)
  or_nullopt-Early none k w u h = record { kept = λ e. u }
  or_nullopt-Early (some a) k w u h = h a

  lift-Calm : {A : Type 0} (r : Result A) (w : World E) → Unchanged w0 w → Calm w0 (r, w)
  lift-Calm r w u = record { calm = u }

  text_at-Calm :
      (key : String) (params : E.Json) (w : World E)
      → Unchanged w0 w
      → Calm w0 (text_at E key params w)
  text_at-Calm key params w u =
      Calm-step (E.index_const key params, w) _ (record { calm = u })
        λ v w1 u1. record { calm = u1 }

  float_at-Calm :
      (key : String) (params : E.Json) (w : World E)
      → Unchanged w0 w
      → Calm w0 (float_at E key params w)
  float_at-Calm key params w u =
      Calm-step (E.index_const key params, w) _ (record { calm = u })
        λ v w1 u1. record { calm = u1 }

  with_reports-Calm :
      {A : Type 0} (p : A × List Report) (w : World E)
      → Unchanged w0 w
      → Calm w0 (with_reports E p w)
  with_reports-Calm (a, rs) w u = record { calm = logged w _ (posts-log_reports rs w.log) u }

  get_private-Calm :
      (params : E.Json) (w : World E) → Unchanged w0 w → Calm w0 (get_private E params w)
  unfolding get_private
  get_private-Calm params w u = guard_key-Calm (E.has "private-key" params) _ _ _ w u (
      Calm-step (text_at E "private-key" params w) _ (text_at-Calm "private-key" params w u)
        λ s w1 u1. with_reports-Calm (E.from_private_key s) w1 u1)

  get_asset-Calm : (params : E.Json) (w : World E) → Unchanged w0 w → Calm w0 (get_asset E params w)
  unfolding get_asset
  get_asset-Calm params w u = guard_key-Calm (E.has "asset-code" params) _ _ _ w u (
      Calm-step (E.index_const "asset-code" params, w) _ (record { calm = u })
        λ v w1 u1.
          Calm-step (E.as_ushort v, w1) _ (record { calm = u1 }) λ c w2 u2. record { calm = u2 })

  -- What follows the request for the block id is no rejection.
  pub send_transfer-Early :
      (params : E.Json) (w : World E) → Unchanged w0 w → Early w0 (send_transfer E params w)
  unfolding send_transfer
  send_transfer-Early params w u = guard_key-Early (E.has "to" params) _ _ w u (
      Early-step (get_private E params w) _ (get_private-Calm params w u) λ ppk w1 u1.
        or_nullopt-Early ppk _ w1 u1 λ pair. guard_key-Early (E.has "amount" params) _ _ w1 u1 (
          Early-step (float_at E "amount" params w1) _ (float_at-Calm "amount" params w1 u1)
            λ amount w2 u2.
              Early-step (get_asset E params w2) _ (get_asset-Calm params w2 u2) λ asset w3 u3.
                or_nullopt-Early asset _ w3 u3 λ token. Early-NotNull (
                  NotNull-step (description_of E (E.has "description" params) params w3) _
                    λ description w4. NotNull-step (current_block_id E w4) _ λ block w5.
                      NotNull-step (text_at E "to" params w5) _ λ to w6.
                        NotNull-step (generate_trx_id E w6) _ λ trx w7. submit-NotNull E _ w7)))

  pub send_emission-Early :
      (params : E.Json) (w : World E) → Unchanged w0 w → Early w0 (send_emission E params w)
  unfolding send_emission
  send_emission-Early params w u =
      Early-step (get_private E params w) _ (get_private-Calm params w u) λ ppk w1 u1.
        or_nullopt-Early ppk _ w1 u1 λ pair.
          Early-step (get_asset E params w1) _ (get_asset-Calm params w1 u1) λ asset w2 u2.
            or_nullopt-Early asset _ w2 u2 λ token. Early-NotNull (
              NotNull-step (current_block_id E w2) _
                λ block w3. NotNull-step (generate_trx_id E w3) _ λ trx w4. submit-NotNull E _ w4)

  pub register_node-Early :
      (params : E.Json) (w : World E) → Unchanged w0 w → Early w0 (register_node E params w)
  unfolding register_node
  register_node-Early params w u =
      Early-step (get_private E params w) _ (get_private-Calm params w u) λ ppk w1 u1.
        or_nullopt-Early ppk _ w1 u1 λ pair. guard_key-Early (E.has "amount" params) _ _ w1 u1 (
          Early-step (float_at E "amount" params w1) _ (float_at-Calm "amount" params w1 u1)
            λ amount w2 u2. guard_key-Early (E.has "address" params) _ _ w2 u2 (
              Early-NotNull (
                NotNull-step (E.index_const "address" params, w2) _
                  λ address w3. NotNull-step (current_block_id E w3) _ λ block w4.
                    NotNull-step (E.as_text address, w4) _
                      λ address' w5.
                        NotNull-step (generate_trx_id E w5) _ λ trx w6. submit-NotNull E _ w6)))

  pub unregister_node-Early :
      (params : E.Json) (w : World E) → Unchanged w0 w → Early w0 (unregister_node E params w)
  unfolding unregister_node
  unregister_node-Early params w u =
      Early-step (get_private E params w) _ (get_private-Calm params w u) λ ppk w1 u1.
        or_nullopt-Early ppk _ w1 u1 λ pair. Early-NotNull (
          NotNull-step (current_block_id E w1) _
            λ block w2. NotNull-step (generate_trx_id E w2) _ λ trx w3. submit-NotNull E _ w3)

  pub vote_for_rate-Early :
      (params : E.Json) (w : World E) → Unchanged w0 w → Early w0 (vote_for_rate E params w)
  unfolding vote_for_rate
  vote_for_rate-Early params w u =
      Early-step (get_private E params w) _ (get_private-Calm params w u) λ ppk w1 u1.
        or_nullopt-Early ppk _ w1 u1 λ pair. guard_key-Early (E.has "amount" params) _ _ w1 u1 (
          Early-step (float_at E "amount" params w1) _ (float_at-Calm "amount" params w1 u1)
            λ amount w2 u2. Early-NotNull (
              NotNull-step (current_block_id E w2) _
                λ block w3. NotNull-step (generate_trx_id E w3) _ λ trx w4. submit-NotNull E _ w4))
