-- ===== src/Rpc/Ends/Parts.antt =====
-- How the parts of a call end that send nothing.
use mile_csa_jsonrpc_client.Base.{ℕ, ◌≡◌, refl, Bool, true, false, Option, none, some, List, String}
use mile_csa_jsonrpc_client.Effects.{Result, returned, M, Report, deref}
use mile_csa_jsonrpc_client.Rpc.Env.{Env}
use mile_csa_jsonrpc_client.Rpc.World.{World}
use mile_csa_jsonrpc_client.Rpc.Client.{block_id_of, block_id_field, pong, pong_value, micros_now}
use mile_csa_jsonrpc_client.Rpc.Transaction.{
  Any, get_private, get_asset, with_reports, guard_key, or_nullopt,
}
use mile_csa_jsonrpc_client.Rpc.Transaction.{text_at, float_at, description_of}
use mile_csa_jsonrpc_client.Rpc.Call.{limit_of}
use mile_csa_jsonrpc_client.Rpc.Ends.{
  Ends, Stays, Stable, Given, step-Ends, lift-Ends, Stays-of, reports-Stable,
}

module _ (E : Env) (S : World E → Type 0) (stable : Stable S) where
  pub guard_key-Stays :
      {A : Type 0} (b : Bool) (message : String) (missing : A) (k : M (World E) A) (w : World E)
      → S w
      → Stays S (k w)
      → Stays S (guard_key E b message missing k w)
  guard_key-Stays true message missing k w h g = g
  guard_key-Stays false message missing k w h g = Stays-of _ (stable.logged w _ refl h)

  pub or_nullopt-Stays :
      {A : Type 0} (o : Option A) (k : A → M (World E) (Any E)) (w : World E)
      → S w
      → ((a : A) → Stays S (k a w))
      → Stays S (or_nullopt E o k w)
  or_nullopt-Stays none k w h g = Stays-of _ h
  or_nullopt-Stays (some a) k w h g = g a

  pub text_at-Stays :
      (key : String) (params : E.Json) (w : World E) → S w → Stays S (text_at E key params w)
  text_at-Stays key params w h = lift-Ends (E.index_const key params) _ h λ v. Stays-of _ h

  pub float_at-Stays :
      (key : String) (params : E.Json) (w : World E) → S w → Stays S (float_at E key params w)
  float_at-Stays key params w h = lift-Ends (E.index_const key params) _ h λ v. Stays-of _ h

  pub limit_of-Stays :
      (b : Bool) (params : E.Json) (w : World E) → S w → Stays S (limit_of E b params w)
  limit_of-Stays true params w h = lift-Ends (E.index_const "limit" params) _ h λ v. Stays-of _ h
  limit_of-Stays false params w h = Stays-of _ h

  pub description_of-Stays :
      (b : Bool) (params : E.Json) (w : World E) → S w → Stays S (description_of E b params w)
  description_of-Stays true params w h = text_at-Stays "description" params w h
  description_of-Stays false params w h = Stays-of _ h

  with_reports-Stays :
      {A : Type 0} (p : A × List Report) (w : World E) → S w → Stays S (with_reports E p w)
  with_reports-Stays (a, rs) w h = Stays-of _ (reports-Stable rs w stable h)

  pub get_private-Stays : (params : E.Json) (w : World E) → S w → Stays S (get_private E params w)
  unfolding get_private
  get_private-Stays params w h = guard_key-Stays (E.has "private-key" params) _ _ _ w h (
      step-Ends (text_at E "private-key" params w) (λ w' h'. h')
        (text_at-Stays "private-key" params w h)
        (λ s w' h'. with_reports-Stays (E.from_private_key s) w' h'))

  pub get_asset-Stays : (params : E.Json) (w : World E) → S w → Stays S (get_asset E params w)
  unfolding get_asset
  get_asset-Stays params w h = guard_key-Stays (E.has "asset-code" params) _ _ _ w h (
      lift-Ends (E.index_const "asset-code" params) _ h
        λ v. lift-Ends (E.as_ushort v) _ h λ c. Stays-of _ h)

  pub pong-Stays : (start : ℕ) (o : Option E.Json) (w : World E) → S w → Stays S (pong E start o w)
  unfolding micros_now
  pong-Stays start none w h = Stays-of _ h
  pong-Stays start (some j) w h = valued (E.is_true j)
    where
      valued : (b : Bool) → Stays S (pong_value E start b w)
      valued true = Stays-of _ h
      valued false = Stays-of _ h

-- A block id that is returned was read from an answer.
module _ (E : Env) (U T : World E → Type 0) (weaker : (w : World E) → U w → T w) where
  none-Ends : {A : Type 0} (w : World E) → T w → Ends (Given {A = A} U T) T (returned none, w)
  none-Ends {A} w h = record { ends = h; value = λ a e. given a e }
    where
      given :
          (a : Option A) → ◌≡◌ {A = Result (Option A)} (returned none) (returned a) → Given U T a w
      given none e = h
      given (some a) e = cc

  some-Ends : {A : Type 0} (a : A) (w : World E) → U w → Ends (Given U T) T (returned (some a), w)
  some-Ends {A} a w h = record { ends = weaker w h; value = λ b e. given b }
    where
      given : (b : Option A) → Given U T b w
      given none = weaker w h
      given (some b) = h

  pub block_id_of-Ends :
      (o : Option E.Json) (w : World E) → Given U T o w → Ends (Given U T) T (block_id_of E o w)
  block_id_of-Ends none w h = none-Ends w h
  block_id_of-Ends (some j) w h = field (E.is_empty j)
    where
      field : (b : Bool) → Ends (Given U T) T (block_id_field E b j w)
      field true = none-Ends w (weaker w h)
      field false =
          lift-Ends (E.index "current-block-id" j) _ (weaker w h)
            λ v. lift-Ends (E.as_text v) _ (weaker w h) λ s. some-Ends _ w h

  pub deref-Ends :
      {A : Type 0} (o : Option A) (w : World E) → Given U T o w → Ends (λ a. U) T (deref o w)
  deref-Ends none w h = record { ends = h; value = λ a e. cc }
  deref-Ends (some a) w h = record { ends = weaker w h; value = λ b e. h }
