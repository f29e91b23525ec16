-- ===== src/Rpc/Call/Calm.antt =====
-- Steps of a call that send nothing, and results that are no `nullopt`.
use mile_csa_jsonrpc_client.Base.{◌≡◌, ◌≢◌, Option, none, some, List}
use mile_csa_jsonrpc_client.Effects.{
  Result, returned, threw, undefined, hung, M, Report, continue_with,
}
use mile_csa_jsonrpc_client.Rpc.Env.{Env}
use mile_csa_jsonrpc_client.Rpc.World.{World, log_reports}
use mile_csa_jsonrpc_client.Rpc.Client.{send_transaction}
use mile_csa_jsonrpc_client.Rpc.Transaction.{Any, nullopt, submit}
use mile_csa_jsonrpc_client.Rpc.Transaction.{any_response}
use mile_csa_jsonrpc_client.Rpc.Ends.{posts}

-- Between two states nothing was sent, and no id was taken.
pub record Unchanged {E : Env} (w w' : World E) : Type 0 where
  pub same_link : w'.link ≡ w.link
  pub same_id : w'.next_id ≡ w.next_id
  pub same_trx : w'.trx_counter ≡ w.trx_counter
  pub same_posts : posts w'.log ≡ posts w.log

-- A step that sends nothing.
pub record Calm {E : Env} (w : World E) {A : Type 0} (p : Result A × World E) : Type 0 where
  pub calm : Unchanged w p.1

-- If the result is `nullopt`, nothing was sent.
pub record Early {E : Env} (w : World E) (p : Result (Any E) × World E) : Type 0 where
  pub kept : p.0 ≡ returned nullopt → Unchanged w p.1

pub record NotNull {E : Env} (p : Result (Any E) × World E) : Type 0 where
  pub never : p.0 ≢ returned nullopt

module _ {E : Env} {w0 : World E} where
  pub Early-NotNull : {p : Result (Any E) × World E} → NotNull p → Early w0 p
  Early-NotNull h = record { kept = λ e. absurd (h.never e) }

  pub Early-step :
      {A : Type 0} (p : Result A × World E) (f : A → M (World E) (Any E))
      → Calm w0 p
      → ((a : A) (w : World E) → Unchanged w0 w → Early w0 (f a w))
      → Early w0 (continue_with f p)
  Early-step (returned a, w) f h g = g a w h.calm
  Early-step (threw x, w) f h g = record { kept = λ e. cc }
  Early-step (undefined, w) f h g = record { kept = λ e. cc }
  Early-step (hung, w) f h g = record { kept = λ e. cc }

  pub Calm-step :
      {A B : Type 0} (p : Result A × World E) (f : A → M (World E) B)
      → Calm w0 p
      → ((a : A) (w : World E) → Unchanged w0 w → Calm w0 (f a w))
      → Calm w0 (continue_with f p)
  Calm-step (returned a, w) f h g = g a w h.calm
  Calm-step (threw x, w) f h g = record { calm = h.calm }
  Calm-step (undefined, w) f h g = record { calm = h.calm }
  Calm-step (hung, w) f h g = record { calm = h.calm }

module _ {E : Env} where
  pub NotNull-step :
      {A : Type 0} (p : Result A × World E) (f : A → M (World E) (Any E))
      → ((a : A) (w : World E) → NotNull (f a w))
      → NotNull (continue_with f p)
  NotNull-step (returned a, w) f g = g a w
  NotNull-step (threw x, w) f g = record { never = λ e. cc }
  NotNull-step (undefined, w) f g = record { never = λ e. cc }
  NotNull-step (hung, w) f g = record { never = λ e. cc }

module _ (E : Env) where
  pub any_response-ne-nullopt : (r : Option E.Json) → any_response E r ≢ nullopt
  any_response-ne-nullopt none e = cc
  any_response-ne-nullopt (some j) e = cc

  pub answered :
      (r : Option E.Json) (w : World E) → NotNull {E = E} (returned (any_response E r), w)
  answered none w = record { never = λ e. cc }
  answered (some j) w = record { never = λ e. cc }

  pub submit-NotNull :
      (p : Option (Option E.Json) × List Report) (w : World E) → NotNull (submit E p w)
  unfolding submit
  submit-NotNull (none, rs) w = record { never = λ e. cc }
  submit-NotNull (some none, rs) w = record { never = λ e. cc }
  submit-NotNull (some (some body), rs) w =
      NotNull-step (E.dump body, record w { log = log_reports rs w.log }) _
        λ d w1. NotNull-step (send_transaction E body w1) _ λ r w2. answered r w2
