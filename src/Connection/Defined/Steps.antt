-- ===== src/Connection/Defined/Steps.antt =====
-- The steps of a call that have no undefined behaviour: what follows a result, and the parameters.
use mile_csa_jsonrpc_client.Base.{ℕ, ◌≡◌, ◌≢◌, refl, Bool, true, false, Option, String}
use mile_csa_jsonrpc_client.Base.Int.{ℤ, pos}
use mile_csa_jsonrpc_client.Effects.{Result, returned, threw, undefined, hung, M, continue_with}
use mile_csa_jsonrpc_client.Rpc.Env.{JsonLibrary, MileLibrary, Env}
use mile_csa_jsonrpc_client.Rpc.World.{World}
use mile_csa_jsonrpc_client.Rpc.Transaction.{Any, nullopt, guard_key}
use mile_csa_jsonrpc_client.Rpc.Call.{answer, limit_of}
use mile_csa_jsonrpc_client.Connection.Calls.{session_env}
use mile_csa_jsonrpc_client.Connection.Defined.{IsJson, IsDefined, lift-IsDefined}

pub step-IsDefined :
    {W A B : Type 0} (p : Result A × W) (f : A → M W B)
    → IsDefined p
    → ((a : A) (w : W) → IsDefined (f a w))
    → IsDefined (continue_with f p)
step-IsDefined (returned a, w) f h g = g a w
step-IsDefined (threw x, w) f h g = λ e. cc
step-IsDefined (undefined, w) f h g = absurd (h refl)
step-IsDefined (hung, w) f h g = λ e. cc

module _ (J : JsonLibrary) (json : IsJson J) (L : MileLibrary J.Json J.Float) (rand : ℕ → ℕ) where
  abbrev env : Env
  env = session_env J L rand

  pub answer-IsDefined :
      (m : M (World env) (Option J.Json)) (w : World env)
      → IsDefined (m w)
      → IsDefined (answer env m w)
  answer-IsDefined m w h = step-IsDefined (m w) _ h λ r v e. cc

  -- A value that is read from a member that is there, and what follows.
  pub member-IsDefined :
      {A B : Type 0} (key : String) (params : J.Json) (read : J.Json → Result A)
      (f : A → M (World env) B) (w : World env)
      → J.has key params ≡ true
      → ((v : J.Json) → read v ≢ undefined)
      → ((a : A) → IsDefined (f a w))
      → IsDefined
          (continue_with f (continue_with (λ v w. (read v, w)) (J.index_const key params, w)))
  member-IsDefined {A = A} key params read f w h d g =
      go (J.index_const key params) (json.index_const_defined key params h)
    where
      go :
          (r : Result J.Json)
          → r ≢ undefined
          → IsDefined (continue_with f (continue_with (λ v w. (read v, w)) (r, w)))
      go (returned v) n = lift-IsDefined (read v) f w (d v) g
      go (threw x) n = λ e. cc
      go undefined n = absurd (n refl)
      go hung n = λ e. cc

  pub limited-IsDefined :
      {B : Type 0} (b : Bool) (params : J.Json) (f : ℤ → M (World env) B) (w : World env)
      → J.has "limit" params ≡ b
      → ((a : ℤ) → IsDefined (f a w))
      → IsDefined (continue_with f (limit_of env b params w))
  limited-IsDefined true params f w h g =
      member-IsDefined "limit" params J.as_int f w h json.as_int_defined g
  limited-IsDefined false params f w h g = g (pos 1)

  -- What is guarded by the test for a key.
  pub guarded-IsDefined :
      (b : Bool) (key message : String) (params : J.Json) (k : M (World env) (Any env))
      (w : World env)
      → J.has key params ≡ b
      → (J.has key params ≡ true → IsDefined (k w))
      → IsDefined (guard_key env b message nullopt k w)
  guarded-IsDefined true key message params k w e g = g e
  guarded-IsDefined false key message params k w e g = λ q. cc
