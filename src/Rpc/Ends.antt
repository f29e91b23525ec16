-- ===== src/Rpc/Ends.antt =====
-- How the client's steps end: a predicate of the state at every end, and one of each value that is
-- returned.
pub mod Request
pub mod Parts
use mile_csa_jsonrpc_client.Base.{
  ℕ, ◌≡◌, refl, Bool, true, false, Option, none, some, List, [], ◌∷◌, length, ap,
}
use mile_csa_jsonrpc_client.Effects.{Result, returned, threw, undefined, hung, Exception}
use mile_csa_jsonrpc_client.Effects.{M, Report, continue_with, handle}
use mile_csa_jsonrpc_client.Rpc.Env.{Env}
use mile_csa_jsonrpc_client.Rpc.World.{World, Event, posted, reported, response_failed, log_reports}

-- The requests in a log, the newest first.
abbrev pub posted_of : {E : Env} → List (Event E) → List E.Json
posted_of [] = []
posted_of (posted j ∷ log) = j ∷ posted_of log
posted_of (reported c m ∷ log) = posted_of log
posted_of (response_failed s m ∷ log) = posted_of log

abbrev pub posts : {E : Env} → List (Event E) → ℕ
posts log = length (posted_of log)

-- `T` holds of the state however the step ends, and `R` of each value and the state that it leaves.
pub record Ends {E : Env} {A : Type 0} (R : A → World E → Type 0) (T : World E → Type 0)
    (p : Result A × World E) : Type 0 where
  pub ends : T p.1
  pub value : (a : A) → p.0 ≡ returned a → R a p.1

-- Nothing more is known of a value.
abbrev pub Stays : {E : Env} {A : Type 0} → (World E → Type 0) → Result A × World E → Type 0
Stays T p = Ends (λ a. T) T p

-- `U` if there is a value, and `T` if there is none.
abbrev pub Given :
    {E : Env} {A : Type 0} → (World E → Type 0) → (World E → Type 0) → Option A → World E → Type 0
Given U T none w = T w
Given U T (some a) w = U w

-- A predicate that reports to the handlers and the drawing of a transaction id leave alone.
pub record Stable {E : Env} (T : World E → Type 0) : Type 0 where
  pub logged :
      (w : World E) (log : List (Event E))
      → posted_of log ≡ posted_of w.log
      → T w
      → T (record w { log = log })
  pub drawn : (w : World E) (n : ℕ) → T w → T (record w { trx_counter = n })

-- One that the operations of the connection leave alone.
pub record Linked {E : Env} (T : World E → Type 0) : Type 0 where
  pub written : (d : List ℕ) (w : World E) → T w → T (record w { link = (E.write d w.link).1 })
  pub was_read : (w : World E) → T w → T (record w { link = (E.read w.link).1 })

module _ {E : Env} where
  pub posted_of-log_reports :
      (rs : List Report) (log : List (Event E)) → posted_of (log_reports rs log) ≡ posted_of log
  posted_of-log_reports [] log = refl
  posted_of-log_reports (r ∷ rs) log = posted_of-log_reports rs (reported r.code r.message ∷ log)

  pub posts-log_reports :
      (rs : List Report) (log : List (Event E)) → posts (log_reports rs log) ≡ posts log
  posts-log_reports rs log = ap length (posted_of-log_reports rs log)

  -- A step and what follows it if it returns.
  pub step-Ends :
      {A B : Type 0} {R : A → World E → Type 0} {S : World E → Type 0} {Q : B → World E → Type 0}
      {T : World E → Type 0} (p : Result A × World E) {f : A → M (World E) B}
      → ((w : World E) → S w → T w)
      → Ends R S p
      → ((a : A) (w : World E) → R a w → Ends Q T (f a w))
      → Ends Q T (continue_with f p)
  step-Ends (returned a, w) l h g = g a w (h.value a refl)
  step-Ends (threw x, w) l h g = record { ends = l w h.ends; value = λ a e. cc }
  step-Ends (undefined, w) l h g = record { ends = l w h.ends; value = λ a e. cc }
  step-Ends (hung, w) l h g = record { ends = l w h.ends; value = λ a e. cc }

  -- A pure operation and what follows it.
  pub lift-Ends :
      {A B : Type 0} {Q : B → World E → Type 0} {T : World E → Type 0} (r : Result A)
      (f : A → M (World E) B) {w : World E}
      → T w
      → ((a : A) → Ends Q T (f a w))
      → Ends Q T (continue_with f (r, w))
  lift-Ends (returned a) f h g = g a
  lift-Ends (threw x) f h g = record { ends = h; value = λ a e. cc }
  lift-Ends undefined f h g = record { ends = h; value = λ a e. cc }
  lift-Ends hung f h g = record { ends = h; value = λ a e. cc }

  pub handle-Ends :
      {A : Type 0} {Q : A → World E → Type 0} {T : World E → Type 0} (p : Result A × World E)
      {f : Exception → M (World E) A}
      → Ends Q T p
      → ((x : Exception) (w : World E) → T w → Ends Q T (f x w))
      → Ends Q T (handle f p)
  handle-Ends (returned a, w) h g = h
  handle-Ends (threw x, w) h g = g x w h.ends
  handle-Ends (undefined, w) h g = h
  handle-Ends (hung, w) h g = h

  pub weaken-Ends :
      {A : Type 0} {R Q : A → World E → Type 0} {S T : World E → Type 0} (p : Result A × World E)
      → ((w : World E) → S w → T w)
      → ((a : A) (w : World E) → R a w → Q a w)
      → Ends R S p
      → Ends Q T p
  weaken-Ends (r, w) l m h = record { ends = l w h.ends; value = λ a e. m a w (h.value a e) }

  -- A step that ends in a state for which the predicate holds.
  pub Stays-of : {A : Type 0} {T : World E → Type 0} (p : Result A × World E) → T p.1 → Stays T p
  Stays-of p h = record { ends = h; value = λ a e. h }

  pub reports-Stable :
      {T : World E → Type 0} (rs : List Report) (w : World E)
      → Stable T
      → T w
      → T (record w { log = log_reports rs w.log })
  reports-Stable rs w s h = s.logged w _ (posted_of-log_reports rs w.log) h
