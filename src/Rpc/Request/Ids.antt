-- ===== src/Rpc/Request/Ids.antt =====
-- The ids of commands: `IdCounter<uint64_t>`.
use mile_csa_jsonrpc_client.Base.{ℕ, zero, suc, ◌+◌, ◌%◌, ◌^◌, ◌<◌, ◌≡◌, ◌≢◌, refl, String, arith}
use mile_csa_jsonrpc_client.Effects.{returned}
use mile_csa_jsonrpc_client.Rpc.Env.{Env}
use mile_csa_jsonrpc_client.Rpc.World.{World, get_next}
use mile_csa_jsonrpc_client.Rpc.Request.{next_command, command}

module _ (E : Env) where
  -- The state after `k` ids have been taken.
  pub after_ids : ℕ → World E → World E
  after_ids zero w = w
  after_ids (suc k) w = (get_next (after_ids k w)).1

  next_id-after_ids :
      (k : ℕ) (w : World E)
      → w.next_id < 2 ^ 64
      → (after_ids k w).next_id ≡ (w.next_id + k) % 2 ^ 64
  unfolding after_ids get_next
  next_id-after_ids zero w h = omega arith
  next_id-after_ids (suc k) w h = omega (arith, next_id-after_ids k w h)

  -- The id of the command made after `k` others.
  pub nth_id : ℕ → World E → ℕ
  unfolding after_ids get_next
  nth_id k w = (after_ids k w).next_id

  -- From a counter below 2^64, any two commands less than 2^64 apart have different ids, and each
  -- command carries the id of its place, which wraps around at 2^64.
  pub next_command-ids :
      (j k : ℕ) (w : World E) (method : String) (params : E.Json)
      → w.next_id < 2 ^ 64
      → j < k
      → k < j + 2 ^ 64
      → ((next_command E method params (after_ids k w)).0
          ≡ returned (command E method params (nth_id k w)))
        × (nth_id k w ≡ (w.next_id + k) % 2 ^ 64)
        × (nth_id j w ≢ nth_id k w)
  unfolding next_command nth_id
  next_command-ids j k w method params h l m = (
    refl,
    next_id-after_ids k w h,
    λ e. omega (arith, next_id-after_ids k w h, next_id-after_ids j w h),
  )
