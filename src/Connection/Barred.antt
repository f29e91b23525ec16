-- ===== src/Connection/Barred.antt =====
-- A closed connection, and the block id that a transaction takes without a test.
use mile_csa_jsonrpc_client.Base.{
  ℕ, ◌+◌, ◌≡◌, ◌≢◌, Bool, true, false, Option, none, some, List, String,
}
use mile_csa_jsonrpc_client.Effects.{
  Result, returned, threw, undefined, hung, Exception, Report, M, continue_with, deref, handle,
}
use mile_csa_jsonrpc_client.Rpc.Env.{JsonLibrary, MileLibrary}
use mile_csa_jsonrpc_client.Rpc.World.{World, get_next}
use mile_csa_jsonrpc_client.Rpc.Request.{next_command}
use mile_csa_jsonrpc_client.Rpc.Client.{ask, block_id_of, get_current_block_id}
use mile_csa_jsonrpc_client.Rpc.Transaction.{get_private, current_block_id, unregister_node}
use mile_csa_jsonrpc_client.Rpc.Call.{call, dispatch}
use mile_csa_jsonrpc_client.Rpc.Call.Link.{Called, Called-link}
use mile_csa_jsonrpc_client.Connection.Calls.{
  session_env, IsShut, kept-IsShut, IsBarred, request-IsBarred,
}

-- The behaviour is undefined, or the call does not return.
abbrev pub IsLost : {W A : Type 0} → Result A × W → Type 0
IsLost (returned a, w) = ⊥
IsLost (threw x, w) = ⊥
IsLost (undefined, w) = Unit {0}
IsLost (hung, w) = Unit {0}

handle-IsLost :
    {W A : Type 0} (p : Result A × W) (f : Exception → M W A) → IsLost p → IsLost (handle f p)
handle-IsLost (returned a, w) f h = absurd h
handle-IsLost (threw x, w) f h = absurd h
handle-IsLost (undefined, w) f h = h
handle-IsLost (hung, w) f h = h

module _ (J : JsonLibrary) (L : MileLibrary J.Json J.Float) (rand : ℕ → ℕ)
    (dumps : (j : J.Json) → J.dump j ≢ undefined) where
  ask-IsBarred :
      (name : String) (params : J.Json) (w : World (session_env J L rand))
      → IsShut w.link
      → IsBarred J L rand (ask (session_env J L rand) name params w)
  unfolding ask next_command get_next
  ask-IsBarred name params w h = request-IsBarred J L rand dumps _ _ h

  -- A question without an answer, the test-free use of its optional, and what follows.
  deref-IsLost :
      {A : Type 0} (p : Result (Option J.Json) × World (session_env J L rand))
      (f : L.BlockId → M (World (session_env J L rand)) A)
      → IsBarred J L rand p
      → IsLost (
          continue_with f
            (continue_with deref (continue_with (block_id_of (session_env J L rand)) p)))
  deref-IsLost (returned none, w) f h = tt
  deref-IsLost (returned (some j), w) f h = absurd h
  deref-IsLost (threw x, w) f h = absurd h
  deref-IsLost (undefined, w) f h = absurd h
  deref-IsLost (hung, w) f h = tt

  module _ (params v : J.Json) (s : String) (pair : L.KeyPair) (reports : List Report)
      (given : J.has "private-key" params ≡ true)
      (found : J.index_const "private-key" params ≡ returned v) (read : J.as_text v ≡ returned s)
      (made : L.from_private_key s ≡ (some pair, reports)) where
    shut-IsLost :
        (w : World (session_env J L rand))
        → IsShut w.link
        → IsLost (unregister_node (session_env J L rand) params w)
    unfolding unregister_node get_private current_block_id get_current_block_id
    shut-IsLost w h =
        rw (given, found, read, made)
          (deref-IsLost _ _ (ask-IsBarred "get-current-block-id" J.null _ h))

    -- If the json library turns a value into text or throws, then once the connection is closed and
    -- no socket is opened, a call of `unregister-node` with a private key that gives a pair of keys
    -- has undefined behaviour or does not return, whatever calls were made before.
    pub Called-IsLost :
        {w w1 : World (session_env J L rand)} (emits : Bool)
        → IsShut w.link
        → Called (session_env J L rand) w w1
        → IsLost (call (session_env J L rand) emits "unregister-node" params w1)
    unfolding call dispatch
    Called-IsLost {w} {w1} true h c = handle-IsLost _ _ (
        shut-IsLost (record w1 { call_counter = w1.call_counter + 1 })
          (Called-link (session_env J L rand) IsShut (kept-IsShut J L rand) c h))
    Called-IsLost {w} {w1} false h c = handle-IsLost _ _ (
        shut-IsLost (record w1 { call_counter = w1.call_counter + 1 })
          (Called-link (session_env J L rand) IsShut (kept-IsShut J L rand) c h))
