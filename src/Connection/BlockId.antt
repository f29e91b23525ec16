-- ===== src/Connection/BlockId.antt =====
-- The block id that a connected client gets from a node that answers in time.
use mile_csa_jsonrpc_client.Base.{ℕ, ◌+◌, ◌≡◌, refl, Bool, false, some, List, String, Text}
use mile_csa_jsonrpc_client.Effects.{returned}
use mile_csa_jsonrpc_client.Session.{IoEvent}
use mile_csa_jsonrpc_client.Rpc.Env.{JsonLibrary, MileLibrary}
use mile_csa_jsonrpc_client.Rpc.World.{World}
use mile_csa_jsonrpc_client.Rpc.Request.{command}
use mile_csa_jsonrpc_client.Rpc.Request.Answer.{IsAnswer}
use mile_csa_jsonrpc_client.Rpc.Client.{get_current_block_id}
use mile_csa_jsonrpc_client.Rpc.Transaction.{block_id}
use mile_csa_jsonrpc_client.Rpc.Call.{call, dispatch, method_of, current_block_id_method}
use mile_csa_jsonrpc_client.Connection.Calls.{session_env}
use mile_csa_jsonrpc_client.Connection.Answers.{IsTimely, after, ask-answered}

module _ (J : JsonLibrary) (L : MileLibrary J.Json J.Float) (rand : ℕ → ℕ) where
  abbrev question : World (session_env J L rand) → J.Json
  question w = command (session_env J L rand) "get-current-block-id" J.null w.next_id

  -- The text of the block id in an answer.
  pub record IsBlockText (r : J.Json) (s : String) : Type 0 where
    pub member : J.Json
    pub is_some : J.is_empty r ≡ false
    pub is_there : J.index "current-block-id" r ≡ returned member
    pub is_text : J.as_text member ≡ returned s

  get_current_block_id-answered :
      (w : World (session_env J L rand)) (d : Text) (u v : ℕ) (fs : List IoEvent) (r : J.Json)
      (s : String)
      → J.dump (question w) ≡ returned d
      → IsTimely w.link u v fs
      → IsAnswer J (w.link.replies w.link.received) r
      → IsBlockText r s
      → get_current_block_id (session_env J L rand) w
        ≡ (returned (some (L.to_uint256 s L.initial_id).1), after J L rand w (question w) d u v fs)
  unfolding get_current_block_id
  get_current_block_id-answered w d u v fs r s h t a b =
      rw
        (
          ask-answered J L rand "get-current-block-id" J.null w d u v fs r h t a,
          b.is_some,
          b.is_there,
          b.is_text,
        )
        refl

  -- If a session is ready and open, the write and then the read succeed within their deadlines, and
  -- the response has status 200 and a result that is not empty and has a text for the block id,
  -- then a call of `get-current-block-id` returns the value that `StringToUInt256` has left for
  -- that text, also if the text is no number; it has posted the one command and called no handler.
  pub call-block_id-answered :
      (emits : Bool) (method : String) (params : J.Json) (w : World (session_env J L rand))
      (d : Text) (u v : ℕ) (fs : List IoEvent) (r : J.Json) (s : String)
      → method_of emits method ≡ current_block_id_method
      → J.dump (question w) ≡ returned d
      → IsTimely w.link u v fs
      → IsAnswer J (w.link.replies w.link.received) r
      → IsBlockText r s
      → call (session_env J L rand) emits method params w ≡ (
        returned (block_id (L.to_uint256 s L.initial_id).1),
        record (after J L rand w (question w) d u v fs) { call_counter = w.call_counter + 1 },
      )
  unfolding call dispatch
  call-block_id-answered emits method params w d u v fs r s q h t a b =
      rw
        (
          q,
          get_current_block_id-answered (record w { call_counter = w.call_counter + 1 }) d u v fs r
              s h t a b,
        )
        refl
