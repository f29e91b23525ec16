-- ===== src/Cli/Transfer/Attempts/Served.antt =====
-- An attempt of a transfer that goes well.
use mile_csa_jsonrpc_client.Base.{
  ℕ, ◌+◌, ◌%◌, ◌^◌, ◌≡◌, refl, true, false, some, List, [], String, Text,
}
use mile_csa_jsonrpc_client.Effects.{returned}
use mile_csa_jsonrpc_client.Url.Parse.{Url}
use mile_csa_jsonrpc_client.Session.{IoEvent}
use mile_csa_jsonrpc_client.Rpc.Env.{JsonLibrary, MileLibrary}
use mile_csa_jsonrpc_client.Rpc.World.{World, get_next}
use mile_csa_jsonrpc_client.Rpc.Request.{command, next_command}
use mile_csa_jsonrpc_client.Rpc.Request.Answer.{IsAnswer}
use mile_csa_jsonrpc_client.Rpc.Client.{get_current_block_id, send_transaction}
use mile_csa_jsonrpc_client.Connection.Client.{new_client}
use mile_csa_jsonrpc_client.Connection.Answers.{after, IsTimely, ask-answered, request-served}
use mile_csa_jsonrpc_client.Connection.Reached.{joined, IsReachable, connect_url-reached}
use mile_csa_jsonrpc_client.Cli.Outside.{Outside, E, world}
use mile_csa_jsonrpc_client.Cli.Transfer as Transfer
use mile_csa_jsonrpc_client.Cli.Transfer.Attempts.{
  Order, prepared, print_answer, send_body, with_request, with_block, with_client, attempt,
}

module _ (J : JsonLibrary) (L : MileLibrary J.Json J.Float) (rand : ℕ → ℕ) where
  -- The node answers the question for the block id with a text.
  pub record IsIdentified (w : World (E J L rand)) (id : L.BlockId) (question : Text) (u v : ℕ)
      (fs : List IoEvent) : Type 0 where
    pub reply : J.Json
    pub member : J.Json
    pub text : String
    pub is_text :
        J.dump (command (E J L rand) "get-current-block-id" J.null w.next_id) ≡ returned question
    pub in_time : IsTimely w.link u v fs
    pub is_answer : IsAnswer J (w.link.replies w.link.received) reply
    pub not_empty : J.is_empty reply ≡ false
    pub found : J.index "current-block-id" reply ≡ returned member
    pub is_id : J.as_text member ≡ returned text
    pub same_id : (L.to_uint256 text L.initial_id).1 ≡ id

  -- The node takes the transaction with the body `b`.
  pub record IsTaken (w : World (E J L rand)) (b : J.Json) : Type 0 where
    pub transaction : J.Json
    pub message : Text
    pub sent_at : ℕ
    pub confirmed_at : ℕ
    pub left : List IoEvent
    pub reply : J.Json
    pub shown : Text
    pub is_command :
        J.set "params" b (command (E J L rand) "send-transaction" J.null w.next_id)
        ≡ returned transaction
    pub is_text : J.dump transaction ≡ returned message
    pub in_time : IsTimely w.link sent_at confirmed_at left
    pub is_answer : IsAnswer J (w.link.replies w.link.received) reply
    pub is_shown : J.dump reply ≡ returned shown

  -- The state after the block id.
  abbrev pub identified : World (E J L rand) → Text → ℕ → ℕ → List IoEvent → World (E J L rand)
  identified w question u v fs =
      after J L rand w (command (E J L rand) "get-current-block-id" J.null w.next_id) question u v
        fs

  get_current_block_id-served :
      (w : World (E J L rand)) (id : L.BlockId) (question : Text) (u v : ℕ) (fs : List IoEvent)
      → IsIdentified w id question u v fs
      → get_current_block_id (E J L rand) w ≡ (returned (some id), identified w question u v fs)
  unfolding get_current_block_id
  get_current_block_id-served w id question u v fs h =
      rw
        (
          ask-answered J L rand "get-current-block-id" J.null w question u v fs h.reply h.is_text
              h.in_time h.is_answer,
          h.not_empty,
          h.found,
          h.is_id,
          h.same_id,
        )
        refl

  send_transaction-served :
      (w : World (E J L rand)) (b : J.Json) (h : IsTaken w b)
      → send_transaction (E J L rand) b w ≡ (
        returned (some h.reply),
        after J L rand w h.transaction h.message h.sent_at h.confirmed_at h.left,
      )
  unfolding send_transaction next_command get_next
  send_transaction-served w b h =
      rw
        (
          h.is_command,
          request-served J L rand h.transaction (record w { next_id = (w.next_id + 1) % 2 ^ 64 })
              h.message h.sent_at h.confirmed_at h.left h.reply h.is_text h.in_time h.is_answer,
        )
        refl

  -- The state of the connected client.
  abbrev pub connected_world : Outside → Url → ℕ → ℕ → List IoEvent → World (E J L rand)
  connected_world o address deadline connected_at es =
      world J L rand o (joined (new_client o.surroundings address true) deadline connected_at) es

  -- Within its deadlines, the node of the url is connected, gives a block id, and takes the transaction that
  -- the library has made for it.
  pub record IsServed (order : Order J L rand) (o : Outside) (url : Text) : Type 0 where
    pub address : Url
    pub deadline : ℕ
    pub connected_at : ℕ
    pub to_ask : List IoEvent
    pub block : L.BlockId
    pub question : Text
    pub asked_at : ℕ
    pub identified_at : ℕ
    pub to_send : List IoEvent
    pub pair : L.KeyPair
    pub body : J.Json
    pub printed : Text
    pub reachable : IsReachable o.surroundings url o.events address deadline connected_at to_ask
    pub is_identified :
        IsIdentified
          (connected_world o address deadline connected_at to_ask)
          block
          question
          asked_at
          identified_at
          to_send
    pub has_keys : order.ppk ≡ some pair
    pub is_made : prepared J L rand order pair block ≡ (some (some body), [])
    pub is_printed : J.dump body ≡ returned printed
    pub is_real : order.test ≡ false
    pub is_taken :
        IsTaken
          (record (identified
            (connected_world o address deadline connected_at to_ask)
            question
            asked_at
            identified_at
            to_send) { log = [] })
          body

  taken-body :
      (w : World (E J L rand)) (b : J.Json)
      → IsTaken (record w { log = [] }) b
      → print_answer J L rand [] (send_transaction (E J L rand) b (record w { log = [] }))
        ≡ Transfer.body [] []
  unfolding print_answer
  taken-body w b h = rw (send_transaction-served (record w { log = [] }) b h, h.is_shown) refl

  -- An attempt that is served has called no handler, and its transaction is sent.
  pub attempt-sends :
      (order : Order J L rand) (o : Outside) (url : Text)
      → IsServed order o url
      → attempt J L rand order url o ≡ Transfer.body [] []
  unfolding attempt with_client with_block with_request send_body
  attempt-sends order o url h =
      rw
        (
          connect_url-reached o.surroundings url o.events h.address h.deadline h.connected_at
              h.to_ask h.reachable,
          get_current_block_id-served
              (connected_world o h.address h.deadline h.connected_at h.to_ask) h.block h.question
              h.asked_at h.identified_at h.to_send h.is_identified,
          h.has_keys,
          h.is_made,
          h.is_real,
          h.is_printed,
        )
        (taken-body
          (identified (connected_world o h.address h.deadline h.connected_at h.to_ask) h.question
            h.asked_at h.identified_at h.to_send)
          h.body h.is_taken)
